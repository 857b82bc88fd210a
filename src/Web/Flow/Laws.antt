-- ===== src/Web/Flow/Laws.antt =====
-- What the sign-in callback and the sign-out do to the session state, outcome by outcome.
use flash_trips.Prelude.{
  ℕ, String, Bytes, true, false, Option, none, some, [], ◌∷◌, ◌≡◌, refl, ◌⊎◌, inl, inr, Result, ok,
  err, arith, Bool-cases, Option-cases,
}
use flash_trips.Json.{Json}
use flash_trips.Web.Platform.{Platform}
use flash_trips.Web.Store.{Database, Db}
use flash_trips.Web.Session.{
  Manager, decode_opaque, AuthorizationInput, AuthorizedSession, authorize, revoke,
}
use flash_trips.Web.Session.Access.{Granted, authorize-Granted}
use flash_trips.Web.Session.Lifecycle.{authorize-revoke}
use flash_trips.Web.Transaction.{OidcTransaction, open_cookie}
use flash_trips.Web.Oidc.{
  OidcProvider, CallbackFailure, Url, TokenRequest, TokenResponse, callback_matches, planner_url,
  complete,
}
use flash_trips.Web.Flow.{
  Response, redirect, session_cookie, transaction_cookie, cleared, CallbackInput,
  callback_parameters, complete_authorization, authentication_required, problem_response,
  signed_out, sign_out_authorized, complete_sign_out,
}

module _ {S E : Type 0} (p : Platform) (key : Bytes) (provider : OidcProvider) (redirect_url : Url)
    (jwt_verify : String → Option Json) (fetcher : TokenRequest → Option TokenResponse)
    (establish : S → String → Option String → S × Result E String) (s : S) (input : CallbackInput)
    (now : ℕ) where
  -- The state and the response after the callback.
  abbrev pub outcome : S × Response
  outcome =
      complete_authorization p key provider redirect_url jwt_verify fetcher establish s input now

  -- The exchange of the callback's code.
  abbrev pub exchanged : OidcTransaction → Result CallbackFailure String
  exchanged t = (complete jwt_verify fetcher provider (callback_parameters input.request_url) t).1

  -- A sign-in that succeeded, with the session cookie's value.
  pub record SignedIn (value : String) : Type 0 where
    pub transaction : OidcTransaction
    pub access : String
    pub opened : open_cookie p key input.transaction_cookie_value now ≡ some transaction
    pub matched : callback_matches provider input.request_url ≡ true
    pub completed : exchanged transaction ≡ ok access
    pub established : establish s access input.previous_identifier ≡ (outcome.0, ok value)
    pub response : outcome.1 ≡ record {
      status = 307;
      content = redirect (planner_url redirect_url false);
      cookies = session_cookie value ∷ cleared (transaction_cookie "") ∷ [];
    }

  -- A sign-in that failed: the session state is untouched, or as the failed establishment left it.
  pub record Rejected : Type 0 where
    pub untouched :
        (outcome.0 ≡ s)
        ⊎ ((access : String) × (e : E) × (establish s access input.previous_identifier
              ≡ (outcome.0, err e)))
    pub response : outcome.1 ≡ record {
      status = 307;
      content = redirect (planner_url redirect_url true);
      cookies = cleared (transaction_cookie "") ∷ [];
    }

  module _ (t : OidcTransaction)
      (opened : open_cookie p key input.transaction_cookie_value now ≡ some t)
      (matched : callback_matches provider input.request_url ≡ true) where
    established_case :
        (access : String) (r : S × Result E String)
        → exchanged t ≡ ok access
        → establish s access input.previous_identifier ≡ r
        → ((value : String) × SignedIn value) ⊎ Rejected
    unfolding complete_authorization
    established_case access (s', ok value) completed e = inl (
      value,
      record {
        transaction = t;
        access = access;
        opened = opened;
        matched = matched;
        completed = completed;
        established = ground (arith, opened, matched, completed, e);
        response = ground (arith, opened, matched, completed, e);
      },
    )
    established_case access (s', err x) completed e = inr (record {
      untouched = inr (access, x, ground (arith, opened, matched, completed, e));
      response = ground (arith, opened, matched, completed, e);
    })

    exchanged_case :
        (r : Result CallbackFailure String)
        → exchanged t ≡ r
        → ((value : String) × SignedIn value) ⊎ Rejected
    unfolding complete_authorization
    exchanged_case (ok access) completed = established_case access _ completed refl
    exchanged_case (err e) completed = inr (record {
      untouched = inl (ground (arith, opened, matched, completed));
      response = ground (arith, opened, matched, completed);
    })

  -- The callback either signs in, which needs an opened transaction cookie, the registered redirect
  -- address, a completed exchange and an established session, and sets the session cookie; or it
  -- sends the browser to the failure page without a session cookie. In both cases the transaction
  -- cookie is cleared, so that the attempt cannot be used again.
  pub complete_authorization_cases : ((value : String) × SignedIn value) ⊎ Rejected
  unfolding complete_authorization
  complete_authorization_cases =
      elim (Option-cases (open_cookie p key input.transaction_cookie_value now)) [
        | inl closed ↦
            inr (record {
              untouched = inl (ground (arith, closed));
              response = ground (arith, closed);
            })
        | inr (t, opened) ↦ elim (Bool-cases (callback_matches provider input.request_url)) [
          | inl matched ↦ exchanged_case t opened matched (exchanged t) refl
          | inr elsewhere ↦ inr (record {
            untouched = inl (ground (arith, opened, elsewhere));
            response = ground (arith, opened, elsewhere);
          })
        ]
      ]

module _ (p : Platform) (m : Manager) where
  sign_out_authorized_cases :
      (db : Database) (a : Option AuthorizedSession) (cookie : Option String) (now : ℕ)
      → ((x : AuthorizedSession) × (value : String) × (a ≡ some x)
          × (cookie ≡ some value)
          × (sign_out_authorized p m db a cookie now ≡ (revoke p m db value now, signed_out p m)))
        ⊎ (((a ≡ none) ⊎ (cookie ≡ none))
            × (sign_out_authorized p m db a cookie now
                ≡ (db, problem_response authentication_required)))
  unfolding sign_out_authorized
  sign_out_authorized_cases db (some x) (some value) now = inl (x, value, refl, refl, refl)
  sign_out_authorized_cases db (some x) none now = inr (inr refl, refl)
  sign_out_authorized_cases db none cookie now = inr (inl refl, refl)

  -- A sign-out that an authorized session carried out.
  pub record SignedOut (db db' : Database) (input : AuthorizationInput) (now : ℕ) (r : Response)
      : Type 0 where
    pub session : AuthorizedSession
    pub before : Database
    pub cookie : String
    pub cookie_given : input.cookie_value ≡ some cookie
    pub granted : Granted p m db before input now session
    pub response : r ≡ signed_out p m
    pub refused :
        (request : AuthorizationInput) (later : ℕ)
        → request.cookie_value ≡ some cookie
        → authorize p m db' request later ≡ ok (db', none)

  -- A sign-out that returns has either ended the session of a request that `authorize` let through,
  -- so that its cookie is refused to every later request, or it answers 401 and has made no change
  -- but the one that `authorize` made.
  pub complete_sign_out_cases :
      (db db' : Database) (input : AuthorizationInput) (now revoked_at : ℕ) (r : Response)
      → complete_sign_out p m db input now revoked_at ≡ ok (db', r)
      → SignedOut db db' input now r
        ⊎ ((authorize p m db input now ≡ ok (db', none))
            × (r ≡ problem_response authentication_required))
  unfolding complete_sign_out decode_opaque
  complete_sign_out_cases db db' input now revoked_at r e = go (authorize p m db input now) refl
    where
      go :
          (x : Db (Database × Option AuthorizedSession))
          → authorize p m db input now ≡ x
          → SignedOut db db' input now r
            ⊎ ((authorize p m db input now ≡ ok (db', none))
                × (r ≡ problem_response authentication_required))
      go (err x) a = cc (rw (a, complete_sign_out) at e)
      go (ok (before, none)) a = inr (ground (arith, a), ground (arith, a))
      go (ok (before, some session)) a =
          let g = authorize-Granted p m db before input now session a in
          elim (Option-cases input.cookie_value) [
            | inl missing ↦ absurd (ground (arith, g.cookie, missing))
            | inr (cookie, given) ↦
                let same : db' ≡ revoke p m before cookie revoked_at = ground (arith, a, given) in
                inl (record {
                  session = session;
                  before = before;
                  cookie = cookie;
                  cookie_given = given;
                  granted = g;
                  response = ground (arith, a, given);
                  refused = λ request later h.
                      rw same (authorize-revoke p m before cookie revoked_at later request h);
                })
          ]
