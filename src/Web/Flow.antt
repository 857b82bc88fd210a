-- ===== src/Web/Flow.antt =====
-- apps/web/lib/server/oidc-flow.ts, sign-out-flow.ts and problems.ts: responses and their cookies.
pub mod Laws
use flash_trips.Prelude.{
  ℕ, String, Bytes, Bool, true, false, Option, none, some, List, [], ◌∷◌, ◌++◌, str_eq, is_some,
  ◌||◌, not, Result, ok, err, if◌then◌else◌,
}
use flash_trips.Json.{Json}
use flash_trips.Web.Policy.{session_cookie_name}
use flash_trips.Web.Platform.{Platform}
use flash_trips.Web.Store.{Database, Db}
use flash_trips.Web.Session.{Manager, AuthorizationInput, AuthorizedSession, authorize, revoke}
use flash_trips.Web.Transaction.{
  OidcTransaction, transaction_cookie_name, lifetime_seconds, seal, open_cookie,
}
use flash_trips.Web.Oidc.{
  OidcProvider, CallbackFailure, CallbackParameters, Url, TokenRequest, TokenResponse, get_param,
  callback_matches, planner_url, begin, complete,
}

pub data SameSite : Type 0 where
  strict lax : SameSite

pub record Cookie : Type 0 where
  pub name : String
  pub value : String
  pub http_only : Bool
  pub secure : Bool
  pub same_site : SameSite
  pub path : String
  pub max_age : Option ℕ

-- problems.ts without the request identifier, which is fresh for each response.
pub record Problem : Type 0 where
  pub code : String
  pub detail : String
  pub retryable : Bool
  pub status : ℕ
  pub title : String

abbrev pub authentication_required : Problem
authentication_required = record {
  code = "authentication_required";
  detail = "Authentication is required.";
  retryable = false;
  status = 401;
  title = "Unauthorized";
}

abbrev pub backend_unavailable : Problem
backend_unavailable = record {
  code = "backend_unavailable";
  detail = "The application backend is unavailable.";
  retryable = true;
  status = 503;
  title = "Service Unavailable";
}

abbrev pub invalid_request : Problem
invalid_request = record {
  code = "invalid_request";
  detail = "The request did not match the required contract.";
  retryable = false;
  status = 400;
  title = "Invalid Request";
}

pub data Content : Type 0 where
  redirect : Url → Content
  empty : Content
  json : Json → Content
  problem : Problem → Content

pub record Response : Type 0 where
  pub status : ℕ
  pub content : Content
  pub cookies : List Cookie

-- problemResponse: the status of the response is that of the document.
unfoldable pub problem_response : Problem → Response
problem_response p = record { status = p.status; content = problem p; cookies = [] }

-- NextResponse.redirect.
unfoldable pub redirect_to : Url → Response
redirect_to url = record { status = 307; content = redirect url; cookies = [] }

unfoldable pub drop_cookie : String → List Cookie → List Cookie
drop_cookie name [] = []
drop_cookie name (c ∷ cs) =
    let rest = drop_cookie name cs in if str_eq c.name name then rest else c ∷ rest

-- `response.cookies.set`: one cookie for a name.
unfoldable pub set_cookie : Cookie → Response → Response
unfolding drop_cookie
set_cookie c r = record r { cookies = drop_cookie c.name r.cookies ++ c ∷ [] }

unfoldable pub cookie_of : String → List Cookie → Option Cookie
cookie_of name [] = none
cookie_of name (c ∷ cs) = if str_eq c.name name then some c else cookie_of name cs

-- applicationSession.cookieOptions: no maxAge.
abbrev pub session_cookie : String → Cookie
session_cookie value = record {
  name = session_cookie_name;
  value = value;
  http_only = true;
  secure = true;
  same_site = strict;
  path = "/";
  max_age = none;
}

-- oidcTransactionCookie.options.
abbrev pub transaction_cookie : String → Cookie
transaction_cookie value = record {
  name = transaction_cookie_name;
  value = value;
  http_only = true;
  secure = true;
  same_site = lax;
  path = "/";
  max_age = some lifetime_seconds;
}

-- A cookie that the browser drops at once.
abbrev pub cleared : Cookie → Cookie
cleared c = record c { value = ""; max_age = some 0 }

-- The request: its URL, and the two cookies.
pub record CallbackInput : Type 0 where
  pub request_url : Url
  pub transaction_cookie_value : Option String
  pub previous_identifier : Option String

unfoldable pub callback_parameters : Url → CallbackParameters
unfolding get_param
callback_parameters url = record {
  code = get_param "code" url.params;
  error = get_param "error" url.params;
  state = get_param "state" url.params;
}

module _ (p : Platform) (key : Bytes) where
  -- beginOidcAuthorization, with the random values of `begin` and `seal`.
  unfoldable pub begin_authorization :
      OidcProvider → Url → Bytes → Bytes → Bytes → Bytes → ℕ → Response
  unfolding begin seal set_cookie redirect_to
  begin_authorization provider endpoint verifier nonce state iv now =
      let (url, t) = begin p provider endpoint verifier nonce state in
      set_cookie (transaction_cookie (seal p key iv now t)) (redirect_to url)

  -- `establish` is establishSession: the state after it, and the cookie's value or its exception.
  module _ {S E : Type 0} (provider : OidcProvider) (redirect_url : Url)
      (jwt_verify : String → Option Json) (fetcher : TokenRequest → Option TokenResponse)
      (establish : S → String → Option String → S × Result E String) where
    -- failedResponse.
    unfoldable pub failed_response : Response
    unfolding redirect_to planner_url
    failed_response = redirect_to (planner_url redirect_url true)

    unfoldable pub respond_established : S × Result E String → S × Response
    unfolding failed_response set_cookie redirect_to planner_url
    respond_established (s, ok value) =
        (s, set_cookie (session_cookie value) (redirect_to (planner_url redirect_url false)))
    respond_established (s, err e) = (s, failed_response)

    unfoldable pub respond_completed :
        S → Option String → Result CallbackFailure String → S × Response
    unfolding respond_established failed_response
    respond_completed s previous (ok access) = respond_established (establish s access previous)
    respond_completed s previous (err e) = (s, failed_response)

    unfoldable pub respond_opened : S → CallbackInput → Option OidcTransaction → S × Response
    unfolding respond_completed failed_response callback_matches callback_parameters complete
    respond_opened s input none = (s, failed_response)
    respond_opened s input (some t) =
        if callback_matches provider input.request_url
        then respond_completed s input.previous_identifier
            (complete jwt_verify fetcher provider (callback_parameters input.request_url) t).1
        else (s, failed_response)

    unfoldable pub clear_transaction : S × Response → S × Response
    unfolding set_cookie
    clear_transaction (s, r) = (s, set_cookie (cleared (transaction_cookie "")) r)

    -- completeOidcAuthorization; `now` is the clock's reading in `open`.
    unfoldable pub complete_authorization : S → CallbackInput → ℕ → S × Response
    unfolding clear_transaction respond_opened open_cookie
    complete_authorization s input now =
        clear_transaction
          (respond_opened s input (open_cookie p key input.transaction_cookie_value now))

module _ (p : Platform) (m : Manager) where
  unfoldable pub signed_out : Response
  unfolding set_cookie
  signed_out =
      set_cookie (cleared (session_cookie ""))
        (record { status = 204; content = empty; cookies = [] })

  unfoldable pub sign_out_authorized :
      Database → Option AuthorizedSession → Option String → ℕ → Database × Response
  unfolding signed_out problem_response
  sign_out_authorized db (some a) (some cookie) now = (revoke p m db cookie now, signed_out)
  sign_out_authorized db _ _ now = (db, problem_response authentication_required)

  -- completeApplicationSignOut; an exception of the database is passed on.
  unfoldable pub complete_sign_out :
      Database → AuthorizationInput → ℕ → ℕ → Db (Database × Response)
  unfolding sign_out_authorized authorize
  complete_sign_out db input now revoked_at = elim (authorize p m db input now) [
    | err e ↦ err e
    | ok (db', a) ↦ ok (sign_out_authorized db' a input.cookie_value revoked_at)
  ]
