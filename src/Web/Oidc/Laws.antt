-- ===== src/Web/Oidc/Laws.antt =====
-- When a sign-in callback completes, what it sends, and what the authorization request carries.
use flash_trips.Prelude.{
  String, Bytes, true, false, Option, none, some, List, [], ◌∷◌, map, length, bytes_eq,
  bytes_eq_iff, nat_eq, codes, to_lower, str_eq, eq_iff, eq_refl, if◌then◌else◌, ok, ◌≡◌, ◌≢◌, refl,
  ◌⊎◌, inl, inr, ◌↔◌, Bool-cases, Option-cases, arith, ◌+++◌,
}
use flash_trips.Json.{Json, string_member}
use flash_trips.Web.Platform.{Platform}
use flash_trips.Web.Transaction.{OidcTransaction}
use flash_trips.Web.Oidc.{
  OidcProvider, CallbackParameters, Url, TokenRequest, TokenResponse, drop_param, set_param,
  get_param, values_match, nonce_matches, code_challenge, authorization_params, begin, read_tokens,
  read_body, token_request, check_response, exchange, complete,
}

get_param-drop_param :
    (j k : String) (params : List (String × String))
    → j ≢ k
    → get_param k (drop_param j params) ≡ get_param k params
unfolding get_param drop_param
get_param-drop_param j k [] h = refl
get_param-drop_param j k ((i, v) ∷ params) h =
    ground (arith, eq_iff i j, eq_iff i k, eq_iff j k, get_param-drop_param j k params h)

-- `get` after `set`.
pub get_param-set_param :
    (j k v : String) (params : List (String × String))
    → get_param k (set_param j v params) ≡ (if str_eq j k then some v else get_param k params)
unfolding get_param set_param
get_param-set_param j k v [] = refl
get_param-set_param j k v ((i, w) ∷ params) = ground (
  arith,
  eq_iff i j,
  eq_iff i k,
  eq_iff j k,
  get_param-set_param j k v params,
  get_param-drop_param j k params,
)

abbrev param : Url → String → Option String
param url key = get_param key url.params

-- The authorization request that `begin` builds asks for a code by query, for the registered client
-- and redirect, with the transaction's state and nonce, and with the S256 challenge of its verifier,
-- whatever parameters the endpoint had.
pub begin-params :
    (p : Platform) (provider : OidcProvider) (endpoint : Url) (verifier nonce state : Bytes)
    → let (url, t) = begin p provider endpoint verifier nonce state in
      (param url "client_id" ≡ some provider.client_id)
      × (param url "redirect_uri" ≡ some provider.redirect_uri)
      × (param url "response_type" ≡ some "code")
      × (param url "response_mode" ≡ some "query")
      × (param url "scope" ≡ some ("openid profile " +++ provider.scope))
      × (param url "state" ≡ some t.state)
      × (param url "nonce" ≡ some t.nonce)
      × (param url "code_challenge_method" ≡ some "S256")
      × (param url "code_challenge" ≡ some (code_challenge p t.code_verifier))
unfolding begin authorization_params
begin-params p provider endpoint verifier nonce state = (
  simp get_param-set_param,
  simp get_param-set_param,
  simp get_param-set_param,
  simp get_param-set_param,
  simp get_param-set_param,
  simp get_param-set_param,
  simp get_param-set_param,
  simp get_param-set_param,
  simp get_param-set_param,
)

empty-length : (s : String) → s ≡ "" → nat_eq (length (codes s)) 0 ≡ true
empty-length s e = rw e

nonempty-length : (s : String) → s ≢ "" → nat_eq (length (codes s)) 0 ≡ false
nonempty-length String.[] h = absurd (h refl)
nonempty-length (String.◌∷◌ c s) h = ground arith

values_match_sound :
    (actual : Option String) (expected : String)
    → values_match actual expected ≡ true
    → actual ≡ some expected
unfolding values_match
values_match_sound none expected h = cc
values_match_sound (some actual) expected h = ground (arith, eq_iff actual expected)

read_tokens_sound :
    (access id_token token_type : Option String) (a i : String)
    → read_tokens access id_token token_type ≡ some (a, i)
    → (t : String) × (access ≡ some a)
      × (id_token ≡ some i)
      × (token_type ≡ some t)
      × (nat_eq (length (codes a)) 0 ≡ false)
      × (bytes_eq (map to_lower (codes t)) (codes "bearer") ≡ true)
unfolding read_tokens
read_tokens_sound none _ _ a i e = cc
read_tokens_sound (some _) none _ a i e = cc
read_tokens_sound (some _) (some _) none a i e = cc
read_tokens_sound (some x) (some y) (some t) a i e =
    (t, ground arith, ground arith, refl, ground arith, ground arith)

read_body_sound :
    (o : Option Json) (a i : String)
    → read_body o ≡ some (a, i)
    → (v : Json) × (o ≡ some v)
      × (read_tokens
            (string_member "access_token" v)
            (string_member "id_token" v)
            (string_member "token_type" v)
          ≡ some (a, i))
unfolding read_body
read_body_sound none a i e = cc
read_body_sound (some v) a i e = (v, refl, e)

nonce_matches_sound :
    (o : Option Json) (nonce : String)
    → nonce_matches o nonce ≡ true
    → (payload : Json) × (o ≡ some payload) × (string_member "nonce" payload ≡ some nonce)
unfolding nonce_matches
nonce_matches_sound none nonce h = cc
nonce_matches_sound (some payload) nonce h =
    (payload, refl, values_match_sound (string_member "nonce" payload) nonce h)

module _ (jwt_verify : String → Option Json) (fetcher : TokenRequest → Option TokenResponse)
    (provider : OidcProvider) (callback : CallbackParameters) (t : OidcTransaction) where
  -- Everything that a completed callback has shown, for the access token that it returns.
  pub record Completed (access : String) : Type 0 where
    pub code : String
    pub id_token : String
    pub token_type : String
    pub payload : Json
    pub body : Json
    pub state_matched : callback.state ≡ some t.state
    pub no_error : callback.error ≡ none
    pub code_given : callback.code ≡ some code
    pub code_nonempty : code ≢ ""
    pub answered :
        fetcher (token_request provider t code) ≡ some (record { is_ok = true; body = some body })
    pub access_given : string_member "access_token" body ≡ some access
    pub access_nonempty : access ≢ ""
    pub id_token_given : string_member "id_token" body ≡ some id_token
    pub token_type_given : string_member "token_type" body ≡ some token_type
    pub bearer : map to_lower (codes token_type) ≡ codes "bearer"
    pub verified : jwt_verify id_token ≡ some payload
    pub nonce_matched : string_member "nonce" payload ≡ some t.nonce

  -- The requests that `complete` sends.
  abbrev pub requests : List TokenRequest
  requests = (complete jwt_verify fetcher provider callback t).0

  -- The token endpoint is contacted, with the client secret and the code verifier, only for a
  -- callback with the transaction's state, no error and a code, and then once, for that code.
  pub complete-requests :
      (requests ≡ [])
      ⊎ ((code : String) × (callback.state ≡ some t.state)
          × (callback.error ≡ none)
          × (callback.code ≡ some code)
          × (requests ≡ token_request provider t code ∷ []))
  unfolding complete exchange values_match
  complete-requests = elim (Bool-cases (values_match callback.state t.state)) [
    | inr other ↦ inl (ground arith)
    | inl same ↦ elim (Option-cases callback.error) [
      | inr (error, failed) ↦ inl (ground arith)
      | inl fine ↦ elim (Option-cases callback.code) [
        | inl missing ↦ inl (ground arith)
        | inr (code, given) ↦ elim (Bool-cases (nat_eq (length (codes code)) 0)) [
          | inl empty ↦ inl (ground arith)
          | inr nonempty ↦
              inr (code, values_match_sound callback.state t.state same, fine, given, ground arith)
        ]
      ]
    ]
  ]

  module _ (code : String) (same : callback.state ≡ some t.state) (fine : callback.error ≡ none)
      (given : callback.code ≡ some code) (nonempty : nat_eq (length (codes code)) 0 ≡ false) where
    response_sound :
        (access : String) (response : Option TokenResponse)
        → fetcher (token_request provider t code) ≡ response
        → check_response jwt_verify fetcher t response ≡ ok access
        → Completed access
    unfolding check_response
    response_sound access none f e = cc
    response_sound access (some r) f e = elim (Bool-cases r.is_ok) [
      | inr failed ↦ absurd (ground arith)
      | inl succeeded ↦ elim (Option-cases (read_body r.body)) [
        | inl malformed ↦ absurd (ground arith)
        | inr ((a, id_token), read) ↦
            let (v, parsed, fields) = read_body_sound r.body a id_token read in
            let (token_type, access_given, id_given, type_given, long, bearer) =
              read_tokens_sound (string_member "access_token" v) (string_member "id_token" v)
                (string_member "token_type" v) a id_token fields in
            let matched : nonce_matches (jwt_verify id_token) t.nonce ≡ true = ground arith in
            let same_access : a ≡ access = ground arith in
            let (payload, verified, nonce) =
              nonce_matches_sound (jwt_verify id_token) t.nonce matched in
            record {
              code = code;
              id_token = id_token;
              token_type = token_type;
              payload = payload;
              body = v;
              state_matched = same;
              no_error = fine;
              code_given = given;
              code_nonempty = λ h. cc (empty-length code h);
              answered = ground arith;
              access_given = ground arith;
              access_nonempty = λ h. ground (arith, empty-length a);
              id_token_given = id_given;
              token_type_given = type_given;
              bearer = (bytes_eq_iff (map to_lower (codes token_type)) (codes "bearer")).0 bearer;
              verified = verified;
              nonce_matched = nonce;
            }
      ]
    ]

  complete-Completed :
      (access : String)
      → (complete jwt_verify fetcher provider callback t).1 ≡ ok access
      → Completed access
  unfolding complete exchange
  complete-Completed access e = elim (Bool-cases (values_match callback.state t.state)) [
    | inr other ↦ absurd (ground arith)
    | inl same ↦ elim (Option-cases callback.error) [
      | inr (error, failed) ↦ absurd (ground arith)
      | inl fine ↦ elim (Option-cases callback.code) [
        | inl missing ↦ absurd (ground arith)
        | inr (code, given) ↦ elim (Bool-cases (nat_eq (length (codes code)) 0)) [
          | inl empty ↦ absurd (ground arith)
          | inr nonempty ↦
              response_sound code (values_match_sound callback.state t.state same) fine given
                nonempty access (fetcher (token_request provider t code)) refl (ground arith)
        ]
      ]
    ]
  ]

  Completed-complete :
      (access : String)
      → Completed access
      → (complete jwt_verify fetcher provider callback t).1 ≡ ok access
  unfolding complete exchange check_response read_body read_tokens nonce_matches values_match
  Completed-complete access c =
      let answer = c.answered in
      ground (
        arith,
        c.state_matched,
        c.no_error,
        c.code_given,
        answer,
        c.access_given,
        c.id_token_given,
        c.token_type_given,
        c.verified,
        c.nonce_matched,
        eq_refl t.state,
        eq_refl t.nonce,
        nonempty-length c.code c.code_nonempty,
        nonempty-length access c.access_nonempty,
        (bytes_eq_iff (map to_lower (codes c.token_type)) (codes "bearer")).1 c.bearer,
      )

  -- `complete` returns an access token exactly for a callback with the transaction's state, no error
  -- and a nonempty code, which the token endpoint exchanged for a bearer token that is not empty,
  -- beside an ID token that was verified and holds the transaction's nonce.
  pub complete_iff :
      (access : String)
      → ((complete jwt_verify fetcher provider callback t).1 ≡ ok access) ↔ Completed access
  complete_iff access = (complete-Completed access, Completed-complete access)
