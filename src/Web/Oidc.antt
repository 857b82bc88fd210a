-- ===== src/Web/Oidc.antt =====
-- apps/web/lib/server/oidc.ts: the authorization-code client. Node's URL parser, `fetch` and the
-- JWT library are parameters; a rejected promise of theirs is `none`.
pub mod Laws
use flash_trips.Prelude.{
  ℕ, String, Bytes, Bool, true, false, Option, none, some, List, [], ◌∷◌, map, ◌&&◌, ◌||◌, not,
  length, bytes_eq, nat_eq, codes, to_lower, str_eq, is_some, ◌+++◌, if◌then◌else◌, Result, ok, err,
  ◌>>=◌,
}
use flash_trips.Json.{Json, string_member}
use flash_trips.Web.Platform.{Platform}
use flash_trips.Web.Transaction.{OidcTransaction}

pub record OidcProvider : Type 0 where
  pub authorization_endpoint : String
  pub client_id : String
  pub client_secret : String
  pub issuer : String
  pub jwks_uri : String
  pub redirect_uri : String
  pub scope : String
  pub token_endpoint : String

pub data CallbackFailure : Type 0 where
  invalid_code invalid_nonce invalid_state provider_error : CallbackFailure

pub record CallbackParameters : Type 0 where
  pub code : Option String
  pub error : Option String
  pub state : Option String

-- A URL as the code sees it: origin, path, and the query's parameters in order.
pub record Url : Type 0 where
  pub origin : String
  pub pathname : String
  pub params : List (String × String)

-- The body of the token request.
pub record TokenRequest : Type 0 where
  pub endpoint : String
  pub client_id : String
  pub client_secret : String
  pub code : String
  pub code_verifier : String
  pub grant_type : String
  pub redirect_uri : String

-- What the token endpoint answered: `response.ok`, and the body if it parses as JSON.
pub record TokenResponse : Type 0 where
  pub is_ok : Bool
  pub body : Option Json

-- `searchParams.set` and `.get`.
unfoldable pub drop_param : String → List (String × String) → List (String × String)
drop_param key [] = []
drop_param key ((k, v) ∷ params) =
    if str_eq k key then drop_param key params else (k, v) ∷ drop_param key params

unfoldable pub set_param : String → String → List (String × String) → List (String × String)
unfolding drop_param
set_param key value [] = (key, value) ∷ []
set_param key value ((k, v) ∷ params) =
    let rest = set_param key value params in
    if str_eq k key then (key, value) ∷ drop_param key params else (k, v) ∷ rest

unfoldable pub get_param : String → List (String × String) → Option String
get_param key [] = none
get_param key ((k, v) ∷ params) = if str_eq k key then some v else get_param key params

-- valuesMatch: the same length and bytes.
unfoldable pub values_match : Option String → String → Bool
values_match none expected = false
values_match (some actual) expected = str_eq actual expected

-- callbackMatches.
unfoldable pub callback_matches : OidcProvider → Url → Bool
callback_matches provider url = str_eq (url.origin +++ url.pathname) provider.redirect_uri

-- plannerUrl.
unfoldable pub planner_url : Url → Bool → Url
unfolding set_param
planner_url redirect failed =
    let destination : Url = record {
      origin = redirect.origin;
      pathname = "/planner";
      params = [];
    } in
    if failed
    then record destination { params = set_param "sign_in" "failed" destination.params }
    else destination

-- The nonce test of the default verifyIdToken, on the payload that jwtVerify returned.
unfoldable pub nonce_matches : Option Json → String → Bool
unfolding values_match string_member
nonce_matches none nonce = false
nonce_matches (some payload) nonce = values_match (string_member "nonce" payload) nonce

module _ (p : Platform) where
  -- The code challenge of a verifier.
  unfoldable pub code_challenge : String → String
  code_challenge verifier = p.to_base64url (p.sha256 (codes verifier))

  unfoldable pub new_transaction : Bytes → Bytes → Bytes → OidcTransaction
  new_transaction verifier nonce state = record {
    code_verifier = p.to_base64url verifier;
    nonce = p.to_base64url nonce;
    state = p.to_base64url state;
  }

  unfoldable pub authorization_params :
      OidcProvider → OidcTransaction → List (String × String) → List (String × String)
  unfolding set_param code_challenge
  authorization_params provider t params =
      let p₁ = set_param "client_id" provider.client_id params in
      let p₂ = set_param "code_challenge" (code_challenge t.code_verifier) p₁ in
      let p₃ = set_param "code_challenge_method" "S256" p₂ in
      let p₄ = set_param "domain_hint" "google.com" p₃ in
      let p₅ = set_param "nonce" t.nonce p₄ in
      let p₆ = set_param "redirect_uri" provider.redirect_uri p₅ in
      let p₇ = set_param "response_mode" "query" p₆ in
      let p₈ = set_param "response_type" "code" p₇ in
      let p₉ = set_param "scope" ("openid profile " +++ provider.scope) p₈ in
      set_param "state" t.state p₉

  -- begin, with the three random values; `endpoint` is the parsed authorization endpoint.
  unfoldable pub begin : OidcProvider → Url → Bytes → Bytes → Bytes → Url × OidcTransaction
  unfolding authorization_params new_transaction
  begin provider endpoint verifier nonce state =
      let t = new_transaction verifier nonce state in
      (record endpoint { params = authorization_params provider t endpoint.params }, t)

-- The body's fields that `complete` reads: access token and ID token.
unfoldable pub read_tokens :
    Option String → Option String → Option String → Option (String × String)
read_tokens (some access) (some id_token) (some token_type) =
    if nat_eq (length (codes access)) 0
      || not (bytes_eq (map to_lower (codes token_type)) (codes "bearer"))
    then none
    else some (access, id_token)
read_tokens _ _ _ = none

unfoldable pub read_body : Option Json → Option (String × String)
unfolding read_tokens
read_body none = none
read_body (some body) =
    read_tokens (string_member "access_token" body) (string_member "id_token" body)
      (string_member "token_type" body)

unfoldable pub token_request : OidcProvider → OidcTransaction → String → TokenRequest
token_request provider t code = record {
  endpoint = provider.token_endpoint;
  client_id = provider.client_id;
  client_secret = provider.client_secret;
  code = code;
  code_verifier = t.code_verifier;
  grant_type = "authorization_code";
  redirect_uri = provider.redirect_uri;
}

module _ (jwt_verify : String → Option Json) (fetcher : TokenRequest → Option TokenResponse) where
  -- The tests on the token response and the ID token.
  unfoldable pub check_response :
      OidcTransaction → Option TokenResponse → Result CallbackFailure String
  unfolding read_body nonce_matches
  check_response t none = err invalid_code
  check_response t (some response) =
      if response.is_ok
      then elim (read_body response.body) [
        | none ↦ err invalid_code
        | some (access, id_token) ↦
            if nonce_matches (jwt_verify id_token) t.nonce then ok access else err invalid_nonce
      ]
      else err invalid_code

  -- A callback whose state is the transaction's.
  unfoldable pub exchange :
      OidcProvider
      → OidcTransaction
      → Option String
      → Option String
      → List TokenRequest × Result CallbackFailure String
  unfolding check_response token_request
  exchange provider t (some error) code = ([], err provider_error)
  exchange provider t none none = ([], err invalid_code)
  exchange provider t none (some code) =
      if nat_eq (length (codes code)) 0 then ([], err invalid_code) else (
        token_request provider t code ∷ [],
        check_response t (fetcher (token_request provider t code)),
      )

  -- complete: the requests sent to the token endpoint, and the access token or the failure.
  unfoldable pub complete :
      OidcProvider
      → CallbackParameters
      → OidcTransaction
      → List TokenRequest × Result CallbackFailure String
  unfolding exchange values_match
  complete provider callback t =
      if values_match callback.state t.state
      then exchange provider t callback.error callback.code
      else ([], err invalid_state)
