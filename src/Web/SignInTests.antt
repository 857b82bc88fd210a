-- ===== src/Web/SignInTests.antt =====
-- Sign-in, sign-out and the routes at concrete inputs.
use flash_trips.Prelude.{
  ◌+◌, String, Bytes, true, Option, none, some, List, [], ◌∷◌, replicate, ◌≡◌, refl, ◌⊎◌, ◌↔◌,
  if◌then◌else◌, Result, ok, arith, leb, ◌+++◌,
}
use flash_trips.Json.{Json, str, obj, end, field, string_member, number_member}
use flash_trips.Web.Platform.{Platform}
use flash_trips.Web.Store
use flash_trips.Web.Store.{Database, DatabaseError}
use flash_trips.Web.Session.{authorize, revoke, session_payload, new_session}
use flash_trips.Web.Transaction.{
  OidcTransaction, lifetime, stored_transaction, seal, seal_payload, open_cookie,
}
use flash_trips.Web.Transaction.Laws.{open-seal, open_cookie-Opened, Opened}
use flash_trips.Web.Oidc.{
  OidcProvider, CallbackParameters, Url, TokenRequest, TokenResponse, begin, complete,
  code_challenge, get_param, token_request,
}
use flash_trips.Web.Oidc.Laws.{begin-params, complete_iff, complete-requests, Completed, requests}
use flash_trips.Web.Flow.{
  CallbackInput, complete_sign_out, signed_out, problem_response, authentication_required,
}
use flash_trips.Web.Flow.Laws.{
  complete_authorization_cases, complete_sign_out_cases, SignedIn, Rejected, SignedOut,
}
use flash_trips.Web.Routes.{
  BackendCall, start_run, BackendOutcome, responded, json_body, Reply, Request, runs_start_route,
  serve, problem_reply, run_response, json_response,
}
use flash_trips.Web.Flow.{backend_unavailable}
use flash_trips.Web.Routes.Laws.{serve-Forwarded, Forwarded, Answers, Fails}
use flash_trips.Web.Toy.{
  identifier_text, csrf_text, identifier, csrf, iv, toy, toy-IsAead, toy-CarriesJson, platform,
  manager, signed_in, first_row, post_request, granted_session,
}

abbrev transaction : OidcTransaction
transaction = record { code_verifier = "verifier"; nonce = "nonce"; state = "state" }

abbrev document : Json
document = stored_transaction transaction (1000 + lifetime)

abbrev sealing : Platform
sealing = toy document

abbrev key : Bytes
key = replicate 32 8

open-seal_example :
    open_cookie sealing key (some (seal sealing key iv 1000 transaction)) 2000
    ≡ (if leb 2000 (1000 + lifetime) then some transaction else none)
unfolding seal_payload
open-seal_example =
    open-seal sealing key iv 1000 transaction (toy-IsAead document) (toy-CarriesJson document) refl
      refl (omega arith) 2000 refl (omega arith)

cookie_opens : open_cookie sealing key (some "CCCC.DDDD") 2000 ≡ some transaction
unfolding open_cookie stored_transaction string_member number_member
cookie_opens = refl

open_cookie-Opened_example : Opened sealing key (some "CCCC.DDDD") 2000 transaction
open_cookie-Opened_example =
    open_cookie-Opened sealing key (some "CCCC.DDDD") 2000 transaction cookie_opens

abbrev provider : OidcProvider
provider = record {
  authorization_endpoint = "https://login.example/authorize";
  client_id = "client";
  client_secret = "secret";
  issuer = "https://login.example";
  jwks_uri = "https://login.example/keys";
  redirect_uri = "https://app.example/api/auth/callback";
  scope = "api://client/principal:read";
  token_endpoint = "https://login.example/token";
}

abbrev endpoint : Url
endpoint = record {
  origin = "https://login.example";
  pathname = "/authorize";
  params = ("state", "old") ∷ [];
}

abbrev begun : Url × OidcTransaction
begun = begin platform provider endpoint identifier csrf iv

begin-params_example :
    (get_param "client_id" begun.0.params ≡ some "client")
    × (get_param "redirect_uri" begun.0.params ≡ some provider.redirect_uri)
    × (get_param "response_type" begun.0.params ≡ some "code")
    × (get_param "response_mode" begun.0.params ≡ some "query")
    × (get_param "scope" begun.0.params ≡ some ("openid profile " +++ provider.scope))
    × (get_param "state" begun.0.params ≡ some begun.1.state)
    × (get_param "nonce" begun.0.params ≡ some begun.1.nonce)
    × (get_param "code_challenge_method" begun.0.params ≡ some "S256")
    × (get_param "code_challenge" begun.0.params
        ≡ some (code_challenge platform begun.1.code_verifier))
begin-params_example = begin-params platform provider endpoint identifier csrf iv

abbrev jwt_verify : String → Option Json
jwt_verify token = some (obj (field "nonce" (str "nonce") end))

abbrev token_body : Json
token_body = obj (
    field "access_token" (str "token")
      (field "id_token" (str "jwt") (field "token_type" (str "Bearer") end)))

abbrev fetcher : TokenRequest → Option TokenResponse
fetcher request = some (record { is_ok = true; body = some token_body })

abbrev callback : CallbackParameters
callback = record { code = some "code"; error = none; state = some "state" }

complete_iff_example :
    ((complete jwt_verify fetcher provider callback transaction).1 ≡ ok "token")
    ↔ Completed jwt_verify fetcher provider callback transaction "token"
complete_iff_example = complete_iff jwt_verify fetcher provider callback transaction "token"

complete-requests_example :
    (requests jwt_verify fetcher provider callback transaction ≡ [])
    ⊎ ((code : String) × (callback.state ≡ some transaction.state)
        × (callback.error ≡ none)
        × (callback.code ≡ some code)
        × (requests jwt_verify fetcher provider callback transaction
            ≡ token_request provider transaction code ∷ []))
complete-requests_example = complete-requests jwt_verify fetcher provider callback transaction

-- Establishing a session only records the access token.
abbrev establish : List String → String → Option String → List String × Result DatabaseError String
establish s access previous = (access ∷ s, ok "cookie")

abbrev callback_request : CallbackInput
callback_request = record {
  request_url = record {
    origin = "https://app.example";
    pathname = "/api/auth/callback";
    params = ("code", "code") ∷ ("state", "state") ∷ [];
  };
  transaction_cookie_value = some "CCCC.DDDD";
  previous_identifier = none;
}

complete_authorization_cases_example :
    ((value : String) × SignedIn sealing key provider endpoint jwt_verify fetcher establish []
        callback_request 2000 value)
    ⊎ Rejected sealing key provider endpoint jwt_verify fetcher establish [] callback_request 2000
complete_authorization_cases_example =
    complete_authorization_cases sealing key provider endpoint jwt_verify fetcher establish []
      callback_request 2000

abbrev touched_database : Database
touched_database = record signed_in {
  sessions =
      record first_row {
        new = record first_row.new { last_seen_at = 2000; idle_expires_at = 43202000 };
      }
      ∷ [];
}

post_granted :
    authorize platform manager signed_in post_request 2000
    ≡ ok (touched_database, some granted_session)
unfolding authorize new_session session_payload string_member Store.find Store.touch
post_granted = refl

signs_out :
    complete_sign_out platform manager signed_in post_request 2000 2001
    ≡ ok
        (revoke platform manager touched_database identifier_text 2001, signed_out platform manager)
unfolding complete_sign_out authorize new_session session_payload string_member Store.find
    Store.touch
signs_out = refl

complete_sign_out_cases_example :
    SignedOut platform manager signed_in
      (revoke platform manager touched_database identifier_text 2001)
      post_request
      2000
      (signed_out platform manager)
    ⊎ ((authorize platform manager signed_in post_request 2000
          ≡ ok (revoke platform manager touched_database identifier_text 2001, none))
        × (signed_out platform manager ≡ problem_response authentication_required))
complete_sign_out_cases_example =
    complete_sign_out_cases platform manager signed_in
      (revoke platform manager touched_database identifier_text 2001) post_request 2000 2001
      (signed_out platform manager) signs_out

abbrev backend : BackendCall → BackendOutcome
backend call =
    responded (record { status = 202; headers = []; result = some (str "run"); error = none })

abbrev run_request : Request
run_request = record {
  cookie = some identifier_text;
  csrf_header = some csrf_text;
  origin_header = some "https://app.example";
  body = none;
}

abbrev run_reply : Reply
run_reply = record {
  status = 202;
  headers = ("content-type", "application/json") ∷ ("location", "") ∷ ("x-request-id", "") ∷ [];
  body = json_body (some (str "run"));
}

served :
    serve backend platform manager signed_in (runs_start_route "trip") run_request 2000
    ≡ ok (touched_database, start_run "token" "trip" ∷ [], run_reply)
unfolding serve run_response json_response authorize new_session session_payload string_member
    Store.find Store.touch
served = refl

serve-Forwarded_example :
    (◌≡◌ {A = List BackendCall} (start_run "token" "trip" ∷ []) [])
    ⊎ ((c : BackendCall) × (start_run "token" "trip" ∷ [] ≡ c ∷ [])
        × Forwarded backend platform manager signed_in touched_database
            (runs_start_route "trip")
            run_request
            2000
            c
        × (Answers backend c run_reply
            ⊎ (Fails backend c × (run_reply ≡ problem_reply backend_unavailable))))
serve-Forwarded_example =
    serve-Forwarded backend platform manager signed_in touched_database (runs_start_route "trip")
      run_request 2000 (start_run "token" "trip" ∷ []) run_reply served
