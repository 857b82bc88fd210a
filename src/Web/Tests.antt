-- ===== src/Web/Tests.antt =====
-- The web application's theorems at concrete inputs, over a small stand-in for Node's functions.
use flash_trips.Prelude.{◌+◌, ◌≤◌, true, false, none, some, [], ◌∷◌, ◌≡◌, refl, inr, ok, arith, min}
use mathlib.Core.List.{mem-cons_self}
use flash_trips.Json.{string_member}
use flash_trips.Web.Policy.{idle_lifetime, absolute_lifetime}
use flash_trips.Web.Platform.{CarriesJson}
use flash_trips.Web.Store
use flash_trips.Web.Store.{StoredSession, NewStoredSession, Database, DatabaseError, touched}
use flash_trips.Web.Store.Persistence.{Persists}
use flash_trips.Web.Session.{
  AuthenticationInput, Draws, authenticate, authorize, revoke, issued_session, session_payload,
  new_session, decode_opaque, digest_of, is_safe, revoke_found,
}
use flash_trips.Web.Toy.{
  identifier_text, csrf_text, identifier, csrf, iv, toy-IsAead, toy-CarriesJson, platform, manager,
  empty_database, sign_in_input, draws, first_row, signed_in, issued, get_request, post_request,
  granted_session,
}
use flash_trips.Web.Session.Access.{Granted, authorize-Granted}
use flash_trips.Web.Session.Lifecycle.{authorize-revoke, authenticate-rotates}
use flash_trips.Web.Session.RoundTrip.{authorize-authenticate_read, authorize-authenticate_write}
use flash_trips.Web.Session.Interleaving.{
  System, Reach, here, next, look_up, finish_revoke, Reach-Persists, Reach-refused,
}

sign_in_stores :
    authenticate platform manager empty_database sign_in_input draws 0 1000 ≡ (signed_in, ok issued)
unfolding authenticate Store.create
sign_in_stores = refl

get_granted :
    authorize platform manager signed_in get_request 2000 ≡ ok (signed_in, some granted_session)
unfolding authorize new_session session_payload string_member Store.find
get_granted = refl

authorize-Granted_example :
    Granted platform manager signed_in signed_in get_request 2000 granted_session
authorize-Granted_example =
    authorize-Granted platform manager signed_in signed_in get_request 2000 granted_session
      get_granted

cookie_decodes : decode_opaque platform (some identifier_text) ≡ some identifier
unfolding decode_opaque
cookie_decodes = refl

csrf_decodes : decode_opaque platform (some csrf_text) ≡ some csrf
unfolding decode_opaque
csrf_decodes = refl

row_found : Store.find signed_in (digest_of platform manager identifier) ≡ some first_row
unfolding Store.find digest_of new_session
row_found = refl

get_is_safe : is_safe "get" ≡ true
unfolding is_safe
get_is_safe = refl

post_is_unsafe : is_safe "POST" ≡ false
unfolding is_safe
post_is_unsafe = refl

issued_lem : issued_session platform manager draws ≡ issued
unfolding issued_session
issued_lem = refl

payload_carried :
    CarriesJson platform (session_payload "token" (platform.to_base64url draws.csrf_token))
payload_carried = toy-CarriesJson (session_payload "token" csrf_text)

authorize-authenticate_read_example :
    authorize platform manager signed_in get_request 2000 ≡ ok (signed_in, some granted_session)
authorize-authenticate_read_example =
    authorize-authenticate_read platform manager sign_in_input draws 1000
      (toy-IsAead (session_payload "token" csrf_text)) payload_carried empty_database signed_in 0
      issued get_request 2000 sign_in_stores cookie_decodes refl (omega arith) get_is_safe

authorize-authenticate_write_example :
    (db : Database) × (authorize platform manager signed_in post_request 2000
      ≡ ok (db, some granted_session))
    × (Store.find db (digest_of platform manager identifier)
        ≡ some (touched 2000 (min (2000 + idle_lifetime) (1000 + absolute_lifetime)) first_row))
authorize-authenticate_write_example =
    authorize-authenticate_write platform manager sign_in_input draws 1000
      (toy-IsAead (session_payload "token" csrf_text)) payload_carried empty_database signed_in 0
      issued post_request 2000 sign_in_stores cookie_decodes refl (omega arith)
      "https://app.example" post_is_unsafe refl refl refl csrf_decodes (omega arith)

authorize-revoke_example :
    authorize platform manager
      (revoke platform manager signed_in identifier_text 3000)
      get_request
      4000
    ≡ ok (revoke platform manager signed_in identifier_text 3000, none)
authorize-revoke_example =
    authorize-revoke platform manager signed_in identifier_text 3000 4000 get_request refl

-- Another sign-in of the same planner, with other random values.
abbrev second_draws : Draws
second_draws = record { identifier = csrf; csrf_token = iv; access_token_iv = iv; id = "second" }

abbrev second_input : AuthenticationInput
second_input = record {
  access_token = "token";
  planner_id = "planner";
  previous_identifier = some identifier_text;
}

abbrev signed_in_again : Database
signed_in_again = record empty_database {
  sessions =
      record first_row { revoked_at = some 5000 }
      ∷ record {
        new = new_session platform manager second_input second_draws 5001;
        revoked_at = none;
      }
      ∷ [];
}

second_sign_in :
    authenticate platform manager signed_in second_input second_draws 5000 5001
    ≡ (signed_in_again, ok (record { cookie_value = csrf_text; csrf_token = "CCCC" }))
unfolding authenticate Store.create Store.find Store.revoke decode_opaque new_session
second_sign_in = refl

authenticate-rotates_example :
    authorize platform manager signed_in_again get_request 6000 ≡ ok (signed_in_again, none)
authenticate-rotates_example =
    authenticate-rotates platform manager signed_in signed_in_again second_input second_draws 5000
      5001 6000 (record { cookie_value = csrf_text; csrf_token = "CCCC" }) identifier_text
      identifier first_row get_request second_sign_in refl cookie_decodes row_found refl

-- A request reads the session, and another one then revokes it.
abbrev before : System
before = record { database = signed_in; read = [] }

abbrev reading : System
reading = record { database = signed_in; read = first_row ∷ [] }

abbrev after : System
after = record {
  database = revoke_found platform manager signed_in (some first_row) 3000;
  read = first_row ∷ [];
}

before_after : Reach platform manager before after
before_after =
    next (next here (look_up (digest_of platform manager identifier) first_row row_found))
      (finish_revoke first_row 3000 mem-cons_self)

Reach-Persists_example : Persists (digest_of platform manager identifier) first_row after.database
Reach-Persists_example =
    Reach-Persists platform manager (digest_of platform manager identifier) first_row before_after
      row_found

absolute_reached : first_row.absolute_expires_at ≤ 700000000
unfolding new_session
absolute_reached = omega arith

Reach-refused_example :
    authorize platform manager after.database get_request 700000000 ≡ ok (after.database, none)
Reach-refused_example =
    Reach-refused platform manager identifier first_row get_request 700000000 row_found
      (inr absolute_reached) before_after cookie_decodes
