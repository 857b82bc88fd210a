-- ===== src/Web/Toy.antt =====
-- Concrete inputs for the tests of the web application, over a small stand-in for Node's functions.
use flash_trips.Prelude.{
  ℕ, zero, suc, ◌+◌, String, Bytes, none, some, [], ◌∷◌, replicate, str_eq, refl, if◌then◌else◌,
  arith,
}
use flash_trips.Json.{Json}
use flash_trips.Web.Platform.{Platform, IsAead, CarriesJson}
use flash_trips.Web.Store.{StoredSession, Database}
use flash_trips.Web.Session.{
  Manager, AuthenticationInput, AuthorizationInput, AuthorizedSession, IssuedSession, Draws,
  session_payload, new_session,
}

abbrev pub identifier_text : String
identifier_text = "AAAAAAAAAAAAAAAAAAAAAAAAAAAAAAAAAAAAAAAAAAA"

abbrev pub csrf_text : String
csrf_text = "BBBBBBBBBBBBBBBBBBBBBBBBBBBBBBBBBBBBBBBBBBB"

abbrev pub identifier : Bytes
identifier = replicate 32 1

abbrev pub csrf : Bytes
csrf = replicate 32 2

abbrev pub iv : Bytes
iv = replicate 12 3

-- Three byte strings have a text of their own; all others are read as one sealed document.
abbrev pub text_of : Bytes → String
text_of (suc zero ∷ _) = identifier_text
text_of (suc (suc zero) ∷ _) = csrf_text
text_of (suc (suc (suc zero)) ∷ _) = "CCCC"
text_of _ = "DDDD"

abbrev pub bytes_of : String → Bytes
bytes_of text =
    if str_eq text identifier_text
    then identifier
    else (if str_eq text csrf_text
        then csrf
        else (if str_eq text "CCCC" then iv else 7 ∷ replicate 16 0))

abbrev pub checksum : Bytes → ℕ
checksum [] = 0
checksum (x ∷ xs) = x + checksum xs

-- Encryption appends a constant tag, and the one document that parses is given.
abbrev pub toy : Json → Platform
toy document = record {
  hmac_sha256 = λ key message. replicate 32 (checksum message);
  encrypt = λ key iv aad plaintext. (plaintext, replicate 16 0);
  decrypt = λ key iv aad tag ciphertext. some ciphertext;
  sha256 = λ message. message;
  hkdf_sha256 = λ key info. key;
  to_base64url = text_of;
  from_base64url = bytes_of;
  stringify = λ value. 7 ∷ [];
  parse = λ text. some document;
}

pub toy-IsAead : (document : Json) → IsAead (toy document)
toy-IsAead document = record {
  tag_length = λ key iv aad plaintext. refl;
  ciphertext_length = λ key iv aad plaintext. refl;
  decrypt-encrypt = λ key iv aad plaintext. refl;
}

pub toy-CarriesJson : (document : Json) → CarriesJson (toy document) document
toy-CarriesJson document = record { nonempty = omega arith; parse-stringify = refl }

abbrev pub platform : Platform
platform = toy (session_payload "token" csrf_text)

abbrev pub manager : Manager
manager = record {
  allowed_origins = "https://app.example" ∷ [];
  digest_key = replicate 32 9;
  token_encryption_key = replicate 32 8;
}

abbrev pub empty_database : Database
empty_database = record { planners = "planner" ∷ []; sessions = [] }

abbrev pub sign_in_input : AuthenticationInput
sign_in_input = record {
  access_token = "token";
  planner_id = "planner";
  previous_identifier = none;
}

abbrev pub draws : Draws
draws = record { identifier = identifier; csrf_token = csrf; access_token_iv = iv; id = "first" }

abbrev pub first_row : StoredSession
first_row = record {
  new = new_session platform manager sign_in_input draws 1000;
  revoked_at = none;
}

abbrev pub signed_in : Database
signed_in = record empty_database { sessions = first_row ∷ [] }

abbrev pub issued : IssuedSession
issued = record { cookie_value = identifier_text; csrf_token = csrf_text }

abbrev pub get_request : AuthorizationInput
get_request = record {
  cookie_value = some identifier_text;
  csrf_token = none;
  method = "get";
  origin = none;
}

abbrev pub post_request : AuthorizationInput
post_request = record {
  cookie_value = some identifier_text;
  csrf_token = some csrf_text;
  method = "POST";
  origin = some "https://app.example";
}

abbrev pub granted_session : AuthorizedSession
granted_session = record {
  access_token = "token";
  csrf_token = csrf_text;
  planner_id = "planner";
  session_id = "first";
}
