-- ===== src/Web/Transaction.antt =====
-- apps/web/lib/server/oidc-transaction.ts: the sealed cookie that carries a sign-in attempt.
pub mod Laws
use flash_trips.Prelude.{
  ℕ, ◌+◌, ◌-◌, ◌*◌, String, Bytes, Bool, true, false, Option, none, some, List, [], ◌∷◌, ◌++◌,
  length, take, drop, leb, ltb, nat_eq, ◌||◌, not, ◌+++◌, split_on, if◌then◌else◌, Result, ok, err,
}
use flash_trips.Json.{Json, str, num, obj, end, field, string_member, number_member}
use flash_trips.Web.Policy.{milliseconds_per_second}
use flash_trips.Web.Platform.{Platform}

pub record OidcTransaction : Type 0 where
  pub code_verifier : String
  pub nonce : String
  pub state : String

abbrev pub lifetime_seconds : ℕ
lifetime_seconds = 10 * 60

abbrev pub lifetime : ℕ
lifetime = lifetime_seconds * milliseconds_per_second

abbrev pub authentication_tag_bytes : ℕ
authentication_tag_bytes = 16

-- oidcTransactionCookie.name.
abbrev pub transaction_cookie_name : String
transaction_cookie_name = "__Host-flash_trips_oidc"

-- Thrown for a master key of the wrong length.
pub data MasterKeyError : Type 0 where
  master_key_length : MasterKeyError

-- The document that is sealed.
unfoldable pub stored_transaction : OidcTransaction → ℕ → Json
stored_transaction t expires_at = obj (
    field "codeVerifier" (str t.code_verifier) (
      field "nonce" (str t.nonce)
        (field "state" (str t.state) (field "expiresAt" (num expires_at) end))))

-- The shape test of `open` and its comparison with the clock.
unfoldable pub read_transaction :
    ℕ → Option String → Option String → Option String → Option ℕ → Option OidcTransaction
read_transaction now (some verifier) (some nonce) (some state) (some expires_at) =
    if ltb expires_at now
    then none
    else some (record { code_verifier = verifier; nonce = nonce; state = state })
read_transaction now _ _ _ _ = none

unfoldable pub read_payload : ℕ → Option Json → Option OidcTransaction
unfolding read_transaction
read_payload now none = none
read_payload now (some payload) =
    read_transaction now (string_member "codeVerifier" payload) (string_member "nonce" payload)
      (string_member "state" payload) (number_member "expiresAt" payload)

module _ (p : Platform) where
  -- transactionKey.
  unfoldable pub transaction_key : Bytes → Result MasterKeyError Bytes
  transaction_key master =
      if nat_eq (length master) 32
      then ok (p.hkdf_sha256 master "flash-trips-oidc-transaction-v1")
      else err master_key_length

  module _ (key : Bytes) where
    unfoldable pub seal_payload : Bytes → Json → Bytes
    seal_payload iv payload =
        let (ciphertext, tag) = p.encrypt key iv [] (p.stringify payload) in ciphertext ++ tag

    -- seal, with the random IV and the clock's reading.
    unfoldable pub seal : Bytes → ℕ → OidcTransaction → String
    unfolding seal_payload stored_transaction
    seal iv now t =
        p.to_base64url iv
        +++ ("." +++ p.to_base64url (seal_payload iv (stored_transaction t (now + lifetime))))

    abbrev pub parse_plaintext : Option Bytes → Option Json
    parse_plaintext none = none
    parse_plaintext (some plaintext) = p.parse plaintext

    -- The IV and the ciphertext with its tag, decrypted and parsed.
    unfoldable pub decrypt_parts : Bytes → Bytes → Option Json
    decrypt_parts iv encrypted =
        let body = length encrypted - authentication_tag_bytes in
        if not (nat_eq (length iv) 12) || leb (length encrypted) authentication_tag_bytes
        then none
        else parse_plaintext (p.decrypt key iv [] (drop body encrypted) (take body encrypted))

    unfoldable pub open_parts : List String → ℕ → Option OidcTransaction
    unfolding decrypt_parts read_payload
    open_parts (iv ∷ ciphertext ∷ []) now =
        read_payload now (decrypt_parts (p.from_base64url iv) (p.from_base64url ciphertext))
    open_parts _ now = none

    -- open.
    unfoldable pub open_cookie : Option String → ℕ → Option OidcTransaction
    unfolding open_parts split_on
    open_cookie none now = none
    open_cookie (some value) now = open_parts (split_on b'.' value) now
