-- ===== src/Web/Session.antt =====
-- apps/web/lib/server/session.ts: the ApplicationSessionManager.
-- The random values and the clock's readings are arguments; a database exception is `err`.
pub mod Access
pub mod Lifecycle
pub mod RoundTrip
pub mod Interleaving
use flash_trips.Prelude.{
  ℕ, ◌+◌, ◌-◌, String, Bytes, Bool, false, Option, none, some, List, [], ◌∷◌, ◌++◌, map, ◌&&◌, ◌||◌,
  not, length, take, drop, all, any, leb, nat_eq, bytes_eq, includes, codes, is_lower, is_upper,
  is_digit, to_upper, is_some, min, if◌then◌else◌, Result, ok, err, ◌>>=◌,
}
use flash_trips.Json.{Json, str, obj, end, field, string_member}
use flash_trips.Web.Policy.{absolute_lifetime, idle_lifetime}
use flash_trips.Web.Platform.{Platform}
use flash_trips.Web.Store
use flash_trips.Web.Store.{StoredSession, NewStoredSession, Database, Db}

pub record AuthenticationInput : Type 0 where
  pub access_token : String
  pub planner_id : String
  pub previous_identifier : Option String

pub record IssuedSession : Type 0 where
  pub cookie_value : String
  pub csrf_token : String

pub record AuthorizationInput : Type 0 where
  pub cookie_value : Option String
  pub csrf_token : Option String
  pub method : String
  pub origin : Option String

pub record AuthorizedSession : Type 0 where
  pub access_token : String
  pub csrf_token : String
  pub planner_id : String
  pub session_id : String

-- The fields of the manager that the constructor sets; the repository is the database.
pub record Manager : Type 0 where
  pub allowed_origins : List String
  pub digest_key : Bytes
  pub token_encryption_key : Bytes

-- What `authenticate` draws from randomBytes and randomUUID.
pub record Draws : Type 0 where
  pub identifier : Bytes
  pub csrf_token : Bytes
  pub access_token_iv : Bytes
  pub id : String

-- Thrown by the constructor for a key of the wrong length.
pub data KeyError : Type 0 where
  digest_key_length token_key_length : KeyError

unfoldable pub require_key : Bytes → KeyError → Result KeyError Bytes
require_key key e = if nat_eq (length key) 32 then ok key else err e

-- The constructor.
unfoldable pub new_manager : List String → Bytes → Bytes → Result KeyError Manager
unfolding require_key
new_manager origins digest_key token_key = do
  digest ← require_key digest_key digest_key_length
  token ← require_key token_key token_key_length
  ok (record { allowed_origins = origins; digest_key = digest; token_encryption_key = token })

-- A character of identifierPattern.
abbrev pub is_base64url : ℕ → Bool
is_base64url c = is_upper c || is_lower c || is_digit c || nat_eq c b'_' || nat_eq c b'-'

-- identifierPattern.test(value).
unfoldable pub matches_identifier : String → Bool
matches_identifier value = nat_eq (length (codes value)) 43 && all is_base64url (codes value)

abbrev pub safe_methods : List Bytes
safe_methods = codes "GET" ∷ codes "HEAD" ∷ codes "OPTIONS" ∷ []

-- safeMethods.has(method.toUpperCase()).
unfoldable pub is_safe : String → Bool
is_safe method = any (bytes_eq (map to_upper (codes method))) safe_methods

-- The comparisons of `authorize` on the session that it found.
unfoldable pub is_usable : ℕ → StoredSession → Bool
is_usable now s =
    not (is_some s.revoked_at || leb s.idle_expires_at now || leb s.absolute_expires_at now)

abbrev pub auth_tag_bytes : ℕ
auth_tag_bytes = 16

-- The JSON document that is encrypted.
unfoldable pub session_payload : String → String → Json
session_payload access csrf =
    obj (field "accessToken" (str access) (field "csrfToken" (str csrf) end))

-- The idle expiry that a touch stores.
unfoldable pub next_idle : ℕ → StoredSession → ℕ
next_idle now s = min (now + idle_lifetime) s.absolute_expires_at

module _ (p : Platform) where
  unfoldable pub decode_opaque : Option String → Option Bytes
  unfolding matches_identifier
  decode_opaque none = none
  decode_opaque (some value) =
      if matches_identifier value
      then (let decoded = p.from_base64url value in
          if nat_eq (length decoded) 32 then some decoded else none)
      else none

  module _ (m : Manager) where
    unfoldable pub digest_of : Bytes → Bytes
    digest_of identifier = p.hmac_sha256 m.digest_key identifier

    unfoldable pub csrf_digest_of : Bytes → Bytes → Bytes
    csrf_digest_of identifier csrf = p.hmac_sha256 m.digest_key (identifier ++ csrf)

    unfoldable pub csrf_matches : StoredSession → Bytes → Option Bytes → Bool
    unfolding csrf_digest_of
    csrf_matches s identifier none = false
    csrf_matches s identifier (some csrf) = bytes_eq s.csrf_digest (csrf_digest_of identifier csrf)

    -- validCsrf.
    unfoldable pub valid_csrf : StoredSession → Bytes → Option String → Bool
    unfolding decode_opaque csrf_matches
    valid_csrf s identifier value = csrf_matches s identifier (decode_opaque value)

    unfoldable pub revoke_found : Database → Option StoredSession → ℕ → Database
    revoke_found db none now = db
    revoke_found db (some s) now = if is_some s.revoked_at then db else Store.revoke db s.id now

    unfoldable pub revoke_decoded : Database → Option Bytes → ℕ → Database
    unfolding digest_of revoke_found
    revoke_decoded db none now = db
    revoke_decoded db (some identifier) now =
        revoke_found db (Store.find db (digest_of identifier)) now

    -- revoke: the clock is read only if there is a live session.
    unfoldable pub revoke : Database → String → ℕ → Database
    unfolding revoke_decoded decode_opaque
    revoke db cookie now = revoke_decoded db (decode_opaque (some cookie)) now

    unfoldable pub revoke_previous : Database → Option String → ℕ → Database
    unfolding revoke
    revoke_previous db none now = db
    revoke_previous db (some previous) now = revoke db previous now

    unfoldable pub seal_tokens : Bytes → Bytes → String → String → Bytes
    unfolding session_payload
    seal_tokens digest iv access csrf =
        let (ciphertext, tag) =
          p.encrypt m.token_encryption_key iv digest (p.stringify (session_payload access csrf)) in
        ciphertext ++ tag

    unfoldable pub new_session : AuthenticationInput → Draws → ℕ → NewStoredSession
    unfolding digest_of csrf_digest_of seal_tokens
    new_session input draws now = record {
      id = draws.id;
      planner_id = input.planner_id;
      identifier_digest = digest_of draws.identifier;
      csrf_digest = csrf_digest_of draws.identifier draws.csrf_token;
      access_token_ciphertext =
          seal_tokens (digest_of draws.identifier) draws.access_token_iv input.access_token
            (p.to_base64url draws.csrf_token);
      access_token_iv = draws.access_token_iv;
      created_at = now;
      last_seen_at = now;
      idle_expires_at = now + idle_lifetime;
      absolute_expires_at = now + absolute_lifetime;
    }

    -- The insertion of `authenticate`; where it throws, what was done before it stays.
    unfoldable pub issue : Database → NewStoredSession → IssuedSession → Database × Db IssuedSession
    issue db s issued = elim (Store.create db s) [
      | ok created ↦ (created, ok issued)
      | err e ↦ (db, err e)
    ]

    unfoldable pub issued_session : Draws → IssuedSession
    issued_session draws = record {
      cookie_value = p.to_base64url draws.identifier;
      csrf_token = p.to_base64url draws.csrf_token;
    }

    -- authenticate; `revoked_at` is the clock's reading while the previous session is revoked.
    unfoldable pub authenticate :
        Database → AuthenticationInput → Draws → ℕ → ℕ → Database × Db IssuedSession
    unfolding revoke_previous new_session issue issued_session
    authenticate db input draws revoked_at now =
        issue (revoke_previous db input.previous_identifier revoked_at)
          (new_session input draws now) (issued_session draws)

    unfoldable pub read_payload : StoredSession → Option Json → Option AuthorizedSession
    read_payload s none = none
    read_payload s (some payload) = elim (string_member "accessToken" payload) [
      | none ↦ none
      | some access ↦ elim (string_member "csrfToken" payload) [
        | none ↦ none
        | some csrf ↦ some (record {
          access_token = access;
          csrf_token = csrf;
          planner_id = s.planner_id;
          session_id = s.id;
        })
      ]
    ]

    abbrev pub parse_plaintext : Option Bytes → Option Json
    parse_plaintext none = none
    parse_plaintext (some plaintext) = p.parse plaintext

    -- The stored ciphertext without its tag, decrypted and parsed; none where any of it fails.
    unfoldable pub decrypt_tokens : StoredSession → Option Json
    decrypt_tokens s =
        let encrypted = s.access_token_ciphertext in
        let body = length encrypted - auth_tag_bytes in
        if leb (length encrypted) auth_tag_bytes
        then none
        else parse_plaintext (
            p.decrypt m.token_encryption_key s.access_token_iv s.identifier_digest
              (drop body encrypted) (take body encrypted))

    -- The second half of `authorize`.
    unfoldable pub open_tokens : StoredSession → Option AuthorizedSession
    unfolding read_payload decrypt_tokens
    open_tokens s = read_payload s (decrypt_tokens s)

    -- The test of an unsafe method: origin and CSRF token.
    unfoldable pub admits_write : StoredSession → Bytes → AuthorizationInput → Bool
    unfolding valid_csrf
    admits_write s identifier input = elim input.origin [
      | none ↦ false
      | some origin ↦ includes origin m.allowed_origins && valid_csrf s identifier input.csrf_token
    ]

    unfoldable pub authorize_write :
        Database
        → StoredSession
        → Bytes
        → AuthorizationInput
        → ℕ
        → Db (Database × Option AuthorizedSession)
    unfolding admits_write next_idle open_tokens
    authorize_write db s identifier input now =
        if admits_write s identifier input
        then (Store.touch db s.id now (next_idle now s) >>= λ db'. ok (db', open_tokens s))
        else ok (db, none)

    unfoldable pub authorize_found :
        Database
        → Option StoredSession
        → Bytes
        → AuthorizationInput
        → ℕ
        → Db (Database × Option AuthorizedSession)
    unfolding authorize_write is_usable is_safe
    authorize_found db none identifier input now = ok (db, none)
    authorize_found db (some s) identifier input now =
        if is_usable now s
        then (if is_safe input.method
            then ok (db, open_tokens s)
            else authorize_write db s identifier input now)
        else ok (db, none)

    unfoldable pub authorize_decoded :
        Database → Option Bytes → AuthorizationInput → ℕ → Db (Database × Option AuthorizedSession)
    unfolding authorize_found
    authorize_decoded db none input now = ok (db, none)
    authorize_decoded db (some identifier) input now =
        authorize_found db (Store.find db (digest_of identifier)) identifier input now

    -- authorize.
    unfoldable pub authorize :
        Database → AuthorizationInput → ℕ → Db (Database × Option AuthorizedSession)
    unfolding authorize_decoded decode_opaque
    authorize db input now = authorize_decoded db (decode_opaque input.cookie_value) input now
