-- ===== src/Web/Platform.antt =====
-- What apps/web takes from Node (node:crypto, Buffer, JSON) and does not implement itself:
-- the functions are parameters of the model.
use flash_trips.Prelude.{◌<◌, ◌≡◌, Bytes, String, Option, some, length}
use flash_trips.Json.{Json}

pub record Platform : Type 0 where
  -- HMAC-SHA256 under a key; successive updates are the message's parts, appended.
  pub hmac_sha256 : Bytes → Bytes → Bytes
  -- AES-256-GCM: key, IV, additional data, plaintext; the ciphertext and the tag.
  pub encrypt : Bytes → Bytes → Bytes → Bytes → Bytes × Bytes
  -- key, IV, additional data, tag, ciphertext; none where `final` throws.
  pub decrypt : Bytes → Bytes → Bytes → Bytes → Bytes → Option Bytes
  pub sha256 : Bytes → Bytes
  pub hkdf_sha256 : Bytes → String → Bytes
  pub to_base64url : Bytes → String
  pub from_base64url : String → Bytes
  -- `JSON.stringify` to UTF-8, and `JSON.parse` of UTF-8; none where it throws.
  pub stringify : Json → Bytes
  pub parse : Bytes → Option Json

-- What GCM promises: a tag of 16 bytes, a ciphertext as long as the plaintext, and that decryption
-- under the same key, IV and additional data gives the plaintext back.
pub record IsAead (p : Platform) : Type 0 where
  pub tag_length : (key iv aad plaintext : Bytes) → length (p.encrypt key iv aad plaintext).1 ≡ 16
  pub ciphertext_length :
      (key iv aad plaintext : Bytes) → length (p.encrypt key iv aad plaintext).0 ≡ length plaintext
  pub decrypt-encrypt :
      (key iv aad plaintext : Bytes)
      → p.decrypt key iv aad (p.encrypt key iv aad plaintext).1 (p.encrypt key iv aad plaintext).0
        ≡ some plaintext

-- The value's JSON text is not empty, and parses to the value.
pub record CarriesJson (p : Platform) (value : Json) : Type 0 where
  pub nonempty : 0 < length (p.stringify value)
  pub parse-stringify : p.parse (p.stringify value) ≡ some value
