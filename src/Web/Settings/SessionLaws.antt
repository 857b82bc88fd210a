-- ===== src/Web/Settings/SessionLaws.antt =====
-- The session manager that starts: its keys and the origins that it allows.
use mathlib.Core.Bool.{and-eq-true_iff}
use flash_trips.Prelude.{
  String, Bytes, Option, some, List, [], ◌∷◌, ◌≡◌, sym, subst, ap, ◌∙◌, ◌⊎◌, inl, inr, All, any,
  length, nat_eq, ok, >>=-eq-ok, guard-eq-ok, ok_injective, eq_iff, arith, str_eq, Bool-cases,
}
use flash_trips.Web.Platform.{Platform}
use flash_trips.Web.Session.{Manager, require_key, new_manager}
use flash_trips.Web.Settings.{Location, required, location, invalid_key, insecure_origin}
use flash_trips.Web.Settings.Laws.{location_lem, required_lem}
use flash_trips.Web.Settings.Sessions.{
  is_origin, key_from_environment, check_origin, check_origins, listed, is_blank,
  allowed_origins_from_environment, session_database, session_manager, constructed,
}

module _ (p : Platform) (env : String → Option String) (parse : String → Option Location) where
  -- The text is the origin of the URL that it is, which is over HTTPS or local.
  pub record IsAllowedOrigin (entry : String) : Type 0 where
    pub url : Location
    pub parsed : parse entry ≡ some url
    pub same_origin : url.origin ≡ entry
    pub secure : (url.protocol ≡ "https:") ⊎ (url.hostname ≡ "localhost")

  check_origin-IsAllowedOrigin :
      (entry : String) {origin : String}
      → check_origin p env parse entry ≡ ok origin
      → IsAllowedOrigin entry × (origin ≡ entry)
  unfolding check_origin
  check_origin-IsAllowedOrigin entry h =
      let (url, at, rest) = >>=-eq-ok (location env parse entry) _ h in
      let (test, done) = guard-eq-ok (is_origin entry url) insecure_origin _ rest in
      let (same, safe) = (and-eq-true_iff _ _).0 test in
      let here = (eq_iff url.origin entry).0 same in
      (
        record {
          url = url;
          parsed = location_lem env parse entry at;
          same_origin = here;
          secure = elim (Bool-cases (str_eq url.protocol "https:")) [
            | inl https ↦ inl ((eq_iff url.protocol "https:").0 https)
            | inr other ↦ inr ((eq_iff url.hostname "localhost").0 (ground arith))
          ];
        },
        sym (ok_injective done) ∙ here,
      )

  check_origins-IsAllowedOrigin :
      (entries : List String) {origins : List String}
      → check_origins p env parse entries ≡ ok origins
      → All IsAllowedOrigin entries × (origins ≡ entries)
  unfolding check_origins
  check_origins-IsAllowedOrigin [] h = (tt, sym (ok_injective h))
  check_origins-IsAllowedOrigin (entry ∷ entries) h =
      let (origin, first, h₁) = >>=-eq-ok (check_origin p env parse entry) _ h in
      let (origins, rest, h₂) = >>=-eq-ok (check_origins p env parse entries) _ h₁ in
      let (allowed, same) = check_origin-IsAllowedOrigin entry first in
      let (others, all_same) = check_origins-IsAllowedOrigin entries rest in
      ((allowed, others), ground (arith, ok_injective h₂, same, all_same))

  key_from_environment-length :
      (name : String) {key : Bytes}
      → key_from_environment p env parse name ≡ ok key
      → length key ≡ 32
  unfolding key_from_environment
  key_from_environment-length name h =
      let (value, set, rest) = >>=-eq-ok (required env parse name) _ h in
      let (long, done) =
        guard-eq-ok (nat_eq (length (p.from_base64url value)) 32) (invalid_key name) _ rest in
      ground (arith, ok_injective done, long)

  allowed_origins-IsAllowedOrigin :
      {origins : List String}
      → allowed_origins_from_environment p env parse ≡ ok origins
      → (configured : String) × (env "FLASH_TRIPS_ALLOWED_ORIGINS" ≡ some configured)
        × (origins ≡ listed configured)
        × All IsAllowedOrigin origins
  unfolding allowed_origins_from_environment
  allowed_origins-IsAllowedOrigin h =
      let (configured, set, rest) =
        >>=-eq-ok (required env parse "FLASH_TRIPS_ALLOWED_ORIGINS") _ h in
      let known = required_lem env parse "FLASH_TRIPS_ALLOWED_ORIGINS" set in
      elim (Bool-cases (any is_blank (listed configured))) [
        | inl blank ↦ absurd (ground (arith, blank))
        | inr filled ↦
            let (allowed, same) =
              check_origins-IsAllowedOrigin (listed configured) (ground (arith, filled)) in
            (configured, known, same, subst (All IsAllowedOrigin) (sym same) allowed)
      ]

  constructed_lem :
      (origins : List String) (digest_key token_key : Bytes) (m : Manager)
      → constructed (new_manager origins digest_key token_key) ≡ ok m
      → length digest_key ≡ 32
      → length token_key ≡ 32
      → (m.allowed_origins ≡ origins)
        × (m.digest_key ≡ digest_key)
        × (m.token_encryption_key ≡ token_key)
  unfolding new_manager require_key
  constructed_lem origins digest_key token_key m h d t = ground (arith, d, t)

  -- A session manager that starts allows exactly the origins listed in the environment, each of
  -- which is written as the origin of a URL over HTTPS or of the local host; and both of its keys
  -- have 32 bytes, so that the constructor refuses none.
  pub session_manager-eq-ok :
      (m : Manager)
      → session_manager p env parse ≡ ok m
      → (configured : String) × (env "FLASH_TRIPS_ALLOWED_ORIGINS" ≡ some configured)
        × (m.allowed_origins ≡ listed configured)
        × All IsAllowedOrigin m.allowed_origins
        × (length m.digest_key ≡ 32)
        × (length m.token_encryption_key ≡ 32)
  unfolding session_manager
  session_manager-eq-ok m h =
      let (origins, at_o, h₁) = >>=-eq-ok (allowed_origins_from_environment p env parse) _ h in
      let (digest_key, at_d, h₂) =
        >>=-eq-ok (key_from_environment p env parse "FLASH_TRIPS_SESSION_DIGEST_KEY") _ h₁ in
      let (database, _, h₃) = >>=-eq-ok (session_database p env parse) _ h₂ in
      let (token_key, at_t, h₄) =
        >>=-eq-ok (key_from_environment p env parse "FLASH_TRIPS_SESSION_TOKEN_KEY") _ h₃ in
      let d = key_from_environment-length "FLASH_TRIPS_SESSION_DIGEST_KEY" at_d in
      let t = key_from_environment-length "FLASH_TRIPS_SESSION_TOKEN_KEY" at_t in
      let (is_o, is_d, is_t) = constructed_lem origins digest_key token_key m h₄ d t in
      let (configured, set, same, allowed) = allowed_origins-IsAllowedOrigin at_o in
      (
        configured,
        set,
        is_o ∙ same,
        subst (All IsAllowedOrigin) (sym is_o) allowed,
        ap length is_d ∙ d,
        ap length is_t ∙ t,
      )
