-- ===== src/Web/Settings/Sessions.antt =====
-- apps/web/lib/server/session-runtime.ts: the session manager that the server starts with.
use flash_trips.Prelude.{
  ℕ, String, Bytes, Bool, Option, none, some, List, [], ◌∷◌, ◌++◌, ◌&&◌, ◌||◌, map, any, length,
  is_some, nat_eq, codes, strip, split_on, trim, str_eq, if◌then◌else◌, Result, ok, err, ◌>>=◌,
  ◌>>◌, guard,
}
use flash_trips.Web.Platform.{Platform}
use flash_trips.Web.Session.{Manager, KeyError, new_manager}
use flash_trips.Web.Settings.{
  Location, SettingsError, required, location, invalid_key, refused_key, empty_origin,
  insecure_origin, not_postgres,
}

abbrev replaced : Option (List ℕ) → List ℕ → List ℕ → List ℕ
replaced none replacement unchanged = unchanged
replaced (some rest) replacement unchanged = replacement ++ rest

-- `text.replace(pattern, replacement)` for a pattern that is not empty: its first occurrence.
unfoldable pub replace_first : List ℕ → List ℕ → List ℕ → List ℕ
unfolding strip
replace_first pattern replacement [] = []
replace_first pattern replacement (c ∷ cs) =
    replaced (strip pattern (c ∷ cs)) replacement (c ∷ replace_first pattern replacement cs)

abbrev pub starts_with : List ℕ → List ℕ → Bool
starts_with text prefix = is_some (strip prefix text)

-- The constructor's errors among those of the settings.
abbrev pub constructed : Result KeyError Manager → Result SettingsError Manager
constructed (ok m) = ok m
constructed (err e) = err (refused_key e)

-- An origin over HTTPS, or of the local host.
abbrev pub is_origin : String → Location → Bool
is_origin entry url =
    str_eq url.origin entry && (str_eq url.protocol "https:" || str_eq url.hostname "localhost")

abbrev pub is_blank : String → Bool
is_blank entry = nat_eq (length (codes entry)) 0

abbrev pub listed : String → List String
listed configured = map trim (split_on b',' configured)

module _ (p : Platform) (env : String → Option String) (parse : String → Option Location) where
  -- keyFromEnvironment.
  unfoldable pub key_from_environment : String → Result SettingsError Bytes
  unfolding required
  key_from_environment name = required env parse name >>= λ value.
      let key = p.from_base64url value in
      guard (nat_eq (length key) 32) (invalid_key name) >> ok key

  unfoldable pub check_origin : String → Result SettingsError String
  unfolding location
  check_origin entry = location env parse entry >>= λ url.
      guard (is_origin entry url) insecure_origin >> ok url.origin

  unfoldable pub check_origins : List String → Result SettingsError (List String)
  unfolding check_origin
  check_origins [] = ok []
  check_origins (entry ∷ entries) =
      check_origin entry >>= λ origin. check_origins entries >>= λ origins. ok (origin ∷ origins)

  -- allowedOriginsFromEnvironment.
  unfoldable pub allowed_origins_from_environment : Result SettingsError (List String)
  unfolding required check_origins
  allowed_origins_from_environment =
      required env parse "FLASH_TRIPS_ALLOWED_ORIGINS" >>= λ configured.
      if any is_blank (listed configured)
      then err empty_origin
      else check_origins (listed configured)

  -- sessionDatabase, up to the connection: the code points of the URL.
  unfoldable pub session_database : Result SettingsError (List ℕ)
  unfolding required replace_first strip
  session_database = required env parse "DATABASE_URL" >>= λ configured.
      let value =
        replace_first (codes "postgresql+asyncpg://") (codes "postgresql://") (codes configured) in
      guard (starts_with value (codes "postgresql://") || starts_with value (codes "postgres://"))
        not_postgres
      >> ok value

  -- sessionManager, on its first call.
  unfoldable pub session_manager : Result SettingsError Manager
  unfolding allowed_origins_from_environment key_from_environment session_database new_manager
  session_manager = allowed_origins_from_environment >>= λ origins.
      key_from_environment "FLASH_TRIPS_SESSION_DIGEST_KEY" >>= λ digest_key.
      session_database >>= λ database.
      key_from_environment "FLASH_TRIPS_SESSION_TOKEN_KEY" >>= λ token_key.
      constructed (new_manager origins digest_key token_key)
