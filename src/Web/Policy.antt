-- ===== src/Web/Policy.antt =====
-- apps/web/lib/server/session-policy.ts.
use flash_trips.Prelude.{ℕ, ◌*◌, String}

abbrev pub milliseconds_per_second : ℕ
milliseconds_per_second = 1000

-- applicationSession.absoluteLifetimeSeconds: seven days.
abbrev pub absolute_lifetime_seconds : ℕ
absolute_lifetime_seconds = 7 * 24 * 60 * 60

-- applicationSession.idleLifetimeSeconds: twelve hours.
abbrev pub idle_lifetime_seconds : ℕ
idle_lifetime_seconds = 12 * 60 * 60

abbrev pub absolute_lifetime : ℕ
absolute_lifetime = absolute_lifetime_seconds * milliseconds_per_second

abbrev pub idle_lifetime : ℕ
idle_lifetime = idle_lifetime_seconds * milliseconds_per_second

-- applicationSession.cookieName.
abbrev pub session_cookie_name : String
session_cookie_name = "__Host-flash_trips_session"
