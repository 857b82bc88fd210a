-- ===== src/Web/Store.antt =====
-- apps/web/lib/server/postgres-session-repository.ts over the table application_sessions, whose
-- constraints are those of the migration 0004_application_session.py. A time is in milliseconds.
pub mod Laws
pub mod Persistence
use flash_trips.Prelude.{
  ℕ, String, Bytes, Bool, Option, none, some, List, [], ◌∷◌, ◌++◌, ◌&&◌, ◌||◌, not, length, leb,
  ltb, nat_eq, any, includes, str_eq, bytes_eq, is_some, if◌then◌else◌, Result, ok, ◌>>=◌, ◌>>◌,
  guard,
}

pub record NewStoredSession : Type 0 where
  pub id : String
  pub planner_id : String
  pub identifier_digest : Bytes
  pub csrf_digest : Bytes
  pub access_token_ciphertext : Bytes
  pub access_token_iv : Bytes
  pub created_at : ℕ
  pub last_seen_at : ℕ
  pub idle_expires_at : ℕ
  pub absolute_expires_at : ℕ

pub record StoredSession : Type 0 where
  pub new : NewStoredSession
  pub open new use *
  pub revoked_at : Option ℕ

-- What a statement throws when it violates a constraint of the table.
pub data DatabaseError : Type 0 where
  check_violation unique_violation foreign_key_violation : DatabaseError

-- The rows of planners (their keys) and of application_sessions.
pub record Database : Type 0 where
  pub planners : List String
  pub sessions : List StoredSession

abbrev pub Db : Type 0 → Type 0
Db A = Result DatabaseError A

-- The CHECK constraints of the table.
unfoldable pub row_checks : NewStoredSession → Bool
row_checks s =
    nat_eq (length s.identifier_digest) 32
    && nat_eq (length s.csrf_digest) 32
    && nat_eq (length s.access_token_iv) 12
    && leb s.created_at s.last_seen_at
    && ltb s.last_seen_at s.idle_expires_at
    && ltb s.created_at s.absolute_expires_at

-- The primary key and the unique digest.
unfoldable pub conflicts : NewStoredSession → StoredSession → Bool
conflicts s row = str_eq row.id s.id || bytes_eq row.identifier_digest s.identifier_digest

-- INSERT INTO application_sessions.
unfoldable pub create : Database → NewStoredSession → Db Database
unfolding row_checks conflicts
create db s = do
  guard (row_checks s) check_violation
  guard (not (any (conflicts s) db.sessions)) unique_violation
  guard (includes s.planner_id db.planners) foreign_key_violation
  ok (record db { sessions = db.sessions ++ record { new = s; revoked_at = none } ∷ [] })

-- SELECT … WHERE identifier_digest = …, and the first row.
unfoldable pub find_row : Bytes → List StoredSession → Option StoredSession
find_row digest [] = none
find_row digest (row ∷ rows) =
    if bytes_eq row.identifier_digest digest then some row else find_row digest rows

unfoldable pub find : Database → Bytes → Option StoredSession
unfolding find_row
find db digest = find_row digest db.sessions

-- WHERE id = … AND revoked_at IS NULL.
unfoldable pub is_live_row : String → StoredSession → Bool
is_live_row id row = str_eq row.id id && not (is_some row.revoked_at)

unfoldable pub revoke_row : String → ℕ → StoredSession → StoredSession
unfolding is_live_row
revoke_row id at row = if is_live_row id row then record row { revoked_at = some at } else row

unfoldable pub revoke_rows : String → ℕ → List StoredSession → List StoredSession
unfolding revoke_row
revoke_rows id at [] = []
revoke_rows id at (row ∷ rows) = revoke_row id at row ∷ revoke_rows id at rows

-- UPDATE application_sessions SET revoked_at = ….
unfoldable pub revoke : Database → String → ℕ → Database
unfolding revoke_rows
revoke db id at = record db { sessions = revoke_rows id at db.sessions }

unfoldable pub touched : ℕ → ℕ → StoredSession → StoredSession
touched seen idle row = record row {
  new = record row.new { last_seen_at = seen; idle_expires_at = idle };
}

unfoldable pub touch_row : String → ℕ → ℕ → StoredSession → Db StoredSession
unfolding is_live_row touched row_checks
touch_row id seen idle row =
    if is_live_row id row
    then (guard (row_checks (touched seen idle row).new) check_violation
        >> ok (touched seen idle row))
    else ok row

unfoldable pub touch_rows : String → ℕ → ℕ → List StoredSession → Db (List StoredSession)
unfolding touch_row
touch_rows id seen idle [] = ok []
touch_rows id seen idle (row ∷ rows) = do
  row' ← touch_row id seen idle row
  rows' ← touch_rows id seen idle rows
  ok (row' ∷ rows')

-- UPDATE application_sessions SET last_seen_at = …, idle_expires_at = …; it throws, and changes no
-- row, if a changed row violates a check.
unfoldable pub touch : Database → String → ℕ → ℕ → Db Database
unfolding touch_rows
touch db id seen idle = do
  rows ← touch_rows id seen idle db.sessions
  ok (record db { sessions = rows })
