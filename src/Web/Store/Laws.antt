-- ===== src/Web/Store/Laws.antt =====
-- Lookups and updates of the session table, statement by statement.
use flash_trips.Prelude.{
  ℕ, String, Bytes, true, false, none, some, List, [], ◌∷◌, ◌++◌, any, includes, ◌≡◌, refl, is_some,
  bytes_eq_iff, eq_iff, ok, arith,
}
use flash_trips.Web.Store.{
  NewStoredSession, StoredSession, Database, row_checks, conflicts, create, find_row, find,
  revoke_row, revoke_rows, touched, touch_rows, touch,
}

pub find_row-digest :
    (d : Bytes) (rows : List StoredSession) (r : StoredSession)
    → find_row d rows ≡ some r
    → r.identifier_digest ≡ d
unfolding find_row
find_row-digest d [] r e = cc
find_row-digest d (row ∷ rows) r e =
    ground (arith, bytes_eq_iff row.identifier_digest d, find_row-digest d rows r)

pub find_row-append_found :
    (d : Bytes) (xs ys : List StoredSession) (r : StoredSession)
    → find_row d xs ≡ some r
    → find_row d (xs ++ ys) ≡ some r
unfolding find_row
find_row-append_found d [] ys r e = cc
find_row-append_found d (x ∷ xs) ys r e = ground (arith, find_row-append_found d xs ys r)

pub find_row-append_missing :
    (d : Bytes) (xs ys : List StoredSession)
    → find_row d xs ≡ none
    → find_row d (xs ++ ys) ≡ find_row d ys
unfolding find_row
find_row-append_missing d [] ys e = refl
find_row-append_missing d (x ∷ xs) ys e = ground (arith, find_row-append_missing d xs ys)

-- A row that conflicts with no row has a digest that is not found.
pub find_row-fresh :
    (s : NewStoredSession) (rows : List StoredSession)
    → any (conflicts s) rows ≡ false
    → find_row s.identifier_digest rows ≡ none
unfolding find_row conflicts
find_row-fresh s [] h = refl
find_row-fresh s (row ∷ rows) h = ground (arith, find_row-fresh s rows)

pub revoke_row-digest :
    (id : String) (at : ℕ) (row : StoredSession)
    → (revoke_row id at row).identifier_digest ≡ row.identifier_digest
unfolding revoke_row
revoke_row-digest id at row = ground arith

pub find_row-revoke_rows :
    (d : Bytes) (id : String) (at : ℕ) (rows : List StoredSession) (r : StoredSession)
    → find_row d rows ≡ some r
    → find_row d (revoke_rows id at rows) ≡ some (revoke_row id at r)
unfolding find_row revoke_rows
find_row-revoke_rows d id at [] r e = cc
find_row-revoke_rows d id at (row ∷ rows) r e =
    ground (arith, revoke_row-digest id at row, find_row-revoke_rows d id at rows r)

-- Whatever row has the id is revoked afterwards.
pub revoke_row-revoked :
    (id : String) (at : ℕ) (r : StoredSession)
    → r.id ≡ id
    → is_some (revoke_row id at r).revoked_at ≡ true
unfolding revoke_row
revoke_row-revoked id at r e = ground (arith, eq_iff r.id id)

-- `create` succeeds exactly under the table's constraints, and then appends the row.
pub create-eq_ok :
    (db db' : Database) (s : NewStoredSession)
    → create db s ≡ ok db'
    → (row_checks s ≡ true)
      × (any (conflicts s) db.sessions ≡ false)
      × (includes s.planner_id db.planners ≡ true)
      × (db' ≡ record db { sessions = db.sessions ++ record { new = s; revoked_at = none } ∷ [] })
unfolding create
create-eq_ok db db' s e = ground arith

pub create-ok :
    (db : Database) (s : NewStoredSession)
    → row_checks s ≡ true
    → any (conflicts s) db.sessions ≡ false
    → includes s.planner_id db.planners ≡ true
    → create db s
      ≡ ok (record db { sessions = db.sessions ++ record { new = s; revoked_at = none } ∷ [] })
unfolding create
create-ok db s c u f = ground arith

pub find-create_found :
    (db db' : Database) (s : NewStoredSession) (d : Bytes) (r : StoredSession)
    → create db s ≡ ok db'
    → find db d ≡ some r
    → find db' d ≡ some r
unfolding find
find-create_found db db' s d r e f =
    let (_, _, _, appended) = create-eq_ok db db' s e in
    rw appended (find_row-append_found d db.sessions _ r f)

-- The row just inserted is the one that its digest finds.
pub find-create_new :
    (db db' : Database) (s : NewStoredSession)
    → create db s ≡ ok db'
    → find db' s.identifier_digest ≡ some (record { new = s; revoked_at = none })
unfolding find find_row
find-create_new db db' s e =
    let (_, fresh, _, appended) = create-eq_ok db db' s e in
    ground (
      arith,
      appended,
      find_row-append_missing s.identifier_digest db.sessions
          (record { new = s; revoked_at = none } ∷ []) (find_row-fresh s db.sessions fresh),
      bytes_eq_iff s.identifier_digest s.identifier_digest,
    )

touch_rows-fresh :
    (s : NewStoredSession) (seen idle : ℕ) (xs ys zs : List StoredSession)
    → any (conflicts s) xs ≡ false
    → touch_rows s.id seen idle ys ≡ ok zs
    → touch_rows s.id seen idle (xs ++ ys) ≡ ok (xs ++ zs)
unfolding touch_rows conflicts
touch_rows-fresh s seen idle [] ys zs h e = e
touch_rows-fresh s seen idle (x ∷ xs) ys zs h e =
    ground (arith, touch_rows-fresh s seen idle xs ys zs)

-- A touch of the row just inserted changes that row and no other.
pub touch-create :
    (db db' : Database) (s : NewStoredSession) (seen idle : ℕ)
    → create db s ≡ ok db'
    → row_checks (record s { last_seen_at = seen; idle_expires_at = idle }) ≡ true
    → touch db' s.id seen idle
      ≡ ok (record db {
        sessions = db.sessions ++ touched seen idle (record { new = s; revoked_at = none }) ∷ [];
      })
unfolding touch touch_rows
touch-create db db' s seen idle e checks =
    let (_, fresh, _, appended) = create-eq_ok db db' s e in
    ground (
      arith,
      appended,
      touch_rows-fresh s seen idle db.sessions (record { new = s; revoked_at = none } ∷ [])
          (touched seen idle (record { new = s; revoked_at = none }) ∷ []) fresh,
      eq_iff s.id s.id,
    )

pub find-touched :
    (db db' : Database) (s : NewStoredSession) (seen idle : ℕ)
    → create db s ≡ ok db'
    → let row = touched seen idle (record { new = s; revoked_at = none }) in
      find (record db { sessions = db.sessions ++ row ∷ [] }) s.identifier_digest ≡ some row
unfolding find find_row touched
find-touched db db' s seen idle e =
    let (_, fresh, _, _) = create-eq_ok db db' s e in
    ground (
      arith,
      find_row-append_missing s.identifier_digest db.sessions
          (touched seen idle (record { new = s; revoked_at = none }) ∷ [])
          (find_row-fresh s db.sessions fresh),
      bytes_eq_iff s.identifier_digest s.identifier_digest,
    )
