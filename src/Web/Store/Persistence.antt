-- ===== src/Web/Store/Persistence.antt =====
-- What no statement on application_sessions changes in a stored row.
use flash_trips.Prelude.{
  ℕ, String, Bytes, true, some, List, [], ◌∷◌, ◌≡◌, refl, ◌∙◌, is_some, ok, arith, Bool-cases,
  bytes_eq, >>=-eq-ok, inl, inr,
}
use flash_trips.Web.Store.{
  NewStoredSession, StoredSession, Database, create, find_row, find, revoke_row, revoke, touch_row,
  touch_rows, touch,
}
use flash_trips.Web.Store.Laws.{find_row-revoke_rows, find-create_found}

-- `r'` is `r` at a later time: all but the last-seen time, the idle expiry and the revocation are
-- the same, and once revoked the row is the same altogether.
pub record Keeps (r r' : StoredSession) : Type 0 where
  pub id : r'.id ≡ r.id
  pub planner : r'.planner_id ≡ r.planner_id
  pub identifier : r'.identifier_digest ≡ r.identifier_digest
  pub csrf : r'.csrf_digest ≡ r.csrf_digest
  pub ciphertext : r'.access_token_ciphertext ≡ r.access_token_ciphertext
  pub iv : r'.access_token_iv ≡ r.access_token_iv
  pub created : r'.created_at ≡ r.created_at
  pub absolute : r'.absolute_expires_at ≡ r.absolute_expires_at
  pub final : is_some r.revoked_at ≡ true → r' ≡ r

pub Keeps-refl : (r : StoredSession) → Keeps r r
Keeps-refl r = record {
  id = refl;
  planner = refl;
  identifier = refl;
  csrf = refl;
  ciphertext = refl;
  iv = refl;
  created = refl;
  absolute = refl;
  final = λ h. refl;
}

pub Keeps-trans : (a b c : StoredSession) → Keeps a b → Keeps b c → Keeps a c
Keeps-trans a b c k l = record {
  id = l.id ∙ k.id;
  planner = l.planner ∙ k.planner;
  identifier = l.identifier ∙ k.identifier;
  csrf = l.csrf ∙ k.csrf;
  ciphertext = l.ciphertext ∙ k.ciphertext;
  iv = l.iv ∙ k.iv;
  created = l.created ∙ k.created;
  absolute = l.absolute ∙ k.absolute;
  final = λ h. ground (arith, k.final h, l.final);
}

revoke_row-Keeps : (id : String) (at : ℕ) (r : StoredSession) → Keeps r (revoke_row id at r)
unfolding revoke_row
revoke_row-Keeps id at r = ground arith

touch_row-Keeps :
    (id : String) (seen idle : ℕ) (r r' : StoredSession)
    → touch_row id seen idle r ≡ ok r'
    → Keeps r r'
unfolding touch_row
touch_row-Keeps id seen idle r r' e = ground arith

-- The row that a digest finds, before and after.
abbrev pub Persists : Bytes → StoredSession → Database → Type 0
Persists d r db' = (r' : StoredSession) × (find db' d ≡ some r') × Keeps r r'

pub revoke-Persists :
    (db : Database) (id : String) (at : ℕ) (d : Bytes) (r : StoredSession)
    → find db d ≡ some r
    → Persists d r (revoke db id at)
unfolding find revoke
revoke-Persists db id at d r f =
    (revoke_row id at r, find_row-revoke_rows d id at db.sessions r f, revoke_row-Keeps id at r)

pub create-Persists :
    (db db' : Database) (s : NewStoredSession) (d : Bytes) (r : StoredSession)
    → create db s ≡ ok db'
    → find db d ≡ some r
    → Persists d r db'
create-Persists db db' s d r e f = (r, find-create_found db db' s d r e f, Keeps-refl r)

touch_rows-eq_ok :
    (id : String) (seen idle : ℕ) (row : StoredSession) (rows rows' : List StoredSession)
    → touch_rows id seen idle (row ∷ rows) ≡ ok rows'
    → (row' : StoredSession) × (rest : List StoredSession) × (touch_row id seen idle row ≡ ok row')
      × (touch_rows id seen idle rows ≡ ok rest)
      × (rows' ≡ row' ∷ rest)
unfolding touch_rows
touch_rows-eq_ok id seen idle row rows rows' e =
    let (row', first, later) = >>=-eq-ok (touch_row id seen idle row) _ e in
    let (rest, others, same) = >>=-eq-ok (touch_rows id seen idle rows) _ later in
    (row', rest, first, others, cc)

touch_rows-Persists :
    (id : String) (seen idle : ℕ) (d : Bytes) (rows rows' : List StoredSession) (r : StoredSession)
    → touch_rows id seen idle rows ≡ ok rows'
    → find_row d rows ≡ some r
    → (r' : StoredSession) × (find_row d rows' ≡ some r') × Keeps r r'
unfolding find_row
touch_rows-Persists id seen idle d [] rows' r e f = cc
touch_rows-Persists id seen idle d (row ∷ rows) rows' r e f =
    let (row', rest, first, others, same) = touch_rows-eq_ok id seen idle row rows rows' e in
    let kept = touch_row-Keeps id seen idle row row' first in
    elim (Bool-cases (bytes_eq row.identifier_digest d)) [
      | inl hit ↦ (
        row',
        rw (same, kept.identifier, hit),
        (let e' : row ≡ r = ground arith in rw (← e') kept),
      )
      | inr miss ↦
          let (r', found, keeps) =
            touch_rows-Persists id seen idle d rows rest r others (ground arith) in
          (r', rw (same, kept.identifier, miss) found, keeps)
    ]

pub touch-Persists :
    (db db' : Database) (id : String) (seen idle : ℕ) (d : Bytes) (r : StoredSession)
    → touch db id seen idle ≡ ok db'
    → find db d ≡ some r
    → Persists d r db'
unfolding find touch
touch-Persists db db' id seen idle d r e f =
    let (rows', updated, same) = >>=-eq-ok (touch_rows id seen idle db.sessions) _ e in
    let (r', found, kept) = touch_rows-Persists id seen idle d db.sessions rows' r updated f in
    (r', ground arith, kept)
