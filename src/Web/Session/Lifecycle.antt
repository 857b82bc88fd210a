-- ===== src/Web/Session/Lifecycle.antt =====
-- A session over its life: issued by authenticate, used by authorize, ended by revoke.
use flash_trips.Prelude.{
  ℕ, String, Bytes, true, none, some, inl, inr, ◌≡◌, refl, is_some, Bool-cases, Option-cases, ok,
  arith,
}
use flash_trips.Web.Platform.{Platform}
use flash_trips.Web.Store
use flash_trips.Web.Store.{
  NewStoredSession, StoredSession, Database, Db, touched, row_checks, find_row, revoke_row,
  revoke_rows, conflicts,
}
use flash_trips.Web.Store.Laws.{find_row-revoke_rows, revoke_row-revoked, find-create_found}
use flash_trips.Web.Session.{
  Manager, AuthenticationInput, AuthorizationInput, IssuedSession, Draws, is_usable, decode_opaque,
  digest_of, authorize_found, authorize_decoded, authorize, revoke, revoke_decoded, revoke_found,
  revoke_previous, authenticate, issue, issued_session, new_session,
}

module _ (p : Platform) (m : Manager) where
  -- A session that is marked revoked is refused, whatever the request.
  authorize_found-revoked :
      (db : Database) (s : StoredSession) (identifier : Bytes) (input : AuthorizationInput)
      (now : ℕ)
      → is_some s.revoked_at ≡ true
      → authorize_found p m db (some s) identifier input now ≡ ok (db, none)
  unfolding authorize_found is_usable
  authorize_found-revoked db s identifier input now h = ground arith

  -- What `revoke` leaves under a digest that it looked up.
  find-revoke :
      (db : Database) (cookie : String) (identifier : Bytes) (s : StoredSession) (now : ℕ)
      → decode_opaque p (some cookie) ≡ some identifier
      → Store.find db (digest_of p m identifier) ≡ some s
      → (r : StoredSession) × (Store.find (revoke p m db cookie now) (digest_of p m identifier)
          ≡ some r)
        × (is_some r.revoked_at ≡ true)
  unfolding revoke revoke_decoded revoke_found Store.find Store.revoke
  find-revoke db cookie identifier s now c f = elim (Bool-cases (is_some s.revoked_at)) [
    | inl old ↦ (s, ground arith, old)
    | inr live ↦ (
      revoke_row s.id now s,
      ground (arith, find_row-revoke_rows (digest_of p m identifier) s.id now db.sessions s f),
      revoke_row-revoked s.id now s refl,
    )
  ]

  revoke-unknown :
      (db : Database) (cookie : String) (identifier : Bytes) (now : ℕ)
      → decode_opaque p (some cookie) ≡ some identifier
      → Store.find db (digest_of p m identifier) ≡ none
      → revoke p m db cookie now ≡ db
  unfolding revoke revoke_decoded revoke_found
  revoke-unknown db cookie identifier now c f = ground arith

  -- After `revoke` every request with that cookie is refused, at any later time, with any method,
  -- origin and CSRF token, and the refusal changes nothing.
  pub authorize-revoke :
      (db : Database) (cookie : String) (now later : ℕ) (input : AuthorizationInput)
      → input.cookie_value ≡ some cookie
      → authorize p m (revoke p m db cookie now) input later ≡ ok (revoke p m db cookie now, none)
  unfolding authorize authorize_decoded
  authorize-revoke db cookie now later input e =
      elim (Option-cases (decode_opaque p (some cookie))) [
        | inl bad ↦ ground arith
        | inr (identifier, c) ↦ elim (Option-cases (Store.find db (digest_of p m identifier))) [
          | inl unknown ↦ unknown_case identifier c unknown
          | inr (s, f) ↦ known_case identifier c (find-revoke db cookie identifier s now c f)
        ]
      ]
    where
      after : Database
      after = revoke p m db cookie now

      unknown_case :
          (identifier : Bytes)
          → decode_opaque p (some cookie) ≡ some identifier
          → Store.find db (digest_of p m identifier) ≡ none
          → authorize p m after input later ≡ ok (after, none)
      unknown_case identifier c unknown =
          ground (arith, revoke-unknown db cookie identifier now c unknown)

      known_case :
          (identifier : Bytes)
          → decode_opaque p (some cookie) ≡ some identifier
          → (r : StoredSession) × (Store.find after (digest_of p m identifier) ≡ some r)
            × (is_some r.revoked_at ≡ true)
          → authorize p m after input later ≡ ok (after, none)
      known_case identifier c (r, found, revoked) =
          ground (arith, authorize_found-revoked after r identifier input later revoked)

  issue-eq_ok :
      (db db' : Database) (s : NewStoredSession) (given issued : IssuedSession)
      → issue p m db s given ≡ (db', ok issued)
      → (Store.create db s ≡ ok db') × (issued ≡ given)
  unfolding issue
  issue-eq_ok db db' s given issued e = ground arith

  -- The database and the answer of a successful `authenticate`.
  pub authenticate-eq_ok :
      (db db' : Database) (input : AuthenticationInput) (draws : Draws) (t now : ℕ)
      (issued : IssuedSession)
      → authenticate p m db input draws t now ≡ (db', ok issued)
      → (Store.create
            (revoke_previous p m db input.previous_identifier t)
            (new_session p m input draws now)
          ≡ ok db')
        × (issued ≡ issued_session p m draws)
  unfolding authenticate
  authenticate-eq_ok db db' input draws t now issued e =
      issue-eq_ok (revoke_previous p m db input.previous_identifier t) db'
        (new_session p m input draws now) (issued_session p m draws) issued e

  -- Signing in again ends the previous session: once `authenticate` has succeeded, every request
  -- with the cookie of a session that was stored before, and that was passed as the previous
  -- identifier, is refused at any time and changes nothing.
  pub authenticate-rotates :
      (db db' : Database) (input : AuthenticationInput) (draws : Draws) (t now later : ℕ)
      (issued : IssuedSession) (cookie : String) (identifier : Bytes) (s : StoredSession)
      (request : AuthorizationInput)
      → authenticate p m db input draws t now ≡ (db', ok issued)
      → input.previous_identifier ≡ some cookie
      → decode_opaque p (some cookie) ≡ some identifier
      → Store.find db (digest_of p m identifier) ≡ some s
      → request.cookie_value ≡ some cookie
      → authorize p m db' request later ≡ ok (db', none)
  unfolding authorize authorize_decoded revoke_previous
  authenticate-rotates db db' input draws t now later issued cookie identifier s request e prev c f
        r =
      let created = (authenticate-eq_ok db db' input draws t now issued e).0 in
      let (row, found, revoked) = find-revoke db cookie identifier s t c f in
      ground (
        arith,
        find-create_found (revoke p m db cookie t) db' (new_session p m input draws now)
            (digest_of p m identifier) row,
        authorize_found-revoked db' row identifier request later revoked,
      )
