-- ===== src/Web/Session/Interleaving.antt =====
-- Requests served at the same time: session.ts awaits each statement, so that between the lookup of
-- a session and the write that follows it other requests may run. A step is one statement with the
-- code up to the next one.
use flash_trips.Prelude.{
  ℕ, ◌≤◌, Bytes, true, Option, none, some, List, ◌∷◌, ◌≡◌, is_some, Bool-cases, inl, inr, ◌⊎◌, ok,
  arith,
}
use mathlib.Core.List.{Mem}
use flash_trips.Web.Platform.{Platform}
use flash_trips.Web.Store
use flash_trips.Web.Store.{StoredSession, NewStoredSession, Database}
use flash_trips.Web.Store.Persistence.{
  Persists, Keeps-refl, Keeps-trans, revoke-Persists, create-Persists, touch-Persists,
}
use flash_trips.Web.Session.Access.{authorize_found-effect}
use flash_trips.Web.Session.{
  Manager, AuthenticationInput, AuthorizationInput, AuthorizedSession, Draws, is_usable, next_idle,
  decode_opaque, digest_of, authorize_found, authorize_decoded, authorize, revoke_found,
  new_session,
}

-- The database, and the sessions that requests under way have read.
pub record System : Type 0 where
  pub database : Database
  pub read : List StoredSession

module _ (p : Platform) (m : Manager) where
  pub data Step (s : System) : System → Type 0 where
    -- `find` of authorize or of revoke.
    look_up :
        (d : Bytes) (r : StoredSession)
        → Store.find s.database d ≡ some r
        → Step s (record s { read = r ∷ s.read })
    -- The rest of authorize, on what was read earlier.
    finish_authorize :
        (r : StoredSession) (identifier : Bytes) (input : AuthorizationInput) (now : ℕ)
        (db : Database) (a : Option AuthorizedSession)
        → Mem r s.read
        → authorize_found p m s.database (some r) identifier input now ≡ ok (db, a)
        → Step s (record s { database = db })
    -- The rest of revoke, on what was read earlier.
    finish_revoke :
        (r : StoredSession) (now : ℕ)
        → Mem r s.read
        → Step s (record s { database = revoke_found p m s.database (some r) now })
    -- The insertion of authenticate.
    sign_in :
        (input : AuthenticationInput) (draws : Draws) (now : ℕ) (db : Database)
        → Store.create s.database (new_session p m input draws now) ≡ ok db
        → Step s (record s { database = db })

  pub data Reach (s : System) : System → Type 0 where
    here : Reach s s
    next : {t u : System} → Reach s t → Step t u → Reach s u

  authorize_found-Persists :
      (db db' : Database) (s : StoredSession) (identifier : Bytes) (input : AuthorizationInput)
      (now : ℕ) (a : Option AuthorizedSession) (d : Bytes) (r : StoredSession)
      → authorize_found p m db (some s) identifier input now ≡ ok (db', a)
      → Store.find db d ≡ some r
      → Persists d r db'
  authorize_found-Persists db db' s identifier input now a d r e f =
      elim (authorize_found-effect p m db db' s identifier input now a e) [
        | inl same ↦ (r, rw same f, Keeps-refl r)
        | inr t ↦ touch-Persists db db' s.id now (next_idle now s) d r t f
      ]

  Step-Persists :
      {s t : System} (d : Bytes) (r : StoredSession)
      → Step s t
      → Store.find s.database d ≡ some r
      → Persists d r t.database
  unfolding revoke_found
  Step-Persists d r (look_up _ _ _) f = (r, f, Keeps-refl r)
  Step-Persists {s} d r (finish_authorize q identifier input now db a _ e) f =
      authorize_found-Persists s.database db q identifier input now a d r e f
  Step-Persists {s} d r (finish_revoke q now _) f = elim (Bool-cases (is_some q.revoked_at)) [
    | inl old ↦ rw (old, revoke_found) (r, f, Keeps-refl r)
    | inr live ↦ rw (live, revoke_found) (revoke-Persists s.database q.id now d r f)
  ]
  Step-Persists {s} d r (sign_in input draws now db e) f =
      create-Persists s.database db (new_session p m input draws now) d r e f

  -- However requests interleave, a stored session stays under its digest with the same planner,
  -- digests, ciphertext and absolute expiry, and from its revocation on it never changes again.
  pub Reach-Persists :
      {s t : System} (d : Bytes) (r : StoredSession)
      → Reach s t
      → Store.find s.database d ≡ some r
      → Persists d r t.database
  Reach-Persists d r here f = (r, f, Keeps-refl r)
  Reach-Persists d r (next reached step) f =
      let (q, found, kept) = Reach-Persists d r reached f in
      let (q', found', kept') = Step-Persists d q step found in
      (q', found', Keeps-trans r q q' kept kept')

  authorize_found-ended :
      (db : Database) (r : StoredSession) (identifier : Bytes) (input : AuthorizationInput)
      (now : ℕ)
      → (is_some r.revoked_at ≡ true) ⊎ (r.absolute_expires_at ≤ now)
      → authorize_found p m db (some r) identifier input now ≡ ok (db, none)
  unfolding authorize_found is_usable
  authorize_found-ended db r identifier input now h = ground arith

  -- A session that was revoked, or whose absolute expiry is reached, is refused to every request
  -- with its cookie, whatever other requests did in between, and the refusal changes nothing.
  pub Reach-refused :
      {s t : System} (identifier : Bytes) (r : StoredSession) (input : AuthorizationInput) (now : ℕ)
      → Store.find s.database (digest_of p m identifier) ≡ some r
      → (is_some r.revoked_at ≡ true) ⊎ (r.absolute_expires_at ≤ now)
      → Reach s t
      → decode_opaque p input.cookie_value ≡ some identifier
      → authorize p m t.database input now ≡ ok (t.database, none)
  unfolding authorize authorize_decoded
  Reach-refused {t} identifier r input now f ended reached c =
      let (q, found, kept) = Reach-Persists (digest_of p m identifier) r reached f in
      ground (
        arith,
        c,
        found,
        kept.final,
        kept.absolute,
        authorize_found-ended t.database q identifier input now,
      )
