-- ===== src/Web/Session/Access.antt =====
-- What a request has shown when ApplicationSessionManager.authorize lets it through.
use flash_trips.Prelude.{
  ◌⊎◌, >>=-eq-ok, ℕ, ◌<◌, String, Bytes, true, false, Option, none, some, includes, ◌≡◌, refl, inl,
  inr, bytes_eq_iff, Bool-cases, Option-cases, ok, arith,
}
use flash_trips.Json.{Json}
use flash_trips.Web.Platform.{Platform}
use flash_trips.Web.Store
use flash_trips.Web.Store.{StoredSession, Database, Db}
use flash_trips.Web.Session.{
  Manager, AuthorizationInput, AuthorizedSession, is_safe, is_usable, next_idle, decode_opaque,
  digest_of, csrf_digest_of, csrf_matches, valid_csrf, admits_write, open_tokens, read_payload,
  decrypt_tokens, authorize_write, authorize_found, authorize_decoded, authorize,
}

module _ (p : Platform) (m : Manager) where
  -- The proof of a request to write: a listed origin, and a CSRF token that was bound to this
  -- session's identifier.
  pub record HasProof (s : StoredSession) (identifier : Bytes) (input : AuthorizationInput)
      : Type 0 where
    pub origin : String
    pub origin_given : input.origin ≡ some origin
    pub origin_allowed : includes origin m.allowed_origins ≡ true
    pub csrf : Bytes
    pub csrf_given : decode_opaque p input.csrf_token ≡ some csrf
    pub csrf_bound : csrf_digest_of p m identifier csrf ≡ s.csrf_digest

  -- Everything that holds when a request is authorized: `db` before, `db'` after.
  pub record Granted (db db' : Database) (input : AuthorizationInput) (now : ℕ)
      (a : AuthorizedSession) : Type 0 where
    pub identifier : Bytes
    pub session : StoredSession
    pub cookie : decode_opaque p input.cookie_value ≡ some identifier
    pub stored : Store.find db (digest_of p m identifier) ≡ some session
    pub not_revoked : session.revoked_at ≡ none
    pub not_idle : now < session.idle_expires_at
    pub not_expired : now < session.absolute_expires_at
    pub planner : a.planner_id ≡ session.planner_id
    pub session_id : a.session_id ≡ session.id
    pub read_only : is_safe input.method ≡ true → db' ≡ db
    pub proved : is_safe input.method ≡ false → HasProof session identifier input
    pub touched :
        is_safe input.method ≡ false
        → Store.touch db session.id now (next_idle now session) ≡ ok db'

  is_usable_sound :
      (now : ℕ) (s : StoredSession)
      → is_usable now s ≡ true
      → (s.revoked_at ≡ none) × (now < s.idle_expires_at) × (now < s.absolute_expires_at)
  unfolding is_usable
  is_usable_sound now s h = ground arith

  csrf_matches_sound :
      (s : StoredSession) (identifier : Bytes) (o : Option Bytes)
      → csrf_matches p m s identifier o ≡ true
      → (csrf : Bytes) × (o ≡ some csrf) × (csrf_digest_of p m identifier csrf ≡ s.csrf_digest)
  unfolding csrf_matches
  csrf_matches_sound s identifier none h = cc
  csrf_matches_sound s identifier (some csrf) h =
      (csrf, refl, ground (arith, bytes_eq_iff s.csrf_digest (csrf_digest_of p m identifier csrf)))

  admits_write_sound :
      (s : StoredSession) (identifier : Bytes) (input : AuthorizationInput)
      → admits_write p m s identifier input ≡ true
      → HasProof s identifier input
  unfolding admits_write valid_csrf
  admits_write_sound s identifier input h = elim (Option-cases input.origin) [
    | inl e ↦ absurd (ground arith)
    | inr (origin, e) ↦
        let (csrf, given, bound) =
          csrf_matches_sound s identifier (decode_opaque p input.csrf_token) (ground arith) in
        record {
          origin = origin;
          origin_given = e;
          origin_allowed = ground arith;
          csrf = csrf;
          csrf_given = given;
          csrf_bound = bound;
        }
  ]

  read_payload_sound :
      (s : StoredSession) (o : Option Json) (a : AuthorizedSession)
      → read_payload p m s o ≡ some a
      → (a.planner_id ≡ s.planner_id) × (a.session_id ≡ s.id)
  unfolding read_payload
  read_payload_sound s none a e = cc
  read_payload_sound s (some v) a e = ground arith

  open_tokens_sound :
      (s : StoredSession) (a : AuthorizedSession)
      → open_tokens p m s ≡ some a
      → (a.planner_id ≡ s.planner_id) × (a.session_id ≡ s.id)
  unfolding open_tokens
  open_tokens_sound s a e = read_payload_sound s (decrypt_tokens p m s) a e

  authorize_write_sound :
      (db db' : Database) (s : StoredSession) (identifier : Bytes) (input : AuthorizationInput)
      (now : ℕ) (a : AuthorizedSession)
      → authorize_write p m db s identifier input now ≡ ok (db', some a)
      → HasProof s identifier input
        × (Store.touch db s.id now (next_idle now s) ≡ ok db')
        × (open_tokens p m s ≡ some a)
  unfolding authorize_write
  authorize_write_sound db db' s identifier input now a e =
      elim (Bool-cases (admits_write p m s identifier input)) [
        | inl yes' ↦ (admits_write_sound s identifier input yes', ground arith, ground arith)
        | inr no' ↦ absurd (ground arith)
      ]

  authorize_found_sound :
      (db db' : Database) (s : StoredSession) (identifier : Bytes) (input : AuthorizationInput)
      (now : ℕ) (a : AuthorizedSession)
      → decode_opaque p input.cookie_value ≡ some identifier
      → Store.find db (digest_of p m identifier) ≡ some s
      → authorize_found p m db (some s) identifier input now ≡ ok (db', some a)
      → Granted db db' input now a
  unfolding authorize_found
  authorize_found_sound db db' s identifier input now a c f e =
      let usable : is_usable now s ≡ true = ground arith in
      let (live, idle, absolute) = is_usable_sound now s usable in
      let opened : open_tokens p m s ≡ some a =
        ground (arith, authorize_write_sound db db' s identifier input now a) in
      let (planner, id) = open_tokens_sound s a opened in
      record {
        identifier = identifier;
        session = s;
        cookie = c;
        stored = f;
        not_revoked = live;
        not_idle = idle;
        not_expired = absolute;
        planner = planner;
        session_id = id;
        read_only = λ h. ground arith;
        proved = λ h. (authorize_write_sound db db' s identifier input now a (ground arith)).0;
        touched = λ h. (authorize_write_sound db db' s identifier input now a (ground arith)).1;
      }

  -- A request is authorized only if its cookie decodes to an identifier whose digest is stored, for
  -- a session that is not revoked and has reached neither expiry; the answer names that session and
  -- its planner. A safe method leaves the database as it was; any other method also came from an
  -- allowed origin with a CSRF token bound to the same identifier, and the database is then the one
  -- after the session's idle expiry was moved.
  pub authorize-Granted :
      (db db' : Database) (input : AuthorizationInput) (now : ℕ) (a : AuthorizedSession)
      → authorize p m db input now ≡ ok (db', some a)
      → Granted db db' input now a
  unfolding authorize authorize_decoded
  authorize-Granted db db' input now a e =
      elim (Option-cases (decode_opaque p input.cookie_value)) [
        | inl no_cookie ↦ absurd (ground arith)
        | inr (identifier, c) ↦ elim (Option-cases (Store.find db (digest_of p m identifier))) [
          | inl unknown ↦ absurd (ground arith)
          | inr (s, f) ↦ authorize_found_sound db db' s identifier input now a c f (ground arith)
        ]
      ]

  authorize_write-effect :
      (db db' : Database) (s : StoredSession) (identifier : Bytes) (input : AuthorizationInput)
      (now : ℕ) (a : Option AuthorizedSession)
      → authorize_write p m db s identifier input now ≡ ok (db', a)
      → (db' ≡ db) ⊎ (Store.touch db s.id now (next_idle now s) ≡ ok db')
  unfolding authorize_write
  authorize_write-effect db db' s identifier input now a e =
      elim (Bool-cases (admits_write p m s identifier input)) [
        | inl proved ↦
            let (touched, t, same) =
              >>=-eq-ok (Store.touch db s.id now (next_idle now s)) _
                (rw (proved, authorize_write) at e) in
            inr (ground arith)
        | inr refused ↦ inl (ground arith)
      ]

  -- Whatever it answers, the rest of `authorize` leaves the database alone or makes the one touch.
  pub authorize_found-effect :
      (db db' : Database) (s : StoredSession) (identifier : Bytes) (input : AuthorizationInput)
      (now : ℕ) (a : Option AuthorizedSession)
      → authorize_found p m db (some s) identifier input now ≡ ok (db', a)
      → (db' ≡ db) ⊎ (Store.touch db s.id now (next_idle now s) ≡ ok db')
  unfolding authorize_found
  authorize_found-effect db db' s identifier input now a e = elim (Bool-cases (is_usable now s)) [
    | inl live ↦ elim (Bool-cases (is_safe input.method)) [
      | inl safe ↦ inl (ground arith)
      | inr unsafe ↦ authorize_write-effect db db' s identifier input now a (ground arith)
    ]
    | inr dead ↦ inl (ground arith)
  ]
