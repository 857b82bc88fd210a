-- ===== src/Web/Session/RoundTrip.antt =====
-- The tokens of session.ts: what authenticate seals, authorize opens.
use flash_trips.Prelude.{
  ℕ, ◌+◌, ◌-◌, ◌<◌, ◌≤◌, String, Bytes, true, false, none, some, [], ◌∷◌, ◌++◌, length, min,
  take-append, drop-append, length-append, includes, ◌≡◌, refl, bytes_eq_iff, leb, ok, arith,
}
use flash_trips.Json.{string_member}
use flash_trips.Web.Policy.{idle_lifetime, absolute_lifetime}
use flash_trips.Web.Platform.{Platform, IsAead, CarriesJson}
use flash_trips.Web.Store
use flash_trips.Web.Store.{
  NewStoredSession, StoredSession, Database, Db, touched, row_checks, find_row, revoke_row,
  revoke_rows, conflicts,
}
use flash_trips.Web.Store.Laws.{create-eq_ok, find-create_new, find-touched, touch-create}
use flash_trips.Web.Session.{
  issued_session, Manager, AuthenticationInput, AuthorizationInput, IssuedSession,
  AuthorizedSession, Draws, is_safe, is_usable, next_idle, decode_opaque, digest_of, csrf_digest_of,
  csrf_matches, valid_csrf, admits_write, open_tokens, read_payload, decrypt_tokens,
  authorize_write, authorize_found, authorize_decoded, authorize, revoke_previous, authenticate,
  new_session, seal_tokens, session_payload, parse_plaintext,
}
use flash_trips.Web.Session.Lifecycle.{authenticate-eq_ok}

module _ (p : Platform) (m : Manager) where
  -- A stored ciphertext is taken apart where its tag begins.
  decrypt-append :
      (s : StoredSession) (ciphertext tag : Bytes)
      → s.access_token_ciphertext ≡ ciphertext ++ tag
      → length tag ≡ 16
      → 0 < length ciphertext
      → decrypt_tokens p m s
        ≡ parse_plaintext p m
            (p.decrypt m.token_encryption_key s.access_token_iv s.identifier_digest tag ciphertext)
  unfolding decrypt_tokens
  decrypt-append s ciphertext tag e t h =
      let total : length (ciphertext ++ tag) ≡ length ciphertext + 16 =
        omega (arith, length-append ciphertext tag) in
      let body : length (ciphertext ++ tag) - 16 ≡ length ciphertext = omega arith in
      let long : leb (length (ciphertext ++ tag)) 16 ≡ false = ground arith in
      rw (e, long, body, take-append ciphertext tag, drop-append ciphertext tag)

  -- The stored tokens of a new session open to the access token and the CSRF token.
  module _ (input : AuthenticationInput) (draws : Draws) (now : ℕ) (aead : IsAead p)
      (json : CarriesJson p
        (session_payload input.access_token (p.to_base64url draws.csrf_token))) where
    abbrev fresh_row : StoredSession
    fresh_row = record { new = new_session p m input draws now; revoked_at = none }

    abbrev granted : AuthorizedSession
    granted = record {
      access_token = input.access_token;
      csrf_token = p.to_base64url draws.csrf_token;
      planner_id = input.planner_id;
      session_id = draws.id;
    }

    open_tokens-new_session : open_tokens p m fresh_row ≡ some granted
    unfolding open_tokens new_session seal_tokens read_payload session_payload string_member
    open_tokens-new_session =
        let key = m.token_encryption_key in
        let digest = digest_of p m draws.identifier in
        let payload = session_payload input.access_token (p.to_base64url draws.csrf_token) in
        let plaintext = p.stringify payload in
        let opened =
          decrypt-append fresh_row (p.encrypt key draws.access_token_iv digest plaintext).0
            (p.encrypt key draws.access_token_iv digest plaintext).1 refl
            (aead.tag_length key draws.access_token_iv digest plaintext)
            (omega (
              arith,
              aead.ciphertext_length key draws.access_token_iv digest plaintext,
              json.nonempty,
            )) in
        rw (
          opened,
          aead.decrypt-encrypt key draws.access_token_iv digest plaintext,
          json.parse-stringify,
        )

    module _ (db db' : Database) (t : ℕ) (issued : IssuedSession) (request : AuthorizationInput)
        (later : ℕ) (created : authenticate p m db input draws t now ≡ (db', ok issued))
        (opaque : decode_opaque p (some (p.to_base64url draws.identifier)) ≡ some draws.identifier)
        (cookie : request.cookie_value ≡ some issued.cookie_value)
        (in_time : later < now + idle_lifetime) where
      stored :
          Store.create
            (revoke_previous p m db input.previous_identifier t)
            (new_session p m input draws now)
          ≡ ok db'
      stored = (authenticate-eq_ok p m db db' input draws t now issued created).0

      cookie_decoded : decode_opaque p request.cookie_value ≡ some draws.identifier
      unfolding issued_session
      cookie_decoded =
          let e = (authenticate-eq_ok p m db db' input draws t now issued created).1 in
          ground (arith, e, opaque, cookie)

      found : Store.find db' (digest_of p m draws.identifier) ≡ some fresh_row
      unfolding new_session
      found = find-create_new _ db' (new_session p m input draws now) stored

      usable : is_usable later fresh_row ≡ true
      unfolding is_usable new_session
      usable = ground arith

      -- Until the idle expiry, a request with the issued cookie and a safe method is granted the
      -- stored access token, the CSRF token and the planner, and the database stays as it was.
      pub authorize-authenticate_read :
          is_safe request.method ≡ true → authorize p m db' request later ≡ ok (db', some granted)
      unfolding authorize authorize_decoded authorize_found
      authorize-authenticate_read safe =
          ground (arith, cookie_decoded, found, usable, open_tokens-new_session)

      module _ (origin : String) (unsafe : is_safe request.method ≡ false)
          (origin_given : request.origin ≡ some origin)
          (origin_allowed : includes origin m.allowed_origins ≡ true)
          (csrf_given : request.csrf_token ≡ some issued.csrf_token)
          (csrf_opaque : decode_opaque p (some (p.to_base64url draws.csrf_token))
            ≡ some draws.csrf_token)
          (forward : now ≤ later) where
        abbrev moved : StoredSession
        moved = touched later (next_idle later fresh_row) fresh_row

        admitted : admits_write p m fresh_row draws.identifier request ≡ true
        unfolding admits_write valid_csrf csrf_matches new_session issued_session
        admitted =
            let e = (authenticate-eq_ok p m db db' input draws t now issued created).1 in
            ground (
              arith,
              e,
              origin_given,
              csrf_given,
              csrf_opaque,
              bytes_eq_iff (csrf_digest_of p m draws.identifier draws.csrf_token)
                  (csrf_digest_of p m draws.identifier draws.csrf_token),
            )

        checks : row_checks moved.new ≡ true
        unfolding row_checks touched next_idle new_session
        checks =
            let (ok', _, _, _) =
              create-eq_ok (revoke_previous p m db input.previous_identifier t) db'
                (new_session p m input draws now) stored in
            ground (arith, ok')

        -- The same for any other method, from an allowed origin with the issued CSRF token: the
        -- request is granted, and the session's idle expiry is moved to twelve hours later, but
        -- never past the absolute expiry.
        pub authorize-authenticate_write :
            (db'' : Database) × (authorize p m db' request later ≡ ok (db'', some granted))
            × (Store.find db'' (digest_of p m draws.identifier)
                ≡ some (
                    touched later
                      (min (later + idle_lifetime) (now + absolute_lifetime))
                      fresh_row))
        unfolding authorize authorize_decoded authorize_found authorize_write next_idle new_session
            touched
        authorize-authenticate_write =
            let before = revoke_previous p m db input.previous_identifier t in
            let s = new_session p m input draws now in
            (
              record before { sessions = before.sessions ++ moved ∷ [] },
              ground (
                arith,
                cookie_decoded,
                found,
                usable,
                admitted,
                touch-create before db' s later (next_idle later fresh_row) stored checks,
                open_tokens-new_session,
              ),
              find-touched before db' s later (next_idle later fresh_row) stored,
            )
