-- ===== src/Web/Routes/Laws.antt =====
-- What reaches the backend through the routes, and in whose name.
use flash_trips.Prelude.{
  ℕ, String, Bool, true, false, Option, none, some, List, [], ◌∷◌, ◌≡◌, ◌≢◌, ◌≤◌, ◌∙◌, ◌↔◌, subst,
  refl, sym, ap, ◌⊎◌, inl, inr, ok, err, arith, Bool-cases,
}
use flash_trips.Json.{Json, null, bool, num, str, arr, obj}
use flash_trips.Web.Platform.{Platform}
use flash_trips.Web.Store.{Database, Db}
use flash_trips.Web.Session.{Manager, AuthorizedSession, authorize, is_safe}
use flash_trips.Web.Session.Access.{Granted, HasProof, authorize-Granted}
use flash_trips.Web.Flow.{backend_unavailable}
use flash_trips.Web.Routes.{
  BackendCall, list_trips, create_trip, get_current_plan_revision, start_run, get_run,
  BackendOutcome, BackendResponse, Reply, Request, Route, session_route, trips_list_route,
  trips_create_route, plan_revision_route, runs_start_route, run_route, json_body, either_json,
  threw, no_response, reply_of, backend_response, read_response, run_response, create_trip_body,
  is_write, authorization, create_from, call, perform, perform_authorized, serve, problem_reply,
  is_new_trip_form, takes_body, json_response,
}

abbrev pub token_of : BackendCall → String
token_of (list_trips token) = token
token_of (create_trip token body) = token
token_of (get_current_plan_revision token trip) = token
token_of (start_run token trip) = token
token_of (get_run token run) = token

-- The calls that change data.
abbrev pub is_mutation : BackendCall → Bool
is_mutation (create_trip token body) = true
is_mutation (start_run token trip) = true
is_mutation _ = false

module _ (backend : BackendCall → BackendOutcome) where
  create_from-calls :
      (token : String) (body : Option Json) (c : BackendCall) (cs : List BackendCall)
      → (create_from backend token body).0 ≡ c ∷ cs
      → (cs ≡ []) × (token_of c ≡ token)
  unfolding create_from
  create_from-calls token none c cs e = cc
  create_from-calls token (some form) c cs e = ground arith

  perform-calls :
      (route : Route) (request : Request) (s : AuthorizedSession) (c : BackendCall)
      (cs : List BackendCall)
      → (perform backend route request s).0 ≡ c ∷ cs
      → (cs ≡ []) × (token_of c ≡ s.access_token) × (is_mutation c ≡ true → is_write route ≡ true)
  unfolding perform is_write
  perform-calls session_route request s c cs e = cc
  perform-calls trips_list_route request s c cs e = ground arith
  perform-calls trips_create_route request s c cs e =
      ground (arith, create_from-calls s.access_token request.body c cs e)
  perform-calls (plan_revision_route trip) request s c cs e = ground arith
  perform-calls (runs_start_route trip) request s c cs e = ground arith
  perform-calls (run_route run) request s c cs e = ground arith

  -- The value of a response: its data, or its error where that is missing or null.
  abbrev pub Carries : BackendResponse → Json → Type 0
  Carries r v =
      ((r.result ≡ some v) × (v ≢ null))
      ⊎ (((r.result ≡ none) ⊎ (r.result ≡ some null)) × (r.error ≡ some v))

  -- A status that may stand on a response with a body.
  abbrev pub TakesBody : ℕ → Type 0
  TakesBody n = (200 ≤ n) × (n ≤ 599) × (n ≢ 204) × (n ≢ 205) × (n ≢ 304)

  -- The reply to a call is what the backend answered.
  pub record Answers (c : BackendCall) (reply : Reply) : Type 0 where
    pub response : BackendResponse
    pub value : Json
    pub responded : backend c ≡ BackendOutcome.responded response
    pub carries : Carries response value
    pub takes_body : TakesBody response.status
    pub status : reply.status ≡ response.status
    pub body : reply.body ≡ json_body (some value)

  -- The backend gave nothing that can be passed on.
  abbrev pub Fails : BackendCall → Type 0
  Fails c =
      (backend c ≡ threw)
      ⊎ (backend c ≡ no_response)
      ⊎ ((r : BackendResponse) × (backend c ≡ BackendOutcome.responded r)
          × (((v : Json) → Carries r v → ⊥) ⊎ (TakesBody r.status → ⊥)))

  abbrev Replies : BackendCall → Reply → Type 0
  Replies c reply = Answers c reply ⊎ (Fails c × (reply ≡ problem_reply backend_unavailable))

  abbrev Value : BackendResponse → Option Json → Type 0
  Value r none = (v : Json) → Carries r v → ⊥
  Value r (some v) = Carries r v

  either_json_lem :
      (r : BackendResponse) (o : Option Json) → either_json r.result r.error ≡ o → Value r o
  either_json_lem r o e = go r.result refl o e
    where
      go :
          (d : Option Json)
          → r.result ≡ d
          → (o : Option Json) → either_json d r.error ≡ o
          → Value r o
      go none f none h = λ v k. ground (arith, f, h, k)
      go none f (some v) h = inr (inl f, h)
      go (some null) f none h = λ v k. ground (arith, f, h, k)
      go (some null) f (some v) h = inr (inr f, h)
      go (some (bool b)) f none h = cc
      go (some (bool b)) f (some v) h = inl (f ∙ h, λ k. ground (arith, h, k))
      go (some (num n)) f none h = cc
      go (some (num n)) f (some v) h = inl (f ∙ h, λ k. ground (arith, h, k))
      go (some (str t)) f none h = cc
      go (some (str t)) f (some v) h = inl (f ∙ h, λ k. ground (arith, h, k))
      go (some (arr t)) f none h = cc
      go (some (arr t)) f (some v) h = inl (f ∙ h, λ k. ground (arith, h, k))
      go (some (obj t)) f none h = cc
      go (some (obj t)) f (some v) h = inl (f ∙ h, λ k. ground (arith, h, k))

  takes_body_iff : (n : ℕ) → (takes_body n ≡ true) ↔ TakesBody n
  takes_body_iff n = ground arith

  -- The response of a handler, for some headers.
  abbrev Faithful : (BackendResponse → Option Reply) → Type 0
  Faithful respond =
      (r : BackendResponse)
      → (headers : List (String × String)) × (respond r
          ≡ json_response r.status headers (either_json r.result r.error))

  responded-Replies :
      (c : BackendCall) (r : BackendResponse) (headers : List (String × String))
      → backend c ≡ BackendOutcome.responded r
      → (o : Option Json) → either_json r.result r.error ≡ o
      → Replies c (elim (json_response r.status headers o) [
        | none ↦ problem_reply backend_unavailable
        | some reply ↦ reply
      ])
  unfolding json_response
  responded-Replies c r headers e none h =
      inr (inr (inr (r, e, inl (either_json_lem r none h))), refl)
  responded-Replies c r headers e (some v) h = elim (Bool-cases (takes_body r.status)) [
    | inl t ↦ rw t (
        inl (record {
          response = r;
          value = v;
          responded = e;
          carries = either_json_lem r (some v) h;
          takes_body = (takes_body_iff r.status).0 t;
          status = refl;
          body = refl;
        }))
    | inr t ↦
        rw t (
          inr (inr (inr (r, e, inr (λ k. ground (arith, t, (takes_body_iff r.status).1 k)))), refl))
  ]

  reply_of-Replies :
      (c : BackendCall) (respond : BackendResponse → Option Reply) (o : BackendOutcome)
      → Faithful respond
      → backend c ≡ o
      → Replies c (reply_of backend respond o)
  unfolding reply_of
  reply_of-Replies c respond threw faithful e = inr (inl e, refl)
  reply_of-Replies c respond no_response faithful e = inr (inr (inl e), refl)
  reply_of-Replies c respond (BackendOutcome.responded r) faithful e =
      let (headers, same) = faithful r in
      subst
        (λ x. Replies c (elim x [ none ↦ problem_reply backend_unavailable | some reply ↦ reply ]))
        (sym same) (responded-Replies c r headers e (either_json r.result r.error) refl)

  call-Replies :
      (made c : BackendCall) (respond : BackendResponse → Option Reply)
      → Faithful respond
      → (call backend made respond).0 ≡ c ∷ []
      → Replies c (call backend made respond).1
  unfolding call
  call-Replies made c respond faithful e =
      let same : made ≡ c = cc in
      reply_of-Replies c respond (backend made) faithful (ap backend (sym same))

  create_from-Replies :
      (token : String) (body : Option Json) (c : BackendCall)
      → (create_from backend token body).0 ≡ c ∷ []
      → Replies c (create_from backend token body).1
  unfolding create_from backend_response
  create_from-Replies token none c e = cc
  create_from-Replies token (some form) c e = elim (Bool-cases (is_new_trip_form form)) [
    | inl fits ↦
        rw (fits, create_from)
          (call-Replies (create_trip token (create_trip_body form)) c backend_response
            (λ r. (_, refl)) (ground arith))
    | inr other ↦ absurd (ground arith)
  ]

  perform-Replies :
      (route : Route) (request : Request) (s : AuthorizedSession) (c : BackendCall)
      → (perform backend route request s).0 ≡ c ∷ []
      → Replies c (perform backend route request s).1
  unfolding perform backend_response read_response run_response
  perform-Replies session_route request s c e = cc
  perform-Replies trips_list_route request s c e =
      call-Replies (list_trips s.access_token) c backend_response (λ r. (_, refl)) e
  perform-Replies trips_create_route request s c e =
      create_from-Replies s.access_token request.body c e
  perform-Replies (plan_revision_route trip) request s c e =
      call-Replies (get_current_plan_revision s.access_token trip) c read_response (λ r. (_, refl))
        e
  perform-Replies (runs_start_route trip) request s c e =
      call-Replies (start_run s.access_token trip) c run_response (λ r. (_, refl)) e
  perform-Replies (run_route run) request s c e =
      call-Replies (get_run s.access_token run) c read_response (λ r. (_, refl)) e

  module _ (p : Platform) (m : Manager) where
    -- A call to the backend, made for an authorized session.
    pub record Forwarded (db db' : Database) (route : Route) (request : Request) (now : ℕ)
        (c : BackendCall) : Type 0 where
      pub session : AuthorizedSession
      pub granted : Granted p m db db' (authorization route request) now session
      pub bears : token_of c ≡ session.access_token
      pub proved :
          is_mutation c ≡ true
          → HasProof p m granted.session granted.identifier (authorization route request)

    is_write-is_safe :
        (route : Route) (request : Request)
        → is_write route ≡ true
        → is_safe (authorization route request).method ≡ false
    unfolding authorization is_safe
    is_write-is_safe route request h = rw h

    -- A request reaches the backend at most once, and only for a session that `authorize` granted,
    -- with that session's access token; a call that creates a Trip or starts a Run moreover had an
    -- allowed origin and the session's CSRF token. The reply is then the backend's status with its
    -- data, or its error where the data is missing or null; or it is 503, where the client threw or
    -- gave no response, where it gave neither data nor error, or where its status takes no body.
    pub serve-Forwarded :
        (db db' : Database) (route : Route) (request : Request) (now : ℕ) (calls : List BackendCall)
        (reply : Reply)
        → serve backend p m db route request now ≡ ok (db', calls, reply)
        → (calls ≡ [])
          ⊎ ((c : BackendCall) × (calls ≡ c ∷ [])
              × Forwarded db db' route request now c
              × (Answers c reply ⊎ (Fails c × (reply ≡ problem_reply backend_unavailable))))
    unfolding serve perform_authorized
    serve-Forwarded db db' route request now calls reply e =
        go (authorize p m db (authorization route request) now) refl
      where
        Goal : Type 0
        Goal =
            (calls ≡ [])
            ⊎ ((c : BackendCall) × (calls ≡ c ∷ [])
                × Forwarded db db' route request now c
                × (Answers c reply ⊎ (Fails c × (reply ≡ problem_reply backend_unavailable))))

        made :
            (s : AuthorizedSession)
            → authorize p m db (authorization route request) now ≡ ok (db', some s)
            → (cs : List BackendCall) → (perform backend route request s).0 ≡ cs
            → calls ≡ cs
            → reply ≡ (perform backend route request s).1
            → Goal
        made s a [] f same r = inl same
        made s a (c ∷ cs) f same r =
            let (single, bears, mutation) = perform-calls route request s c cs f in
            let g = authorize-Granted p m db db' (authorization route request) now s a in
            inr (
              c,
              rw (same, single),
              record {
                session = s;
                granted = g;
                bears = bears;
                proved = λ h. g.proved (is_write-is_safe route request (mutation h));
              },
              rw r (perform-Replies route request s c (rw single at f)),
            )

        go :
            (x : Db (Database × Option AuthorizedSession))
            → authorize p m db (authorization route request) now ≡ x
            → Goal
        go (err x) a = cc (rw (a, serve) at e)
        go (ok (d, none)) a = inl (ground (arith, a))
        go (ok (d, some s)) a =
            let same : d ≡ db' = ground (arith, a) in
            made s (rw same at a) (perform backend route request s).0 refl (ground (arith, a))
              (ground (arith, a))
