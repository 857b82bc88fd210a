-- ===== src/Web/Routes.antt =====
-- The route handlers of apps/web/app/api that answer for a session: auth/session, trips,
-- trips/[tripId]/plan-revision, trips/[tripId]/runs and runs/[runId]. The generated API client is
-- the parameter `backend`.
pub mod Laws
use flash_trips.Prelude.{
  ℕ, String, Bool, true, false, Option, none, some, List, [], ◌∷◌, ◌&&◌, is_some, str_eq, any, not,
  leb, nat_eq, if◌then◌else◌, Result, ok, err,
}
use flash_trips.Json.{
  Json, null, str, arr, obj, cons, nil, end, field, string_member, number_member,
}
use flash_trips.Web.Platform.{Platform}
use flash_trips.Web.Store.{Database, Db}
use flash_trips.Web.Session.{Manager, AuthorizationInput, AuthorizedSession, authorize}
use flash_trips.Web.Flow.{Problem, authentication_required, backend_unavailable, invalid_request}

-- A call of the API client, with the access token of its authorization header.
pub data BackendCall : Type 0 where
  list_trips : String → BackendCall
  create_trip : String → Json → BackendCall
  get_current_plan_revision : String → String → BackendCall
  start_run : String → String → BackendCall
  get_run : String → String → BackendCall

pub record BackendResponse : Type 0 where
  pub status : ℕ
  pub headers : List (String × String)
  pub result : Option Json
  pub error : Option Json

-- The client throws, gives a result without a response, or one with a response.
pub data BackendOutcome : Type 0 where
  threw no_response : BackendOutcome
  responded : BackendResponse → BackendOutcome

pub data Body : Type 0 where
  problem_body : Problem → Body
  json_body : Option Json → Body

pub record Reply : Type 0 where
  pub status : ℕ
  pub headers : List (String × String)
  pub body : Body

unfoldable pub problem_reply : Problem → Reply
problem_reply p = record {
  status = p.status;
  headers = ("content-type", "application/problem+json") ∷ [];
  body = problem_body p;
}

unfoldable pub header : String → List (String × String) → Option String
header name [] = none
header name ((k, v) ∷ rest) = if str_eq k name then some v else header name rest

abbrev pub or_else : Option String → String → String
or_else none default = default
or_else (some s) default = s

-- `result.data ?? result.error`.
abbrev pub either_json : Option Json → Option Json → Option Json
either_json none error = error
either_json (some null) error = error
either_json (some v) error = some v

-- The statuses of a response that has no body.
abbrev pub null_body_statuses : List ℕ
null_body_statuses = 101 ∷ 103 ∷ 204 ∷ 205 ∷ 304 ∷ []

-- The status may stand on a response with a body.
abbrev pub takes_body : ℕ → Bool
takes_body status = leb 200 status && leb status 599 && not (any (nat_eq status) null_body_statuses)

-- NextResponse.json: none where it throws, for undefined and for a status that takes no body.
unfoldable pub json_response : ℕ → List (String × String) → Option Json → Option Reply
json_response status headers none = none
json_response status headers (some v) =
    if takes_body status
    then some (record { status = status; headers = headers; body = json_body (some v) })
    else none

abbrev add_header : String → Option String → List (String × String) → List (String × String)
add_header name none rest = rest
add_header name (some v) rest = (name, v) ∷ rest

-- The loop of backendResponse over the names that it forwards.
unfoldable pub forwarded_headers : List String → List (String × String) → List (String × String)
unfolding header
forwarded_headers [] given = []
forwarded_headers (name ∷ names) given =
    add_header name (header name given) (forwarded_headers names given)

-- backendResponse.
unfoldable pub backend_response : BackendResponse → Option Reply
unfolding forwarded_headers json_response
backend_response r =
    json_response r.status
      (forwarded_headers ("content-type" ∷ "location" ∷ "x-request-id" ∷ []) r.headers)
      (either_json r.result r.error)

-- The responses of plan-revision and runs/[runId], and of runs with its location.
unfoldable pub read_response : BackendResponse → Option Reply
unfolding header json_response
read_response r =
    json_response r.status
      (("content-type", or_else (header "content-type" r.headers) "application/json")
        ∷ ("x-request-id", or_else (header "x-request-id" r.headers) "")
        ∷ [])
      (either_json r.result r.error)

unfoldable pub run_response : BackendResponse → Option Reply
unfolding header json_response
run_response r =
    json_response r.status
      (("content-type", or_else (header "content-type" r.headers) "application/json")
        ∷ ("location", or_else (header "location" r.headers) "")
        ∷ ("x-request-id", or_else (header "x-request-id" r.headers) "")
        ∷ [])
      (either_json r.result r.error)

-- isNewTripForm.
unfoldable pub is_new_trip_form : Json → Bool
unfolding string_member number_member
is_new_trip_form value =
    is_some (string_member "city" value)
    && is_some (string_member "starts_on" value)
    && is_some (string_member "ends_on" value)
    && is_some (number_member "nights" value)

-- The body of createTrip: one stay, the form as it came.
unfoldable pub create_trip_body : Json → Json
create_trip_body form = obj (field "structure" (obj (field "stays" (arr (cons form nil)) end)) end)

-- What the handlers read of a request.
pub record Request : Type 0 where
  pub cookie : Option String
  pub csrf_header : Option String
  pub origin_header : Option String
  pub body : Option Json

pub data Route : Type 0 where
  session_route trips_list_route trips_create_route : Route
  plan_revision_route runs_start_route run_route : String → Route

-- The route changes data.
unfoldable pub is_write : Route → Bool
is_write trips_create_route = true
is_write (runs_start_route _) = true
is_write _ = false

-- The arguments that the route's handler gives to `authorize`.
unfoldable pub authorization : Route → Request → AuthorizationInput
unfolding is_write
authorization route request =
    if is_write route
    then record {
      cookie_value = request.cookie;
      csrf_token = request.csrf_header;
      method = "POST";
      origin = request.origin_header;
    }
    else record { cookie_value = request.cookie; csrf_token = none; method = "GET"; origin = none }

module _ (backend : BackendCall → BackendOutcome) where
  -- forwardBackend and its like in the other handlers.
  unfoldable pub reply_of : (BackendResponse → Option Reply) → BackendOutcome → Reply
  unfolding problem_reply
  reply_of respond threw = problem_reply backend_unavailable
  reply_of respond no_response = problem_reply backend_unavailable
  reply_of respond (responded r) = elim (respond r) [
    | none ↦ problem_reply backend_unavailable
    | some reply ↦ reply
  ]

  unfoldable pub call : BackendCall → (BackendResponse → Option Reply) → List BackendCall × Reply
  unfolding reply_of
  call c respond = (c ∷ [], reply_of respond (backend c))

  unfoldable pub create_from : String → Option Json → List BackendCall × Reply
  unfolding call backend_response problem_reply is_new_trip_form create_trip_body
  create_from token none = ([], problem_reply invalid_request)
  create_from token (some form) =
      if is_new_trip_form form
      then call (create_trip token (create_trip_body form)) backend_response
      else ([], problem_reply invalid_request)

  -- The handler's body once the session is authorized: the calls made, and the reply.
  unfoldable pub perform : Route → Request → AuthorizedSession → List BackendCall × Reply
  unfolding call create_from read_response run_response backend_response
  perform session_route request s = (
    [],
    record {
      status = 200;
      headers = [];
      body = json_body (some (obj (field "csrf_token" (str s.csrf_token) end)));
    },
  )
  perform trips_list_route request s = call (list_trips s.access_token) backend_response
  perform trips_create_route request s = create_from s.access_token request.body
  perform (plan_revision_route trip) request s =
      call (get_current_plan_revision s.access_token trip) read_response
  perform (runs_start_route trip) request s = call (start_run s.access_token trip) run_response
  perform (run_route run) request s = call (get_run s.access_token run) read_response

  unfoldable pub perform_authorized :
      Route → Request → Option AuthorizedSession → List BackendCall × Reply
  unfolding perform problem_reply
  perform_authorized route request none = ([], problem_reply authentication_required)
  perform_authorized route request (some s) = perform route request s

  module _ (p : Platform) (m : Manager) where
    -- GET or POST of the route; an exception of the database is passed on.
    unfoldable pub serve : Database → Route → Request → ℕ → Db (Database × List BackendCall × Reply)
    unfolding perform_authorized authorization
    serve db route request now = elim (authorize p m db (authorization route request) now) [
      | err e ↦ err e
      | ok (db', a) ↦
          ok (db', (perform_authorized route request a).0, (perform_authorized route request a).1)
    ]
