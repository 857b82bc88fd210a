-- ===== src/Web/Planner.antt =====
-- apps/web/app/(planner)/planner/trip-station.tsx: the shape tests on what the backend answers, and
-- the state of the planner's page. `fetch` is a parameter; a promise that rejects gives none.
pub mod Laws
pub mod Shapes
use flash_trips.Prelude.{
  String, Bool, true, false, Option, none, some, List, [], ◌∷◌, ◌&&◌, is_some, str_eq, includes,
  if◌then◌else◌,
}
use flash_trips.Json.{Json, Items, null, str, arr, nil, cons, member, string_member, number_member}

abbrev pub run_statuses : List String
run_statuses = "Running" ∷ "Succeeded" ∷ "Blocked" ∷ "Failed" ∷ "Cancelled" ∷ []

abbrev pub terminal_run_statuses : List String
terminal_run_statuses = "Succeeded" ∷ "Blocked" ∷ "Failed" ∷ "Cancelled" ∷ []

abbrev pub is_one_of : List String → Option String → Bool
is_one_of allowed none = false
is_one_of allowed (some text) = includes text allowed

abbrev pub has_text : String → Json → Bool
has_text name value = is_some (string_member name value)

-- `outcome === null || …`, where the property is there.
unfoldable pub is_outcome : Option Json → Bool
unfolding string_member
is_outcome none = false
is_outcome (some null) = true
is_outcome (some outcome) =
    is_one_of terminal_run_statuses (string_member "status" outcome)
    && has_text "code" outcome
    && has_text "detail" outcome

-- isRun.
unfoldable pub is_run : Json → Bool
unfolding is_outcome member string_member
is_run value =
    has_text "id" value
    && has_text "trip_id" value
    && is_one_of run_statuses (string_member "status" value)
    && is_outcome (member "terminal_outcome" value)

-- `value === null || typeof value === "string"`, where the property is there.
abbrev pub is_null_or_text : Option Json → Bool
is_null_or_text (some null) = true
is_null_or_text (some (str s)) = true
is_null_or_text _ = false

abbrev pub is_plan_claim : Json → Bool
is_plan_claim claim =
    has_text "id" claim
    && is_one_of ("travel_readiness" ∷ []) (string_member "kind" claim)
    && has_text "text" claim
    && has_text "evidence_reference" claim
    && has_text "observed_at" claim

unfoldable pub every_claim : Items → Bool
unfolding string_member
every_claim nil = true
every_claim (cons claim claims) = is_plan_claim claim && every_claim claims

-- `Array.isArray(value.claims) && value.claims.every(…)`.
unfoldable pub are_claims : Option Json → Bool
unfolding every_claim
are_claims (some (arr claims)) = every_claim claims
are_claims _ = false

-- isPlanRevision.
unfoldable pub is_plan_revision : Json → Bool
unfolding are_claims member string_member number_member
is_plan_revision value =
    has_text "id" value
    && has_text "trip_id" value
    && has_text "run_id" value
    && is_null_or_text (member "base_revision_id" value)
    && is_some (number_member "revision_number" value)
    && are_claims (member "claims" value)

pub record Page : Type 0 where
  pub csrf_token : String
  pub error : String
  pub runs : List (String × Json)
  pub plan_revisions : List (String × Json)

-- What startRun requests: the Run of a Trip, with the CSRF token; a Run; the current revision.
pub data Call : Type 0 where
  start_run_call : String → String → Call
  run_call : String → Call
  plan_revision_call : String → Call

-- `response.ok`, and the body if it parses.
pub record Answer : Type 0 where
  pub is_ok : Bool
  pub body : Option Json

-- `({ ...current, [key]: value })`.
unfoldable pub with_entry : String → Json → List (String × Json) → List (String × Json)
with_entry key value [] = (key, value) ∷ []
with_entry key value ((k, v) ∷ entries) =
    let rest = with_entry key value entries in
    if str_eq k key then (key, value) ∷ entries else (k, v) ∷ rest

abbrev pub fails : String → Page → Page
fails message page = record page { error = message }

-- loadCurrentPlanRevision on an answer: none if the promise rejects, some none for null.
unfoldable pub read_plan_revision : Option Answer → Option (Option Json)
unfolding is_plan_revision
read_plan_revision none = none
read_plan_revision (some answer) =
    if answer.is_ok
    then elim answer.body [
      | none ↦ none
      | some value ↦ some (if is_plan_revision value then some value else none)
    ]
    else some none

abbrev pub set_plan_revision : String → Option (Option Json) → Page → Page
set_plan_revision trip none page = page
set_plan_revision trip (some none) page =
    fails "The current Plan Revision response was invalid." page
set_plan_revision trip (some (some revision)) page = record page {
  plan_revisions = with_entry trip revision page.plan_revisions;
}

-- A response of the two requests on a Run: what follows, where it is a Run.
unfoldable pub read_run : String → String → Option Answer → (Json → Page → Page) → Page → Page
unfolding is_run
read_run refused invalid none next page = page
read_run refused invalid (some answer) next page =
    if answer.is_ok
    then elim answer.body [
      | none ↦ page
      | some value ↦ if is_run value then next value page else fails invalid page
    ]
    else fails refused page

abbrev pub text_or_empty : Option String → String
text_or_empty none = ""
text_or_empty (some text) = text

module _ (fetcher : Call → Option Answer) where
  -- startRun after the Run was observed.
  unfoldable pub set_run : String → Json → Page → Page
  unfolding read_plan_revision with_entry string_member
  set_run trip run page =
      let recorded : Page = record page { runs = with_entry trip run page.runs } in
      if is_one_of ("Succeeded" ∷ []) (string_member "status" run)
      then set_plan_revision trip (read_plan_revision (fetcher (plan_revision_call trip))) recorded
      else recorded

  -- startRun after the Run was accepted.
  unfoldable pub observe_run : String → Json → Page → Page
  unfolding read_run set_run string_member
  observe_run trip accepted page =
      read_run "The Run status could not be read." "The Run status response was invalid."
        (fetcher (run_call (text_or_empty (string_member "id" accepted)))) (set_run trip) page

  -- startRun.
  unfoldable pub start_run : String → Page → Page
  unfolding read_run observe_run
  start_run trip page =
      read_run "The Run could not be started." "The Run response was invalid."
        (fetcher (start_run_call trip page.csrf_token)) (observe_run trip) (fails "" page)
