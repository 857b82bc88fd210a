-- ===== src/Web/PlannerTests.antt =====
-- The planner's page at a concrete answer of the backend.
use flash_trips.Prelude.{String, true, Option, some, [], ◌∷◌, ◌≡◌, refl, ◌⊎◌}
use flash_trips.Json.{
  Json, null, num, str, arr, obj, end, field, cons, nil, member, property, string_member,
  number_member,
}
use flash_trips.Web.Planner.{
  Page, Call, Answer, run_call, plan_revision_call, start_run_call, start_run, observe_run, set_run,
  read_run, read_plan_revision, is_run, is_outcome, is_plan_revision, are_claims, every_claim,
  with_entry,
}
use flash_trips.Web.Planner.Laws.{Unchanged, Recorded, start_run_cases}

abbrev run_in : String → Json → Json
run_in status outcome = obj (
    field "id" (str "r1") (
      field "trip_id" (str "t1")
        (field "status" (str status) (field "terminal_outcome" outcome end))))

abbrev success : Json
success = obj (
    field "status" (str "Succeeded")
      (field "code" (str "done") (field "detail" (str "All done.") end)))

abbrev claim : Json
claim = obj (
    field "id" (str "c1") (
      field "kind" (str "travel_readiness") (
        field "text" (str "Passport.")
          (field "evidence_reference" (str "e1") (field "observed_at" (str "2026-01-01") end)))))

abbrev revision : Json
revision = obj (
    field "id" (str "p1") (
      field "trip_id" (str "t1") (
        field "run_id" (str "r1") (
          field "base_revision_id" null
            (field "revision_number" (num 1) (field "claims" (arr (cons claim nil)) end))))))

abbrev answering : Call → Option Answer
answering (start_run_call trip csrf) =
    some (record { is_ok = true; body = some (run_in "Running" null) })
answering (run_call id) = some (record { is_ok = true; body = some (run_in "Succeeded" success) })
answering (plan_revision_call trip) = some (record { is_ok = true; body = some revision })

abbrev page : Page
page = record { csrf_token = "csrf"; error = "old"; runs = []; plan_revisions = [] }

records : start_run answering "t1" page ≡ record {
  csrf_token = "csrf";
  error = "";
  runs = ("t1", run_in "Succeeded" success) ∷ [];
  plan_revisions = ("t1", revision) ∷ [];
}
unfolding start_run observe_run set_run read_run read_plan_revision is_run is_outcome
    is_plan_revision are_claims every_claim with_entry member property string_member number_member
records = refl

start_run_cases_example :
    Unchanged answering "t1" page (start_run answering "t1" page)
    ⊎ Recorded answering "t1" page (start_run answering "t1" page)
start_run_cases_example = start_run_cases answering "t1" page
