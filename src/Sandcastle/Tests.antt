-- ===== src/Sandcastle/Tests.antt =====
-- The orchestrator's theorems at concrete inputs.
use flash_trips.Prelude.{strip, String, true, false, none, some, List, [], ◌∷◌, ◌≡◌, refl, ◌↔◌, All}
use flash_trips.Sandcastle.Plan.{PlannedIssue, accepts_plan, is_issue_id, is_task_branch}
use flash_trips.Sandcastle.Plan.Laws.{IsPlan, accepts_plan_iff}
use flash_trips.Sandcastle.RunState.{
  StoredState, RunState, reviewed, parse_state, stored_state, is_sha, accepts_issue,
  issue_has_shape, has_evidence, transform,
}
use flash_trips.Sandcastle.RunState.Laws.{HasEvidence, parse_state-HasEvidence, parse-stored_state}
use flash_trips.Sandcastle.Pipeline.{set_pipeline_label, stale_labels, edit_labels, added_labels}
use flash_trips.Prelude.{ℕ, show, show_from, false, Bool}
use flash_trips.Sandcastle.Gates.{
  has_external_pre_run_gates, has_gates_from, has_content, ends_line, begins_section,
}
use flash_trips.Sandcastle.Autopilot.{
  AutopilotTask, AutopilotFeature, Authorization, insert, sort, open_tasks, each, authorize_task,
  authorize_feature, select_autopilot_authorizations, gate_reason,
}
use flash_trips.Sandcastle.Autopilot.Laws.{
  In, IsOptedIn, IsReady, Released, select_autopilot_authorizations_iff,
}

abbrev plan : List PlannedIssue
plan =
    record { id = "12"; title = "Add trips"; branch = "sandcastle/task-12" }
    ∷ record { id = "13"; title = "Add runs"; branch = "sandcastle/task-13" }
    ∷ []

plan_accepted : accepts_plan plan ≡ true
unfolding accepts_plan
plan_accepted = refl

accepts_plan_iff_example : (accepts_plan plan ≡ true) ↔ IsPlan plan
accepts_plan_iff_example = accepts_plan_iff plan

abbrev sha : String
sha = "aaaaaaaaaaaaaaaaaaaaaaaaaaaaaaaaaaaaaaaa"

-- A state file of an older version: no checkpoint and no integration branch.
abbrev old_state : StoredState
old_state = record {
  target_branch = "main";
  target_head = sha;
  issues =
      record {
        id = "12";
        title = "Add trips";
        branch = "sandcastle/task-12";
        parent = some 7;
        parent_title = none;
        integration_branch = none;
        checkpoint = none;
        approved_sha = some sha;
        integration_head = none;
        expected_remote_tree = none;
        publication = none;
      }
      ∷ [];
}

abbrev recovered : RunState
recovered = record {
  target_branch = "main";
  target_head = sha;
  issues =
      record {
        id = "12";
        title = "Add trips";
        branch = "sandcastle/task-12";
        parent = some 7;
        parent_title = none;
        integration_branch = "sandcastle/feature-7";
        checkpoint = reviewed;
        approved_sha = some sha;
        integration_head = none;
        expected_remote_tree = none;
        publication = none;
      }
      ∷ [];
}

old_state_parses : parse_state (λ url. true) old_state ≡ some recovered
unfolding parse_state is_sha accepts_issue issue_has_shape is_issue_id is_task_branch has_evidence
    transform
old_state_parses = refl

parse_state-HasEvidence_example : All HasEvidence recovered.issues
parse_state-HasEvidence_example =
    parse_state-HasEvidence (λ url. true) old_state recovered old_state_parses

parse-stored_state_example : parse_state (λ url. true) (stored_state recovered) ≡ some recovered
parse-stored_state_example = parse-stored_state (λ url. true) old_state recovered old_state_parses

abbrev labels : List String
labels = "ready-for-agent" ∷ "agent:queued" ∷ []

-- `gh issue edit` that succeeds.
abbrev edit : List String → List String → List String → List String × Bool
edit stale add current = (edit_labels stale add current, true)

label_moves :
    set_pipeline_label true edit (some "agent:implement") labels
    ≡ ("ready-for-agent" ∷ "agent:implement" ∷ [], true)
unfolding set_pipeline_label stale_labels edit_labels added_labels
label_moves = refl

abbrev gates : String
gates = "\n## External human or evidence gates \n\nA key.\n## Next\n"

abbrev no_gates : String
no_gates = "## External human or evidence gates\n\n## Next\nA key."

gates_found : has_external_pre_run_gates gates ≡ true
unfolding has_external_pre_run_gates has_gates_from has_content ends_line strip begins_section
gates_found = refl

empty_gates_ignored : has_external_pre_run_gates no_gates ≡ false
unfolding has_external_pre_run_gates has_gates_from has_content ends_line strip begins_section
empty_gates_ignored = refl

abbrev task : ℕ → String → List ℕ → AutopilotTask
task id body blockers = record {
  id = id;
  body = body;
  is_open = true;
  labels = "ready-for-agent" ∷ [];
  sub_issue_count = 0;
  blocked_by = blockers;
  labels_truncated = false;
  blockers_truncated = false;
}

abbrev features : List AutopilotFeature
features =
    record {
      id = 3;
      labels = "agent:autopilot" ∷ [];
      labels_truncated = false;
      tasks_truncated = false;
      tasks = task 9 gates [] ∷ task 8 "" (7 ∷ []) ∷ task 7 "" [] ∷ [];
    }
    ∷ []

abbrev released : List Authorization
released =
    record { id = "7"; label = "agent:implement"; reason = none }
    ∷ record { id = "8"; label = "agent:queued"; reason = none }
    ∷ record { id = "9"; label = "agent:blocked"; reason = some (gate_reason 9) }
    ∷ []

queue_order : select_autopilot_authorizations features ≡ released
unfolding select_autopilot_authorizations insert sort open_tasks each authorize_task
    authorize_feature has_external_pre_run_gates has_gates_from has_content ends_line strip
    begins_section show show_from
queue_order = refl

select_autopilot_authorizations_iff_example :
    let a : Authorization = record { id = "7"; label = "agent:implement"; reason = none } in
    In a (select_autopilot_authorizations features) ↔ (
      (f : AutopilotFeature) × (t : AutopilotTask) × In f features
      × IsOptedIn f
      × In t f.tasks
      × IsReady t
      × (a.id ≡ show t.id)
      × Released t a)
select_autopilot_authorizations_iff_example =
    select_autopilot_authorizations_iff features
      (record { id = "7"; label = "agent:implement"; reason = none })
