-- ===== src/Sandcastle/ClaimTests.antt =====
-- The theorems on the checks of tickets at concrete inputs.
use flash_trips.Prelude.{
  ℕ, String, true, false, Option, none, some, List, [], ◌∷◌, ◌≡◌, refl, ◌≢◌, ◌⊎◌, ◌↔◌, inl, All,
  map, str_eq, strip, split_on, trim, trim_start, trim_end, ok, err, if◌then◌else◌, ◌≤◌, arith,
}
use flash_trips.Sandcastle.Plan.{PlannedIssue, task_branch}
use flash_trips.Sandcastle.RunState.{default_integration_branch}
use flash_trips.Sandcastle.Gates.{
  has_external_pre_run_gates, has_gates_from, ends_line, begins_section, has_content,
}
use flash_trips.Sandcastle.Environment.{
  Settings, SettingError, Refusal, not_allowed, refused, local_configuration, assigned_value,
  after_name, assignment, find_assignment, last_is, drop_last, unquoted, file_value, number_of,
  positive_integer_setting, after_prefix,
}
use flash_trips.Sandcastle.TaskEnvironment.{
  find_heading, section, is_variable_name, entry, entries, nonempty_lines, codes_before,
  insert_name, sort_names, distinct, parse_afk_environment, allowed_names, resolve_name,
  resolve_names, resolve_task_environment,
}
use flash_trips.Sandcastle.TaskEnvironment.Names.{
  Ascending, Requests, parse_afk_environment-Requests,
}
use flash_trips.Sandcastle.TaskEnvironment.Laws.{
  Granted, Justified, name_of, resolve_task_environment_iff, resolve_task_environment-refused,
}
use flash_trips.Sandcastle.Environment.Numbers.{positive_integer_setting-bounds}
use flash_trips.Sandcastle.Pages.{
  Page, out_of_fuel, read_paginated_connection, read_from, next_cursor,
}
use flash_trips.Sandcastle.Pages.Laws.{
  Linked, IsClosed, read_paginated_connection-ends, read_paginated_connection_iff,
}
use flash_trips.Sandcastle.Autopilot.Laws.{In}
use flash_trips.Sandcastle.Autopilot.{AutopilotTask, AutopilotFeature}
use flash_trips.Sandcastle.Checkpoints.{Deed, labelled, label_ticket}
use flash_trips.Sandcastle.Claims.{
  ClaimAnswer, accepts_claim, is_refused_claim, is_gated, claim_issue, claim_of, QueuedIssue,
  promote_unblocked_queued_issues, authorize_autopilot_tasks, features_with_tasks,
}
use flash_trips.Sandcastle.Claims.Laws.{
  IsClaimable, IsClaimed, IsIdle, IsBlocked, claim_issue_iff, claim_issue-none,
}
use flash_trips.Sandcastle.Claims.Promotion.{
  with_deeds, IsPromoted, promote_unblocked_queued_issues_iff,
}
use flash_trips.Sandcastle.Claims.Release.{IsAuthorized, authorize_autopilot_tasks-IsAuthorized}
use flash_trips.Sandcastle.CheckpointTests.{world, run}

abbrev pub settings : Settings
settings = record {
  process_env = λ name. if str_eq name "SANDCASTLE_MAX_PARALLEL_ISSUES" then some " 2 " else none;
  env_file =
      some
        "export SANDCASTLE_TASK_ENV_ALLOWLIST = \"TAVILY_API_KEY, AMADEUS_KEY\"\nTAVILY_API_KEY='k 1'\nAMADEUS_KEY=\n";
}

abbrev body : String
body = "Do it.\n## AFK environment\n\n- TAVILY_API_KEY\n-  TAVILY_API_KEY \n## Next\n- X"

abbrev greedy_body : String
greedy_body = "## AFK environment\n- GH_PROXY\n- TAVILY_API_KEY"

body_names : parse_afk_environment body ≡ ok ("TAVILY_API_KEY" ∷ [])
unfolding parse_afk_environment find_heading section is_variable_name entry entries nonempty_lines
    codes_before insert_name sort_names distinct after_prefix trim trim_start trim_end split_on
    ends_line begins_section strip
body_names = refl

greedy_names : parse_afk_environment greedy_body ≡ ok ("GH_PROXY" ∷ "TAVILY_API_KEY" ∷ [])
unfolding parse_afk_environment find_heading section is_variable_name entry entries nonempty_lines
    codes_before insert_name sort_names distinct after_prefix trim trim_start trim_end split_on
    ends_line begins_section strip
greedy_names = refl

allowed : allowed_names settings ≡ "TAVILY_API_KEY" ∷ "AMADEUS_KEY" ∷ []
unfolding allowed_names local_configuration file_value find_assignment assignment after_name
    assigned_value after_prefix last_is drop_last unquoted trim trim_start trim_end split_on
    nonempty_lines
allowed = refl

key_value : local_configuration settings "TAVILY_API_KEY" ≡ some "k 1"
unfolding local_configuration file_value find_assignment assignment after_name assigned_value
    after_prefix last_is drop_last unquoted trim trim_start trim_end split_on
key_value = refl

no_value : local_configuration settings "AMADEUS_KEY" ≡ none
unfolding local_configuration file_value find_assignment assignment after_name assigned_value
    after_prefix last_is drop_last unquoted trim trim_start trim_end split_on
no_value = refl

two_parallel : positive_integer_setting settings "SANDCASTLE_MAX_PARALLEL_ISSUES" 1 3 ≡ ok 2
unfolding positive_integer_setting local_configuration file_value find_assignment assignment
    after_name assigned_value after_prefix last_is drop_last unquoted trim trim_start trim_end
    split_on number_of
two_parallel = refl

parse_afk_environment-Requests_example :
    Ascending ("TAVILY_API_KEY" ∷ [])
    × All (λ n. is_variable_name n ≡ true) ("TAVILY_API_KEY" ∷ [])
    × Requests body ("TAVILY_API_KEY" ∷ [])
parse_afk_environment-Requests_example =
    parse_afk_environment-Requests body ("TAVILY_API_KEY" ∷ []) body_names

resolve_task_environment_iff_example :
    (resolve_task_environment settings body ≡ ok (("TAVILY_API_KEY", "k 1") ∷ [])) ↔ (
      (parse_afk_environment body ≡ ok ("TAVILY_API_KEY" ∷ []))
      × All (Granted settings (allowed_names settings)) (("TAVILY_API_KEY", "k 1") ∷ []))
resolve_task_environment_iff_example =
    resolve_task_environment_iff settings body (("TAVILY_API_KEY", "k 1") ∷ [])

greedy_refused :
    resolve_task_environment settings greedy_body ≡ err (refused (not_allowed "GH_PROXY" ∷ []))
unfolding resolve_task_environment resolve_names resolve_name allowed_names local_configuration
    file_value find_assignment assignment after_name assigned_value after_prefix last_is drop_last
    unquoted trim trim_start trim_end split_on nonempty_lines parse_afk_environment find_heading
    section is_variable_name entry entries codes_before insert_name sort_names distinct ends_line
    begins_section strip
greedy_refused = refl

abbrev refusals : List Refusal
refusals = not_allowed "GH_PROXY" ∷ []

resolve_task_environment-refused_example :
    (refusals ≢ [])
    × All (Justified settings (allowed_names settings)) refusals
    × ((n : String)
        → In n ("GH_PROXY" ∷ "TAVILY_API_KEY" ∷ [])
        → (In n (map (name_of settings) refusals))
          ⊎ ((v : String) × Granted settings (allowed_names settings) (n, v)))
resolve_task_environment-refused_example =
    resolve_task_environment-refused settings greedy_body ("GH_PROXY" ∷ "TAVILY_API_KEY" ∷ [])
      refusals greedy_names greedy_refused

positive_integer_setting-bounds_example : (1 ≤ 2) × (2 ≤ 3)
positive_integer_setting-bounds_example =
    positive_integer_setting-bounds settings "SANDCASTLE_MAX_PARALLEL_ISSUES" 1 3 2 (omega arith)
      (omega arith) two_parallel

-- Two pages, and the first cursor again after the second.
abbrev fetch : Option String → Option (Page ℕ)
fetch none = some (record { has_next_page = true; end_cursor = some "a"; items = 1 ∷ [] })
fetch (some c) = some (record { has_next_page = true; end_cursor = some "a"; items = 2 ∷ [] })

fetch-IsClosed : IsClosed fetch ("a" ∷ [])
fetch-IsClosed none page c e f = inl (ground (arith, e, f))
fetch-IsClosed (some d) page c e f = inl (ground (arith, e, f))

read_paginated_connection-ends_example : read_paginated_connection fetch 2 ≢ err out_of_fuel
read_paginated_connection-ends_example =
    read_paginated_connection-ends fetch ("a" ∷ []) fetch-IsClosed

-- Two pages, the second of which is the last.
abbrev two_pages : Option String → Option (Page ℕ)
two_pages none = some (record { has_next_page = true; end_cursor = some "a"; items = 1 ∷ [] })
two_pages (some c) = some (record { has_next_page = false; end_cursor = none; items = 2 ∷ [] })

two_pages-IsClosed : IsClosed two_pages ("a" ∷ [])
two_pages-IsClosed none page c e f = inl (ground (arith, e, f))
two_pages-IsClosed (some d) page c e f = absurd (ground (arith, e, f))

reads_two_pages : read_paginated_connection two_pages 2 ≡ ok (1 ∷ 2 ∷ [])
unfolding read_paginated_connection read_from next_cursor
reads_two_pages = refl

read_paginated_connection_iff_example :
    (read_paginated_connection two_pages 2 ≡ ok (1 ∷ 2 ∷ []))
    ↔ Linked two_pages [] none (1 ∷ 2 ∷ [])
read_paginated_connection_iff_example =
    read_paginated_connection_iff two_pages ("a" ∷ []) two_pages-IsClosed (1 ∷ 2 ∷ [])

abbrev pub planned : PlannedIssue
planned = record { id = "12"; title = "Add trips"; branch = "sandcastle/task-12" }

abbrev pub answer : String → ClaimAnswer
answer body = record {
  is_open = true;
  title = "Add trips";
  body = body;
  labels = "ready-for-agent" ∷ "agent:implement" ∷ [];
  parent = some 7;
  parent_title = none;
  sub_issue_count = 0;
  blocked_by = [];
  labels_truncated = false;
  blockers_truncated = false;
}

claims_task :
    (claim_issue world settings planned (some (answer "Do it.")) run).0.deeds
    ≡ labelled "12" (some "agent:in-progress") ∷ []
unfolding claim_issue accepts_claim is_refused_claim has_external_pre_run_gates has_gates_from
    ends_line begins_section has_content strip resolve_task_environment parse_afk_environment
    find_heading after_prefix task_branch default_integration_branch
claims_task = refl

abbrev keys : List (String × String)
keys = ("TAVILY_API_KEY", "k 1") ∷ []

claim_issue_iff_example :
    (claim_issue world settings planned (some (answer body)) run ≡ (
      label_ticket "12" (some "agent:in-progress") run,
      some (claim_of planned (answer body), keys),
    ))
    ↔ IsClaimed world settings planned
        (some (answer body))
        run
        (label_ticket "12" (some "agent:in-progress") run)
        (claim_of planned (answer body), keys)
claim_issue_iff_example =
    claim_issue_iff world settings planned (some (answer body)) run
      (label_ticket "12" (some "agent:in-progress") run) (claim_of planned (answer body), keys)

refuses_greedy : (claim_issue world settings planned (some (answer greedy_body)) run).1 ≡ none
unfolding claim_issue accepts_claim is_refused_claim has_external_pre_run_gates has_gates_from
    ends_line begins_section has_content strip resolve_task_environment resolve_names resolve_name
    allowed_names local_configuration file_value find_assignment assignment after_name
    assigned_value after_prefix last_is drop_last unquoted trim trim_start trim_end split_on
    nonempty_lines parse_afk_environment find_heading section is_variable_name entry entries
    codes_before insert_name sort_names distinct task_branch
refuses_greedy = refl

claim_issue-none_example :
    (((claim_issue world settings planned (some (answer greedy_body)) run).0 ≡ run)
      × IsIdle world settings planned (some (answer greedy_body)))
    ⊎ (IsBlocked world settings planned run
          (claim_issue world settings planned (some (answer greedy_body)) run).0
        × ((a : ClaimAnswer) × (some (answer greedy_body) ≡ some a)
            × IsClaimable planned a
            × ((is_gated a.body a.labels ≡ true)
                ⊎ ((e : SettingError) × (resolve_task_environment settings a.body ≡ err e)))))
claim_issue-none_example =
    claim_issue-none world settings planned (some (answer greedy_body)) run refuses_greedy

abbrev queue : List QueuedIssue
queue =
    record {
      id = 14;
      body = body;
      labels = "ready-for-agent" ∷ "agent:queued" ∷ [];
      blocked_by = [];
      labels_truncated = false;
      blockers_truncated = false;
    }
    ∷ []

promote_unblocked_queued_issues_iff_example :
    (new : List Deed) × (promote_unblocked_queued_issues world settings (some queue) run
      ≡ with_deeds world settings new run)
    × ((d : Deed) → In d new ↔ IsPromoted world settings queue d)
promote_unblocked_queued_issues_iff_example =
    promote_unblocked_queued_issues_iff world settings queue run

abbrev feature : AutopilotFeature
feature = record {
  id = 7;
  labels = "agent:autopilot" ∷ [];
  labels_truncated = false;
  tasks_truncated = true;
  tasks = [];
}

abbrev tasks_of : ℕ → Option (List AutopilotTask)
tasks_of n = some (
    record {
      id = 12;
      body = body;
      is_open = true;
      labels = "ready-for-agent" ∷ [];
      sub_issue_count = 0;
      blocked_by = [];
      labels_truncated = false;
      blockers_truncated = false;
    }
    ∷ [])

authorize_autopilot_tasks-IsAuthorized_example :
    (new : List Deed) × (authorize_autopilot_tasks world settings (some (feature ∷ [])) tasks_of run
      ≡ with_deeds world settings new run)
    × ((d : Deed)
        → In d new
        → (fs : List AutopilotFeature) × (features_with_tasks (some (feature ∷ [])) tasks_of
            ≡ some fs)
          × IsAuthorized world settings fs d)
authorize_autopilot_tasks-IsAuthorized_example =
    authorize_autopilot_tasks-IsAuthorized world settings (some (feature ∷ [])) tasks_of run
