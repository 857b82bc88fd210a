-- ===== src/Sandcastle/Claims.antt =====
-- The checks of a ticket in .sandcastle/main.mts before its work starts: claimIssue,
-- promoteUnblockedQueuedIssues and authorizeAutopilotTasks. Comments on the tickets are left out.
pub mod Laws
pub mod Promotion
pub mod Release
use flash_trips.Prelude.{
  ℕ, String, Bool, true, false, Option, none, some, List, [], ◌∷◌, ◌++◌, ◌&&◌, ◌||◌, not, all, any,
  ltb, includes, str_eq, show, if◌then◌else◌, Result, ok, err,
}
use flash_trips.Sandcastle.World.{World}
use flash_trips.Sandcastle.Plan.{PlannedIssue, task_branch}
use flash_trips.Sandcastle.RunState.{claimed, ActiveClaim, default_integration_branch}
use flash_trips.Sandcastle.Gates.{has_external_pre_run_gates}
use flash_trips.Sandcastle.Environment.{Settings, SettingError}
use flash_trips.Sandcastle.TaskEnvironment.{resolve_task_environment}
use flash_trips.Sandcastle.Autopilot.{
  AutopilotTask, AutopilotFeature, Authorization, select_autopilot_authorizations,
}
use flash_trips.Sandcastle.Checkpoints.{Run, label_ticket}

-- claimSchema.
pub record ClaimAnswer : Type 0 where
  pub is_open : Bool
  pub title : String
  pub body : String
  pub labels : List String
  pub parent : Option ℕ
  pub parent_title : Option String
  pub sub_issue_count : ℕ
  pub blocked_by : List ℕ
  pub labels_truncated : Bool
  pub blockers_truncated : Bool

abbrev is_positive : ℕ → Bool
is_positive n = ltb 0 n

abbrev is_positive_or_null : Option ℕ → Bool
is_positive_or_null none = true
is_positive_or_null (some n) = is_positive n

abbrev is_nil : List ℕ → Bool
is_nil [] = true
is_nil (_ ∷ _) = false

-- The tests of the schema.
unfoldable pub accepts_claim : ClaimAnswer → Bool
accepts_claim a =
    a.is_open
    && not (str_eq a.title "")
    && is_positive_or_null a.parent
    && all is_positive a.blocked_by

abbrev pub required_labels : List String
required_labels = "ready-for-agent" ∷ "agent:implement" ∷ []

abbrev pub refused_for_claim : List String
refused_for_claim =
    "roadmap" ∷ "needs-info" ∷ "ready-for-human" ∷ "wontfix" ∷ "agent:in-progress" ∷ "agent:blocked"
    ∷ []

abbrev pub refused_for_promotion : List String
refused_for_promotion =
    "roadmap" ∷ "needs-info" ∷ "ready-for-human" ∷ "wontfix" ∷ "agent:implement"
    ∷ "agent:in-progress" ∷ "agent:blocked" ∷ []

-- The ticket is no longer authorised, or it is not the planned one.
unfoldable pub is_refused_claim : String → ClaimAnswer → Bool
is_refused_claim title a =
    any (λ label. not (includes label a.labels)) required_labels
    || any (λ label. includes label a.labels) refused_for_claim
    || ltb 0 a.sub_issue_count
    || not (is_nil a.blocked_by)
    || a.labels_truncated
    || a.blockers_truncated
    || not (str_eq a.title title)

abbrev pub is_gated : String → List String → Bool
is_gated body labels =
    has_external_pre_run_gates body && not (includes "agent:gates-cleared" labels)

-- A claim with the variables of its Task.
abbrev pub Claimed : Type 0
Claimed = ActiveClaim × List (String × String)

abbrev pub claim_of : PlannedIssue → ClaimAnswer → ActiveClaim
claim_of planned a = record {
  id = planned.id;
  title = planned.title;
  branch = planned.branch;
  parent = a.parent;
  parent_title = a.parent_title;
  integration_branch = default_integration_branch a.parent planned.branch;
  checkpoint = claimed;
  approved_sha = none;
  integration_head = none;
  expected_remote_tree = none;
  publication = none;
}

-- A Task of the queue, as queuedIssueSchema has it.
pub record QueuedIssue : Type 0 where
  pub id : ℕ
  pub body : String
  pub labels : List String
  pub blocked_by : List ℕ
  pub labels_truncated : Bool
  pub blockers_truncated : Bool

abbrev pub has_environment : Result SettingError (List (String × String)) → Bool
has_environment (err e) = false
has_environment (ok env) = true

-- The issue passes every `continue` of the loop.
unfoldable pub is_promotable : Settings → QueuedIssue → Bool
unfolding resolve_task_environment
is_promotable settings q =
    includes "ready-for-agent" q.labels
    && includes "agent:queued" q.labels
    && not (any (λ label. includes label q.labels) refused_for_promotion)
    && is_nil q.blocked_by
    && not q.labels_truncated
    && not q.blockers_truncated
    && not (is_gated q.body q.labels)
    && has_environment (resolve_task_environment settings q.body)

-- The Features with their Tasks, as far as these can be read.
unfoldable pub read_tasks :
    (ℕ → Option (List AutopilotTask)) → List AutopilotFeature → Option (List AutopilotFeature)
read_tasks tasks_of [] = some []
read_tasks tasks_of (f ∷ fs) =
    let rest = read_tasks tasks_of fs in
    let filled =
      if f.tasks_truncated
      then (elim (tasks_of f.id) [
        | none ↦ none
        | some tasks ↦ some (record f { tasks = tasks; tasks_truncated = false })
      ])
      else some f in
    elim filled [
      | none ↦ none
      | some feature ↦ elim rest [ none ↦ none | some features ↦ some (feature ∷ features) ]
    ]

abbrev pub is_truncated : AutopilotFeature → Bool
is_truncated f = f.labels_truncated || f.tasks_truncated

unfoldable pub all_tasks : List AutopilotFeature → List AutopilotTask
all_tasks [] = []
all_tasks (f ∷ fs) = f.tasks ++ all_tasks fs

unfoldable pub find_task : String → List AutopilotTask → Option AutopilotTask
unfolding show
find_task id [] = none
find_task id (t ∷ ts) = let rest = find_task id ts in if str_eq (show t.id) id then some t else rest

-- Whether the Task of an authorization lacks its environment.
abbrev pub lacks_environment : Settings → Option AutopilotTask → Bool
lacks_environment settings none = false
lacks_environment settings (some task) =
    not (has_environment (resolve_task_environment settings task.body))

abbrev pub features_with_tasks :
    Option (List AutopilotFeature)
    → (ℕ → Option (List AutopilotTask))
    → Option (List AutopilotFeature)
features_with_tasks none tasks_of = none
features_with_tasks (some features) tasks_of = read_tasks tasks_of features

module _ (w : World) where
  -- setPipelineLabel: the run after it, and whether it succeeded.
  abbrev pub set_label : String → String → Run → Run
  set_label id label r = if w.set_label id (some label) then label_ticket id (some label) r else r

  -- A Task that is refused is labelled as blocked.
  unfoldable pub refuse_task : String → Run → Run
  refuse_task id r = record (set_label id "agent:blocked" r) { had_blocked_work = true }

  abbrev claim_labelled :
      PlannedIssue → ClaimAnswer → List (String × String) → Run → Run × Option Claimed
  claim_labelled planned a env r =
      if not (str_eq planned.branch (task_branch planned.id))
      then (r, none)
      else if w.set_label planned.id (some "agent:in-progress")
      then (label_ticket planned.id (some "agent:in-progress") r, some (claim_of planned a, env))
      else (r, none)

  abbrev claim_resolved :
      PlannedIssue
      → ClaimAnswer
      → Result SettingError (List (String × String))
      → Run
      → Run × Option Claimed
  claim_resolved planned a (err e) r = (refuse_task planned.id r, none)
  claim_resolved planned a (ok env) r = claim_labelled planned a env r

  -- claimIssue, on what the tracker answered for the planned issue.
  unfoldable pub claim_issue :
      Settings → PlannedIssue → Option ClaimAnswer → Run → Run × Option Claimed
  unfolding accepts_claim is_refused_claim refuse_task task_branch
  claim_issue settings planned none r = (r, none)
  claim_issue settings planned (some a) r =
      if not (accepts_claim a) || is_refused_claim planned.title a
      then (r, none)
      else if is_gated a.body a.labels
      then (refuse_task planned.id r, none)
      else claim_resolved planned a (resolve_task_environment settings a.body) r

  unfoldable pub promote_each : Settings → List QueuedIssue → Run → Run
  unfolding is_promotable
  promote_each settings [] r = r
  promote_each settings (q ∷ qs) r =
      promote_each settings qs
        (if is_promotable settings q then set_label (show q.id) "agent:implement" r else r)

  -- promoteUnblockedQueuedIssues, on what the tracker answered.
  unfoldable pub promote_unblocked_queued_issues : Settings → Option (List QueuedIssue) → Run → Run
  unfolding promote_each
  promote_unblocked_queued_issues settings none r = r
  promote_unblocked_queued_issues settings (some queued) r = promote_each settings queued r

  -- The body of the loop on authorizations.
  unfoldable pub authorize_one : Settings → List AutopilotTask → Authorization → Run → Run
  unfolding find_task resolve_task_environment
  authorize_one settings tasks a r =
      if str_eq a.label "agent:implement" && lacks_environment settings (find_task a.id tasks)
      then set_label a.id "agent:blocked" r
      else set_label a.id a.label r

  unfoldable pub authorize_each : Settings → List AutopilotTask → List Authorization → Run → Run
  unfolding authorize_one
  authorize_each settings tasks [] r = r
  authorize_each settings tasks (a ∷ more) r =
      authorize_each settings tasks more (authorize_one settings tasks a r)

  abbrev authorize_read : Settings → Option (List AutopilotFeature) → Run → Run
  authorize_read settings none r = r
  authorize_read settings (some features) r =
      if any is_truncated features
      then r
      else authorize_each settings (all_tasks features) (select_autopilot_authorizations features) r

  -- authorizeAutopilotTasks, on what the tracker answered for the Features and for the Tasks of each.
  unfoldable pub authorize_autopilot_tasks :
      Settings → Option (List AutopilotFeature) → (ℕ → Option (List AutopilotTask)) → Run → Run
  unfolding read_tasks all_tasks authorize_each select_autopilot_authorizations
  authorize_autopilot_tasks settings features tasks_of r =
      authorize_read settings (features_with_tasks features tasks_of) r
