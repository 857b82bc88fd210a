-- ===== src/Sandcastle/Autopilot.antt =====
-- selectAutopilotAuthorizations of .sandcastle/main.mts: which Tasks of opted-in Features are
-- released to the agents.
pub mod Laws
use flash_trips.Prelude.{
  ℕ, String, Bool, true, false, Option, none, some, List, [], ◌∷◌, ◌++◌, ◌&&◌, ◌||◌, not, any, leb,
  ltb, includes, show, ◌+++◌, if◌then◌else◌,
}
use flash_trips.Sandcastle.Pipeline.{implementation_labels}
use flash_trips.Sandcastle.Gates.{has_external_pre_run_gates}

pub record AutopilotTask : Type 0 where
  pub id : ℕ
  pub body : String
  pub is_open : Bool
  pub labels : List String
  pub sub_issue_count : ℕ
  pub blocked_by : List ℕ
  pub labels_truncated : Bool
  pub blockers_truncated : Bool

pub record AutopilotFeature : Type 0 where
  pub id : ℕ
  pub labels : List String
  pub labels_truncated : Bool
  pub tasks_truncated : Bool
  pub tasks : List AutopilotTask

pub record Authorization : Type 0 where
  pub id : String
  pub label : String
  pub reason : Option String

abbrev pub refused_labels : List String
refused_labels =
    "roadmap" ∷ "needs-info" ∷ "ready-for-human" ∷ "wontfix" ∷ "agent:in-progress" ∷ "agent:blocked"
    ∷ []

module _ {A : Type 0} (id_of : A → ℕ) where
  unfoldable pub insert : A → List A → List A
  insert x [] = x ∷ []
  insert x (y ∷ ys) =
      let rest = insert x ys in if ltb (id_of y) (id_of x) then y ∷ rest else x ∷ y ∷ ys

  -- `sort((left, right) => left.id - right.id)`.
  unfoldable pub sort : List A → List A
  unfolding insert
  sort [] = []
  sort (x ∷ xs) = insert x (sort xs)

unfoldable pub open_tasks : List AutopilotTask → List AutopilotTask
open_tasks [] = []
open_tasks (task ∷ tasks) =
    let rest = open_tasks tasks in if task.is_open then task ∷ rest else rest

-- `continue` for a Feature that is not opted in or not read completely.
abbrev pub skips_feature : AutopilotFeature → Bool
skips_feature f =
    not (includes "agent:autopilot" f.labels) || f.labels_truncated || f.tasks_truncated

abbrev pub has_label : AutopilotTask → String → Bool
has_label task label = includes label task.labels

-- `continue` for a Task that may not be released.
abbrev pub skips_task : AutopilotTask → Bool
skips_task task =
    not (has_label task "ready-for-agent")
    || any (has_label task) refused_labels
    || any (has_label task) implementation_labels
    || ltb 0 task.sub_issue_count
    || task.labels_truncated
    || task.blockers_truncated

abbrev pub gate_reason : ℕ → String
gate_reason id =
    "Task #"
    +++ show id
    +++ " has external pre-run gates. Apply agent:gates-cleared only after its disposable resources and credentials are ready."

abbrev pub is_gated : AutopilotTask → Bool
is_gated task = has_external_pre_run_gates task.body && not (has_label task "agent:gates-cleared")

abbrev pub release_label : List ℕ → String
release_label [] = "agent:implement"
release_label (_ ∷ _) = "agent:queued"

-- The body of the loop on Tasks.
unfoldable pub authorize_task : AutopilotTask → List Authorization
authorize_task task =
    if skips_task task
    then []
    else if is_gated task
    then record { id = show task.id; label = "agent:blocked"; reason = some (gate_reason task.id) }
      ∷ []
    else record { id = show task.id; label = release_label task.blocked_by; reason = none } ∷ []

-- What a loop pushes, over its elements in order.
unfoldable pub each : {A B : Type 0} → (A → List B) → List A → List B
each f [] = []
each f (x ∷ xs) = f x ++ each f xs

-- The body of the loop on Features.
unfoldable pub authorize_feature : AutopilotFeature → List Authorization
unfolding authorize_task each open_tasks sort
authorize_feature f =
    if skips_feature f
    then []
    else each authorize_task (sort (λ (task : AutopilotTask). task.id) (open_tasks f.tasks))

-- selectAutopilotAuthorizations.
unfoldable pub select_autopilot_authorizations : List AutopilotFeature → List Authorization
unfolding authorize_feature each sort
select_autopilot_authorizations features =
    each authorize_feature (sort (λ (f : AutopilotFeature). f.id) features)
