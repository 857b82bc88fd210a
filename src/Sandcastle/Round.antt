-- ===== src/Sandcastle/Round.antt =====
-- The parts of a round of main in .sandcastle/main.mts: claiming what is planned, blocking what
-- failed, and publishing what is approved.
pub mod Safety
pub mod Reviewed
use flash_trips.Prelude.{
  ℕ, ◌+◌, String, Bool, true, false, Option, none, some, List, [], ◌∷◌, ◌++◌, ◌||◌, ◌&&◌, not,
  str_eq, if◌then◌else◌, Result, ok, err,
}
use flash_trips.Sandcastle.World.{World}
use flash_trips.Sandcastle.Plan.{PlannedIssue}
use flash_trips.Sandcastle.RunState.{reviewed, ActiveClaim, is_sha}
use flash_trips.Sandcastle.Environment.{Settings}
use flash_trips.Sandcastle.Autopilot.{AutopilotTask, AutopilotFeature}
use flash_trips.Sandcastle.Checkpoints.{
  Run, RunError, command_failed, publication_failed, Outcome, Done, ◌▸◌, set_claim,
  persist_run_state, block_issue,
}
use flash_trips.Sandcastle.Checkpoints.Integration.{Approved, Workshop, integrate_and_publish_group}
use flash_trips.Sandcastle.Claims.{ClaimAnswer, Claimed, QueuedIssue, claim_issue}

-- What the tracker, git and the agents answer in one round; none is a call that throws.
pub record Round : Type 0 where
  pub world : World
  pub features : Option (List AutopilotFeature)
  pub tasks_of : ℕ → Option (List AutopilotTask)
  pub queued : Option (List QueuedIssue)
  -- Whether there are authorised issues, and what is planned for them.
  pub authorised : Option Bool
  pub plan : Option (List PlannedIssue)
  pub answer : String → Option ClaimAnswer
  -- prepareIntegrationBase of a claim.
  pub base : ActiveClaim → Option String
  -- The commits of a claim's pipeline, none where it was rejected.
  pub commits : ActiveClaim → Option (List String)
  -- `git rev-parse` of a branch.
  pub pinned : String → Option String
  -- A signal stopped the run, or its time is over.
  pub is_aborted : Bool
  pub is_target_stable : Bool
  pub workshop : String → Workshop

-- How a round ends: the loop goes on, or stops.
pub data Next : Type 0 where
  goes_on : Next
  stops : Next

-- claimIssue for a planned issue, and the claim in the file.
abbrev pub keep_claim : Run × Option Claimed → Outcome (List Claimed)
keep_claim (r, none) = (r, ok [])
keep_claim (r, some (c, env)) =
    persist_run_state (record r { active = set_claim c r.active }) ▸ λ r' _.
    (r', ok ((c, env) ∷ []))

-- `integrationBases.get`.
unfoldable pub base_of : String → List (String × String) → Option String
base_of branch [] = none
base_of branch ((other, base) ∷ bases) =
    let rest = base_of branch bases in if str_eq other branch then some base else rest

abbrev pub differs : Option String → String → Bool
differs none base = false
differs (some existing) base = not (str_eq existing "") && not (str_eq existing base)

abbrev pub add_base :
    String → Option String → List (String × String) → Option (List (String × String))
add_base branch none bases = none
add_base branch (some base) bases =
    if differs (base_of branch bases) base then none else some ((branch, base) ∷ bases)

abbrev pub has_commits : Option (List String) → Bool
has_commits (some (sha ∷ shas)) = true
has_commits _ = false

abbrev pub as_reviewed : String → ActiveClaim → ActiveClaim
as_reviewed sha c = record c { checkpoint = reviewed; approved_sha = some sha }

-- The groups of the approved Tasks by integration branch, in the order of their first Tasks.
unfoldable pub add_to_groups :
    Approved → List (String × List Approved) → List (String × List Approved)
add_to_groups (c, sha) [] = (c.integration_branch, (c, sha) ∷ []) ∷ []
add_to_groups (c, sha) ((branch, group) ∷ groups) =
    let rest = add_to_groups (c, sha) groups in
    if str_eq branch c.integration_branch
    then (branch, group ++ ((c, sha) ∷ [])) ∷ groups
    else (branch, group) ∷ rest

unfoldable pub group_tasks :
    List Approved → List (String × List Approved) → List (String × List Approved)
unfolding add_to_groups
group_tasks [] groups = groups
group_tasks (x ∷ xs) groups = group_tasks xs (add_to_groups x groups)

abbrev pub failed : {A : Type 0} → Result RunError A → Bool
failed (err e) = true
failed (ok a) = false

abbrev pub finish_groups : Run × Bool → Outcome Next
finish_groups (r, false) = (r, ok goes_on)
finish_groups (r, true) = persist_run_state r ▸ λ r' _. (r', err publication_failed)

module _ (settings : Settings) (round : Round) where
  unfoldable pub claim_each : List PlannedIssue → Run → Outcome (List Claimed)
  unfolding claim_issue persist_run_state set_claim
  claim_each [] r = (r, ok [])
  claim_each (issue ∷ issues) r =
      keep_claim (claim_issue round.world settings issue (round.answer issue.id) r) ▸ λ r' first.
      claim_each issues r' ▸ λ r'' others. (r'', ok (first ++ others))

  -- The bases of the claims' integration branches, none where the round throws.
  unfoldable pub integration_bases :
      List Claimed → List (String × String) → Option (List (String × String))
  unfolding base_of
  integration_bases [] bases = some bases
  integration_bases ((c, env) ∷ claims) bases =
      elim (add_base c.integration_branch (round.base c) bases) [
        | none ↦ none
        | some more ↦ integration_bases claims more
      ]

  unfoldable pub completed : List Claimed → List ActiveClaim
  completed [] = []
  completed ((c, env) ∷ claims) =
      let rest = completed claims in if has_commits (round.commits c) then c ∷ rest else rest

  -- The claims whose pipeline failed are blocked.
  unfoldable pub block_failed : List Claimed → Run → Done
  unfolding block_issue
  block_failed [] r = (r, ok tt)
  block_failed ((c, env) ∷ claims) r =
      (if has_commits (round.commits c) then (r, ok tt) else block_issue round.world c.id r)
      ▸ λ r' _. block_failed claims r'

  abbrev pub approve : ActiveClaim → Option String → Run → Outcome Approved
  approve c none r = (r, err command_failed)
  approve c (some sha) r =
      if is_sha sha
      then (
        record r { active = set_claim (as_reviewed sha c) r.active },
        ok (as_reviewed sha c, sha),
      )
      else (r, err command_failed)

  -- The reviewed commits of the completed claims are pinned.
  unfoldable pub approve_each : List ActiveClaim → Run → Outcome (List Approved)
  unfolding is_sha set_claim
  approve_each [] r = (r, ok [])
  approve_each (c ∷ cs) r = approve c (round.pinned c.branch) r ▸ λ r' first.
      approve_each cs r' ▸ λ r'' others. (r'', ok (first ∷ others))

  -- Every group is integrated and published, whatever becomes of the others; the flag says whether
  -- one failed.
  unfoldable pub publish_groups : String → List (String × List Approved) → Bool → Run → Run × Bool
  unfolding integrate_and_publish_group
  publish_groups target [] failures r = (r, failures)
  publish_groups target ((branch, group) ∷ groups) failures r =
      let done = integrate_and_publish_group round.world (round.workshop branch) target group r in
      publish_groups target groups (failures || failed done.1) done.0

  -- The part of a round after the pipelines.
  unfoldable pub publish_completed : String → List ActiveClaim → Run → Outcome Next
  unfolding approve_each persist_run_state group_tasks publish_groups
  publish_completed target [] r = (r, ok goes_on)
  publish_completed target (c ∷ cs) r = approve_each (c ∷ cs) r ▸ λ r' approved.
      persist_run_state r' ▸ λ r'' _.
      finish_groups (publish_groups target (group_tasks approved []) false r'')
