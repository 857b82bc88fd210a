-- ===== src/Sandcastle/Rounds.antt =====
-- The rounds of main in .sandcastle/main.mts, up to the Task budget; and the end of runSandcastle, which
-- stops what is still claimed.
pub mod Laws
pub mod Safety
use flash_trips.Prelude.{
  is_some, ℕ, zero, suc, ◌+◌, ◌-◌, min, String, Bool, true, false, Option, none, some, List, [],
  ◌∷◌, not, take, length, ltb, includes, if◌then◌else◌, ok, err,
}
use flash_trips.Sandcastle.World.{World}
use flash_trips.Sandcastle.Plan.{PlannedIssue}
use flash_trips.Sandcastle.RunState.{ActiveClaim}
use flash_trips.Sandcastle.Environment.{Settings}
use flash_trips.Sandcastle.Checkpoints.{
  Run, target_changed, command_failed, Outcome, Done, ◌▸◌, stop_claim,
}
use flash_trips.Sandcastle.Claims.{
  Claimed, promote_unblocked_queued_issues, authorize_autopilot_tasks,
}
use flash_trips.Sandcastle.Round.{
  Round, Next, claim_each, integration_bases, completed, block_failed, publish_completed, goes_on,
  stops,
}
use flash_trips.Sandcastle.Round.{group_tasks}
use flash_trips.Sandcastle.Checkpoints.Recovery.{recover_interrupted_run}
use flash_trips.Sandcastle.Checkpoints.Integration.{
  Approved, Workshop, is_integrated, integrate_and_publish_group,
}

module _ (settings : Settings) (round : Round) where
  abbrev work_on : String → List Claimed → Option (List (String × String)) → Run → Outcome Next
  work_on target claims none r = (r, err command_failed)
  work_on target claims (some bases) r = block_failed settings round claims r ▸ λ r' _.
      publish_completed settings round target (completed settings round claims) r'

  abbrev counted : ℕ → Outcome Next → Outcome (Next × ℕ)
  counted n o = o ▸ λ r next. (r, ok (next, n))

  -- The part of a round after the claims.
  unfoldable pub work_on_claims : String → Run → List Claimed → Outcome (Next × ℕ)
  unfolding integration_bases block_failed completed publish_completed
  work_on_claims target r [] = (r, ok (stops, 0))
  work_on_claims target r (c ∷ cs) =
      counted (length (c ∷ cs))
        (work_on target (c ∷ cs) (integration_bases settings round (c ∷ cs) []) r)

  unfoldable pub claim_planned : String → List PlannedIssue → Run → Outcome (Next × ℕ)
  unfolding claim_each work_on_claims
  claim_planned target [] r = (r, ok (stops, 0))
  claim_planned target (issue ∷ issues) r =
      claim_each settings round (issue ∷ issues) r ▸ work_on_claims target

  abbrev plan_round :
      String → ℕ → Option Bool → Option (List PlannedIssue) → Run → Outcome (Next × ℕ)
  plan_round target limit none plan r = (r, err command_failed)
  plan_round target limit (some false) plan r = (r, ok (stops, 0))
  plan_round target limit (some true) none r = (r, err command_failed)
  plan_round target limit (some true) (some issues) r = claim_planned target (take limit issues) r

  -- The body of the loop, for a limit on the claims of the round.
  unfoldable pub run_round : String → ℕ → Run → Outcome (Next × ℕ)
  unfolding authorize_autopilot_tasks promote_unblocked_queued_issues claim_planned
  run_round target limit r =
      if round.is_aborted
      then (r, err command_failed)
      else if not round.is_target_stable
      then (r, err target_changed)
      else plan_round target limit round.authorised round.plan (
          promote_unblocked_queued_issues round.world settings round.queued
            (authorize_autopilot_tasks round.world settings round.features round.tasks_of r))

-- After a round, with the number of Tasks claimed so far.
abbrev after_round : ℕ → (ℕ → Run → Option (Outcome ℕ)) → Outcome (Next × ℕ) → Option (Outcome ℕ)
after_round count next (r, err e) = some (r, err e)
after_round count next (r, ok (stops, n)) = some (r, ok (count + n))
after_round count next (r, ok (goes_on, n)) = next (count + n) r

module _ (settings : Settings) (target : String) (max_parallel : ℕ) (budget : ℕ)
    (rounds : ℕ → Round) where
  -- The loop of main, with fuel: the number of claimed Tasks, or none without fuel.
  unfoldable pub run_rounds : ℕ → ℕ → ℕ → Run → Option (Outcome ℕ)
  unfolding run_round
  run_rounds zero n count r = none
  run_rounds (suc fuel) n count r =
      if ltb count budget
      then after_round count (run_rounds fuel (suc n))
          (run_round settings (rounds n) target (min max_parallel (budget - count)) r)
      else some (r, ok count)

-- The base of a recovered group is known: the head it was integrated at, or prepareIntegrationBase.
abbrev has_base : (ActiveClaim → Option String) → List Approved → Bool
has_base base [] = false
has_base base ((c, sha) ∷ group) =
    is_some (if is_integrated c.checkpoint then c.integration_head else base c)

-- The groups that a recovery left are published before the first round.
unfoldable pub resume_groups :
    World
    → (String → Workshop)
    → (ActiveClaim → Option String)
    → String
    → List (String × List Approved)
    → Run
    → Done
unfolding integrate_and_publish_group
resume_groups w workshop base target [] r = (r, ok tt)
resume_groups w workshop base target ((branch, group) ∷ groups) r =
    if has_base base group
    then (integrate_and_publish_group w (workshop branch) target group r ▸ λ r' _.
        resume_groups w workshop base target groups r')
    else (r, err command_failed)

abbrev then_rounds : Done → (Run → Option (Outcome ℕ)) → Option (Outcome ℕ)
then_rounds (r, err e) next = some (r, err e)
then_rounds (r, ok _) next = next r

-- main after the preflight, for a run whose target is recorded: recovery, the recovered groups, and
-- the rounds. `is_url` is the URL test of the validation library, and `is_aborted` says whether a
-- signal stopped the run during the recovery.
unfoldable pub run_main :
    World
    → (String → Bool)
    → Bool
    → (String → Workshop)
    → (ActiveClaim → Option String)
    → Settings
    → String
    → ℕ
    → ℕ
    → (ℕ → Round)
    → ℕ
    → Run
    → Option (Outcome ℕ)
unfolding recover_interrupted_run resume_groups group_tasks run_rounds
run_main w is_url is_aborted workshop base settings target max_parallel budget rounds fuel r =
    then_rounds
      (recover_interrupted_run w is_url r.file r ▸ λ r' approved.
        if is_aborted
        then (r', err command_failed)
        else resume_groups w workshop base target (group_tasks approved []) r')
      (run_rounds settings target max_parallel budget rounds fuel 0 0)

-- The end of runSandcastle: what is still claimed is stopped, but for tickets that are closed.
unfoldable pub stop_each : World → List ActiveClaim → Run → Done
unfolding stop_claim
stop_each w [] r = (r, ok tt)
stop_each w (c ∷ cs) r =
    (if includes c.id r.pending_cleanup then (r, ok tt) else stop_claim w c r) ▸ λ r' _.
    stop_each w cs r'
