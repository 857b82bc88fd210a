-- ===== src/Sandcastle/Rounds/Safety.antt =====
-- A round, and the end of a run, lose no claim and do to the tickets only what was proven.
use flash_trips.Prelude.{
  ℕ, zero, suc, inl, inr, ◌≡◌, String, Bool, true, false, Option, none, some, List, [], ◌∷◌, take,
  not, refl, sym, subst,
}
use flash_trips.Sandcastle.Plan.{PlannedIssue}
use flash_trips.Sandcastle.Environment.{Settings}
use flash_trips.Sandcastle.TaskEnvironment.Names.{All-of_member}
use flash_trips.Sandcastle.Autopilot.{AutopilotTask, AutopilotFeature}
use flash_trips.Sandcastle.Checkpoints.{Run}
use flash_trips.Sandcastle.Autopilot.Laws.{In}
use flash_trips.Sandcastle.Round.Reviewed.{
  Every, IsPlanned, claim_each-IsPlanned, completed-IsCompleted, round_rules,
}
use flash_trips.Sandcastle.Checkpoints.Safety.{Rules, Proven}
use flash_trips.Sandcastle.Claims.{
  Claimed, QueuedIssue, promote_unblocked_queued_issues, authorize_autopilot_tasks,
}
use flash_trips.Sandcastle.Claims.Promotion.{promote_unblocked_queued_issues_iff}
use flash_trips.Sandcastle.Claims.Release.{authorize_autopilot_tasks-IsAuthorized}
use flash_trips.Sandcastle.Rounds.{work_on, work_on_claims, claim_planned, plan_round, run_round}
use flash_trips.Sandcastle.Round.{Round, claim_each, completed, block_failed, integration_bases}
use flash_trips.Sandcastle.Round.Safety.{
  Guarded-refl, Guarded-trans, Guarded-then, Guarded-Yields, Guarded-if, deeds_Guarded,
  block_failed-Guarded, claim_each-Kept, publish_completed-Kept, Guarded,
}

module _ (settings : Settings) (round : Round) where
  abbrev P : Rules
  P = round_rules settings round

  work_on-Guarded :
      (target : String) (claims : List Claimed) (o : Option (List (String × String))) (r : Run)
      → Every (λ (x : Claimed). IsPlanned settings round x.0) claims
      → Guarded round.world P r (work_on settings round target claims o r).0
  work_on-Guarded target claims none r planned = Guarded-refl round.world P r
  work_on-Guarded target claims (some bases) r planned =
      Guarded-then round.world P (block_failed settings round claims r) _
        (block_failed-Guarded round.world P settings round claims r refl)
        (λ s _.
          publish_completed-Kept settings round target (completed settings round claims) s
            (completed-IsCompleted settings round claims planned))

  work_on_claims-Guarded :
      (target : String) (r : Run) (cs : List Claimed)
      → Every (λ (x : Claimed). IsPlanned settings round x.0) cs
      → Guarded round.world P r (work_on_claims settings round target r cs).0
  unfolding work_on_claims
  work_on_claims-Guarded target r [] planned = Guarded-refl round.world P r
  work_on_claims-Guarded target r (c ∷ cs) planned =
      Guarded-then round.world P
        (work_on settings round target (c ∷ cs) (integration_bases settings round (c ∷ cs) []) r) _
        (work_on-Guarded target (c ∷ cs) (integration_bases settings round (c ∷ cs) []) r planned)
        (λ s next. Guarded-refl round.world P s)

  claim_planned-Guarded :
      (target : String) (whole issues : List PlannedIssue) (r : Run)
      → round.plan ≡ some whole
      → Every (λ i. In i whole) issues
      → Guarded round.world P r (claim_planned settings round target issues r).0
  unfolding claim_planned
  claim_planned-Guarded target whole [] r plan held = Guarded-refl round.world P r
  claim_planned-Guarded target whole (issue ∷ issues) r plan held =
      Guarded-Yields round.world P (Every (λ (x : Claimed). IsPlanned settings round x.0))
        (claim_each settings round (issue ∷ issues) r) (work_on_claims settings round target)
        (claim_each-Kept settings round (issue ∷ issues) r)
        (claim_each-IsPlanned settings round whole plan (issue ∷ issues) r held)
        (work_on_claims-Guarded target)

  Every-take : (n : ℕ) (issues : List PlannedIssue) → Every (λ i. In i issues) (take n issues)
  Every-take zero issues = λ i m. absurd m
  Every-take (suc n) [] = λ i m. absurd m
  Every-take (suc n) (x ∷ xs) = λ i m. elim m [ inl e ↦ inl e | inr k ↦ inr (Every-take n xs i k) ]

  plan_round-Guarded :
      (target : String) (limit : ℕ) (o : Option Bool) (plan : Option (List PlannedIssue)) (r : Run)
      → round.plan ≡ plan
      → Guarded round.world P r (plan_round settings round target limit o plan r).0
  plan_round-Guarded target limit none plan r same = Guarded-refl round.world P r
  plan_round-Guarded target limit (some false) plan r same = Guarded-refl round.world P r
  plan_round-Guarded target limit (some true) none r same = Guarded-refl round.world P r
  plan_round-Guarded target limit (some true) (some issues) r same =
      claim_planned-Guarded target issues (take limit issues) r same (Every-take limit issues)

  authorize-Guarded :
      (features : Option (List AutopilotFeature)) (tasks_of : ℕ → Option (List AutopilotTask))
      (r : Run)
      → Guarded round.world P r (authorize_autopilot_tasks round.world settings features tasks_of r)
  authorize-Guarded features tasks_of r =
      let (new, same, each) =
        authorize_autopilot_tasks-IsAuthorized round.world settings features tasks_of r in
      subst (Guarded round.world P r) (sym same) (
        deeds_Guarded round.world P settings new r (
          All-of_member (Proven round.world P) new (λ d m.
            let (fs, _, authorized) = each d m in
            subst (Proven round.world P) (sym authorized.deed) authorized.taken)))

  promote-Guarded :
      (queued : Option (List QueuedIssue)) (r : Run)
      → Guarded round.world P r (promote_unblocked_queued_issues round.world settings queued r)
  unfolding promote_unblocked_queued_issues
  promote-Guarded none r = Guarded-refl round.world P r
  promote-Guarded (some queued) r =
      let (new, same, each) = promote_unblocked_queued_issues_iff round.world settings queued r in
      subst (Guarded round.world P r) (sym same) (
        deeds_Guarded round.world P settings new r (
          All-of_member (Proven round.world P) new (λ d m.
            let (q, _, promoted) = (each d).0 m in
            subst (Proven round.world P) (sym promoted.deed) promoted.taken)))

  -- Whatever the tracker, git, the agents and the disk do in a round, and however it ends: a claim that
  -- was there is still there, or its ticket's label was moved; every label that was moved is one that
  -- the tracker took; every ticket that was closed is that of an issue planned in the round, whose
  -- pipeline was accepted with commits, closed with the head of its branch, which the active claim's
  -- integration branch contains, and with a receipt that the publication script gave, after the remote
  -- had its commit, its tree and its pull request; and if every checkpoint had its evidence before,
  -- it has it afterwards.
  pub run_round-Guarded :
      (target : String) (limit : ℕ) (r : Run)
      → Guarded round.world
          (round_rules settings round)
          r
          (run_round settings round target limit r).0
  unfolding run_round
  run_round-Guarded target limit r =
      Guarded-if round.world P round.is_aborted _ _ (Guarded-refl round.world P r) (
        Guarded-if round.world P (not round.is_target_stable) _ _ (Guarded-refl round.world P r) (
          Guarded-trans round.world P (authorize-Guarded round.features round.tasks_of r) (
            Guarded-trans round.world P
              (promote-Guarded round.queued
                (authorize_autopilot_tasks round.world settings round.features round.tasks_of r))
              (plan_round-Guarded target limit round.authorised round.plan _ refl))))
