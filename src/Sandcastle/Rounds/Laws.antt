-- ===== src/Sandcastle/Rounds/Laws.antt =====
-- The rounds end, and claim no more Tasks than the budget and the limit of a round allow.
use flash_trips.Prelude.{
  ℕ, zero, suc, ◌+◌, ◌-◌, ◌≤◌, ◌<◌, min, String, Bool, true, false, Option, none, some, List, [],
  ◌∷◌, ◌++◌, take, length, length-append, ltb, not, ◌≡◌, refl, subst, ◌⊎◌, inl, inr, arith,
  Bool-cases, if◌then◌else◌, Result, ok, err, ok_injective,
}
use flash_trips.Sandcastle.Plan.{PlannedIssue}
use flash_trips.Sandcastle.Environment.{Settings}
use flash_trips.Sandcastle.Checkpoints.{
  Done, Run, RunError, target_changed, command_failed, Outcome, ◌▸◌,
}
use flash_trips.Sandcastle.Claims.{Claimed, claim_issue}
use flash_trips.Sandcastle.World.{World}
use flash_trips.Sandcastle.RunState.{ActiveClaim}
use flash_trips.Sandcastle.Checkpoints.Integration.{Workshop}
use flash_trips.Sandcastle.Checkpoints.Recovery.{recover_interrupted_run}
use flash_trips.Sandcastle.Round.{group_tasks}
use flash_trips.Sandcastle.Rounds.{
  run_main, resume_groups, then_rounds, work_on, work_on_claims, claim_planned, plan_round,
  run_round, after_round, run_rounds,
}
use flash_trips.Sandcastle.Round.{
  Round, Next, goes_on, stops, keep_claim, claim_each, integration_bases,
}

-- A call and what follows it returned.
then-ok :
    {A B : Type 0} (o : Outcome A) (k : Run → A → Outcome B) (b : B)
    → (o ▸ k).1 ≡ ok b
    → (a : A) × (o.1 ≡ ok a) × ((k o.0 a).1 ≡ ok b)
then-ok (r, ok a) k b h = (a, refl, h)
then-ok (r, err e) k b h = cc

keep_claim-length :
    (x : Run × Option Claimed) (cs : List Claimed) → (keep_claim x).1 ≡ ok cs → length cs ≤ 1
keep_claim-length (r, none) cs h =
    subst (λ x. length x ≤ 1) (ok_injective {E = RunError} h) (omega arith)
keep_claim-length (r, some (c, env)) cs h =
    let (u, _, e) = then-ok _ (λ r' _. (r', ok ((c, env) ∷ []))) cs h in
    subst (λ x. length x ≤ 1) (ok_injective {E = RunError} e) (omega arith)

module _ (settings : Settings) (round : Round) where
  claim_each-length :
      (issues : List PlannedIssue) (r : Run) (cs : List Claimed)
      → (claim_each settings round issues r).1 ≡ ok cs
      → length cs ≤ length issues
  unfolding claim_each
  claim_each-length [] r cs h =
      subst (λ x. length x ≤ 0) (ok_injective {E = RunError} h) (omega arith)
  claim_each-length (issue ∷ issues) r cs h =
      let first = keep_claim (claim_issue round.world settings issue (round.answer issue.id) r) in
      let (a, e, after) =
        then-ok first
          (λ r' one. claim_each settings round issues r' ▸ λ r'' others. (r'', ok (one ++ others)))
          cs h in
      let (b, f, last) =
        then-ok (claim_each settings round issues first.0) (λ r'' others. (r'', ok (a ++ others)))
          cs after in
      subst (λ x. length x ≤ suc (length issues)) (ok_injective {E = RunError} last)
        (omega (
          arith,
          length-append a b,
          keep_claim-length (claim_issue round.world settings issue (round.answer issue.id) r) a e,
          claim_each-length issues first.0 b f,
        ))

  -- A round that returns claimed no more than its limit, and something if the loop goes on.
  abbrev pub IsBounded : ℕ → Outcome (Next × ℕ) → Type 0
  IsBounded limit o =
      (next : Next) (n : ℕ) → o.1 ≡ ok (next, n) → (n ≤ limit) × ((next ≡ stops) ⊎ (1 ≤ n))

  bounded_ok :
      (limit : ℕ) (next other : Next) (n m : ℕ)
      → ◌≡◌ {A = Result RunError (Next × ℕ)} (ok (next, n)) (ok (other, m))
      → n ≤ limit
      → (next ≡ stops) ⊎ (1 ≤ n)
      → (m ≤ limit) × ((other ≡ stops) ⊎ (1 ≤ m))
  bounded_ok limit next other n m h low kind =
      subst (λ (x : Next × ℕ). (x.1 ≤ limit) × ((x.0 ≡ stops) ⊎ (1 ≤ x.1)))
        (ok_injective {E = RunError} h) (low, kind)

  work_on_claims-IsBounded :
      (limit : ℕ) (target : String) (r : Run) (cs : List Claimed)
      → length cs ≤ limit
      → IsBounded limit (work_on_claims settings round target r cs)
  unfolding work_on_claims
  work_on_claims-IsBounded limit target r [] low next n h =
      bounded_ok limit stops next 0 n h (omega arith) (inl refl)
  work_on_claims-IsBounded limit target r (c ∷ cs) low next n h =
      let (other, _, e) =
        then-ok
          (work_on settings round target (c ∷ cs) (integration_bases settings round (c ∷ cs) []) r)
          (λ s x. (s, ok (x, length (c ∷ cs)))) (next, n) h in
      bounded_ok limit other next (length (c ∷ cs)) n e low (inr (omega arith))

  claim_planned-IsBounded :
      (limit : ℕ) (target : String) (issues : List PlannedIssue) (r : Run)
      → length issues ≤ limit
      → IsBounded limit (claim_planned settings round target issues r)
  unfolding claim_planned
  claim_planned-IsBounded limit target [] r low next n h =
      bounded_ok limit stops next 0 n h (omega arith) (inl refl)
  claim_planned-IsBounded limit target (issue ∷ issues) r low next n h =
      let claims = claim_each settings round (issue ∷ issues) r in
      let (cs, e, after) = then-ok claims (work_on_claims settings round target) (next, n) h in
      work_on_claims-IsBounded limit target claims.0 cs
        (omega (arith, low, claim_each-length (issue ∷ issues) r cs e)) next n after

  length-take : {A : Type 0} (n : ℕ) (xs : List A) → length (take n xs) ≤ n
  length-take zero xs = omega arith
  length-take (suc n) [] = omega arith
  length-take (suc n) (x ∷ xs) = omega (arith, length-take n xs)

  plan_round-IsBounded :
      (target : String) (limit : ℕ) (o : Option Bool) (plan : Option (List PlannedIssue)) (r : Run)
      → IsBounded limit (plan_round settings round target limit o plan r)
  plan_round-IsBounded target limit none plan r next n h = cc
  plan_round-IsBounded target limit (some false) plan r next n h =
      bounded_ok limit stops next 0 n h (omega arith) (inl refl)
  plan_round-IsBounded target limit (some true) none r next n h = cc
  plan_round-IsBounded target limit (some true) (some issues) r next n h =
      claim_planned-IsBounded limit target (take limit issues) r (length-take limit issues) next n h

  IsBounded-if :
      (limit : ℕ) (test : Bool) (x y : Outcome (Next × ℕ))
      → IsBounded limit x
      → IsBounded limit y
      → IsBounded limit (if test then x else y)
  IsBounded-if limit true x y a b = a
  IsBounded-if limit false x y a b = b

  -- A round that does not throw has claimed at most as many Tasks as its limit, and at least one if the
  -- loop goes on after it.
  pub run_round-IsBounded :
      (target : String) (limit : ℕ) (r : Run)
      → IsBounded limit (run_round settings round target limit r)
  unfolding run_round
  run_round-IsBounded target limit r =
      IsBounded-if limit round.is_aborted (r, err command_failed) _ (λ next n h. cc)
        (IsBounded-if limit (not round.is_target_stable) (r, err target_changed) _ (λ next n h. cc)
          (plan_round-IsBounded target limit round.authorised round.plan _))

module _ (settings : Settings) (target : String) (max_parallel budget : ℕ)
    (rounds : ℕ → Round) where
  -- The loop ended, within the budget.
  abbrev IsWithin : Option (Outcome ℕ) → Type 0
  IsWithin none = ⊥
  IsWithin (some o) = (n : ℕ) → o.1 ≡ ok n → n ≤ budget

  after_round-IsWithin :
      (fuel n count limit : ℕ) (o : Outcome (Next × ℕ))
      → count + limit ≤ budget
      → budget ≤ fuel + count
      → IsBounded settings (rounds n) limit o
      → ((m : ℕ) (s : Run)
          → count + m ≤ budget
          → 1 ≤ m
          → IsWithin
              (run_rounds settings target max_parallel budget rounds fuel (suc n) (count + m) s))
      → IsWithin
          (after_round count (run_rounds settings target max_parallel budget rounds fuel (suc n)) o)
  after_round-IsWithin fuel n count limit (r, err e) low enough bounded next = λ m h. cc
  after_round-IsWithin fuel n count limit (r, ok (stops, m)) low enough bounded next = λ k h.
      subst (λ x. x ≤ budget) (ok_injective {E = RunError} h)
        (omega (arith, low, (bounded stops m refl).0))
  after_round-IsWithin fuel n count limit (r, ok (goes_on, m)) low enough bounded next =
      let (small, kind) = bounded goes_on m refl in
      next m r (omega (arith, low, small))
        (elim kind [ inl e ↦ absurd (cc) | inr some_more ↦ some_more ])

  run_rounds-IsWithin :
      (fuel n count : ℕ) (r : Run)
      → count ≤ budget
      → budget < fuel + count
      → IsWithin (run_rounds settings target max_parallel budget rounds fuel n count r)
  unfolding run_rounds
  run_rounds-IsWithin zero n count r low enough = absurd (omega arith)
  run_rounds-IsWithin (suc fuel) n count r low enough = elim (Bool-cases (ltb count budget)) [
    | inr full ↦ rw full (λ m h. subst (λ x. x ≤ budget) (ok_injective {E = RunError} h) low)
    | inl free ↦ rw free (
        after_round-IsWithin fuel n count (min max_parallel (budget - count))
          (run_round settings (rounds n) target (min max_parallel (budget - count)) r)
          (ground (arith, free)) (omega (arith, enough))
          (run_round-IsBounded settings (rounds n) target (min max_parallel (budget - count)) r)
          (λ m s within more.
            run_rounds-IsWithin fuel (suc n) (count + m) s within (omega (arith, enough, more))))
  ]

  IsWithin-lem :
      (x : Option (Outcome ℕ))
      → IsWithin x
      → (o : Outcome ℕ) × (x ≡ some o) × ((n : ℕ) → o.1 ≡ ok n → n ≤ budget)
  IsWithin-lem none h = absurd h
  IsWithin-lem (some o) h = (o, refl, h)

  -- Whatever the tracker and the agents answer, the loop of the run ends: fuel for one more round than
  -- the budget has Tasks is enough; and if the loop does not throw, the number of Tasks that it claimed
  -- is at most the budget.
  pub run_rounds-ends :
      (r : Run)
      → (o : Outcome ℕ) × (run_rounds settings target max_parallel budget rounds (suc budget) 0 0 r
          ≡ some o)
        × ((n : ℕ) → o.1 ≡ ok n → n ≤ budget)
  run_rounds-ends r =
      IsWithin-lem (run_rounds settings target max_parallel budget rounds (suc budget) 0 0 r)
        (run_rounds-IsWithin (suc budget) 0 0 r (omega arith) (omega arith))

-- Whatever was recovered and whatever is answered, a run after its preflight ends: fuel for one more
-- round than the budget has Tasks is enough; and if it does not throw, the number of Tasks that it
-- claimed is at most the budget.
pub run_main-ends :
    (w : World) (is_url : String → Bool) (is_aborted : Bool) (workshop : String → Workshop)
    (base : ActiveClaim → Option String) (settings : Settings) (target : String)
    (max_parallel budget : ℕ) (rounds : ℕ → Round) (r : Run)
    → (o : Outcome ℕ) × (run_main w is_url is_aborted workshop base settings target max_parallel
          budget rounds
          (suc budget)
          r
        ≡ some o)
      × ((n : ℕ) → o.1 ≡ ok n → n ≤ budget)
unfolding run_main
run_main-ends w is_url is_aborted workshop base settings target max_parallel budget rounds r = go (
    recover_interrupted_run w is_url r.file r ▸ λ r' approved.
    if is_aborted
    then (r', err command_failed)
    else resume_groups w workshop base target (group_tasks approved []) r')
  where
    go :
        (start : Done)
        → (o : Outcome ℕ) × (then_rounds start
              (run_rounds settings target max_parallel budget rounds (suc budget) 0 0)
            ≡ some o)
          × ((n : ℕ) → o.1 ≡ ok n → n ≤ budget)
    go (s, err e) = ((s, err e), refl, λ n h. cc)
    go (s, ok _) = run_rounds-ends settings target max_parallel budget rounds s
