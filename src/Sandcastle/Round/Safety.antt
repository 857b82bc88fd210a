-- ===== src/Sandcastle/Round/Safety.antt =====
-- The parts of a round lose no claim and do to the tickets only what was proven.
use flash_trips.Prelude.{
  String, Bool, true, false, Option, none, some, List, [], ◌∷◌, ◌++◌, ◌||◌, ◌≡◌, refl, sym, subst,
  inl, inr, ◌∙◌, All, arith, Bool-cases, if◌then◌else◌, ok, err,
}
use flash_trips.Sandcastle.World.{World}
use flash_trips.Sandcastle.Plan.{PlannedIssue}
use flash_trips.Sandcastle.RunState.{ActiveClaim, is_sha}
use flash_trips.Sandcastle.RunState.Laws.{HasEvidence}
use flash_trips.Sandcastle.Environment.{Settings}
use flash_trips.Sandcastle.Checkpoints.{
  Deed, labelled, Run, Outcome, ◌▸◌, set_claim, persist_run_state, label_ticket, block_issue,
}
use flash_trips.Sandcastle.Checkpoints.Safety.{
  Rules, Safe, Keeps, Adds, Proven, Adds-trans, Safe-weaken, Safe-refl, Safe-persist, accounts,
  All-set_claim, has_claim-set_claim,
}
use flash_trips.Sandcastle.Checkpoints.ClaimSafety.{block_issue-Safe}
use flash_trips.Sandcastle.Checkpoints.Integration.{Approved, integrate_and_publish_group}
use flash_trips.Sandcastle.Checkpoints.IntegrationSafety.{
  group_rules, integrate_and_publish_group-Safe,
}
use flash_trips.Sandcastle.Round.Reviewed.{
  Yields, Every, Throughout, round_rules, IsCompleted, HasReview, approve_each-HasReview,
  group_tasks-Throughout,
}
use flash_trips.Sandcastle.Claims.{Claimed, claim_issue, claim_of, refuse_task}
use flash_trips.Sandcastle.Claims.Laws.{Outcomes, takes, refuses, passes, claim_issue-Outcomes}
use flash_trips.Sandcastle.Claims.Promotion.{with_deeds}
use flash_trips.Sandcastle.Round.{
  Round, keep_claim, claim_each, has_commits, block_failed, as_reviewed, approve, approve_each,
  group_tasks, publish_groups, finish_groups, publish_completed, failed,
}

-- No claim is lost but by a label, all that is done to tickets is proven, and checkpoints keep their
-- evidence.
pub record Guarded (w : World) (P : Rules) (r r' : Run) : Type 0 where
  pub keeps : Keeps P.exception r r'
  pub adds : Adds w P r r'
  pub stays_backed : All HasEvidence r.active → All HasEvidence r'.active

module _ (w : World) (P : Rules) where
  pub Safe-Guarded : {r r' : Run} → Safe w P r r' → Guarded w P r r'
  Safe-Guarded s = record { keeps = s.keeps; adds = s.adds; stays_backed = s.stays_backed }

  pub Guarded-refl : (r : Run) → Guarded w P r r
  Guarded-refl r = Safe-Guarded (Safe-refl w P r)

  pub Guarded-trans : {r s t : Run} → Guarded w P r s → Guarded w P s t → Guarded w P r t
  Guarded-trans {r} {s} {t} a b = record {
    keeps = λ id h. elim (a.keeps id h) [ inl k ↦ b.keeps id k | inr p ↦ inr p ];
    adds = Adds-trans w P r s t a.adds b.adds;
    stays_backed = λ h. b.stays_backed (a.stays_backed h);
  }

  pub Guarded-then :
      {A B : Type 0} {r : Run} (o : Outcome A) (k : Run → A → Outcome B)
      → Guarded w P r o.0
      → ((s : Run) (a : A) → Guarded w P s (k s a).0)
      → Guarded w P r (o ▸ k).0
  Guarded-then (s, ok a) k before after = Guarded-trans before (after s a)
  Guarded-then (s, err e) k before after = before

  -- What follows may rest on what the call returned.
  pub Guarded-Yields :
      {A B : Type 0} {r : Run} (Q : A → Type 0) (o : Outcome A) (k : Run → A → Outcome B)
      → Guarded w P r o.0
      → Yields Q o
      → ((s : Run) (a : A) → Q a → Guarded w P s (k s a).0)
      → Guarded w P r (o ▸ k).0
  Guarded-Yields Q (s, ok a) k before yields after =
      Guarded-trans before (after s a (yields a refl))
  Guarded-Yields Q (s, err e) k before yields after = before

  pub Guarded-if :
      {B : Type 0} {r : Run} (test : Bool) (x y : Run × B)
      → Guarded w P r x.0
      → Guarded w P r y.0
      → Guarded w P r (if test then x else y).0
  Guarded-if true x y a b = a
  Guarded-if false x y a b = b

  accounts-with_deeds :
      (settings : Settings) (new : List Deed) (id : String) (r : Run)
      → accounts id r ≡ true
      → accounts id (with_deeds w settings new r) ≡ true
  accounts-with_deeds settings [] id r h = h
  accounts-with_deeds settings (d ∷ ds) id r h =
      ground (arith, accounts-with_deeds settings ds id r h)

  pub deeds_Guarded :
      (settings : Settings) (new : List Deed) (r : Run)
      → All (Proven w P) new
      → Guarded w P r (with_deeds w settings new r)
  deeds_Guarded settings new r proven = record {
    keeps = λ id h. inl (accounts-with_deeds settings new id r h);
    adds = (new, refl, proven);
    stays_backed = λ h. h;
  }

  -- A claim is set, and the file written or not.
  pub set_claim-Guarded :
      (c : ActiveClaim) (r : Run)
      → HasEvidence c
      → Guarded w P r (record r { active = set_claim c r.active })
  set_claim-Guarded c r backed = record {
    keeps = λ x h. inl (ground (arith, has_claim-set_claim x c r.active));
    adds = ([], refl, tt);
    stays_backed = All-set_claim HasEvidence c r.active backed;
  }

  pub persist-Guarded : (r : Run) → Guarded w P r (persist_run_state r).0
  persist-Guarded r =
      Safe-Guarded (Safe-persist w P r r refl refl refl (λ x h. inl h) ([], refl, tt) (λ h. h))

  pub label_ticket-Guarded :
      (id label : String) (flag : Bool) (r : Run)
      → w.set_label id (some label) ≡ true
      → Guarded w P r (record (label_ticket id (some label) r) { had_blocked_work = flag })
  label_ticket-Guarded id label flag r taken = record {
    keeps = λ x h. inl (ground (arith, h));
    adds = (labelled id (some label) ∷ [], refl, (taken, tt));
    stays_backed = λ h. h;
  }

  pub marked_Guarded :
      (flag : Bool) (r : Run) → Guarded w P r (record r { had_blocked_work = flag })
  marked_Guarded flag r = record {
    keeps = λ x h. inl h;
    adds = ([], refl, tt);
    stays_backed = λ h. h;
  }

  pub refuse_task-Guarded : (id : String) (r : Run) → Guarded w P r (refuse_task w id r)
  unfolding refuse_task
  refuse_task-Guarded id r = elim (Bool-cases (w.set_label id (some "agent:blocked"))) [
    | inl e ↦ rw e (label_ticket-Guarded id "agent:blocked" true r e)
    | inr e ↦ rw e (marked_Guarded true r)
  ]

  claim_of-HasEvidence : (planned : PlannedIssue) (a : _) → HasEvidence (claim_of planned a)
  claim_of-HasEvidence planned a = record {
    approved = λ h. absurd (h refl);
    head = λ h. cc;
    tree = λ h. cc;
    receipt = λ h. cc;
  }

  pub claimed_Guarded :
      (settings : Settings) (planned : PlannedIssue) (o : _) (r : Run) (x : Run × Option Claimed)
      → Outcomes w settings planned o r x
      → Guarded w P r (keep_claim x).0
  claimed_Guarded settings planned o r x (takes r' c claimed) =
      Guarded-trans
        (subst (Guarded w P r) (sym claimed.run) (
          label_ticket-Guarded planned.id "agent:in-progress" r.had_blocked_work r
            claimed.labelled))
        (Guarded-trans
          (set_claim-Guarded c.0 r'
            (subst HasEvidence (sym claimed.claim) (claim_of-HasEvidence planned claimed.answer)))
          (Guarded-then (persist_run_state (record r' { active = set_claim c.0 r'.active }))
            (λ s _. (s, ok (c ∷ [])))
            (persist-Guarded (record r' { active = set_claim c.0 r'.active }))
            (λ s a. Guarded-refl s)))
  claimed_Guarded settings planned o r x (refuses a e f g) = refuse_task-Guarded planned.id r
  claimed_Guarded settings planned o r x (passes idle) = Guarded-refl r

  pub block_failed-Guarded :
      (settings : Settings) (round : Round) (claims : List Claimed) (r : Run)
      → round.world ≡ w
      → Guarded w P r (block_failed settings round claims r).0
  unfolding block_failed
  block_failed-Guarded settings round [] r same = Guarded-refl r
  block_failed-Guarded settings round ((c, env) ∷ claims) r same =
      Guarded-then
        (if has_commits (round.commits c) then (r, ok tt) else block_issue round.world c.id r)
        (λ r' _. block_failed settings round claims r')
        (Guarded-if (has_commits (round.commits c)) (r, ok tt) (block_issue round.world c.id r)
          (Guarded-refl r)
          (subst (λ v. Guarded w P r (block_issue v c.id r).0) (sym same)
            (Safe-Guarded (block_issue-Safe w P c.id r))))
        (λ s _. block_failed-Guarded settings round claims s same)

module _ (settings : Settings) (round : Round) where
  abbrev P : Rules
  P = round_rules settings round

  abbrev pub Kept : Run → Run → Type 0
  Kept = Guarded round.world P

  pub claim_each-Kept :
      (issues : List PlannedIssue) (r : Run) → Kept r (claim_each settings round issues r).0
  unfolding claim_each
  claim_each-Kept [] r = Guarded-refl round.world P r
  claim_each-Kept (issue ∷ issues) r =
      Guarded-then round.world P
        (keep_claim (claim_issue round.world settings issue (round.answer issue.id) r))
        (λ r' first.
          claim_each settings round issues r' ▸ λ r'' others. (r'', ok (first ++ others)))
        (claimed_Guarded round.world P settings issue (round.answer issue.id) r
          (claim_issue round.world settings issue (round.answer issue.id) r)
          (claim_issue-Outcomes round.world settings issue (round.answer issue.id) r))
        (λ s first.
          Guarded-then round.world P (claim_each settings round issues s)
            (λ r'' others. (r'', ok (first ++ others))) (claim_each-Kept issues s)
            (λ t others. Guarded-refl round.world P t))

  pub as_reviewed-HasEvidence : (sha : String) (c : ActiveClaim) → HasEvidence (as_reviewed sha c)
  as_reviewed-HasEvidence sha c = record {
    approved = λ h. refl;
    head = λ h. cc;
    tree = λ h. cc;
    receipt = λ h. cc;
  }

  pub approve-Kept :
      (c : ActiveClaim) (sha : Option String) (r : Run) → Kept r (approve settings round c sha r).0
  approve-Kept c none r = Guarded-refl round.world P r
  approve-Kept c (some sha) r =
      Guarded-if round.world P (is_sha sha) _ _
        (set_claim-Guarded round.world P (as_reviewed sha c) r (as_reviewed-HasEvidence sha c))
        (Guarded-refl round.world P r)

  pub approve_each-Kept :
      (cs : List ActiveClaim) (r : Run) → Kept r (approve_each settings round cs r).0
  unfolding approve_each
  approve_each-Kept [] r = Guarded-refl round.world P r
  approve_each-Kept (c ∷ cs) r =
      Guarded-then round.world P (approve settings round c (round.pinned c.branch) r)
        (λ r' first. approve_each settings round cs r' ▸ λ r'' others. (r'', ok (first ∷ others)))
        (approve-Kept c (round.pinned c.branch) r)
        (λ s first.
          Guarded-then round.world P (approve_each settings round cs s)
            (λ r'' others. (r'', ok (first ∷ others))) (approve_each-Kept cs s)
            (λ t others. Guarded-refl round.world P t))

  -- What the rules of a group permit, the round's permit.
  group_Kept :
      (branch target : String) (group : List Approved) (r : Run)
      → Every (HasReview settings round) group
      → Kept r (integrate_and_publish_group round.world (round.workshop branch) target group r).0
  group_Kept branch target group r reviewed = Safe-Guarded round.world P (
      Safe-weaken round.world (group_rules (round.workshop branch) group) P (λ id h. h)
        (λ c sha receipt approved.
          let (claim, same, review) = reviewed (approved.claim, sha) approved.member in
          record {
            claim = claim;
            same_ticket = approved.same_ticket ∙ same;
            reviewed = review;
            branch = branch;
            published = approved.published;
          })
        (integrate_and_publish_group-Safe round.world (round.workshop branch) target group r))

  pub publish_groups-Kept :
      (target : String) (groups : List (String × List Approved)) (failures : Bool) (r : Run)
      → Throughout settings round (HasReview settings round) groups
      → Kept r (publish_groups settings round target groups failures r).0
  unfolding publish_groups
  publish_groups-Kept target [] failures r reviewed = Guarded-refl round.world P r
  publish_groups-Kept target ((branch, group) ∷ groups) failures r reviewed =
      let done = integrate_and_publish_group round.world (round.workshop branch) target group r in
      Guarded-trans round.world P
        (group_Kept branch target group r (reviewed (branch, group) (inl refl)))
        (publish_groups-Kept target groups (failures || failed done.1) done.0
          (λ g m. reviewed g (inr m)))

  pub finish_groups-Kept : (x : Run × Bool) → Kept x.0 (finish_groups x).0
  finish_groups-Kept (r, false) = Guarded-refl round.world P r
  finish_groups-Kept (r, true) =
      Guarded-then round.world P (persist_run_state r) _ (persist-Guarded round.world P r)
        (λ s _. Guarded-refl round.world P s)

  pub publish_completed-Kept :
      (target : String) (cs : List ActiveClaim) (r : Run)
      → Every (IsCompleted settings round) cs
      → Kept r (publish_completed settings round target cs r).0
  unfolding publish_completed
  publish_completed-Kept target [] r done = Guarded-refl round.world P r
  publish_completed-Kept target (c ∷ cs) r done =
      Guarded-Yields round.world P (Every (HasReview settings round))
        (approve_each settings round (c ∷ cs) r) _ (approve_each-Kept (c ∷ cs) r)
        (approve_each-HasReview settings round (c ∷ cs) r done)
        (λ s approved reviewed.
          Guarded-then round.world P (persist_run_state s)
            (λ r'' _.
              finish_groups
                (publish_groups settings round target (group_tasks approved []) false r''))
            (persist-Guarded round.world P s)
            (λ t _.
              Guarded-trans round.world P
                (publish_groups-Kept target (group_tasks approved []) false t (
                  group_tasks-Throughout settings round (HasReview settings round) approved []
                    reviewed (λ g m. absurd m)))
                (finish_groups-Kept
                  (publish_groups settings round target (group_tasks approved []) false t))))
