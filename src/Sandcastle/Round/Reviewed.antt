-- ===== src/Sandcastle/Round/Reviewed.antt =====
-- Which claims a round reviews, and that it publishes no other: claim_each, completed, approve_each and
-- group_tasks of Sandcastle/Round.antt.
use flash_trips.Prelude.{
  String, true, Option, none, some, List, [], ◌∷◌, ◌++◌, ◌≡◌, refl, sym, subst, ap, inl, inr, arith,
  Bool-cases, ok, err, str_eq, ok_injective,
}
use flash_trips.Sandcastle.World.{World}
use flash_trips.Sandcastle.Plan.{PlannedIssue}
use flash_trips.Sandcastle.RunState.{ActiveClaim, PublicationReceipt, is_sha}
use flash_trips.Sandcastle.Environment.{Settings}
use flash_trips.Sandcastle.Autopilot.Laws.{In, In-append}
use flash_trips.Sandcastle.Checkpoints.{Run, Outcome, ◌▸◌, set_claim, persist_run_state}
use flash_trips.Sandcastle.Checkpoints.Safety.{Rules}
use flash_trips.Sandcastle.Checkpoints.Integration.{Approved}
use flash_trips.Sandcastle.Checkpoints.IntegrationSafety.{IsPublished}
use flash_trips.Sandcastle.Claims.{Claimed, ClaimAnswer, claim_issue}
use flash_trips.Sandcastle.Claims.Laws.{Outcomes, takes, refuses, passes, claim_issue-Outcomes}
use flash_trips.Sandcastle.Round.{
  Round, keep_claim, claim_each, has_commits, completed, approve, approve_each, add_to_groups,
  group_tasks,
}

-- What the call returns, where it returns, has the property.
abbrev pub Yields : {A : Type 0} → (A → Type 0) → Outcome A → Type 0
Yields {A} Q o = (a : A) → o.1 ≡ ok a → Q a

Yields-then :
    {A B : Type 0} (Q : A → Type 0) (R : B → Type 0) (o : Outcome A) (k : Run → A → Outcome B)
    → Yields Q o
    → ((s : Run) (a : A) → Q a → Yields R (k s a))
    → Yields R (o ▸ k)
Yields-then Q R (s, ok a) k before after = after s a (before a refl)
Yields-then Q R (s, err e) k before after = λ b h. cc

abbrev pub Every : {A : Type 0} → (A → Type 0) → List A → Type 0
Every {A} Q xs = (x : A) → In x xs → Q x

Every-append :
    {A : Type 0} (Q : A → Type 0) (xs ys : List A) → Every Q xs → Every Q ys → Every Q (xs ++ ys)
Every-append Q xs ys hx hy x m = elim ((In-append x xs ys).0 m) [ inl n ↦ hx x n | inr n ↦ hy x n ]

Every-cons :
    {A : Type 0} (Q : A → Type 0) (x : A) (xs : List A) → Q x → Every Q xs → Every Q (x ∷ xs)
Every-cons Q x xs h hx y (inl e) = subst Q (sym e) h
Every-cons Q x xs h hx y (inr m) = hx y m

-- The claim is for this ticket and on its branch.
abbrev IsFor : PlannedIssue → Claimed → Type 0
IsFor issue x = ((x.0).id ≡ issue.id) × ((x.0).branch ≡ issue.branch)

kept_lem :
    (w : World) (settings : Settings) (issue : PlannedIssue) (o : Option ClaimAnswer) (r : Run)
    (x : Run × Option Claimed)
    → Outcomes w settings issue o r x
    → Yields (Every (IsFor issue)) (keep_claim x)
kept_lem w settings issue o r x (takes r' c claimed) =
    Yields-then (λ u. Unit {0}) (Every (IsFor issue))
      (persist_run_state (record r' { active = set_claim c.0 r'.active })) (λ s u. (s, ok (c ∷ [])))
      (λ a h. tt)
      (λ s u h a e. subst (Every (IsFor issue)) (ok_injective e) (
        Every-cons (IsFor issue) c []
          (
            ap (λ (d : ActiveClaim). d.id) claimed.claim,
            ap (λ (d : ActiveClaim). d.branch) claimed.claim,
          )
          (λ y m. absurd m)))
kept_lem w settings issue o r x (refuses a e f g) = λ a h y m. absurd (ground arith)
kept_lem w settings issue o r x (passes idle) = λ a h y m. absurd (ground arith)

module _ (settings : Settings) (round : Round) where
  -- The claim is of an issue that was planned in the round.
  pub record IsPlanned (x : ActiveClaim) : Type 0 where
    pub issues : List PlannedIssue
    pub plan : round.plan ≡ some issues
    pub issue : PlannedIssue
    pub planned : In issue issues
    pub same_ticket : x.id ≡ issue.id
    pub same_branch : x.branch ≡ issue.branch

  -- It was planned; its pipeline was accepted, with commits; the head of its branch is the commit.
  pub record IsReviewed (x : ActiveClaim) (sha : String) : Type 0 where
    pub planned : IsPlanned x
    pub first : String
    pub rest : List String
    pub commits : round.commits x ≡ some (first ∷ rest)
    pub pinned : round.pinned x.branch ≡ some sha
    pub is_commit : is_sha sha ≡ true

  -- The ticket's claim was reviewed in this round, with this commit, and the receipt is one that the
  -- publication script gave.
  pub record IsPermitted (c : ActiveClaim) (sha : String) (receipt : PublicationReceipt)
      : Type 0 where
    pub claim : ActiveClaim
    pub same_ticket : c.id ≡ claim.id
    pub reviewed : IsReviewed claim sha
    pub branch : String
    pub published : IsPublished (round.workshop branch) receipt

  -- No claim is dropped without a label, and only tickets of reviewed claims are closed.
  abbrev pub round_rules : Rules
  round_rules = record { exception = λ _. ⊥; permits = IsPermitted }

  pub claim_each-IsPlanned :
      (whole : List PlannedIssue)
      → round.plan ≡ some whole
      → (issues : List PlannedIssue) (r : Run) → Every (λ i. In i whole) issues
      → Yields (Every (λ (x : Claimed). IsPlanned x.0)) (claim_each settings round issues r)
  unfolding claim_each
  claim_each-IsPlanned whole plan [] r held = λ a h y m. absurd (ground arith)
  claim_each-IsPlanned whole plan (issue ∷ issues) r held =
      Yields-then (Every (IsFor issue)) (Every (λ (x : Claimed). IsPlanned x.0))
        (keep_claim (claim_issue round.world settings issue (round.answer issue.id) r))
        (λ r' first.
          claim_each settings round issues r' ▸ λ r'' others. (r'', ok (first ++ others)))
        (kept_lem round.world settings issue (round.answer issue.id) r _
          (claim_issue-Outcomes round.world settings issue (round.answer issue.id) r))
        (λ s first fits.
          Yields-then (Every (λ (x : Claimed). IsPlanned x.0))
            (Every (λ (x : Claimed). IsPlanned x.0)) (claim_each settings round issues s)
            (λ r'' others. (r'', ok (first ++ others)))
            (claim_each-IsPlanned whole plan issues s (λ i m. held i (inr m)))
            (λ t others rest a e. subst (Every (λ (x : Claimed). IsPlanned x.0)) (ok_injective e) (
              Every-append (λ (x : Claimed). IsPlanned x.0) first others
                (λ x m. record {
                  issues = whole;
                  plan = plan;
                  issue = issue;
                  planned = held issue (inl refl);
                  same_ticket = (fits x m).0;
                  same_branch = (fits x m).1;
                })
                rest)))

  -- A claim whose pipeline was accepted.
  abbrev pub IsCompleted : ActiveClaim → Type 0
  IsCompleted c = IsPlanned c × (has_commits (round.commits c) ≡ true)

  pub completed-IsCompleted :
      (claims : List Claimed)
      → Every (λ (x : Claimed). IsPlanned x.0) claims
      → Every IsCompleted (completed settings round claims)
  unfolding completed
  completed-IsCompleted [] planned = λ x m. absurd m
  completed-IsCompleted ((c, env) ∷ claims) planned =
      elim (Bool-cases (has_commits (round.commits c))) [
        | inl e ↦ rw e (
            Every-cons IsCompleted c (completed settings round claims)
              (planned (c, env) (inl refl), e)
              (completed-IsCompleted claims (λ x m. planned x (inr m))))
        | inr e ↦ rw e (completed-IsCompleted claims (λ x m. planned x (inr m)))
      ]

  -- The ticket's claim was reviewed with the commit.
  abbrev pub HasReview : Approved → Type 0
  HasReview x = (c : ActiveClaim) × ((x.0).id ≡ c.id) × IsReviewed c x.1

  commits_lem :
      (o : Option (List String))
      → has_commits o ≡ true
      → (first : String) × (rest : List String) × (o ≡ some (first ∷ rest))
  commits_lem none h = cc
  commits_lem (some []) h = cc
  commits_lem (some (sha ∷ shas)) h = (sha, shas, refl)

  approve-HasReview :
      (c : ActiveClaim) (o : Option String) (r : Run)
      → round.pinned c.branch ≡ o
      → IsCompleted c
      → Yields HasReview (approve settings round c o r)
  approve-HasReview c none r pinned done = λ a h. cc
  approve-HasReview c (some sha) r pinned (planned, accepted) =
      let (first, rest, commits) = commits_lem (round.commits c) accepted in
      elim (Bool-cases (is_sha sha)) [
        | inr bad ↦ rw bad (λ a h. cc)
        | inl good ↦ rw good (λ a h. subst HasReview (ok_injective h) (
          c,
          refl,
          record {
            planned = planned;
            first = first;
            rest = rest;
            commits = commits;
            pinned = pinned;
            is_commit = good;
          },
        ))
      ]

  pub approve_each-HasReview :
      (cs : List ActiveClaim) (r : Run)
      → Every IsCompleted cs
      → Yields (Every HasReview) (approve_each settings round cs r)
  unfolding approve_each
  approve_each-HasReview [] r done = λ a h y m. absurd (ground arith)
  approve_each-HasReview (c ∷ cs) r done =
      Yields-then HasReview (Every HasReview) (approve settings round c (round.pinned c.branch) r)
        (λ r' first. approve_each settings round cs r' ▸ λ r'' others. (r'', ok (first ∷ others)))
        (approve-HasReview c (round.pinned c.branch) r refl (done c (inl refl)))
        (λ s first reviewed.
          Yields-then (Every HasReview) (Every HasReview) (approve_each settings round cs s)
            (λ r'' others. (r'', ok (first ∷ others)))
            (approve_each-HasReview cs s (λ x m. done x (inr m)))
            (λ t others rest a e.
              subst (Every HasReview) (ok_injective e)
                (Every-cons HasReview first others reviewed rest)))

  -- Every group has the property throughout.
  abbrev pub Throughout : (Approved → Type 0) → List (String × List Approved) → Type 0
  Throughout Q = Every (λ (g : String × List Approved). Every Q g.1)

  add_to_groups-Throughout :
      (Q : Approved → Type 0) (x : Approved) (groups : List (String × List Approved))
      → Q x
      → Throughout Q groups
      → Throughout Q (add_to_groups x groups)
  unfolding add_to_groups
  add_to_groups-Throughout Q (c, sha) [] h all =
      Every-cons (λ (g : String × List Approved). Every Q g.1) _ []
        (Every-cons Q (c, sha) [] h (λ y m. absurd m)) (λ y m. absurd m)
  add_to_groups-Throughout Q (c, sha) ((branch, group) ∷ groups) h all =
      elim (Bool-cases (str_eq branch c.integration_branch)) [
        | inl e ↦ rw e (
            Every-cons (λ (g : String × List Approved). Every Q g.1) _ groups
              (Every-append Q group ((c, sha) ∷ []) (all (branch, group) (inl refl))
                (Every-cons Q (c, sha) [] h (λ y m. absurd m)))
              (λ g m. all g (inr m)))
        | inr e ↦ rw e (
            Every-cons (λ (g : String × List Approved). Every Q g.1) (branch, group) _
              (all (branch, group) (inl refl))
              (add_to_groups-Throughout Q (c, sha) groups h (λ g m. all g (inr m))))
      ]

  pub group_tasks-Throughout :
      (Q : Approved → Type 0) (xs : List Approved) (groups : List (String × List Approved))
      → Every Q xs
      → Throughout Q groups
      → Throughout Q (group_tasks xs groups)
  unfolding group_tasks
  group_tasks-Throughout Q [] groups h all = all
  group_tasks-Throughout Q (x ∷ xs) groups h all =
      group_tasks-Throughout Q xs (add_to_groups x groups) (λ y m. h y (inr m))
        (add_to_groups-Throughout Q x groups (h x (inl refl)) all)
