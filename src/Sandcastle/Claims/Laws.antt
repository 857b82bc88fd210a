-- ===== src/Sandcastle/Claims/Laws.antt =====
-- A claim is taken, a queued Task is promoted and a Task is authorized exactly under its conditions.
use flash_trips.Prelude.{
  ◌∷◌, String, true, false, Option, none, some, List, [], ◌||◌, not, ◌≡◌, refl, sym, ap, subst, ◌≢◌,
  ◌⊎◌, ◌↔◌, inl, inr, All, includes, str_eq, eq_iff, arith, Bool-cases, Result, ok, err,
}
use flash_trips.Sandcastle.World.{World}
use flash_trips.Sandcastle.Plan.{PlannedIssue, task_branch}
use flash_trips.Sandcastle.Gates.{has_external_pre_run_gates}
use flash_trips.Sandcastle.Environment.{Settings, SettingError}
use flash_trips.Sandcastle.TaskEnvironment.{resolve_task_environment}
use flash_trips.Sandcastle.Autopilot.Laws.{any-false}
use flash_trips.Sandcastle.Checkpoints.{Run, label_ticket, labelled}
use flash_trips.Sandcastle.Claims.{
  ClaimAnswer, accepts_claim, required_labels, refused_for_claim, is_refused_claim, is_gated,
  is_positive_or_null, Claimed, claim_of, refuse_task, claim_issue, claim_labelled, claim_resolved,
}

abbrev pub Has : List String → String → Type 0
Has labels label = includes label labels ≡ true

abbrev pub Lacks : List String → String → Type 0
Lacks labels label = includes label labels ≡ false

-- The gates that the body declares are cleared.
abbrev pub GatesAreClear : String → List String → Type 0
GatesAreClear body labels =
    (has_external_pre_run_gates body ≡ false) ⊎ Has labels "agent:gates-cleared"

-- What a ticket must be for its planned issue to be claimed.
pub record IsClaimable (planned : PlannedIssue) (a : ClaimAnswer) : Type 0 where
  pub is_open : a.is_open ≡ true
  pub same_title : a.title ≡ planned.title
  pub has_title : a.title ≢ ""
  pub parent_is_positive : is_positive_or_null a.parent ≡ true
  pub authorised : All (Has a.labels) required_labels
  pub not_refused : All (Lacks a.labels) refused_for_claim
  pub is_leaf : a.sub_issue_count ≡ 0
  pub not_blocked : a.blocked_by ≡ []
  pub labels_complete : a.labels_truncated ≡ false
  pub blockers_complete : a.blockers_truncated ≡ false

claim_tests_iff :
    (planned : PlannedIssue) (a : ClaimAnswer)
    → ((not (accepts_claim a) || is_refused_claim planned.title a) ≡ false) ↔ IsClaimable planned a
unfolding accepts_claim is_refused_claim
claim_tests_iff planned a = (
  λ h. record {
    is_open = ground (arith, h);
    same_title = ground (arith, h, eq_iff a.title planned.title);
    has_title = λ k. ground (arith, h, (eq_iff a.title "").1 k);
    parent_is_positive = ground (arith, h);
    authorised = (ground (arith, h), (ground (arith, h), tt));
    not_refused =
        (any-false (λ label. includes label a.labels) refused_for_claim).0 (ground (arith, h));
    is_leaf = ground (arith, h);
    not_blocked = ground (arith, h);
    labels_complete = ground (arith, h);
    blockers_complete = ground (arith, h);
  },
  λ c. ground (
    arith,
    c.is_open,
    (eq_iff a.title planned.title).1 c.same_title,
    c.has_title,
    (eq_iff a.title "").0,
    c.parent_is_positive,
    c.authorised.0,
    c.authorised.1.0,
    (any-false (λ label. includes label a.labels) refused_for_claim).1 c.not_refused,
    c.is_leaf,
    c.not_blocked,
    c.labels_complete,
    c.blockers_complete,
  ),
)

gates_iff :
    (body : String) (labels : List String)
    → (is_gated body labels ≡ false) ↔ GatesAreClear body labels
gates_iff body labels = ground arith

module _ (w : World) (settings : Settings) (planned : PlannedIssue) where
  -- The planned issue is claimed with these variables, and its ticket is labelled.
  pub record IsClaimed (o : Option ClaimAnswer) (r r' : Run) (c : Claimed) : Type 0 where
    pub answer : ClaimAnswer
    pub answered : o ≡ some answer
    pub claimable : IsClaimable planned answer
    pub gates : GatesAreClear answer.body answer.labels
    pub environment : resolve_task_environment settings answer.body ≡ ok c.1
    pub branch : planned.branch ≡ task_branch planned.id
    pub labelled : w.set_label planned.id (some "agent:in-progress") ≡ true
    pub claim : c.0 ≡ claim_of planned answer
    pub run : r' ≡ label_ticket planned.id (some "agent:in-progress") r

  -- Nothing is done for the issue: it was not answered, it is not claimable, or its gates are clear
  -- and its variables available, but its branch is not the Task's own or the label was not taken.
  abbrev pub IsIdle : Option ClaimAnswer → Type 0
  IsIdle o =
      (o ≡ none)
      ⊎ ((a : ClaimAnswer) × (o ≡ some a)
          × ((IsClaimable planned a → ⊥)
              ⊎ (GatesAreClear a.body a.labels
                  × ((env : List (String × String)) × (resolve_task_environment settings a.body
                        ≡ ok env))
                  × ((planned.branch ≢ task_branch planned.id)
                      ⊎ (w.set_label planned.id (some "agent:in-progress") ≡ false)))))

  -- Blocked work is recorded, and the ticket labelled as blocked, where the tracker takes the label.
  abbrev pub IsBlocked : Run → Run → Type 0
  IsBlocked r r' =
      ((w.set_label planned.id (some "agent:blocked") ≡ true)
        × (r' ≡ record r {
          deeds = labelled planned.id (some "agent:blocked") ∷ r.deeds;
          had_blocked_work = true;
        }))
      ⊎ ((w.set_label planned.id (some "agent:blocked") ≡ false)
          × (r' ≡ record r { had_blocked_work = true }))

  refuse_task-IsBlocked : (r : Run) → IsBlocked r (refuse_task w planned.id r)
  unfolding refuse_task
  refuse_task-IsBlocked r = elim (Bool-cases (w.set_label planned.id (some "agent:blocked"))) [
    | inl e ↦ inl (e, rw e refl)
    | inr e ↦ inr (e, rw e refl)
  ]

  -- The ways in which claimIssue ends.
  pub data Outcomes (o : Option ClaimAnswer) (r : Run) : Run × Option Claimed → Type 0 where
    takes : (r' : Run) (c : Claimed) → IsClaimed o r r' c → Outcomes o r (r', some c)
    refuses :
        (a : ClaimAnswer)
        → o ≡ some a
        → IsClaimable planned a
        → (is_gated a.body a.labels ≡ true)
          ⊎ ((e : SettingError) × (resolve_task_environment settings a.body ≡ err e))
        → Outcomes o r (refuse_task w planned.id r, none)
    passes : IsIdle o → Outcomes o r (r, none)

  claim_labelled_lem :
      (a : ClaimAnswer) (env : List (String × String)) (r : Run)
      → IsClaimable planned a
      → GatesAreClear a.body a.labels
      → resolve_task_environment settings a.body ≡ ok env
      → Outcomes (some a) r (claim_labelled w planned a env r)
  claim_labelled_lem a env r claimable gates resolved =
      elim (Bool-cases (str_eq planned.branch (task_branch planned.id))) [
        | inr other ↦ rw other (
            passes (
              inr (
                a,
                refl,
                inr (
                  gates,
                  (env, resolved),
                  inl (λ k.
                      ground (arith, other, (eq_iff planned.branch (task_branch planned.id)).1 k)),
                ),
              )))
        | inl same ↦ elim (Bool-cases (w.set_label planned.id (some "agent:in-progress"))) [
          | inr stuck ↦
              rw (same, stuck) (passes (inr (a, refl, inr (gates, (env, resolved), inr stuck))))
          | inl moved ↦
              rw (same, moved)
                (takes _ _ (record {
                  answer = a;
                  answered = refl;
                  claimable = claimable;
                  gates = gates;
                  environment = resolved;
                  branch = (eq_iff planned.branch (task_branch planned.id)).0 same;
                  labelled = moved;
                  claim = refl;
                  run = refl;
                }))
        ]
      ]

  claim_resolved_lem :
      (a : ClaimAnswer) (r : Run)
      → IsClaimable planned a
      → GatesAreClear a.body a.labels
      → (o : Result SettingError (List (String × String)))
      → resolve_task_environment settings a.body ≡ o
      → Outcomes (some a) r (claim_resolved w planned a o r)
  claim_resolved_lem a r claimable gates (err e) resolved =
      refuses a refl claimable (inr (e, resolved))
  claim_resolved_lem a r claimable gates (ok env) resolved =
      claim_labelled_lem a env r claimable gates resolved

  pub claim_issue-Outcomes :
      (o : Option ClaimAnswer) (r : Run) → Outcomes o r (claim_issue w settings planned o r)
  unfolding claim_issue
  claim_issue-Outcomes none r = passes (inl refl)
  claim_issue-Outcomes (some a) r =
      elim (Bool-cases (not (accepts_claim a) || is_refused_claim planned.title a)) [
        | inl bad ↦ rw bad (
            passes (inr (a, refl, inl (λ k. ground (arith, bad, (claim_tests_iff planned a).1 k)))))
        | inr fine ↦ elim (Bool-cases (is_gated a.body a.labels)) [
          | inl gated ↦
              rw (fine, gated) (refuses a refl ((claim_tests_iff planned a).0 fine) (inl gated))
          | inr clear ↦
              rw (fine, clear)
                (claim_resolved_lem a r ((claim_tests_iff planned a).0 fine)
                  ((gates_iff a.body a.labels).0 clear) (resolve_task_environment settings a.body)
                  refl)
        ]
      ]

  took :
      {o : Option ClaimAnswer} {r : Run} {x : Run × Option Claimed}
      → Outcomes o r x
      → (r' : Run) (c : Claimed) → x ≡ (r', some c)
      → IsClaimed o r r' c
  took {o} {r} (takes s d claimed) r' c h =
      subst (λ (y : Run × Claimed). IsClaimed o r y.0 y.1) (ground (arith, h)) claimed
  took (refuses a e f g) r' c h = cc
  took (passes idle) r' c h = cc

  -- An issue is claimed exactly if its ticket is an open leaf with the planned title, the labels that
  -- authorise it, none that refuses it, no open blocker and no list cut short; its gates are clear;
  -- every variable it asks for can be given; its branch is the Task's own; and the ticket could be
  -- labelled as in progress. The claim then has the plan's identifier, title and branch, the ticket's
  -- parent and those variables, and nothing but the label has changed.
  pub claim_issue_iff :
      (o : Option ClaimAnswer) (r r' : Run) (c : Claimed)
      → (claim_issue w settings planned o r ≡ (r', some c)) ↔ IsClaimed o r r' c
  unfolding claim_issue
  claim_issue_iff o r r' c = (
    λ h. took (claim_issue-Outcomes o r) r' c h,
    λ k.
        let fine = (claim_tests_iff planned k.answer).1 k.claimable in
        let clear = (gates_iff k.answer.body k.answer.labels).1 k.gates in
        let same = (eq_iff planned.branch (task_branch planned.id)).1 k.branch in
        rw (k.answered, fine, clear, k.environment, same, k.labelled, k.run)
          (ap (λ x. (label_ticket planned.id (some "agent:in-progress") r, some x))
            (ap (λ x. (x, c.1)) (sym k.claim))),
  )

  not_taken :
      {o : Option ClaimAnswer} {r : Run} {x : Run × Option Claimed}
      → Outcomes o r x
      → x.1 ≡ none
      → ((x.0 ≡ r) × IsIdle o)
        ⊎ (IsBlocked r x.0
            × ((a : ClaimAnswer) × (o ≡ some a)
                × IsClaimable planned a
                × ((is_gated a.body a.labels ≡ true)
                    ⊎ ((e : SettingError) × (resolve_task_environment settings a.body ≡ err e)))))
  not_taken (takes s d claimed) h = cc
  not_taken (refuses a e f g) h = inr (refuse_task-IsBlocked _, (a, e, f, g))
  not_taken (passes idle) h = inl (refl, idle)

  -- An issue that is not claimed leaves the run as it was, where its ticket was not answered or not
  -- claimable, or its branch is not the Task's own, or the tracker did not take the label of work in
  -- progress; or its ticket was claimable but its gates are not cleared or a variable cannot be given:
  -- then blocked work is recorded and the ticket is labelled as blocked, if the tracker takes the
  -- label, and nothing else is changed.
  pub claim_issue-none :
      (o : Option ClaimAnswer) (r : Run)
      → (claim_issue w settings planned o r).1 ≡ none
      → (((claim_issue w settings planned o r).0 ≡ r) × IsIdle o)
        ⊎ (IsBlocked r (claim_issue w settings planned o r).0
            × ((a : ClaimAnswer) × (o ≡ some a)
                × IsClaimable planned a
                × ((is_gated a.body a.labels ≡ true)
                    ⊎ ((e : SettingError) × (resolve_task_environment settings a.body ≡ err e)))))
  claim_issue-none o r h = not_taken (claim_issue-Outcomes o r) h
