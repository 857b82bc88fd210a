-- ===== src/Sandcastle/Plan/Laws.antt =====
-- What an accepted plan guarantees.
use flash_trips.Prelude.{
  ℕ, ◌≤◌, String, Bytes, true, false, List, [], ◌∷◌, map, length, all, includes, eq_iff, All, ◌≡◌,
  ◌≢◌, ◌↔◌, refl, arith, codes, is_digit, nat_eq, ◌+++◌, ap, ◌∙◌,
}
use flash_trips.Sandcastle.Plan.{
  PlannedIssue, hard_max_parallel_issues, task_branch, has_shape, refine_from, accepts_plan,
  is_positive_number, is_issue_id, is_task_branch,
}
use flash_trips.Sandcastle.Decimal.{codes-append, after_prefix-append}

-- Each entry differs from all that follow.
abbrev pub Distinct : List String → Type 0
Distinct [] = Unit
Distinct (x ∷ xs) = All (λ y. y ≢ x) xs × Distinct xs

-- Each entry differs from all that were given before.
abbrev Fresh : List String → List String → Type 0
Fresh seen = All (λ x. includes x seen ≡ false)

abbrev pub ids : List PlannedIssue → List String
ids = map (λ issue. issue.id)

abbrev pub branches : List PlannedIssue → List String
branches = map (λ issue. issue.branch)

abbrev IsDigit : ℕ → Type 0
IsDigit c = (48 ≤ c) × (c ≤ 57)

-- A decimal numeral that does not begin with 0.
abbrev pub IsNumeral : Bytes → Type 0
IsNumeral [] = ⊥
IsNumeral (c ∷ cs) = (49 ≤ c) × (c ≤ 57) × All IsDigit cs

-- A plan fit for execution.
pub record IsPlan (issues : List PlannedIssue) : Type 0 where
  pub numerals : All (λ issue. IsNumeral (codes issue.id)) issues
  pub titles : All (λ issue. issue.title ≢ "") issues
  pub few : length issues ≤ hard_max_parallel_issues
  pub distinct_ids : Distinct (ids issues)
  pub distinct_branches : Distinct (branches issues)
  pub own_branches : All (λ issue. issue.branch ≡ "sandcastle/task-" +++ issue.id) issues

digits_iff : (cs : Bytes) → (all is_digit cs ≡ true) ↔ All IsDigit cs
digits_iff [] = ground arith
digits_iff (c ∷ cs) = ground (arith, digits_iff cs)

is_positive_number_iff : (cs : Bytes) → (is_positive_number cs ≡ true) ↔ IsNumeral cs
unfolding is_positive_number
is_positive_number_iff [] = ground arith
is_positive_number_iff (c ∷ cs) = ground (arith, digits_iff cs)

title_iff : (s : String) → (nat_eq (length (codes s)) 0 ≡ false) ↔ (s ≢ "")
title_iff String.[] = (λ h. cc, λ h. absurd (h refl))
title_iff (String.◌∷◌ c s) = (λ h k. cc, λ h. ground arith)

is_task_branch-own : (id : String) → is_task_branch ("sandcastle/task-" +++ id) ≡ is_issue_id id
unfolding is_task_branch is_issue_id
is_task_branch-own id =
    rw (codes-append "sandcastle/task-" id)
      (after_prefix-append is_positive_number (codes "sandcastle/task-") (codes id))

is_issue_id-codes : (id : String) → is_issue_id id ≡ is_positive_number (codes id)
unfolding is_issue_id
is_issue_id-codes id = refl

-- The fields' tests, where the branch is the Task's own.
has_shape_iff :
    (issue : PlannedIssue)
    → issue.branch ≡ "sandcastle/task-" +++ issue.id
    → (has_shape issue ≡ true) ↔ (IsNumeral (codes issue.id) × (issue.title ≢ ""))
unfolding has_shape
has_shape_iff issue own = ground (
  arith,
  is_positive_number_iff (codes issue.id),
  title_iff issue.title,
  ap is_task_branch own ∙ is_task_branch-own issue.id,
  is_issue_id-codes issue.id,
)

shapes_iff :
    (issues : List PlannedIssue)
    → All (λ issue. issue.branch ≡ "sandcastle/task-" +++ issue.id) issues
    → (all has_shape issues ≡ true)
      ↔ (All (λ issue. IsNumeral (codes issue.id)) issues × All (λ issue. issue.title ≢ "") issues)
shapes_iff [] own = ground arith
shapes_iff (issue ∷ issues) own = ground (arith, has_shape_iff issue own.0, shapes_iff issues own.1)

Fresh-cons :
    (x : String) (seen xs : List String)
    → Fresh (x ∷ seen) xs ↔ (All (λ y. y ≢ x) xs × Fresh seen xs)
Fresh-cons x seen [] = ground arith
Fresh-cons x seen (y ∷ ys) = ground (arith, eq_iff x y, Fresh-cons x seen ys)

Fresh-nil : (xs : List String) → Fresh [] xs
Fresh-nil [] = tt
Fresh-nil (x ∷ xs) = (refl, Fresh-nil xs)

-- The loop's reading: nothing is reported for the rest of the list.
abbrev Clean : List String → List String → List PlannedIssue → Type 0
Clean seen_ids seen_branches issues =
    Distinct (ids issues)
    × Distinct (branches issues)
    × Fresh seen_ids (ids issues)
    × Fresh seen_branches (branches issues)
    × All (λ issue. issue.branch ≡ "sandcastle/task-" +++ issue.id) issues

refine_from_iff :
    (seen_ids seen_branches : List String) (issues : List PlannedIssue)
    → (refine_from seen_ids seen_branches issues ≡ []) ↔ Clean seen_ids seen_branches issues
unfolding refine_from task_branch
refine_from_iff seen_ids seen_branches [] = ground arith
refine_from_iff seen_ids seen_branches (issue ∷ issues) = ground (
  arith,
  eq_iff issue.branch ("sandcastle/task-" +++ issue.id),
  Fresh-cons issue.id seen_ids (ids issues),
  Fresh-cons issue.branch seen_branches (branches issues),
  refine_from_iff (issue.id ∷ seen_ids) (issue.branch ∷ seen_branches) issues,
)

-- The schema accepts a plan exactly if it names at most three issues, each with a title and a decimal
-- numeral without a leading zero as its identifier; no two share an identifier or a branch, and every branch
-- is the one made from its own identifier.
pub accepts_plan_iff : (issues : List PlannedIssue) → (accepts_plan issues ≡ true) ↔ IsPlan issues
unfolding accepts_plan
accepts_plan_iff issues = (
  λ h.
      let (a, b, c, d, own) = (refine_from_iff [] [] issues).0 (ground (arith, h)) in
      let (numerals, titles) = (shapes_iff issues own).0 (ground (arith, h)) in
      record {
        numerals = numerals;
        titles = titles;
        few = ground (arith, h);
        distinct_ids = a;
        distinct_branches = b;
        own_branches = own;
      },
  λ r. ground (
    arith,
    r.few,
    (shapes_iff issues r.own_branches).1 (r.numerals, r.titles),
    (refine_from_iff [] [] issues).1 (
      r.distinct_ids,
      r.distinct_branches,
      Fresh-nil (ids issues),
      Fresh-nil (branches issues),
      r.own_branches,
    ),
  ),
)
