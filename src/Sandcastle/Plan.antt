-- ===== src/Sandcastle/Plan.antt =====
-- planSchema of .sandcastle/main.mts: the plan that the planning agent may emit.
pub mod Laws
use flash_trips.Prelude.{
  ℕ, String, Bool, true, false, List, [], ◌∷◌, ◌&&◌, ◌||◌, not, length, leb, nat_eq, all, includes,
  str_eq, codes, bytes_eq, Bytes, is_digit, ◌+++◌, if◌then◌else◌,
}

pub record PlannedIssue : Type 0 where
  pub id : String
  pub title : String
  pub branch : String

abbrev pub hard_max_parallel_issues : ℕ
hard_max_parallel_issues = 3

abbrev is_nonzero_digit : ℕ → Bool
is_nonzero_digit c = leb b'1' c && leb c b'9'

-- /^[1-9]\d*$/ on code points.
unfoldable pub is_positive_number : Bytes → Bool
is_positive_number [] = false
is_positive_number (c ∷ cs) = is_nonzero_digit c && all is_digit cs

-- The code points behind a prefix, tested.
unfoldable pub after_prefix : Bytes → (Bytes → Bool) → Bytes → Bool
after_prefix [] test cs = test cs
after_prefix (x ∷ xs) test [] = false
after_prefix (x ∷ xs) test (c ∷ cs) = nat_eq c x && after_prefix xs test cs

unfoldable pub is_issue_id : String → Bool
unfolding is_positive_number
is_issue_id id = is_positive_number (codes id)

-- /^sandcastle\/task-[1-9]\d*$/.
unfoldable pub is_task_branch : String → Bool
unfolding after_prefix is_positive_number
is_task_branch branch = after_prefix (codes "sandcastle/task-") is_positive_number (codes branch)

-- The branch of a Task.
unfoldable pub task_branch : String → String
task_branch id = "sandcastle/task-" +++ id

-- The fields' own tests.
unfoldable pub has_shape : PlannedIssue → Bool
unfolding is_issue_id is_task_branch
has_shape issue =
    is_issue_id issue.id
    && not (nat_eq (length (codes issue.title)) 0)
    && is_task_branch issue.branch

-- The problems that superRefine reports.
pub data PlanProblem : Type 0 where
  duplicate_issue duplicate_branch foreign_branch : String → PlanProblem

abbrev report_if : Bool → PlanProblem → List PlanProblem → List PlanProblem
report_if true problem rest = problem ∷ rest
report_if false problem rest = rest

-- The loop of superRefine over the issues, with the sets of what came before.
unfoldable pub refine_from : List String → List String → List PlannedIssue → List PlanProblem
unfolding task_branch
refine_from ids branches [] = []
refine_from ids branches (issue ∷ issues) =
    report_if (includes issue.id ids) (duplicate_issue issue.id) (
      report_if (includes issue.branch branches) (duplicate_branch issue.branch) (
        report_if (not (str_eq issue.branch (task_branch issue.id))) (foreign_branch issue.id)
          (refine_from (issue.id ∷ ids) (issue.branch ∷ branches) issues)))

abbrev is_empty : List PlanProblem → Bool
is_empty [] = true
is_empty (_ ∷ _) = false

-- The schema accepts the plan.
unfoldable pub accepts_plan : List PlannedIssue → Bool
unfolding has_shape refine_from
accepts_plan issues =
    all has_shape issues
    && leb (length issues) hard_max_parallel_issues
    && is_empty (refine_from [] [] issues)
