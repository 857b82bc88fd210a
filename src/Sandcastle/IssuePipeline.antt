-- ===== src/Sandcastle/IssuePipeline.antt =====
-- runIssuePipeline of .sandcastle/main.mts: a Task is implemented and reviewed in a sandbox, whose
-- commands and agents are answers. The text of a reason is left out.
pub mod Laws
use flash_trips.Prelude.{
  ℕ, String, Bool, true, false, Option, none, some, List, [], ◌∷◌, ◌++◌, ◌&&◌, nat_eq, str_eq, trim,
  if◌then◌else◌, Result, ok, err,
}
use flash_trips.Sandcastle.RunState.{is_sha}

-- What an agent left: its commits, and whether it signalled completion.
pub record Work : Type 0 where
  pub commits : List String
  pub completes : Bool

-- reviewSchema.
pub data Verdict : Type 0 where
  approved : Verdict
  blocked : Verdict

pub data Reason : Type 0 where
  no_commits : Reason
  not_completed : Reason
  review_blocked : Reason
  unverified_worktree : Reason
  dirty_worktree : Reason
  reviewed_and_approved : Reason

pub data PipelineError : Type 0 where
  no_sandbox : PipelineError
  dirty_start : PipelineError
  diverged : PipelineError
  agent_failed : PipelineError
  unknown_progress : PipelineError
  unknown_head : PipelineError
  invalid_review : PipelineError
  not_closed : PipelineError

-- The answers of the sandbox: none is a command that failed or an agent that threw.
pub record Sandbox : Type 0 where
  -- The prompt context is read, and the sandbox created.
  pub starts : Bool
  -- `git status --porcelain`, before the agents and after them.
  pub initial_status : Option String
  pub final_status : Option String
  -- `git merge --ff-only`.
  pub aligns : Bool
  pub implement : Option Work
  -- `git rev-list --count`, where it printed a number.
  pub ahead : Option ℕ
  pub head : Option String
  -- The reviewer's commits, and what parseReview made of its output.
  pub review : Option (List String × Option Verdict)
  pub closes : Bool

abbrev pub Answer : Type 0
Answer = Result PipelineError (List String × Reason)

abbrev pub is_clean : Option String → Bool
is_clean none = false
is_clean (some text) = str_eq (trim text) ""

-- The commits of the implementer, or the head that was there before.
abbrev pub implementation_commits : List String → String → List String
implementation_commits [] head = head ∷ []
implementation_commits (sha ∷ shas) head = sha ∷ shas

-- The worktree after the review.
unfoldable pub after_status : List String → Option String → Answer
unfolding trim
after_status commits none = ok ([], unverified_worktree)
after_status commits (some text) =
    if str_eq (trim text) "" then ok (commits, reviewed_and_approved) else ok ([], dirty_worktree)

unfoldable pub after_review :
    List String → Option String → Option (List String × Option Verdict) → Answer
after_review commits status none = err agent_failed
after_review commits status (some (more, none)) = err invalid_review
after_review commits status (some (more, some blocked)) = ok ([], review_blocked)
after_review commits status (some (more, some approved)) = after_status (commits ++ more) status

unfoldable pub after_head : Sandbox → List String → Option String → Answer
unfolding trim is_sha
after_head s commits none = err unknown_head
after_head s commits (some head) =
    if is_sha (trim head)
    then after_review (implementation_commits commits (trim head)) s.final_status s.review
    else err unknown_head

abbrev pub is_nil : List String → Bool
is_nil [] = true
is_nil (_ ∷ _) = false

unfoldable pub after_progress : Sandbox → Work → Option ℕ → Answer
after_progress s work none = err unknown_progress
after_progress s work (some ahead) =
    if is_nil work.commits && nat_eq ahead 0
    then ok ([], no_commits)
    else if work.completes
    then after_head s work.commits s.head
    else ok ([], not_completed)

unfoldable pub after_implement : Sandbox → Option Work → Answer
after_implement s none = err agent_failed
after_implement s (some work) = after_progress s work s.ahead

-- The block of the `try`.
unfoldable pub run_in_sandbox : Sandbox → Answer
unfolding trim after_implement
run_in_sandbox s =
    if is_clean s.initial_status
    then if s.aligns then after_implement s s.implement else err diverged
    else err dirty_start

-- The `finally`: a sandbox that does not close is an error of its own only after success.
abbrev pub after_close : Bool → Answer → Answer
after_close closes (err e) = err e
after_close closes (ok answer) = if closes then ok answer else err not_closed

-- runIssuePipeline.
unfoldable pub run_issue_pipeline : Sandbox → Answer
unfolding run_in_sandbox
run_issue_pipeline s = if s.starts then after_close s.closes (run_in_sandbox s) else err no_sandbox
