-- ===== src/Sandcastle/World.antt =====
-- What git, gh and the tracker answer to the orchestrator of .sandcastle/main.mts.
use flash_trips.Prelude.{ℕ, String, Bool, Option, List}

-- headRefName, baseRefName and url of a pull request.
pub record Pull : Type 0 where
  pub head : String
  pub base : String
  pub url : String

-- State and labels of a ticket.
pub record Ticket : Type 0 where
  pub is_closed : Bool
  pub labels : List String

-- The answers during one operation; none is a command that failed or an answer of another shape.
pub record World : Type 0 where
  -- Whether setPipelineLabel and `gh issue close` succeed.
  pub set_label : String → Option String → Bool
  pub close : String → Bool
  -- `git merge-base --is-ancestor`.
  pub is_ancestor : String → String → Bool
  -- remoteBranchCommit, and the tree of a remote commit.
  pub remote_commit : String → Option String
  pub remote_tree : String → Option String
  pub pull : ℕ → Option Pull
  pub ticket : String → Option Ticket
