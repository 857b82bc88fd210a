-- ===== src/Sandcastle/RunState.antt =====
-- runStateSchema of .sandcastle/main.mts: the durable checkpoints of an interrupted run.
pub mod Laws
use flash_trips.Prelude.{
  ℕ, String, Bool, true, false, Option, none, some, List, [], ◌∷◌, map, ◌&&◌, ◌||◌, not, length,
  leb, ltb, nat_eq, all, is_some, is_digit, codes, Bytes, show, ◌+++◌, if◌then◌else◌, Result, ok,
  err,
}
use flash_trips.Sandcastle.Plan.{is_issue_id, is_task_branch, is_positive_number, after_prefix}

pub data RunCheckpoint : Type 0 where
  claimed reviewed integrated published : RunCheckpoint

pub record PublicationReceipt : Type 0 where
  pub branch : String
  pub base : String
  pub local_commit : String
  pub remote_commit : String
  pub tree : String
  pub pr_number : ℕ
  pub pr_url : String
  pub draft : Bool

-- An issue of the state file: what older versions left out is optional.
pub record StoredIssue : Type 0 where
  pub id : String
  pub title : String
  pub branch : String
  pub parent : Option ℕ
  pub parent_title : Option String
  pub integration_branch : Option String
  pub checkpoint : Option RunCheckpoint
  pub approved_sha : Option String
  pub integration_head : Option String
  pub expected_remote_tree : Option String
  pub publication : Option PublicationReceipt

pub record ActiveClaim : Type 0 where
  pub id : String
  pub title : String
  pub branch : String
  pub parent : Option ℕ
  pub parent_title : Option String
  pub integration_branch : String
  pub checkpoint : RunCheckpoint
  pub approved_sha : Option String
  pub integration_head : Option String
  pub expected_remote_tree : Option String
  pub publication : Option PublicationReceipt

pub record StoredState : Type 0 where
  pub target_branch : String
  pub target_head : String
  pub issues : List StoredIssue

pub record RunState : Type 0 where
  pub target_branch : String
  pub target_head : String
  pub issues : List ActiveClaim

abbrev is_hex_digit : ℕ → Bool
is_hex_digit c = is_digit c || (leb b'a' c && leb c b'f')

-- /^[0-9a-f]{40}$/.
unfoldable pub is_sha : String → Bool
is_sha text = nat_eq (length (codes text)) 40 && all is_hex_digit (codes text)

abbrev pub optional {ℓ} : {A : Type ℓ} → (A → Bool) → Option A → Bool
optional test none = true
optional test (some a) = test a

abbrev is_nonempty : String → Bool
is_nonempty text = ltb 0 (length (codes text))

-- /^sandcastle\/(?:feature|task)-[1-9]\d*$/.
unfoldable pub is_integration_branch : String → Bool
is_integration_branch branch =
    after_prefix (codes "sandcastle/feature-") is_positive_number (codes branch)
    || is_task_branch branch

-- The branch that a Task's work is integrated on.
unfoldable pub default_integration_branch : Option ℕ → String → String
unfolding show
default_integration_branch none branch = branch
default_integration_branch (some parent) branch = "sandcastle/feature-" +++ show parent

-- The checkpoint that the recorded evidence amounts to.
unfoldable pub inferred_checkpoint :
    Option PublicationReceipt → Option String → Option String → RunCheckpoint
inferred_checkpoint (some receipt) head sha = published
inferred_checkpoint none (some head) sha = integrated
inferred_checkpoint none none (some sha) = reviewed
inferred_checkpoint none none none = claimed

abbrev or_branch : Option String → String → String
or_branch none default = default
or_branch (some branch) default = branch

abbrev or_checkpoint : Option RunCheckpoint → RunCheckpoint → RunCheckpoint
or_checkpoint none default = default
or_checkpoint (some checkpoint) default = checkpoint

-- The transform of the schema.
unfoldable pub transform : StoredIssue → ActiveClaim
unfolding default_integration_branch inferred_checkpoint
transform i = record {
  id = i.id;
  title = i.title;
  branch = i.branch;
  parent = i.parent;
  parent_title = i.parent_title;
  integration_branch =
      or_branch i.integration_branch (default_integration_branch i.parent i.branch);
  checkpoint =
      or_checkpoint i.checkpoint
        (inferred_checkpoint i.publication i.integration_head i.approved_sha);
  approved_sha = i.approved_sha;
  integration_head = i.integration_head;
  expected_remote_tree = i.expected_remote_tree;
  publication = i.publication;
}

-- The superRefine step: the evidence that each checkpoint requires.
unfoldable pub has_evidence : RunCheckpoint → ActiveClaim → Bool
has_evidence claimed c = true
has_evidence reviewed c = is_some c.approved_sha
has_evidence integrated c =
    is_some c.approved_sha && (is_some c.integration_head && is_some c.expected_remote_tree)
has_evidence published c = is_some c.approved_sha && is_some c.publication

module _ (is_url : String → Bool) where
  -- publicationReceiptSchema; the URL test is the validation library's.
  unfoldable pub receipt_has_shape : PublicationReceipt → Bool
  unfolding is_sha
  receipt_has_shape r =
      is_nonempty r.branch
      && is_nonempty r.base
      && is_sha r.local_commit
      && is_sha r.remote_commit
      && is_sha r.tree
      && ltb 0 r.pr_number
      && is_url r.pr_url

  unfoldable pub issue_has_shape : StoredIssue → Bool
  issue_has_shape i =
      is_issue_id i.id
      && is_nonempty i.title
      && is_task_branch i.branch
      && optional (ltb 0) i.parent
      && optional is_integration_branch i.integration_branch
      && optional is_sha i.approved_sha
      && optional is_sha i.integration_head
      && optional is_sha i.expected_remote_tree
      && optional receipt_has_shape i.publication

  unfoldable pub accepts_issue : StoredIssue → Bool
  accepts_issue i = issue_has_shape i && has_evidence (transform i).checkpoint (transform i)

  -- runStateSchema.parse; none where it throws.
  unfoldable pub parse_state : StoredState → Option RunState
  parse_state s =
      if is_nonempty s.target_branch && is_sha s.target_head && all accepts_issue s.issues
      then some (record {
        target_branch = s.target_branch;
        target_head = s.target_head;
        issues = map transform s.issues;
      })
      else none

-- What persistRunState writes for a claim, and for all of them.
unfoldable pub stored_issue : ActiveClaim → StoredIssue
stored_issue c = record {
  id = c.id;
  title = c.title;
  branch = c.branch;
  parent = c.parent;
  parent_title = c.parent_title;
  integration_branch = some c.integration_branch;
  checkpoint = some c.checkpoint;
  approved_sha = c.approved_sha;
  integration_head = c.integration_head;
  expected_remote_tree = c.expected_remote_tree;
  publication = c.publication;
}

unfoldable pub stored_state : RunState → StoredState
unfolding stored_issue
stored_state s = record {
  target_branch = s.target_branch;
  target_head = s.target_head;
  issues = map stored_issue s.issues;
}
