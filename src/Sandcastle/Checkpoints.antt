-- ===== src/Sandcastle/Checkpoints.antt =====
-- The claims of a run, .sandcastle/main.mts: persistRunState, blockIssue, stopClaim,
-- closeLandedIssue and verifyPublicationReceipt. What git, gh and the tracker answer during one
-- operation is a record of functions; text for people (comments, warnings) is left out of it.
pub mod Recovery
pub mod Integration
pub mod Persistence
pub mod Safety
pub mod ClaimSafety
pub mod RecoverySafety
pub mod Returns
pub mod Recovered
pub mod IntegrationSafety
use flash_trips.Prelude.{
  String, Bool, true, false, Option, none, some, List, [], ◌∷◌, ◌&&◌, ◌||◌, not, includes, str_eq,
  if◌then◌else◌, Result, ok, err,
}
use flash_trips.Sandcastle.World.{World, Pull}
use flash_trips.Sandcastle.RunState.{
  RunCheckpoint, claimed, PublicationReceipt, ActiveClaim, StoredState, stored_state,
}

-- What a run has done to the tracker: the ticket's pipeline label moved, the ticket closed.
pub data Deed : Type 0 where
  labelled : String → Option String → Deed
  -- The claim, the approved commit and the receipt that the ticket was closed for.
  closed : ActiveClaim → String → PublicationReceipt → Deed

-- How the next writing or removal of the state file ends: it succeeds, or throws before or after
-- the file was replaced.
pub data Disk : Type 0 where
  writes : Disk
  kept_old : Disk
  unsynced : Disk

-- The orchestrator's variables, and the state file.
pub record Run : Type 0 where
  pub target_branch : Option String
  pub target_head : Option String
  pub active : List ActiveClaim
  pub pending_cleanup : List String
  pub had_blocked_work : Bool
  pub file : Option StoredState
  -- Past its end, all succeed.
  pub disk : List Disk
  pub deeds : List Deed

pub data RunError : Type 0 where
  no_target : RunError
  invalid_file : RunError
  other_target : RunError
  unrecovered : RunError
  target_changed : RunError
  empty_group : RunError
  command_failed : RunError
  unverified_merge : RunError
  publication_failed : RunError
  disk_failed : RunError
  missing_claim : RunError

-- The state after a call, and what the call returned or threw.
abbrev pub Outcome {ℓ} : Type ℓ → Type ℓ
Outcome A = Run × Result RunError A

-- A call that returns nothing.
abbrev pub Done : Type 0
Done = Outcome (Unit {0})

infixl 5 ◌▸◌
abbrev pub ◌▸◌ {ℓ κ} : {A : Type ℓ} {B : Type κ} → Outcome A → (Run → A → Outcome B) → Outcome B
(r, ok a) ▸ k = k r a
(r, err e) ▸ k = (r, err e)

-- `activeClaims.has`, `.delete` and `.set`: a map by identifier, in the order of insertion.
unfoldable pub has_claim : String → List ActiveClaim → Bool
has_claim id [] = false
has_claim id (c ∷ cs) = str_eq c.id id || has_claim id cs

unfoldable pub delete_claim : String → List ActiveClaim → List ActiveClaim
delete_claim id [] = []
delete_claim id (c ∷ cs) =
    let rest = delete_claim id cs in if str_eq c.id id then rest else c ∷ rest

unfoldable pub set_claim : ActiveClaim → List ActiveClaim → List ActiveClaim
set_claim c [] = c ∷ []
set_claim c (d ∷ ds) = let rest = set_claim c ds in if str_eq d.id c.id then c ∷ ds else d ∷ rest

unfoldable pub get_claim : String → List ActiveClaim → Option ActiveClaim
get_claim id [] = none
get_claim id (c ∷ cs) = let rest = get_claim id cs in if str_eq c.id id then some c else rest

abbrev pub is_empty : List ActiveClaim → Bool
is_empty [] = true
is_empty (_ ∷ _) = false

-- The contents that are written for the claims.
unfoldable pub write_file : Option String → Option String → List ActiveClaim → Option StoredState
unfolding stored_state
write_file (some branch) (some head) claims =
    if str_eq branch "" || str_eq head ""
    then none
    else some
        (stored_state (record { target_branch = branch; target_head = head; issues = claims }))
write_file _ _ claims = none

abbrev pub replaced : Option StoredState → List Disk → Run → Done
replaced contents [] r = (record r { file = contents }, ok tt)
replaced contents (writes ∷ later) r = (record r { file = contents; disk = later }, ok tt)
replaced contents (kept_old ∷ later) r = (record r { disk = later }, err disk_failed)
replaced contents (unsynced ∷ later) r =
    (record r { file = contents; disk = later }, err disk_failed)

abbrev pub saved : Run → Option StoredState → Done
saved r none = (r, err no_target)
saved r (some contents) = replaced (some contents) r.disk r

-- persistRunState; the temporary file and its renaming are one step, before or after which it may
-- throw.
unfoldable pub persist_run_state : Run → Done
unfolding write_file
persist_run_state r =
    if is_empty r.active
    then replaced none r.disk r
    else saved r (write_file r.target_branch r.target_head r.active)

-- setPipelineLabel, where `done` says whether it succeeded.
abbrev pub label_ticket : String → Option String → Run → Run
label_ticket id label r = record r { deeds = labelled id label ∷ r.deeds }

abbrev pub drop_claim : String → Run → Run
drop_claim id r = record r { active = delete_claim id r.active }

module _ (w : World) where
  abbrev pub is_same_pull : PublicationReceipt → Option Pull → Bool
  is_same_pull receipt none = false
  is_same_pull receipt (some pull) =
      str_eq pull.head receipt.branch
      && str_eq pull.base receipt.base
      && str_eq pull.url receipt.pr_url

  abbrev pub is_text : Option String → String → Bool
  is_text none expected = false
  is_text (some text) expected = str_eq text expected

  abbrev pub remote_tree_of : Option String → Option String
  remote_tree_of none = none
  remote_tree_of (some commit) = w.remote_tree commit

  -- verifyPublicationReceipt.
  unfoldable pub verify_publication_receipt : PublicationReceipt → Bool
  verify_publication_receipt receipt =
      let commit = w.remote_commit receipt.branch in
      is_text commit receipt.remote_commit
      && is_text (remote_tree_of commit) receipt.tree
      && is_same_pull receipt (w.pull receipt.pr_number)

  -- blockIssue.
  unfoldable pub block_issue : String → Run → Done
  unfolding has_claim delete_claim persist_run_state
  block_issue id r =
      if not (has_claim id r.active) || includes id r.pending_cleanup
      then (r, ok tt)
      else (let marked : Run = record r { had_blocked_work = true } in
          if w.set_label id (some "agent:blocked")
          then persist_run_state (drop_claim id (label_ticket id (some "agent:blocked") marked))
          else (marked, ok tt))

  abbrev pub is_claimed : RunCheckpoint → Bool
  is_claimed claimed = true
  is_claimed _ = false

  -- stopClaim.
  unfoldable pub stop_claim : ActiveClaim → Run → Done
  unfolding block_issue persist_run_state
  stop_claim c r = if is_claimed c.checkpoint then block_issue c.id r else persist_run_state r

  abbrev pub then_true : Run → Unit {0} → Outcome Bool
  then_true r _ = (r, ok true)

  -- The end of closeLandedIssue: the closed ticket loses its pipeline label.
  unfoldable pub release_closed : String → Run → Outcome Bool
  unfolding delete_claim persist_run_state
  release_closed id r =
      if w.set_label id none
      then persist_run_state (drop_claim id (label_ticket id none r)) ▸ then_true
      else (record r { pending_cleanup = id ∷ r.pending_cleanup; had_blocked_work = true }, ok true)

  -- closeLandedIssue.
  unfoldable pub close_landed_issue : ActiveClaim → String → PublicationReceipt → Run → Outcome Bool
  unfolding verify_publication_receipt block_issue release_closed
  close_landed_issue c approved receipt r =
      if not (w.is_ancestor approved c.integration_branch)
        || not (verify_publication_receipt receipt)
      then (r, ok false)
      else if w.close c.id
      then release_closed c.id (record r { deeds = closed c approved receipt ∷ r.deeds })
      else block_issue c.id r ▸ then_true
