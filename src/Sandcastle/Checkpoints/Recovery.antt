-- ===== src/Sandcastle/Checkpoints/Recovery.antt =====
-- recoverInterruptedRun of .sandcastle/main.mts: what becomes of the claims of an interrupted run.
use flash_trips.Prelude.{
  String, Bool, true, false, Option, none, some, List, [], ◌∷◌, ◌&&◌, ◌||◌, not, includes, str_eq,
  is_some, if◌then◌else◌, ok, err,
}
use flash_trips.Sandcastle.World.{World, Ticket}
use flash_trips.Sandcastle.RunState.{
  RunCheckpoint, integrated, published, PublicationReceipt, ActiveClaim, RunState, StoredState,
  parse_state,
}
use flash_trips.Sandcastle.Checkpoints.{
  Run, has_claim, missing_claim, invalid_file, other_target, unrecovered, Outcome, ◌▸◌, set_claim,
  delete_claim, persist_run_state, label_ticket, drop_claim, verify_publication_receipt,
  close_landed_issue, is_claimed,
}

abbrev pub is_published : RunCheckpoint → Bool
is_published published = true
is_published _ = false

abbrev pub is_past_review : RunCheckpoint → Bool
is_past_review integrated = true
is_past_review published = true
is_past_review _ = false

-- A published claim is published again.
unfoldable pub rewound : ActiveClaim → Run → Run
unfolding set_claim
rewound c r =
    if is_published c.checkpoint
    then record r {
      active = set_claim (record c { checkpoint = integrated; publication = none }) r.active;
    }
    else r

module _ (w : World) where
  abbrev pub verified : Option PublicationReceipt → Bool
  verified none = false
  verified (some receipt) = verify_publication_receipt w receipt

  -- A ticket that is closed: the flag says whether a claim was not recovered.
  unfoldable pub recover_closed : ActiveClaim → Run → Run × Bool
  unfolding verify_publication_receipt delete_claim
  recover_closed c r =
      if verified c.publication && w.set_label c.id none
      then (drop_claim c.id (label_ticket c.id none r), false)
      else (r, true)

  -- The approved commit is still on the Task's branch.
  abbrev pub is_resumable : ActiveClaim → Bool
  is_resumable c = elim c.approved_sha [
    | none ↦ false
    | some sha ↦ not (is_claimed w c.checkpoint) && w.is_ancestor sha c.branch
  ]

  abbrev pub is_ancestor_of : Option String → Option String → Bool
  is_ancestor_of (some sha) (some head) = w.is_ancestor sha head
  is_ancestor_of _ _ = false

  -- The integration checkpoint can be checked locally.
  abbrev pub is_verifiable : ActiveClaim → Bool
  is_verifiable c =
      is_some c.expected_remote_tree && is_ancestor_of c.approved_sha c.integration_head

  -- The checkpoint of the active claim is printed, where there is one.
  abbrev pub resumed : ActiveClaim → Run → Outcome Bool
  resumed c r = if has_claim c.id r.active then (r, ok false) else (r, err missing_claim)

  unfoldable pub resume_or_block : ActiveClaim → Run → Outcome Bool
  unfolding has_claim
  resume_or_block c r =
      if is_resumable c
      then (if is_past_review c.checkpoint && not (is_verifiable c)
          then (r, ok true)
          else resumed c (rewound c r))
      else if w.set_label c.id (some "agent:blocked")
      then (
        record (drop_claim c.id (label_ticket c.id (some "agent:blocked") r)) {
          had_blocked_work = true;
        },
        ok false,
      )
      else (r, ok true)

  abbrev pub returned : Run × Bool → Outcome Bool
  returned (r, failed) = (r, ok failed)

  abbrev pub unless_closed : ActiveClaim → Run → Bool → Outcome Bool
  unless_closed c r true = (r, ok false)
  unless_closed c r false = resume_or_block c r

  -- A ticket that is open and in progress.
  unfoldable pub recover_open :
      ActiveClaim → Option String → Option PublicationReceipt → Run → Outcome Bool
  recover_open c (some sha) (some receipt) r =
      close_landed_issue w c sha receipt r ▸ unless_closed c
  recover_open c _ _ r = unless_closed c r false

  -- The body of the loop.
  unfoldable pub recover_issue : ActiveClaim → Option Ticket → Run → Outcome Bool
  recover_issue c none r = (r, ok true)
  recover_issue c (some ticket) r =
      if ticket.is_closed
      then returned (recover_closed c r)
      else if includes "agent:in-progress" ticket.labels
      then recover_open c c.approved_sha c.publication r
      else (drop_claim c.id r, ok false)

  unfoldable pub recover_each : List ActiveClaim → Bool → Run → Outcome Bool
  recover_each [] failed r = (r, ok failed)
  recover_each (c ∷ cs) failed r =
      recover_issue c (w.ticket c.id) r ▸ λ r' f. recover_each cs (failed || f) r'

  unfoldable pub set_claims : List ActiveClaim → List ActiveClaim → List ActiveClaim
  unfolding set_claim
  set_claims [] active = active
  set_claims (c ∷ cs) active = set_claims cs (set_claim c active)

  -- The claims to integrate, with their approved commits.
  unfoldable pub approved_claims : List ActiveClaim → List (ActiveClaim × String)
  approved_claims [] = []
  approved_claims (c ∷ cs) =
      let rest = approved_claims cs in
      elim c.approved_sha [ none ↦ rest | some sha ↦ (c, sha) ∷ rest ]

  unfoldable pub finish_recovery : Run → Bool → Outcome (List (ActiveClaim × String))
  finish_recovery r failed = persist_run_state r ▸ λ r' _.
      if failed then (r', err unrecovered) else (r', ok (approved_claims r'.active))

  abbrev pub is_target : Option String → String → Bool
  is_target none branch = false
  is_target (some target) branch = str_eq target branch

  unfoldable pub recover_state : Option RunState → Run → Outcome (List (ActiveClaim × String))
  recover_state none r = (r, err invalid_file)
  recover_state (some state) r =
      if is_target r.target_branch state.target_branch
      then (recover_each state.issues false (record r { active = set_claims state.issues r.active })
          ▸ finish_recovery)
      else (r, err other_target)

  -- recoverInterruptedRun; `is_url` is the URL test of the validation library.
  unfoldable pub recover_interrupted_run :
      (String → Bool) → Option StoredState → Run → Outcome (List (ActiveClaim × String))
  recover_interrupted_run is_url none r = (r, ok [])
  recover_interrupted_run is_url (some file) r = recover_state (parse_state is_url file) r
