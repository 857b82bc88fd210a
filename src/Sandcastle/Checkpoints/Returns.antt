-- ===== src/Sandcastle/Checkpoints/Returns.antt =====
-- Once the target of the run is recorded, and while the disk has no errors, the operations on the claims
-- return, but for a claim that is missing from memory.
use flash_trips.Prelude.{
  String, Bool, true, false, Option, none, some, List, [], ◌∷◌, ◌≡◌, refl, is_some, includes, not,
  ◌||◌, ◌&&◌, ◌⊎◌, inl, inr, if◌then◌else◌, ok, err, arith,
}
use flash_trips.Sandcastle.World.{World, Ticket}
use flash_trips.Sandcastle.RunState.{PublicationReceipt, ActiveClaim}
use flash_trips.Sandcastle.Checkpoints.{
  Run, missing_claim, Outcome, ◌▸◌, has_claim, closed, write_file, persist_run_state, label_ticket,
  drop_claim, block_issue, release_closed, then_true, close_landed_issue,
  verify_publication_receipt,
}
use flash_trips.Sandcastle.Checkpoints.Recovery.{
  recover_closed, resume_or_block, unless_closed, returned, recover_open, recover_issue,
  recover_each, is_resumable, is_past_review, is_verifiable, rewound,
}
use flash_trips.Sandcastle.Checkpoints.Persistence.{persist-ok}
use flash_trips.Sandcastle.Checkpoints.RecoverySafety.{recover_issue-Recovers}

-- The target's branch and commit are recorded.
abbrev pub IsTargeted : Run → Type 0
IsTargeted r = is_some (write_file r.target_branch r.target_head []) ≡ true

-- The call returned, or missed a claim.
abbrev pub Returns : {A : Type 0} → Outcome A → Type 0
Returns {A} o = ((a : A) × (o.1 ≡ ok a)) ⊎ (o.1 ≡ err missing_claim)

Returns-if :
    {A : Type 0} (test : Bool) (x y : Outcome A)
    → Returns x
    → Returns y
    → Returns (if test then x else y)
Returns-if true x y a b = a
Returns-if false x y a b = b

Returns-then :
    {A B : Type 0} (o : Outcome A) (k : Run → A → Outcome B)
    → Returns o
    → ((a : A) → Returns (k o.0 a))
    → Returns (o ▸ k)
Returns-then (s, ok a) k before after = after a
Returns-then (s, err e) k (inl (a, failed)) after = absurd (ground arith)
Returns-then (s, err e) k (inr missed) after = inr (ground (arith, missed))

persist-Returns : (r : Run) → IsTargeted r → r.disk ≡ [] → Returns (persist_run_state r)
persist-Returns r target calm = inl (tt, persist-ok r target calm)

module _ (w : World) where
  pub block_issue-Returns :
      (id : String) (r : Run) → IsTargeted r → r.disk ≡ [] → Returns (block_issue w id r)
  unfolding block_issue
  block_issue-Returns id r target calm =
      let marked : Run = record r { had_blocked_work = true } in
      let dropped : Run = drop_claim id (label_ticket id (some "agent:blocked") marked) in
      Returns-if (not (has_claim id r.active) || includes id r.pending_cleanup) _ _ (inl (tt, refl))
        (Returns-if (w.set_label id (some "agent:blocked")) (persist_run_state dropped)
          (marked, ok tt) (persist-Returns dropped target calm) (inl (tt, refl)))

  release_closed-Returns :
      (id : String) (r : Run) → IsTargeted r → r.disk ≡ [] → Returns (release_closed w id r)
  unfolding release_closed
  release_closed-Returns id r target calm =
      Returns-if (w.set_label id none) _ _
        (Returns-then (persist_run_state (drop_claim id (label_ticket id none r))) (then_true w)
          (persist-Returns (drop_claim id (label_ticket id none r)) target calm)
          (λ _. inl (true, refl)))
        (inl (true, refl))

  close_landed_issue-Returns :
      (c : ActiveClaim) (sha : String) (receipt : PublicationReceipt) (r : Run)
      → IsTargeted r
      → r.disk ≡ []
      → Returns (close_landed_issue w c sha receipt r)
  unfolding close_landed_issue
  close_landed_issue-Returns c sha receipt r target calm =
      Returns-if
        (not (w.is_ancestor sha c.integration_branch) || not (verify_publication_receipt w receipt))
        _ _ (inl (false, refl))
        (Returns-if (w.close c.id) _ _
          (release_closed-Returns c.id (record r { deeds = closed c sha receipt ∷ r.deeds }) target
            calm)
          (Returns-then (block_issue w c.id r) (then_true w)
            (block_issue-Returns c.id r target calm) (λ _. inl (true, refl))))

  returned-Returns : (x : Run × Bool) → Returns (returned w x)
  returned-Returns (r, failed) = inl (failed, refl)

  resume_or_block-Returns : (c : ActiveClaim) (r : Run) → Returns (resume_or_block w c r)
  unfolding resume_or_block
  resume_or_block-Returns c r =
      Returns-if (is_resumable w c) _ _
        (Returns-if (is_past_review c.checkpoint && not (is_verifiable w c)) _ _ (inl (true, refl))
          (Returns-if (has_claim c.id (rewound c r).active) _ _ (inl (false, refl)) (inr refl)))
        (Returns-if (w.set_label c.id (some "agent:blocked")) _ _ (inl (false, refl))
          (inl (true, refl)))

  unless_closed-Returns :
      (c : ActiveClaim) (r : Run) (done : Bool) → Returns (unless_closed w c r done)
  unless_closed-Returns c r true = inl (false, refl)
  unless_closed-Returns c r false = resume_or_block-Returns c r

  recover_open-Returns :
      (c : ActiveClaim) (sha : Option String) (receipt : Option PublicationReceipt) (r : Run)
      → IsTargeted r
      → r.disk ≡ []
      → Returns (recover_open w c sha receipt r)
  unfolding recover_open
  recover_open-Returns c none receipt r target calm = resume_or_block-Returns c r
  recover_open-Returns c (some sha) none r target calm = resume_or_block-Returns c r
  recover_open-Returns c (some sha) (some receipt) r target calm =
      Returns-then (close_landed_issue w c sha receipt r) (unless_closed w c)
        (close_landed_issue-Returns c sha receipt r target calm) (unless_closed-Returns c _)

  recover_issue-Returns :
      (c : ActiveClaim) (o : Option Ticket) (r : Run)
      → IsTargeted r
      → r.disk ≡ []
      → Returns (recover_issue w c o r)
  unfolding recover_issue
  recover_issue-Returns c none r target calm = inl (true, refl)
  recover_issue-Returns c (some ticket) r target calm =
      Returns-if ticket.is_closed _ _ (returned-Returns (recover_closed w c r)) (
        Returns-if (includes "agent:in-progress" ticket.labels) _ _
          (recover_open-Returns c c.approved_sha c.publication r target calm) (inl (false, refl)))

  pub recover_each-Returns :
      (cs : List ActiveClaim) (failed : Bool) (r : Run)
      → IsTargeted r
      → r.disk ≡ []
      → Returns (recover_each w cs failed r)
  unfolding recover_each
  recover_each-Returns [] failed r target calm = inl (failed, refl)
  recover_each-Returns (c ∷ cs) failed r target calm =
      let moved = recover_issue-Recovers w (c ∷ []) c (w.ticket c.id) r refl (inl refl) in
      Returns-then (recover_issue w c (w.ticket c.id) r)
        (λ r' f. recover_each w cs (failed || f) r')
        (recover_issue-Returns c (w.ticket c.id) r target calm)
        (λ f.
          recover_each-Returns cs (failed || f) (recover_issue w c (w.ticket c.id) r).0
            (rw (moved.same_branch, moved.same_head) target) (moved.stays_calm calm))
