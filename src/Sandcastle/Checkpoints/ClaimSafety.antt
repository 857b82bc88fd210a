-- ===== src/Sandcastle/Checkpoints/ClaimSafety.antt =====
-- blockIssue, stopClaim and closeLandedIssue keep the claims.
use flash_trips.Prelude.{
  String, Bool, true, Option, none, some, List, [], ◌∷◌, ◌++◌, ◌||◌, not, any, includes, ◌≡◌, refl,
  inl, inr, All, Bool-cases, eq_iff, arith, ap, sym, ◌∙◌,
}
use flash_trips.Sandcastle.World.{World, Pull}
use flash_trips.Sandcastle.RunState.{PublicationReceipt, ActiveClaim}
use flash_trips.Sandcastle.RunState.Laws.{HasEvidence}
use flash_trips.Sandcastle.Checkpoints.{
  Deed, labelled, closed, Run, has_claim, persist_run_state, label_ticket, drop_claim,
  verify_publication_receipt, is_text, is_same_pull, remote_tree_of, block_issue, is_claimed,
  stop_claim, then_true, release_closed, close_landed_issue,
}
use flash_trips.Sandcastle.Checkpoints.Safety.{
  accounts, Keeps, Landed, IsVerified, Rules, Proven, Safe, has_claim-delete_claim,
  All-delete_claim, Safe-refl, Safe-trans, Safe-then, Safe-persist, is_label_of,
}

module _ (w : World) where
  text_lem : (o : Option String) (t : String) → is_text w o t ≡ true → o ≡ some t
  text_lem none t h = cc
  text_lem (some s) t h = ap some ((eq_iff s t).0 h)

  pull_lem :
      (receipt : PublicationReceipt) (o : Option Pull)
      → is_same_pull w receipt o ≡ true
      → (pull : Pull) × (o ≡ some pull)
        × (pull.head ≡ receipt.branch)
        × (pull.base ≡ receipt.base)
        × (pull.url ≡ receipt.pr_url)
  pull_lem receipt none h = cc
  pull_lem receipt (some pull) h = (
    pull,
    refl,
    ground (arith, h, eq_iff pull.head receipt.branch),
    ground (arith, h, eq_iff pull.base receipt.base),
    ground (arith, h, eq_iff pull.url receipt.pr_url),
  )

  verified_lem :
      (receipt : PublicationReceipt)
      → verify_publication_receipt w receipt ≡ true
      → IsVerified w receipt
  unfolding verify_publication_receipt
  verified_lem receipt h =
      let here : is_text w (w.remote_commit receipt.branch) receipt.remote_commit ≡ true =
        ground (arith, h) in
      let tree : is_text w (remote_tree_of w (w.remote_commit receipt.branch)) receipt.tree ≡ true =
        ground (arith, h) in
      let same : is_same_pull w receipt (w.pull receipt.pr_number) ≡ true = ground (arith, h) in
      let commit = text_lem (w.remote_commit receipt.branch) receipt.remote_commit here in
      let (pull, answered, head, base, url) = pull_lem receipt (w.pull receipt.pr_number) same in
      record {
        commit = commit;
        tree =
            ap (remote_tree_of w) (sym commit)
            ∙ text_lem (remote_tree_of w (w.remote_commit receipt.branch)) receipt.tree tree;
        pull = pull;
        answered = answered;
        same_head = head;
        same_base = base;
        same_url = url;
      }

  -- The claim of a ticket whose label was moved may be dropped.
  pub drop-Keeps :
      (P : Rules) (r : Run) (id : String) (label : Option String)
      → Keeps P.exception r (drop_claim id (label_ticket id label r))
  drop-Keeps P r id label x h =
      inl (ground (arith, has_claim-delete_claim x id r.active, eq_iff id x))

  module _ (P : Rules) where
    -- Moving a label, dropping the claim and writing the file.
    release-Safe :
        (r : Run) (id : String) (label : Option String) (new : List Deed) (flag : Bool)
        → All (Proven w P) new
        → w.set_label id label ≡ true
        → Safe w P r
            (persist_run_state (
              drop_claim id (
                label_ticket id label
                  (record r { deeds = new ++ r.deeds; had_blocked_work = flag })))).0
    release-Safe r id label new flag proven moved =
        let before : Run = record r { deeds = new ++ r.deeds; had_blocked_work = flag } in
        Safe-persist w P r (drop_claim id (label_ticket id label before)) refl refl refl
          (λ x h. drop-Keeps P before id label x (more x new h))
          (labelled id label ∷ new, refl, (moved, proven))
          (All-delete_claim HasEvidence id r.active)
      where
        any-append :
            (x : String) (xs : List Deed)
            → any (is_label_of x) r.deeds ≡ true
            → any (is_label_of x) (xs ++ r.deeds) ≡ true
        any-append x [] h = h
        any-append x (d ∷ ds) h = ground (arith, any-append x ds h)

        more :
            (x : String) (xs : List Deed)
            → accounts x r ≡ true
            → accounts x (record r { deeds = xs ++ r.deeds; had_blocked_work = flag }) ≡ true
        more x xs h = ground (arith, any-append x xs)

    marked-Safe :
        (r : Run) (flag : Bool) (pending : List String)
        → Safe w P r (record r { had_blocked_work = flag; pending_cleanup = pending })
    marked-Safe r flag pending = record {
      stays_calm = λ h. h;
      stays_saved = λ calm h. record { has_target = h.has_target; in_file = h.in_file };
      keeps = λ id h. inl h;
      adds = ([], refl, tt);
      stays_backed = λ h. h;
      same_branch = refl;
      same_head = refl;
    }

    pub block_issue-Safe : (id : String) (r : Run) → Safe w P r (block_issue w id r).0
    unfolding block_issue
    block_issue-Safe id r =
        elim (Bool-cases (not (has_claim id r.active) || includes id r.pending_cleanup)) [
          | inl e ↦ rw e (Safe-refl w P r)
          | inr e ↦ elim (Bool-cases (w.set_label id (some "agent:blocked"))) [
            | inl moved ↦ rw (e, moved) (release-Safe r id (some "agent:blocked") [] true tt moved)
            | inr stuck ↦ rw (e, stuck) (marked-Safe r true r.pending_cleanup)
          ]
        ]

    -- Stopping a claim at the end of the run.
    pub stop_claim-Safe : (c : ActiveClaim) (r : Run) → Safe w P r (stop_claim w c r).0
    unfolding stop_claim
    stop_claim-Safe c r = elim (Bool-cases (is_claimed w c.checkpoint)) [
      | inl e ↦ rw e (block_issue-Safe c.id r)
      | inr e ↦ rw e (Safe-persist w P r r refl refl refl (λ x h. inl h) ([], refl, tt) (λ h. h))
    ]

    closed-Safe :
        (c : ActiveClaim) (approved : String) (receipt : PublicationReceipt) (r : Run)
        → Landed w P c approved receipt
        → Safe w P r (record r { deeds = closed c approved receipt ∷ r.deeds })
    closed-Safe c approved receipt r landed = record {
      stays_calm = λ h. h;
      stays_saved = λ calm h. record { has_target = h.has_target; in_file = h.in_file };
      keeps = λ x h. inl (ground arith);
      adds = (closed c approved receipt ∷ [], refl, (landed, tt));
      stays_backed = λ h. h;
      same_branch = refl;
      same_head = refl;
    }

    then_true-Safe : (s : Run) (a : Unit {0}) → Safe w P s (then_true w s a).0
    then_true-Safe s a = Safe-refl w P s

    release_closed-Safe : (id : String) (r : Run) → Safe w P r (release_closed w id r).0
    unfolding release_closed
    release_closed-Safe id r = elim (Bool-cases (w.set_label id none)) [
      | inl moved ↦ rw moved (
          Safe-then w P (persist_run_state (drop_claim id (label_ticket id none r))) (then_true w)
            (release-Safe r id none [] r.had_blocked_work tt moved) then_true-Safe)
      | inr stuck ↦ rw stuck (marked-Safe r true (id ∷ r.pending_cleanup))
    ]

    -- Closing a ticket whose work has landed.
    pub close_landed_issue-Safe :
        (c : ActiveClaim) (approved : String) (receipt : PublicationReceipt) (r : Run)
        → P.permits c approved receipt
        → Safe w P r (close_landed_issue w c approved receipt r).0
    unfolding close_landed_issue
    close_landed_issue-Safe c approved receipt r permitted =
        elim (Bool-cases (w.is_ancestor approved c.integration_branch)) [
          | inr away ↦ rw away (Safe-refl w P r)
          | inl landed ↦ elim (Bool-cases (verify_publication_receipt w receipt)) [
            | inr unproven ↦ rw (landed, unproven) (Safe-refl w P r)
            | inl verified ↦ elim (Bool-cases (w.close c.id)) [
              | inl done ↦
                  rw (landed, verified, done)
                    (Safe-trans w P
                      (closed-Safe c approved receipt r (record {
                        landed = landed;
                        verified = verified_lem receipt verified;
                        taken = done;
                        permitted = permitted;
                      }))
                      (release_closed-Safe c.id
                        (record r { deeds = closed c approved receipt ∷ r.deeds })))
              | inr failed ↦
                  rw (landed, verified, failed)
                    (Safe-then w P (block_issue w c.id r) (then_true w) (block_issue-Safe c.id r)
                      then_true-Safe)
            ]
          ]
        ]
