-- ===== src/Sandcastle/Checkpoints/IntegrationSafety.antt =====
-- Integrating and publishing a group keeps the claims, whatever fails on the way.
use flash_trips.Prelude.{
  String, Bool, true, false, Option, none, some, List, [], ◌∷◌, ◌≡◌, refl, inl, inr, All,
  Option-cases, Bool-cases, str_eq, eq_iff, if◌then◌else◌, Result, ok, err, arith,
}
use flash_trips.Sandcastle.World.{World}
use flash_trips.Sandcastle.Autopilot.{sort}
use flash_trips.Sandcastle.Autopilot.Laws.{In, In-sort}
use flash_trips.Sandcastle.RunState.{PublicationReceipt, ActiveClaim}
use flash_trips.Sandcastle.RunState.Laws.{HasEvidence}
use flash_trips.Sandcastle.Checkpoints.{
  Run, RunError, get_claim, set_claim, has_claim, persist_run_state, block_issue,
  close_landed_issue,
}
use flash_trips.Sandcastle.Checkpoints.Integration.{
  Approved, Workshop, as_integrated, as_published, update_claims, update_group, integrate_group,
  integrate_merged, integrate_anew, resume_group, close_group, close_published, merged_head,
  is_resumable_group, publish_group, published_receipt, close_each, integrate_sorted,
  integrate_and_publish_group, issue_number, is_ready,
}
use flash_trips.Sandcastle.Checkpoints.Safety.{
  Rules, Safe, Safe-refl, Safe-then, Safe-if, Safe-persist, All-set_claim, has_claim-set_claim,
}
use flash_trips.Sandcastle.Checkpoints.ClaimSafety.{block_issue-Safe, close_landed_issue-Safe}

as_integrated-HasEvidence :
    (sha head tree : String) (c : ActiveClaim) → HasEvidence (as_integrated sha head tree c)
as_integrated-HasEvidence sha head tree c = record {
  approved = λ h. refl;
  head = λ h. refl;
  tree = λ h. refl;
  receipt = λ h. cc;
}

as_published-HasEvidence :
    (sha head tree : String) (receipt : PublicationReceipt) (c : ActiveClaim)
    → HasEvidence (as_published sha head tree receipt c)
as_published-HasEvidence sha head tree receipt c = record {
  approved = λ h. refl;
  head = λ h. refl;
  tree = λ h. refl;
  receipt = λ h. refl;
}

has_claim-update_claims :
    (f : String → ActiveClaim → ActiveClaim) (group : List Approved) (cs : List ActiveClaim)
    (x : String)
    → has_claim x cs ≡ true
    → has_claim x (update_claims f group cs) ≡ true
unfolding update_claims
has_claim-update_claims f [] cs x h = h
has_claim-update_claims f ((c, sha) ∷ group) cs x h = elim (Option-cases (get_claim c.id cs)) [
  | inl e ↦ rw e (has_claim-update_claims f group cs x h)
  | inr (old, e) ↦ rw e (
      has_claim-update_claims f group (set_claim (f sha old) cs) x
        (has_claim-set_claim x (f sha old) cs h))
]

update_claims-HasEvidence :
    (f : String → ActiveClaim → ActiveClaim)
    → ((sha : String) (c : ActiveClaim) → HasEvidence (f sha c))
    → (group : List Approved) (cs : List ActiveClaim) → All HasEvidence cs
    → All HasEvidence (update_claims f group cs)
unfolding update_claims
update_claims-HasEvidence f backed [] cs h = h
update_claims-HasEvidence f backed ((c, sha) ∷ group) cs h =
    elim (Option-cases (get_claim c.id cs)) [
      | inl e ↦ rw e (update_claims-HasEvidence f backed group cs h)
      | inr (old, e) ↦ rw e (
          update_claims-HasEvidence f backed group (set_claim (f sha old) cs)
            (All-set_claim HasEvidence (f sha old) cs (backed sha old) h))
    ]

-- The publication script gave the receipt, for some head and tree.
pub record IsPublished (k : Workshop) (receipt : PublicationReceipt) : Type 0 where
  pub head : String
  pub tree : String
  pub ready : Bool
  pub given : k.publish head tree ready ≡ some receipt

-- The ticket's claim was given with this reviewed commit, and the group's receipt is published.
pub record IsApproved (k : Workshop) (group : List Approved) (c : ActiveClaim) (sha : String)
    (receipt : PublicationReceipt) : Type 0 where
  pub claim : ActiveClaim
  pub member : In (claim, sha) group
  pub same_ticket : c.id ≡ claim.id
  pub published : IsPublished k receipt

-- No claim is dropped without a label, and only the group's tickets are closed, each for its own
-- reviewed commit and the receipt that was published.
abbrev pub group_rules : Workshop → List Approved → Rules
group_rules k group = record { exception = λ _. ⊥; permits = IsApproved k group }

get_claim-id :
    (id : String) (cs : List ActiveClaim) (c : ActiveClaim) → get_claim id cs ≡ some c → c.id ≡ id
unfolding get_claim
get_claim-id id [] c h = cc
get_claim-id id (d ∷ ds) c h = elim (Bool-cases (str_eq d.id id)) [
  | inl e ↦ ground (arith, e, h, eq_iff d.id id)
  | inr e ↦ get_claim-id id ds c (ground (arith, e, h))
]

published_lem :
    (k : Workshop) (first : ActiveClaim) (head tree : String) (group : List Approved)
    (receipt : PublicationReceipt)
    → published_receipt k first head tree group ≡ some receipt
    → IsPublished k receipt
unfolding published_receipt
published_lem k first head tree group receipt h =
    elim (Option-cases (is_ready k first.parent group)) [
      | inl e ↦ absurd (ground (arith, e, h))
      | inr (ready, e) ↦ record {
        head = head;
        tree = tree;
        ready = ready;
        given = ground (arith, e, h);
      }
    ]

module _ (w : World) (k : Workshop) (whole : List Approved) where
  abbrev P : Rules
  P = group_rules k whole

  -- A new checkpoint for the group, written to the file.
  update-Safe :
      (f : String → ActiveClaim → ActiveClaim)
      → ((sha : String) (c : ActiveClaim) → HasEvidence (f sha c))
      → (group : List Approved) (r : Run)
      → Safe w P r (persist_run_state (update_group f group r)).0
  update-Safe f backed group r =
      Safe-persist w P r (update_group f group r) refl refl refl
        (λ x h. inl (ground (arith, has_claim-update_claims f group r.active x))) ([], refl, tt)
        (update_claims-HasEvidence f backed group r.active)

  merged_Safe :
      (tree : String) (merged : Result RunError String) (group : List Approved) (r : Run)
      → Safe w P r (integrate_merged tree merged group r).0
  unfolding integrate_merged
  merged_Safe tree (err e) group r = Safe-refl w P r
  merged_Safe tree (ok head) group r =
      Safe-then w P (persist_run_state (update_group (λ s. as_integrated s head tree) group r))
        (λ r' _. (r', ok (head, tree)))
        (update-Safe (λ s. as_integrated s head tree)
          (λ s c. as_integrated-HasEvidence s head tree c) group r)
        (λ s a. Safe-refl w P s)

  resume_group-Safe :
      (head tree : Option String) (r : Run) → Safe w P r (resume_group head tree r).0
  unfolding resume_group
  resume_group-Safe none tree r = Safe-refl w P r
  resume_group-Safe (some head) none r = Safe-refl w P r
  resume_group-Safe (some head) (some tree) r = Safe-refl w P r

  integrate_anew-Safe :
      (tree : Option String) (target : String) (first : ActiveClaim) (sha : String)
      (rest : List Approved) (r : Run)
      → Safe w P r (integrate_anew k tree target first sha rest r).0
  unfolding integrate_anew
  integrate_anew-Safe none target first sha rest r = Safe-refl w P r
  integrate_anew-Safe (some tree) target first sha rest r =
      merged_Safe tree (merged_head k target first sha rest) ((first, sha) ∷ rest) r

  integrate_group-Safe :
      (target : String) (first : ActiveClaim) (sha : String) (rest : List Approved) (r : Run)
      → Safe w P r (integrate_group k target first sha rest r).0
  unfolding integrate_group
  integrate_group-Safe target first sha rest r =
      Safe-if w P (is_resumable_group first ((first, sha) ∷ rest)) _ _
        (resume_group-Safe first.integration_head first.expected_remote_tree r)
        (integrate_anew-Safe k.base_tree target first sha rest r)

  unless_closed-Safe :
      (id : String) (s : Run) (done : Bool)
      → Safe w P s (if done then (s, ok tt) else block_issue w id s).0
  unless_closed-Safe id s true = Safe-refl w P s
  unless_closed-Safe id s false = block_issue-Safe w P id s

  close_published-Safe :
      (receipt : PublicationReceipt) (x : Approved) (o : Option ActiveClaim) (r : Run)
      → get_claim (x.0).id r.active ≡ o
      → In x whole
      → IsPublished k receipt
      → Safe w P r (close_published w receipt (x.0).id x.1 o r).0
  unfolding close_published
  close_published-Safe receipt (c, sha) none r e m published = block_issue-Safe w P c.id r
  close_published-Safe receipt (c, sha) (some active) r e m published =
      Safe-then w P (close_landed_issue w active sha receipt r)
        (λ r' done. if done then (r', ok tt) else block_issue w c.id r')
        (close_landed_issue-Safe w P active sha receipt r (record {
          claim = c;
          member = m;
          same_ticket = get_claim-id c.id r.active active e;
          published = published;
        }))
        (unless_closed-Safe c.id)

  close_each-Safe :
      (receipt : PublicationReceipt) (group : List Approved) (r : Run)
      → ((x : Approved) → In x group → In x whole)
      → IsPublished k receipt
      → Safe w P r (close_each w receipt group r).0
  unfolding close_each
  close_each-Safe receipt [] r held published = Safe-refl w P r
  close_each-Safe receipt ((c, sha) ∷ group) r held published =
      Safe-then w P (close_published w receipt c.id sha (get_claim c.id r.active) r)
        (λ r' _. close_each w receipt group r')
        (close_published-Safe receipt (c, sha) (get_claim c.id r.active) r refl
          (held (c, sha) (inl refl)) published)
        (λ s _. close_each-Safe receipt group s (λ x m. held x (inr m)) published)

  close_group-Safe :
      (group : List Approved) (head tree : String) (o : Option PublicationReceipt) (r : Run)
      → ((x : Approved) → In x group → In x whole)
      → ((receipt : PublicationReceipt) → o ≡ some receipt → IsPublished k receipt)
      → Safe w P r (close_group w group head tree o r).0
  unfolding close_group
  close_group-Safe group head tree none r held published = Safe-refl w P r
  close_group-Safe group head tree (some receipt) r held published =
      Safe-then w P
        (persist_run_state (update_group (λ s. as_published s head tree receipt) group r))
        (λ r' _. close_each w receipt group r')
        (update-Safe (λ s. as_published s head tree receipt)
          (λ s c. as_published-HasEvidence s head tree receipt c) group r)
        (λ s _. close_each-Safe receipt group s held (published receipt refl))

  publish_group-Safe :
      (first : ActiveClaim) (group : List Approved) (r : Run) (at : String × String)
      → ((x : Approved) → In x group → In x whole)
      → Safe w P r (publish_group w k first group r at).0
  unfolding publish_group
  publish_group-Safe first group r (head, tree) held =
      close_group-Safe group head tree (published_receipt k first head tree group) r held
        (published_lem k first head tree group)

  integrate_sorted-Safe :
      (target : String) (group : List Approved) (r : Run)
      → ((x : Approved) → In x group → In x whole)
      → Safe w P r (integrate_sorted w k target group r).0
  unfolding integrate_sorted
  integrate_sorted-Safe target [] r held = Safe-refl w P r
  integrate_sorted-Safe target ((first, sha) ∷ rest) r held =
      Safe-then w P (integrate_group k target first sha rest r)
        (publish_group w k first ((first, sha) ∷ rest))
        (integrate_group-Safe target first sha rest r)
        (λ s at. publish_group-Safe first ((first, sha) ∷ rest) s at held)

-- Whatever fails while a group is integrated and published: a claim is dropped only after its ticket
-- was labelled; every label that was moved is one that the tracker took; every ticket that was closed
-- is one of the group's, closed with a commit that the group gives for its claim, which the
-- integration branch of the active claim contains, and with the receipt that the publication script
-- gave, after the remote had its commit, its tree and its pull request; if every checkpoint had its
-- evidence before, it has it afterwards; and if no writing of the state file fails, the target is
-- recorded and the file holds the claims in memory before, so it does afterwards.
pub integrate_and_publish_group-Safe :
    (w : World) (k : Workshop) (target : String) (group : List Approved) (r : Run)
    → Safe w (group_rules k group) r (integrate_and_publish_group w k target group r).0
unfolding integrate_and_publish_group
integrate_and_publish_group-Safe w k target group r =
    Safe-if w (group_rules k group) k.is_target_stable _ _
      (integrate_sorted-Safe w k group target (sort issue_number group) r
        (λ x m. (In-sort issue_number x group).0 m))
      (Safe-refl w (group_rules k group) r)
