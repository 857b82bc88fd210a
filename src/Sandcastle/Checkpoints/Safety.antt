-- ===== src/Sandcastle/Checkpoints/Safety.antt =====
-- What every operation on the claims keeps: the state file holds them while the disk has no errors,
-- none is lost, and a ticket is closed only for work that was proven published.
use flash_trips.Prelude.{
  String, Bool, true, false, some, List, [], ◌∷◌, ◌++◌, append_assoc, ◌||◌, any, str_eq, ◌≡◌, refl,
  sym, ap, ◌∙◌, ◌⊎◌, inl, inr, All, Bool-cases, if◌then◌else◌, ok, err, eq_iff, arith,
}
use flash_trips.Sandcastle.World.{World, Pull}
use flash_trips.Sandcastle.RunState.{PublicationReceipt, ActiveClaim}
use flash_trips.Sandcastle.RunState.Laws.{HasEvidence}
use flash_trips.Sandcastle.Checkpoints.Persistence.{
  IsSaved, persist-IsSaved, persist-deeds, persist-active, persist-target, persist-calm,
}
use flash_trips.Sandcastle.Checkpoints.{
  Deed, labelled, closed, Run, Outcome, ◌▸◌, has_claim, delete_claim, set_claim, persist_run_state,
}

abbrev pub is_label_of : String → Deed → Bool
is_label_of id (labelled other label) = str_eq other id
is_label_of id (closed c approved receipt) = false

-- The ticket is claimed, or its pipeline label was moved.
abbrev pub accounts : String → Run → Bool
accounts id r = has_claim id r.active || any (is_label_of id) r.deeds

-- A claim is kept, or its ticket is labelled, or the exception holds of it.
abbrev pub Keeps : (String → Type 0) → Run → Run → Type 0
Keeps P r r' = (id : String) → accounts id r ≡ true → (accounts id r' ≡ true) ⊎ P id

-- Which claims an operation may drop without a label, and for which claims, commits and receipts it
-- may close tickets.
pub record Rules : Type 1 where
  pub exception : String → Type 0
  pub permits : ActiveClaim → String → PublicationReceipt → Type 0

-- The remote has the receipt's commit on its branch, with its tree, and its pull request.
pub record IsVerified (w : World) (receipt : PublicationReceipt) : Type 0 where
  pub commit : w.remote_commit receipt.branch ≡ some receipt.remote_commit
  pub tree : w.remote_tree receipt.remote_commit ≡ some receipt.tree
  pub pull : Pull
  pub answered : w.pull receipt.pr_number ≡ some pull
  pub same_head : pull.head ≡ receipt.branch
  pub same_base : pull.base ≡ receipt.base
  pub same_url : pull.url ≡ receipt.pr_url

-- What was proven of the claim, the commit and the receipt that a ticket is closed for.
pub record Landed (w : World) (P : Rules) (c : ActiveClaim) (approved : String)
    (receipt : PublicationReceipt) : Type 0 where
  pub landed : w.is_ancestor approved c.integration_branch ≡ true
  pub verified : IsVerified w receipt
  pub taken : w.close c.id ≡ true
  pub permitted : P.permits c approved receipt

abbrev pub Proven : World → Rules → Deed → Type 0
Proven w P (labelled id label) = w.set_label id label ≡ true
Proven w P (closed c approved receipt) = Landed w P c approved receipt

-- The deeds of an operation are added to those before, and each is proven.
abbrev pub Adds : World → Rules → Run → Run → Type 0
Adds w P r r' = (new : List Deed) × (r'.deeds ≡ new ++ r.deeds) × All (Proven w P) new

-- From one state to another: the file still holds the claims while the disk has no errors, none is
-- lost, all deeds are proven,
-- and every checkpoint has its evidence.
pub record Safe (w : World) (P : Rules) (r r' : Run) : Type 0 where
  pub stays_saved : r.disk ≡ [] → IsSaved r → IsSaved r'
  pub stays_calm : r.disk ≡ [] → r'.disk ≡ []
  pub keeps : Keeps P.exception r r'
  pub adds : Adds w P r r'
  pub stays_backed : All HasEvidence r.active → All HasEvidence r'.active
  pub same_branch : r'.target_branch ≡ r.target_branch
  pub same_head : r'.target_head ≡ r.target_head

All-append : {A : Type 0} (P : A → Type 0) (xs ys : List A) → All P xs → All P ys → All P (xs ++ ys)
All-append P [] ys hx hy = hy
All-append P (x ∷ xs) ys hx hy = (hx.0, All-append P xs ys hx.1 hy)

pub has_claim-delete_claim :
    (x id : String) (cs : List ActiveClaim)
    → has_claim x cs ≡ true
    → (has_claim x (delete_claim id cs) ≡ true) ⊎ (id ≡ x)
unfolding has_claim delete_claim
has_claim-delete_claim x id [] h = cc
has_claim-delete_claim x id (c ∷ cs) h =
    ground (arith, has_claim-delete_claim x id cs, eq_iff c.id x, eq_iff c.id id)

pub has_claim-set_claim :
    (x : String) (c : ActiveClaim) (cs : List ActiveClaim)
    → has_claim x cs ≡ true
    → has_claim x (set_claim c cs) ≡ true
unfolding has_claim set_claim
has_claim-set_claim x c [] h = cc
has_claim-set_claim x c (d ∷ ds) h =
    ground (arith, has_claim-set_claim x c ds, eq_iff d.id x, eq_iff d.id c.id, eq_iff c.id x)

pub has_claim-set_claim_self :
    (c : ActiveClaim) (cs : List ActiveClaim) → has_claim c.id (set_claim c cs) ≡ true
unfolding has_claim set_claim
has_claim-set_claim_self c [] = ground (arith, eq_iff c.id c.id)
has_claim-set_claim_self c (d ∷ ds) =
    ground (arith, has_claim-set_claim_self c ds, eq_iff c.id c.id)

pub All-delete_claim :
    (P : ActiveClaim → Type 0) (id : String) (cs : List ActiveClaim)
    → All P cs
    → All P (delete_claim id cs)
unfolding delete_claim
All-delete_claim P id [] h = h
All-delete_claim P id (c ∷ cs) h = elim (Bool-cases (str_eq c.id id)) [
  | inl e ↦ rw e (All-delete_claim P id cs h.1)
  | inr e ↦ rw e (h.0, All-delete_claim P id cs h.1)
]

pub All-set_claim :
    (P : ActiveClaim → Type 0) (c : ActiveClaim) (cs : List ActiveClaim)
    → P c
    → All P cs
    → All P (set_claim c cs)
unfolding set_claim
All-set_claim P c [] hc h = (hc, tt)
All-set_claim P c (d ∷ ds) hc h = elim (Bool-cases (str_eq d.id c.id)) [
  | inl e ↦ rw e (hc, h.1)
  | inr e ↦ rw e (h.0, All-set_claim P c ds hc h.1)
]

module _ (w : World) where
  module _ (P : Rules) where
    pub Safe-refl : (r : Run) → Safe w P r r
    Safe-refl r = record {
      stays_saved = λ calm h. h;
      stays_calm = λ h. h;
      keeps = λ id h. inl h;
      adds = ([], refl, tt);
      stays_backed = λ h. h;
      same_branch = refl;
      same_head = refl;
    }

    pub Adds-trans : (r s t : Run) → Adds w P r s → Adds w P s t → Adds w P r t
    Adds-trans r s t (xs, e, hx) (ys, e', hy) = (
      ys ++ xs,
      e' ∙ ap (λ (ds : List Deed). ys ++ ds) e ∙ sym (append_assoc ys xs r.deeds),
      All-append (Proven w P) ys xs hy hx,
    )

    pub Safe-trans : {r s t : Run} → Safe w P r s → Safe w P s t → Safe w P r t
    Safe-trans {r} {s} {t} a b = record {
      stays_saved = λ calm h. b.stays_saved (a.stays_calm calm) (a.stays_saved calm h);
      stays_calm = λ h. b.stays_calm (a.stays_calm h);
      keeps = λ id h. elim (a.keeps id h) [ inl k ↦ b.keeps id k | inr p ↦ inr p ];
      adds = Adds-trans r s t a.adds b.adds;
      stays_backed = λ h. b.stays_backed (a.stays_backed h);
      same_branch = b.same_branch ∙ a.same_branch;
      same_head = b.same_head ∙ a.same_head;
    }

    -- A call and what follows it.
    pub Safe-then :
        {A B : Type 0} {r : Run} (o : Outcome A) (k : Run → A → Outcome B)
        → Safe w P r o.0
        → ((s : Run) (a : A) → Safe w P s (k s a).0)
        → Safe w P r (o ▸ k).0
    Safe-then (s, ok a) k before after = Safe-trans before (after s a)
    Safe-then (s, err e) k before after = before

    -- A test between two calls.
    pub Safe-if :
        {A : Type 0} {r : Run} (test : Bool) (x y : Outcome A)
        → Safe w P r x.0
        → Safe w P r y.0
        → Safe w P r (if test then x else y).0
    Safe-if true x y a b = a
    Safe-if false x y a b = b

    -- persistRunState on a state with other claims than the one before.
    pub Safe-persist :
        (r s : Run)
        → s.target_branch ≡ r.target_branch
        → s.target_head ≡ r.target_head
        → s.disk ≡ r.disk
        → Keeps P.exception r s
        → Adds w P r s
        → (All HasEvidence r.active → All HasEvidence s.active)
        → Safe w P r (persist_run_state s).0
    Safe-persist r s b h d keeps (new, e, proven) backed = record {
      stays_saved = λ calm before. persist-IsSaved s (rw (b, h) before.has_target) (d ∙ calm);
      stays_calm = λ calm. persist-calm s (d ∙ calm);
      keeps = λ id k. rw (persist-active s, persist-deeds s) (keeps id k);
      adds = (new, persist-deeds s ∙ e, proven);
      stays_backed = λ k. rw (persist-active s) (backed k);
      same_branch = (persist-target s).0 ∙ b;
      same_head = (persist-target s).1 ∙ h;
    }

  -- Weaker rules.
  Adds-weaken :
      (P Q : Rules)
      → ((c : ActiveClaim) (sha : String) (receipt : PublicationReceipt)
          → P.permits c sha receipt
          → Q.permits c sha receipt)
      → (ds : List Deed) → All (Proven w P) ds
      → All (Proven w Q) ds
  Adds-weaken P Q weaker [] h = h
  Adds-weaken P Q weaker (labelled id label ∷ ds) h = (h.0, Adds-weaken P Q weaker ds h.1)
  Adds-weaken P Q weaker (closed c sha receipt ∷ ds) h = (
    record {
      landed = (h.0).landed;
      verified = (h.0).verified;
      taken = (h.0).taken;
      permitted = weaker c sha receipt (h.0).permitted;
    },
    Adds-weaken P Q weaker ds h.1,
  )

  pub Safe-weaken :
      (P Q : Rules)
      → ((id : String) → P.exception id → Q.exception id)
      → ((c : ActiveClaim) (sha : String) (receipt : PublicationReceipt)
          → P.permits c sha receipt
          → Q.permits c sha receipt)
      → {r r' : Run} → Safe w P r r'
      → Safe w Q r r'
  Safe-weaken P Q except weaker s = record {
    stays_saved = s.stays_saved;
    stays_calm = s.stays_calm;
    keeps = λ id h. elim (s.keeps id h) [ inl k ↦ inl k | inr p ↦ inr (except id p) ];
    adds = let (new, e, proven) = s.adds in (new, e, Adds-weaken P Q weaker new proven);
    stays_backed = s.stays_backed;
    same_branch = s.same_branch;
    same_head = s.same_head;
  }
