-- ===== src/Sandcastle/Checkpoints/RecoverySafety.antt =====
-- Recovering an interrupted run loses no claim of its state file.
use mathlib.Core.Bool.{and-eq-true_iff}
use flash_trips.Prelude.{
  String, Bool, true, false, Option, none, some, List, [], ◌∷◌, ◌≡◌, refl, subst, eq_iff, ◌∙◌, ◌⊎◌,
  inl, inr, All, Bool-cases, if◌then◌else◌, ok, err, arith, includes, not, ◌&&◌, ◌||◌,
}
use flash_trips.Sandcastle.World.{World, Ticket}
use flash_trips.Sandcastle.Autopilot.Laws.{In}
use flash_trips.Sandcastle.RunState.{integrated, PublicationReceipt, ActiveClaim}
use flash_trips.Sandcastle.RunState.Laws.{HasEvidence}
use flash_trips.Sandcastle.Checkpoints.{
  Run, Outcome, ◌▸◌, has_claim, set_claim, label_ticket, drop_claim, close_landed_issue,
  persist_run_state,
}
use flash_trips.Sandcastle.Checkpoints.Recovery.{
  is_published, is_past_review, rewound, verified, recover_closed, is_resumable, is_verifiable,
  resume_or_block, unless_closed, recover_open, recover_issue, recover_each, set_claims,
}
use flash_trips.Sandcastle.Checkpoints.Safety.{
  Safe-persist, Rules, Safe, Keeps, Adds, Safe-refl, Adds-trans, All-set_claim, All-delete_claim,
  has_claim-set_claim, has_claim-set_claim_self, has_claim-delete_claim,
}
use flash_trips.Sandcastle.Checkpoints.ClaimSafety.{close_landed_issue-Safe, drop-Keeps}

-- The tracker answers that the ticket is open without the label of work in progress.
pub record IsReleased (w : World) (id : String) : Type 0 where
  pub ticket : Ticket
  pub answered : w.ticket id ≡ some ticket
  pub is_open : ticket.is_closed ≡ false
  pub not_in_progress : includes "agent:in-progress" ticket.labels ≡ false

-- The claim is one of these, with this approved commit and this receipt.
pub record IsRecorded (claims : List ActiveClaim) (c : ActiveClaim) (sha : String)
    (receipt : PublicationReceipt) : Type 0 where
  pub member : In c claims
  pub approved : c.approved_sha ≡ some sha
  pub published : c.publication ≡ some receipt

-- A claim is dropped without a label if its ticket is no longer in progress, and a ticket is closed
-- for the commit and the receipt that its claim in the file records.
abbrev pub recovery_rules : World → List ActiveClaim → Rules
recovery_rules w claims = record { exception = IsReleased w; permits = IsRecorded claims }

module _ (w : World) (whole : List ActiveClaim) where
  abbrev P : Rules
  P = recovery_rules w whole

  -- What holds between two states within the recovery, which writes the file at its end.
  pub record Recovers (r r' : Run) : Type 0 where
    pub keeps : Keeps (IsReleased w) r r'
    pub adds : Adds w P r r'
    pub stays_calm : r.disk ≡ [] → r'.disk ≡ []
    pub stays_backed : All HasEvidence r.active → All HasEvidence r'.active
    pub same_branch : r'.target_branch ≡ r.target_branch
    pub same_head : r'.target_head ≡ r.target_head

  Safe-Recovers : {r r' : Run} → Safe w P r r' → Recovers r r'
  Safe-Recovers s = record {
    keeps = s.keeps;
    adds = s.adds;
    stays_calm = s.stays_calm;
    stays_backed = s.stays_backed;
    same_branch = s.same_branch;
    same_head = s.same_head;
  }

  Recovers-refl : (r : Run) → Recovers r r
  Recovers-refl r = Safe-Recovers (Safe-refl w P r)

  pub Recovers-trans : {r s t : Run} → Recovers r s → Recovers s t → Recovers r t
  Recovers-trans {r} {s} {t} a b = record {
    keeps = λ id h. elim (a.keeps id h) [ inl k ↦ b.keeps id k | inr p ↦ inr p ];
    adds = Adds-trans w P r s t a.adds b.adds;
    stays_calm = λ h. b.stays_calm (a.stays_calm h);
    stays_backed = λ h. b.stays_backed (a.stays_backed h);
    same_branch = b.same_branch ∙ a.same_branch;
    same_head = b.same_head ∙ a.same_head;
  }

  pub persist-Recovers : (r : Run) → Recovers r (persist_run_state r).0
  persist-Recovers r =
      Safe-Recovers (Safe-persist w P r r refl refl refl (λ x h. inl h) ([], refl, tt) (λ h. h))

  Recovers-then :
      {A B : Type 0} {r : Run} (o : Outcome A) (k : Run → A → Outcome B)
      → Recovers r o.0
      → ((s : Run) (a : A) → Recovers s (k s a).0)
      → Recovers r (o ▸ k).0
  Recovers-then (s, ok a) k before after = Recovers-trans before (after s a)
  Recovers-then (s, err e) k before after = before

  Recovers-if :
      {B : Type 0} {r : Run} (test : Bool) (x y : Run × B)
      → (test ≡ true → Recovers r x.0)
      → (test ≡ false → Recovers r y.0)
      → Recovers r (if test then x else y).0
  Recovers-if true x y a b = a refl
  Recovers-if false x y a b = b refl

  -- A claim whose ticket was labelled is dropped.
  dropped_Recovers :
      (r : Run) (id : String) (label : Option String) (flag : Bool)
      → w.set_label id label ≡ true
      → Recovers r (record (drop_claim id (label_ticket id label r)) { had_blocked_work = flag })
  dropped_Recovers r id label flag moved = record {
    keeps = drop-Keeps w P r id label;
    adds = (_ ∷ [], refl, (moved, tt));
    stays_calm = λ h. h;
    stays_backed = All-delete_claim HasEvidence id r.active;
    same_branch = refl;
    same_head = refl;
  }

  recover_closed-Recovers : (c : ActiveClaim) (r : Run) → Recovers r (recover_closed w c r).0
  unfolding recover_closed
  recover_closed-Recovers c r =
      Recovers-if (verified w c.publication && w.set_label c.id none) _ _
        (λ h. dropped_Recovers r c.id none r.had_blocked_work ((and-eq-true_iff _ _).0 h).1)
        (λ h. Recovers-refl r)

  abbrev again_integrated : ActiveClaim → ActiveClaim
  again_integrated c = record c { checkpoint = integrated; publication = none }

  rewound_evidence :
      (c : ActiveClaim)
      → is_resumable w c ≡ true
      → is_verifiable w c ≡ true
      → HasEvidence (again_integrated c)
  rewound_evidence c resumable verifiable = record {
    approved = λ h. ground arith;
    head = λ h. ground arith;
    tree = λ h. ground arith;
    receipt = λ h. cc;
  }

  rewound-Recovers :
      (c : ActiveClaim) (r : Run)
      → is_resumable w c ≡ true
      → (is_past_review c.checkpoint && not (is_verifiable w c)) ≡ false
      → Recovers r (rewound c r)
  unfolding rewound
  rewound-Recovers c r resumable verifiable =
      either (is_published c.checkpoint)
        (λ again.
          let verified : is_verifiable w c ≡ true = ground arith in
          record {
            keeps =
                λ x h. inl (ground (arith, has_claim-set_claim x (again_integrated c) r.active));
            adds = ([], refl, tt);
            stays_calm = λ h. h;
            stays_backed =
                All-set_claim HasEvidence (again_integrated c) r.active
                  (rewound_evidence c resumable verified);
            same_branch = refl;
            same_head = refl;
          })
        (λ h. Recovers-refl r)
    where
      either :
          (test : Bool) {x y : Run}
          → (test ≡ true → Recovers r x)
          → (test ≡ false → Recovers r y)
          → Recovers r (if test then x else y)
      either true a b = a refl
      either false a b = b refl

  resume_or_block-Recovers : (c : ActiveClaim) (r : Run) → Recovers r (resume_or_block w c r).0
  unfolding resume_or_block
  resume_or_block-Recovers c r =
      Recovers-if (is_resumable w c) _ _
        (λ resumable.
          Recovers-if (is_past_review c.checkpoint && not (is_verifiable w c)) _ _
            (λ h. Recovers-refl r)
            (λ h.
              Recovers-if (has_claim c.id (rewound c r).active) _ _
                (λ k. rewound-Recovers c r resumable h) (λ k. rewound-Recovers c r resumable h)))
        (λ h.
          Recovers-if (w.set_label c.id (some "agent:blocked")) _ _
            (dropped_Recovers r c.id (some "agent:blocked") true) (λ stuck. Recovers-refl r))

  unless_closed-Recovers :
      (c : ActiveClaim) (r : Run) (done : Bool) → Recovers r (unless_closed w c r done).0
  unless_closed-Recovers c r true = Recovers-refl r
  unless_closed-Recovers c r false = resume_or_block-Recovers c r

  recover_open-Recovers :
      (c : ActiveClaim) (sha : Option String) (receipt : Option PublicationReceipt) (r : Run)
      → In c whole
      → c.approved_sha ≡ sha
      → c.publication ≡ receipt
      → Recovers r (recover_open w c sha receipt r).0
  unfolding recover_open
  recover_open-Recovers c none receipt r m a p = resume_or_block-Recovers c r
  recover_open-Recovers c (some sha) none r m a p = resume_or_block-Recovers c r
  recover_open-Recovers c (some sha) (some receipt) r m a p =
      Recovers-then (close_landed_issue w c sha receipt r) (unless_closed w c)
        (Safe-Recovers (
          close_landed_issue-Safe w P c sha receipt r
            (record { member = m; approved = a; published = p })))
        (unless_closed-Recovers c)

  released_Recovers : (id : String) (r : Run) → IsReleased w id → Recovers r (drop_claim id r)
  released_Recovers id r released = record {
    keeps = λ x h. elim (Bool-cases (has_claim x r.active)) [
      | inl m ↦ elim (has_claim-delete_claim x id r.active m) [
        | inl k ↦ inl (ground (arith, k))
        | inr e ↦ inr (subst (IsReleased w) e released)
      ]
      | inr gone ↦ inl (ground (arith, gone))
    ];
    adds = ([], refl, tt);
    stays_calm = λ h. h;
    stays_backed = All-delete_claim HasEvidence id r.active;
    same_branch = refl;
    same_head = refl;
  }

  pub recover_issue-Recovers :
      (c : ActiveClaim) (o : Option Ticket) (r : Run)
      → w.ticket c.id ≡ o
      → In c whole
      → Recovers r (recover_issue w c o r).0
  unfolding recover_issue
  recover_issue-Recovers c none r e m = Recovers-refl r
  recover_issue-Recovers c (some ticket) r e m =
      Recovers-if ticket.is_closed _ _ (λ h. recover_closed-Recovers c r)
        (λ is_open.
          Recovers-if (includes "agent:in-progress" ticket.labels) _ _
            (λ h. recover_open-Recovers c c.approved_sha c.publication r m refl refl)
            (λ h.
              released_Recovers c.id r
                (record { ticket = ticket; answered = e; is_open = is_open; not_in_progress = h })))

  pub recover_each-Recovers :
      (cs : List ActiveClaim) (failed : Bool) (r : Run)
      → ((c : ActiveClaim) → In c cs → In c whole)
      → Recovers r (recover_each w cs failed r).0
  unfolding recover_each
  recover_each-Recovers [] failed r held = Recovers-refl r
  recover_each-Recovers (c ∷ cs) failed r held =
      Recovers-then (recover_issue w c (w.ticket c.id) r)
        (λ r' f. recover_each w cs (failed || f) r')
        (recover_issue-Recovers c (w.ticket c.id) r refl (held c (inl refl)))
        (λ s f. recover_each-Recovers cs (failed || f) s (λ d m. held d (inr m)))

module _ (w : World) where
  pub has_claim-set_claims :
      (cs : List ActiveClaim) (active : List ActiveClaim) (x : String)
      → (has_claim x cs ≡ true) ⊎ (has_claim x active ≡ true)
      → has_claim x (set_claims w cs active) ≡ true
  unfolding set_claims has_claim
  has_claim-set_claims [] active x h = ground arith
  has_claim-set_claims (c ∷ cs) active x h = has_claim-set_claims cs (set_claim c active) x (
      ground
        (arith, has_claim-set_claim x c active, has_claim-set_claim_self c active, eq_iff c.id x))

  pub set_claims-HasEvidence :
      (cs : List ActiveClaim) (active : List ActiveClaim)
      → All HasEvidence cs
      → All HasEvidence active
      → All HasEvidence (set_claims w cs active)
  unfolding set_claims
  set_claims-HasEvidence [] active h k = k
  set_claims-HasEvidence (c ∷ cs) active h k =
      set_claims-HasEvidence cs (set_claim c active) h.1 (All-set_claim HasEvidence c active h.0 k)
