-- ===== src/Sandcastle/Checkpoints/Recovered.antt =====
-- The outcome of recovering an interrupted run.
use flash_trips.Prelude.{
  String, Bool, true, false, some, List, [], ◌++◌, ◌≡◌, refl, sym, subst, ◌∙◌, ◌⊎◌, inl, inr, All,
  ok, err, arith, ap, if◌then◌else◌,
}
use flash_trips.Sandcastle.World.{World}
use flash_trips.Sandcastle.RunState.{ActiveClaim, RunState, StoredState, parse_state}
use flash_trips.Sandcastle.RunState.Laws.{HasEvidence, parse_state-HasEvidence}
use flash_trips.Sandcastle.Checkpoints.{
  Run, Outcome, ◌▸◌, has_claim, missing_claim, persist_run_state, unrecovered, other_target,
}
use flash_trips.Sandcastle.Checkpoints.Recovery.{
  recover_each, set_claims, finish_recovery, is_target, recover_state, recover_interrupted_run,
  approved_claims,
}
use flash_trips.Sandcastle.Checkpoints.Persistence.{IsSaved, persist-IsSaved, persist-ok}
use flash_trips.Sandcastle.Checkpoints.Safety.{Adds, accounts}
use flash_trips.Sandcastle.Checkpoints.RecoverySafety.{
  IsReleased, Recovers, recovery_rules, recover_each-Recovers, Recovers-trans, persist-Recovers,
  has_claim-set_claims, set_claims-HasEvidence,
}
use flash_trips.Sandcastle.Checkpoints.Returns.{IsTargeted, Returns, recover_each-Returns}

module _ (w : World) where
  -- The file holds the claims in memory, and the result is those with an approved commit or an error.
  abbrev pub Settled : Outcome (List (ActiveClaim × String)) → Type 0
  Settled o = IsSaved o.0 × ((o.1 ≡ err unrecovered) ⊎ (o.1 ≡ ok (approved_claims w (o.0).active)))

  -- What the recovery of these claims guarantees of the state after it and of its result.
  pub record Recovered (claims : List ActiveClaim) (r : Run)
      (o : Outcome (List (ActiveClaim × String))) : Type 0 where
    pub adds : Adds w (recovery_rules w claims) r o.0
    pub backed : All HasEvidence (o.0).active
    pub keeps :
        (id : String) → has_claim id claims ≡ true → (accounts id o.0 ≡ true) ⊎ IsReleased w id
    pub calm_end : r.disk ≡ [] → Settled o ⊎ (o.1 ≡ err missing_claim)

  finish_recovery-state :
      (r : Run) (failed : Bool) → (finish_recovery w r failed).0 ≡ (persist_run_state r).0
  unfolding finish_recovery
  finish_recovery-state r failed = go (persist_run_state r)
    where
      go :
          (o : Outcome (Unit {0}))
          → (o ▸ λ r' _.
              if failed then (r', err unrecovered) else (r', ok (approved_claims w r'.active))).0
            ≡ o.0
      go (s, ok a) = ground arith
      go (s, err e) = refl

  finish_recovery-Settled :
      (r : Run) (failed : Bool) → IsTargeted r → r.disk ≡ [] → Settled (finish_recovery w r failed)
  unfolding finish_recovery
  finish_recovery-Settled r failed target calm =
      go (persist_run_state r) (persist-ok r target calm) (persist-IsSaved r target calm)
    where
      either :
          (s : Run) (test : Bool)
          → IsSaved s
          → Settled (if test then (s, err unrecovered) else (s, ok (approved_claims w s.active)))
      either s true h = (h, inl refl)
      either s false h = (h, inr refl)

      go :
          (o : Outcome (Unit {0}))
          → o.1 ≡ ok tt
          → IsSaved o.0
          → Settled (
              o ▸ λ r' _.
              if failed then (r', err unrecovered) else (r', ok (approved_claims w r'.active)))
      go (s, ok a) h saved = either s failed saved
      go (s, err e) h saved = cc

  ended :
      (claims : List ActiveClaim) (before r : Run) (o : Outcome (List (ActiveClaim × String)))
      → Recovers w claims before o.0
      → All HasEvidence before.active
      → before.deeds ≡ r.deeds
      → ((id : String) → has_claim id claims ≡ true → has_claim id before.active ≡ true)
      → (r.disk ≡ [] → Settled o ⊎ (o.1 ≡ err missing_claim))
      → Recovered claims r o
  ended claims before r o moved backed deeds held calm_end =
      let (new, added, proven) = moved.adds in
      record {
        adds = (new, added ∙ ap (λ ds. new ++ ds) deeds, proven);
        backed = moved.stays_backed backed;
        keeps = λ id h. moved.keeps id (ground (arith, held id h));
        calm_end = calm_end;
      }

  finished :
      (claims : List ActiveClaim) (before r : Run) (o : Outcome Bool)
      → (before.disk ≡ [] → Returns o)
      → Recovers w claims before o.0
      → IsTargeted before
      → before.deeds ≡ r.deeds
      → before.disk ≡ r.disk
      → All HasEvidence before.active
      → ((id : String) → has_claim id claims ≡ true → has_claim id before.active ≡ true)
      → Recovered claims r (o ▸ finish_recovery w)
  finished claims before r (s, err e) returned moved target deeds disk backed held =
      ended claims before r (s, err e) moved backed deeds held
        (λ calm. elim (returned (disk ∙ calm)) [
          | inl (a, done) ↦ absurd (ground (arith, done))
          | inr missed ↦ inr (ground (arith, missed))
        ])
  finished claims before r (s, ok failed) returned moved target deeds disk backed held =
      let aimed : IsTargeted s = rw (moved.same_branch, moved.same_head) target in
      let after = Recovers-trans w claims moved (persist-Recovers w claims s) in
      ended claims before r (finish_recovery w s failed)
        (subst (Recovers w claims before) (sym (finish_recovery-state s failed)) after) backed deeds
        held (λ calm. inl (finish_recovery-Settled s failed aimed (moved.stays_calm (disk ∙ calm))))

  Recovered-if :
      (claims : List ActiveClaim) (r : Run) (test : Bool)
      (x y : Outcome (List (ActiveClaim × String)))
      → test ≡ true
      → Recovered claims r x
      → Recovered claims r (if test then x else y)
  Recovered-if claims r true x y h a = a
  Recovered-if claims r false x y h a = absurd (ground arith)

  recover_state-Recovered :
      (s : RunState) (r : Run)
      → IsTargeted r
      → All HasEvidence s.issues
      → All HasEvidence r.active
      → is_target w r.target_branch s.target_branch ≡ true
      → Recovered s.issues r (recover_state w (some s) r)
  unfolding recover_state
  recover_state-Recovered s r target old backed here =
      let before : Run = record r { active = set_claims w s.issues r.active } in
      Recovered-if s.issues r (is_target w r.target_branch s.target_branch)
        (recover_each w s.issues false before ▸ finish_recovery w) (r, err other_target) here
        (finished s.issues before r (recover_each w s.issues false before)
          (recover_each-Returns w s.issues false before target)
          (recover_each-Recovers w s.issues s.issues false before (λ c m. m)) target refl refl
          (set_claims-HasEvidence w s.issues r.active old backed)
          (λ id h. has_claim-set_claims w s.issues r.active id (inl h)))

  -- Recovering from a state file of this run's target, where the target is recorded and every
  -- checkpoint in memory has its evidence. Whatever the tracker and the disk do: every claim of the old
  -- file is still claimed, or its ticket was labelled, or the tracker answered that it is no longer in
  -- progress; every label that was moved is one that the tracker took; a ticket is closed only for a
  -- claim of the old file, with the approved commit and the receipt that the file records for it, if
  -- the claim's integration branch contains the commit and the remote has the receipt's commit, tree
  -- and pull request; and every checkpoint has its evidence. If no writing of the state file fails,
  -- then the file holds the claims in memory, and the result is the approved claims, or the error
  -- that some claim could not be recovered; or else a resumed claim was missing from memory.
  pub recover_interrupted_run-Recovered :
      (is_url : String → Bool) (file : StoredState) (state : RunState) (r : Run)
      → IsTargeted r
      → All HasEvidence r.active
      → parse_state is_url file ≡ some state
      → is_target w r.target_branch state.target_branch ≡ true
      → Recovered state.issues r (recover_interrupted_run w is_url (some file) r)
  unfolding recover_interrupted_run
  recover_interrupted_run-Recovered is_url file state r target backed parsed same =
      subst (λ o. Recovered state.issues r (recover_state w o r)) (sym parsed)
        (recover_state-Recovered state r target (parse_state-HasEvidence is_url file state parsed)
          backed same)
