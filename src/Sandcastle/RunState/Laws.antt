-- ===== src/Sandcastle/RunState/Laws.antt =====
-- What a state file that parses guarantees, and that writing it back loses nothing.
use flash_trips.Prelude.{
  ℕ, String, Bool, true, Option, none, some, List, [], ◌∷◌, map, all, All, ltb, is_some, ◌≡◌, refl,
  arith, ◌≢◌, show,
}
use mathlib.Core.Bool.{and-eq-true_iff, or-true}
use flash_trips.Sandcastle.Decimal.{codes-append, after_prefix-append, show-positive}
use flash_trips.Sandcastle.Plan.{is_task_branch}
use flash_trips.Sandcastle.RunState.{
  RunCheckpoint, claimed, reviewed, integrated, published, StoredIssue, ActiveClaim, StoredState,
  RunState, optional, is_integration_branch, default_integration_branch, transform, has_evidence,
  issue_has_shape, accepts_issue, parse_state, stored_issue, stored_state,
}

-- The evidence behind a claim's checkpoint.
pub record HasEvidence (c : ActiveClaim) : Type 0 where
  pub approved : c.checkpoint ≢ claimed → is_some c.approved_sha ≡ true
  pub head : c.checkpoint ≡ integrated → is_some c.integration_head ≡ true
  pub tree : c.checkpoint ≡ integrated → is_some c.expected_remote_tree ≡ true
  pub receipt : c.checkpoint ≡ published → is_some c.publication ≡ true

has_evidence_sound :
    (k : RunCheckpoint) (c : ActiveClaim)
    → c.checkpoint ≡ k
    → has_evidence k c ≡ true
    → HasEvidence c
unfolding has_evidence
has_evidence_sound claimed c e h = ground arith
has_evidence_sound reviewed c e h = ground arith
has_evidence_sound integrated c e h = ground arith
has_evidence_sound published c e h = ground arith

transform-stored_issue : (c : ActiveClaim) → transform (stored_issue c) ≡ c
unfolding transform stored_issue
transform-stored_issue c = refl

map-transform : (cs : List ActiveClaim) → map transform (map stored_issue cs) ≡ cs
map-transform [] = refl
map-transform (c ∷ cs) = ground (arith, transform-stored_issue c, map-transform cs)

default-is_integration_branch :
    (parent : Option ℕ) (branch : String)
    → optional (ltb 0) parent ≡ true
    → is_task_branch branch ≡ true
    → is_integration_branch (default_integration_branch parent branch) ≡ true
unfolding is_integration_branch default_integration_branch
default-is_integration_branch none branch h k = rw (k, or-true)
default-is_integration_branch (some parent) branch h k =
    rw (codes-append "sandcastle/feature-" (show parent), after_prefix-append)
      (ground (arith, show-positive parent (ground arith)))

module _ (is_url : String → Bool) where
  evidence :
      (issues : List StoredIssue)
      → all (accepts_issue is_url) issues ≡ true
      → All HasEvidence (map transform issues)
  unfolding accepts_issue
  evidence [] h = tt
  evidence (i ∷ issues) h =
      let (here, later) = (and-eq-true_iff _ _).0 h in
      (
        has_evidence_sound (transform i).checkpoint (transform i) refl
            ((and-eq-true_iff _ _).0 here).1,
        evidence issues later,
      )

  parse_state-eq_some :
      (s : StoredState) (r : RunState)
      → parse_state is_url s ≡ some r
      → (all (accepts_issue is_url) s.issues ≡ true)
        × (r.issues ≡ map transform s.issues)
        × (r.target_branch ≡ s.target_branch)
        × (r.target_head ≡ s.target_head)
  unfolding parse_state
  parse_state-eq_some s r e = ground arith

  -- A state file that parses gives claims whose checkpoints are all backed: an approved commit for
  -- every one past `claimed`, the integration commit and the expected tree for `integrated`, and a
  -- publication receipt for `published`. Checkpoints that the file left out are covered too.
  pub parse_state-HasEvidence :
      (s : StoredState) (r : RunState) → parse_state is_url s ≡ some r → All HasEvidence r.issues
  parse_state-HasEvidence s r e =
      let (accepted, issues, _, _) = parse_state-eq_some s r e in
      rw issues (evidence s.issues accepted)

  -- The defaults that the schema fills in pass its own tests.
  accepts_issue-stored :
      (i : StoredIssue)
      → accepts_issue is_url i ≡ true
      → accepts_issue is_url (stored_issue (transform i)) ≡ true
  unfolding accepts_issue issue_has_shape stored_issue transform
  accepts_issue-stored i h = ground (arith, default-is_integration_branch i.parent i.branch)

  all-stored :
      (issues : List StoredIssue)
      → all (accepts_issue is_url) issues ≡ true
      → all (accepts_issue is_url) (map stored_issue (map transform issues)) ≡ true
  all-stored [] h = refl
  all-stored (i ∷ issues) h = ground (arith, accepts_issue-stored i, all-stored issues)

  -- Whatever state was read, writing its claims back gives a file that parses to the same state: a
  -- run that is interrupted again loses no checkpoint, and the defaults filled in are accepted.
  pub parse-stored_state :
      (s : StoredState) (r : RunState)
      → parse_state is_url s ≡ some r
      → parse_state is_url (stored_state r) ≡ some r
  unfolding parse_state stored_state
  parse-stored_state s r e =
      let (accepted, issues, _, _) = parse_state-eq_some s r e in
      ground (arith, issues, all-stored s.issues accepted, map-transform r.issues)
