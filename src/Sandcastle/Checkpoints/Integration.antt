-- ===== src/Sandcastle/Checkpoints/Integration.antt =====
-- integrateAndPublishGroup of .sandcastle/main.mts, with buildIntegrationBranch and
-- featureHasRemainingAgentTasks: a group of approved Tasks is integrated, published and closed.
use flash_trips.Prelude.{
  ℕ, String, Bytes, Bool, true, false, Option, none, some, List, [], ◌∷◌, ◌+◌, ◌*◌, ◌-◌, ◌&&◌, ◌||◌,
  not, all, any, map, includes, str_eq, codes, show, if◌then◌else◌, Result, ok, err,
}
use flash_trips.Sandcastle.World.{World}
use flash_trips.Sandcastle.RunState.{
  RunCheckpoint, integrated, published, PublicationReceipt, ActiveClaim, is_sha,
}
use flash_trips.Sandcastle.Autopilot.{sort}
use flash_trips.Sandcastle.Checkpoints.{
  Run, RunError, target_changed, empty_group, command_failed, unverified_merge, publication_failed,
  Outcome, Done, ◌▸◌, get_claim, set_claim, persist_run_state, block_issue, close_landed_issue,
}

-- A claim and its reviewed commit.
abbrev pub Approved : Type 0
Approved = ActiveClaim × String

-- A sub-issue of a Feature, as the tracker gives it.
pub record FeatureTask : Type 0 where
  pub id : ℕ
  pub is_open : Bool
  pub labels : List String
  pub labels_truncated : Bool

-- The answers of the sandbox in which the merger runs: none or false is a command that failed.
pub record Merger : Type 0 where
  pub starts : Bool
  pub completes : Bool
  pub contains : String → Bool
  pub checks : Bool
  pub is_clean : Bool
  pub head : Option String
  pub closes : Bool

-- The answers of git, gh and the publication script.
pub record Workshop : Type 0 where
  pub is_target_stable : Bool
  pub base_tree : Option String
  pub merger : Merger
  pub updates_branch : Bool
  pub feature_tasks : ℕ → Option (List FeatureTask)
  pub publish : String → String → Bool → Option PublicationReceipt

-- `Number(text)` of decimal digits.
abbrev digits_value : ℕ → Bytes → ℕ
digits_value n [] = n
digits_value n (c ∷ cs) = digits_value (10 * n + (c - 48)) cs

abbrev pub issue_number : Approved → ℕ
issue_number (c, _) = digits_value 0 (codes c.id)

-- buildIntegrationBranch: the head of the integration branch.
unfoldable pub build_integration_branch : Merger → String → List Approved → Result RunError String
unfolding is_sha
build_integration_branch m target group =
    if not m.starts
      || not m.completes
      || not (m.contains target)
      || not (all (λ (x : Approved). m.contains x.1) group)
      || not m.checks
      || not m.is_clean
    then err unverified_merge
    else elim m.head [
      | none ↦ err unverified_merge
      | some head ↦ if is_sha head && m.closes then ok head else err unverified_merge
    ]

-- featureHasRemainingAgentTasks; none where it throws.
unfoldable pub has_remaining_tasks : Option (List FeatureTask) → List String → Option Bool
has_remaining_tasks none completing = none
has_remaining_tasks (some tasks) completing =
    if any (λ (t : FeatureTask). t.labels_truncated) tasks
    then none
    else some (
        any
          (λ (t : FeatureTask).
            t.is_open
            && not (includes (show t.id) completing)
            && includes "ready-for-agent" t.labels)
          tasks)

abbrev same_text : Option String → Option String → Bool
same_text none none = true
same_text (some a) (some b) = str_eq a b
same_text _ _ = false

abbrev pub is_integrated : RunCheckpoint → Bool
is_integrated integrated = true
is_integrated _ = false

-- Every claim of the group is integrated, at the first one's head and tree.
unfoldable pub is_resumable_group : ActiveClaim → List Approved → Bool
is_resumable_group first group =
    all
      (λ (x : Approved).
        is_integrated (x.0).checkpoint
        && same_text (x.0).integration_head first.integration_head
        && same_text (x.0).expected_remote_tree first.expected_remote_tree)
      group

abbrev is_alone : ActiveClaim → List Approved → Bool
is_alone first group = elim group [
  | [] ↦ elim first.parent [ none ↦ true | some _ ↦ false ]
  | _ ∷ _ ↦ false
]

-- The head to publish of a group that is not resumable: the only Task's own commit, or a merge.
unfoldable pub merged_head :
    Workshop → String → ActiveClaim → String → List Approved → Result RunError String
unfolding build_integration_branch
merged_head k target first sha rest =
    if is_alone first rest
    then ok sha
    else elim (build_integration_branch k.merger target ((first, sha) ∷ rest)) [
      | err e ↦ err e
      | ok head ↦ if k.updates_branch then ok head else err command_failed
    ]

abbrev pub as_integrated : String → String → String → ActiveClaim → ActiveClaim
as_integrated sha head tree c = record c {
  checkpoint = integrated;
  approved_sha = some sha;
  integration_head = some head;
  expected_remote_tree = some tree;
}

abbrev pub as_published : String → String → String → PublicationReceipt → ActiveClaim → ActiveClaim
as_published sha head tree receipt c = record c {
  checkpoint = published;
  approved_sha = some sha;
  integration_head = some head;
  expected_remote_tree = some tree;
  publication = some receipt;
}

-- `activeClaims.set` for every claim of the group that is still active.
unfoldable pub update_claims :
    (String → ActiveClaim → ActiveClaim) → List Approved → List ActiveClaim → List ActiveClaim
unfolding get_claim set_claim
update_claims f [] active = active
update_claims f ((c, sha) ∷ group) active =
    update_claims f group
      (elim (get_claim c.id active) [ none ↦ active | some old ↦ set_claim (f sha old) active ])

abbrev pub update_group : (String → ActiveClaim → ActiveClaim) → List Approved → Run → Run
update_group f group r = record r { active = update_claims f group r.active }

unfoldable pub integrate_merged :
    String → Result RunError String → List Approved → Run → Outcome (String × String)
unfolding update_claims persist_run_state
integrate_merged tree (err e) group r = (r, err e)
integrate_merged tree (ok head) group r =
    persist_run_state (update_group (λ s. as_integrated s head tree) group r) ▸ λ r' _.
    (r', ok (head, tree))

-- The group goes on at the head and tree that it was integrated at.
unfoldable pub resume_group : Option String → Option String → Run → Outcome (String × String)
resume_group (some head) (some tree) r = (r, ok (head, tree))
resume_group _ _ r = (r, err command_failed)

unfoldable pub integrate_anew :
    Workshop
    → Option String
    → String
    → ActiveClaim
    → String
    → List Approved
    → Run
    → Outcome (String × String)
integrate_anew k none target first sha rest r = (r, err command_failed)
integrate_anew k (some tree) target first sha rest r =
    integrate_merged tree (merged_head k target first sha rest) ((first, sha) ∷ rest) r

-- The first half: the head and the tree to publish, at the integrated checkpoint.
unfoldable pub integrate_group :
    Workshop → String → ActiveClaim → String → List Approved → Run → Outcome (String × String)
integrate_group k target first sha rest r =
    if is_resumable_group first ((first, sha) ∷ rest)
    then resume_group first.integration_head first.expected_remote_tree r
    else integrate_anew k k.base_tree target first sha rest r

-- Whether the pull request is ready, which it is with the last agent Task of a Feature.
unfoldable pub is_ready : Workshop → Option ℕ → List Approved → Option Bool
unfolding has_remaining_tasks
is_ready k none group = some true
is_ready k (some parent) group =
    elim (has_remaining_tasks (k.feature_tasks parent) (map (λ (x : Approved). (x.0).id) group)) [
      | none ↦ none
      | some remain ↦ some (not remain)
    ]

unfoldable pub published_receipt :
    Workshop → ActiveClaim → String → String → List Approved → Option PublicationReceipt
unfolding is_ready
published_receipt k first head tree group = elim (is_ready k first.parent group) [
  | none ↦ none
  | some ready ↦ k.publish head tree ready
]

-- A published Task is closed, or blocked where its commit was not proven.
unfoldable pub close_published :
    World → PublicationReceipt → String → String → Option ActiveClaim → Run → Done
unfolding block_issue close_landed_issue
close_published w receipt id sha none r = block_issue w id r
close_published w receipt id sha (some active) r =
    close_landed_issue w active sha receipt r ▸ λ r' done.
    if done then (r', ok tt) else block_issue w id r'

-- The loop over the published Tasks.
unfoldable pub close_each : World → PublicationReceipt → List Approved → Run → Done
close_each w receipt [] r = (r, ok tt)
close_each w receipt ((c, sha) ∷ group) r =
    close_published w receipt c.id sha (get_claim c.id r.active) r ▸ λ r' _.
    close_each w receipt group r'

-- The published checkpoint, and the closing of the tickets.
unfoldable pub close_group :
    World → List Approved → String → String → Option PublicationReceipt → Run → Done
close_group w group head tree none r = (r, err publication_failed)
close_group w group head tree (some receipt) r =
    persist_run_state (update_group (λ s. as_published s head tree receipt) group r) ▸ λ r' _.
    close_each w receipt group r'

-- The second half, after the head and the tree are known.
unfoldable pub publish_group :
    World → Workshop → ActiveClaim → List Approved → Run → String × String → Done
publish_group w k first group r (head, tree) =
    close_group w group head tree (published_receipt k first head tree group) r

unfoldable pub integrate_sorted : World → Workshop → String → List Approved → Run → Done
integrate_sorted w k target [] r = (r, err empty_group)
integrate_sorted w k target ((first, sha) ∷ rest) r =
    integrate_group k target first sha rest r ▸ publish_group w k first ((first, sha) ∷ rest)

-- integrateAndPublishGroup; the removal of the temporary branch is left out.
unfoldable pub integrate_and_publish_group : World → Workshop → String → List Approved → Run → Done
integrate_and_publish_group w k target group r =
    if k.is_target_stable
    then integrate_sorted w k target (sort issue_number group) r
    else (r, err target_changed)
