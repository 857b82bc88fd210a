-- ===== src/Sandcastle/CheckpointTests.antt =====
-- The theorems on claims at concrete inputs: two Tasks of a Feature, recovered and then published.
use flash_trips.Prelude.{
  String, true, false, none, some, List, [], ◌∷◌, ◌≡◌, refl, show, show_from, strip, is_some, ok,
}
use flash_trips.Sandcastle.World.{World}
use flash_trips.Sandcastle.Autopilot.{sort, insert}
use flash_trips.Sandcastle.RunState.{
  reviewed, PublicationReceipt, ActiveClaim, RunState, stored_state, parse_state, is_sha,
  accepts_issue, issue_has_shape, receipt_has_shape, has_evidence, transform, is_integration_branch,
}
use flash_trips.Sandcastle.Plan.{is_issue_id, is_task_branch}
use flash_trips.Sandcastle.Checkpoints.{
  labelled, closed, Run, has_claim, delete_claim, set_claim, get_claim, write_file,
  persist_run_state, verify_publication_receipt, release_closed, close_landed_issue,
}
use flash_trips.Sandcastle.Checkpoints.Recovery.{
  recover_interrupted_run, recover_state, recover_each, recover_issue, recover_open,
  resume_or_block, rewound, set_claims, approved_claims, finish_recovery,
}
use flash_trips.Sandcastle.Checkpoints.Integration.{
  Approved, Workshop, as_published, build_integration_branch, has_remaining_tasks,
  is_resumable_group, merged_head, update_claims, integrate_merged, integrate_anew, integrate_group,
  is_ready, published_receipt, close_published, close_each, close_group, publish_group,
  integrate_sorted, integrate_and_publish_group,
}
use flash_trips.Sandcastle.Checkpoints.Safety.{Safe}
use flash_trips.Sandcastle.Checkpoints.IntegrationSafety.{
  group_rules, integrate_and_publish_group-Safe,
}
use flash_trips.Sandcastle.Checkpoints.Recovered.{Recovered, recover_interrupted_run-Recovered}

abbrev pub commit : String
commit = "aaaaaaaaaaaaaaaaaaaaaaaaaaaaaaaaaaaaaaaa"

abbrev pub merged : String
merged = "bbbbbbbbbbbbbbbbbbbbbbbbbbbbbbbbbbbbbbbb"

abbrev pub tree : String
tree = "cccccccccccccccccccccccccccccccccccccccc"

abbrev pub receipt : PublicationReceipt
receipt = record {
  branch = "sandcastle/feature-7";
  base = "main";
  local_commit = merged;
  remote_commit = merged;
  tree = tree;
  pr_number = 40;
  pr_url = "https://github.com/pull/40";
  draft = false;
}

-- Everything succeeds, and the tickets are open and in progress.
abbrev pub world : World
world = record {
  set_label = λ id label. true;
  close = λ id. true;
  is_ancestor = λ a b. true;
  remote_commit = λ branch. some merged;
  remote_tree = λ c. some tree;
  pull = λ n.
      some (record {
        head = "sandcastle/feature-7";
        base = "main";
        url = "https://github.com/pull/40";
      });
  ticket = λ id. some (record { is_closed = false; labels = "agent:in-progress" ∷ [] });
}

abbrev pub task : String → ActiveClaim
task id = record {
  id = id;
  title = "Add trips";
  branch = "sandcastle/task-12";
  parent = some 7;
  parent_title = none;
  integration_branch = "sandcastle/feature-7";
  checkpoint = reviewed;
  approved_sha = some commit;
  integration_head = none;
  expected_remote_tree = none;
  publication = none;
}

abbrev pub run : Run
run = record {
  target_branch = some "main";
  target_head = some commit;
  active = task "13" ∷ task "12" ∷ [];
  pending_cleanup = [];
  had_blocked_work = false;
  file = none;
  disk = [];
  deeds = [];
}

abbrev pub workshop : Workshop
workshop = record {
  is_target_stable = true;
  base_tree = some tree;
  merger = record {
    starts = true;
    completes = true;
    contains = λ c. true;
    checks = true;
    is_clean = true;
    head = some merged;
    closes = true;
  };
  updates_branch = true;
  feature_tasks = λ n. some [];
  publish = λ head tree ready. some receipt;
}

abbrev group : List Approved
group = (task "13", commit) ∷ (task "12", commit) ∷ []

-- Both tickets are closed, in the order of their numbers, and lose their labels.
publishes_group :
    (integrate_and_publish_group world workshop "main" group run).0.deeds
    ≡ labelled "13" none
      ∷ closed (as_published commit merged tree receipt (task "13")) commit receipt
      ∷ labelled "12" none
      ∷ closed (as_published commit merged tree receipt (task "12")) commit receipt
      ∷ []
unfolding integrate_and_publish_group integrate_sorted integrate_group is_resumable_group
    integrate_anew merged_head build_integration_branch integrate_merged update_claims
    persist_run_state publish_group published_receipt is_ready has_remaining_tasks close_group
    close_each close_published close_landed_issue release_closed verify_publication_receipt
    get_claim set_claim delete_claim has_claim write_file sort insert is_sha show show_from
    stored_state
publishes_group = refl

integrate_and_publish_group-Safe_example :
    Safe world
      (group_rules workshop group)
      run
      (integrate_and_publish_group world workshop "main" group run).0
integrate_and_publish_group-Safe_example =
    integrate_and_publish_group-Safe world workshop "main" group run

-- A Task whose work was published before the run stopped.
abbrev published_task : ActiveClaim
published_task = as_published commit merged tree receipt (task "13")

abbrev state : RunState
state = record {
  target_branch = "main";
  target_head = commit;
  issues = published_task ∷ task "12" ∷ [];
}

abbrev pub interrupted : Run
interrupted = record {
  target_branch = some "main";
  target_head = some commit;
  active = [];
  pending_cleanup = [];
  had_blocked_work = false;
  file = some (stored_state state);
  disk = [];
  deeds = [];
}

-- The published Task is closed with its receipt; the other one is to be integrated.
recovers_task :
    (recover_interrupted_run world (λ url. true) (some (stored_state state)) interrupted).1
    ≡ ok ((task "12", commit) ∷ [])
unfolding recover_interrupted_run parse_state stored_state is_sha accepts_issue receipt_has_shape
    issue_has_shape has_evidence is_issue_id is_task_branch is_integration_branch transform
    recover_state close_landed_issue release_closed verify_publication_receipt delete_claim
    has_claim recover_each recover_issue recover_open resume_or_block rewound set_claims set_claim
    approved_claims finish_recovery persist_run_state write_file strip
recovers_task = refl

closes_published_task :
    (recover_interrupted_run world (λ url. true) (some (stored_state state)) interrupted).0.deeds
    ≡ labelled "13" none ∷ closed published_task commit receipt ∷ []
unfolding recover_interrupted_run parse_state stored_state is_sha accepts_issue receipt_has_shape
    issue_has_shape has_evidence is_issue_id is_task_branch is_integration_branch transform
    recover_state close_landed_issue release_closed verify_publication_receipt delete_claim
    has_claim recover_each recover_issue recover_open resume_or_block rewound set_claims set_claim
    approved_claims finish_recovery persist_run_state write_file strip
closes_published_task = refl

state_parses : parse_state (λ url. true) (stored_state state) ≡ some state
unfolding parse_state stored_state is_sha accepts_issue receipt_has_shape issue_has_shape
    has_evidence is_issue_id is_task_branch is_integration_branch transform strip
state_parses = refl

target_is_recorded :
    is_some (write_file interrupted.target_branch interrupted.target_head []) ≡ true
unfolding write_file stored_state
target_is_recorded = refl

recover_interrupted_run-Recovered_example :
    Recovered world
      (published_task ∷ task "12" ∷ [])
      interrupted
      (recover_interrupted_run world (λ url. true) (some (stored_state state)) interrupted)
recover_interrupted_run-Recovered_example =
    recover_interrupted_run-Recovered world (λ url. true) (stored_state state) state interrupted
      target_is_recorded tt state_parses refl
