-- ===== src/Sandcastle/RoundTests.antt =====
-- The theorems on the rounds at a concrete run: one Task is claimed, published and closed.
use flash_trips.Prelude.{
  trim, trim_start, trim_end, ◌↔◌, ℕ, true, false, none, some, [], ◌∷◌, ◌≡◌, refl, ◌≤◌, show,
  show_from, strip, ok,
}
use flash_trips.Sandcastle.IssuePipeline.{
  Sandbox, approved, reviewed_and_approved, after_status, after_review, after_head, after_progress,
  after_implement, run_in_sandbox, run_issue_pipeline,
}
use flash_trips.Sandcastle.IssuePipeline.Laws.{IsApproved, run_issue_pipeline_iff}
use flash_trips.Sandcastle.Plan.{task_branch}
use flash_trips.Sandcastle.RunState.{
  ActiveClaim, published, is_sha, stored_state, default_integration_branch,
}
use flash_trips.Sandcastle.Gates.{
  has_external_pre_run_gates, has_gates_from, ends_line, begins_section, has_content,
}
use flash_trips.Sandcastle.Environment.{after_prefix}
use flash_trips.Sandcastle.TaskEnvironment.{
  find_heading, parse_afk_environment, resolve_task_environment,
}
use flash_trips.Sandcastle.Autopilot.{
  sort, insert, open_tasks, each, authorize_feature, select_autopilot_authorizations,
}
use flash_trips.Sandcastle.Checkpoints.{
  labelled, closed, Outcome, has_claim, delete_claim, set_claim, get_claim, write_file,
  persist_run_state, verify_publication_receipt, release_closed, close_landed_issue,
}
use flash_trips.Sandcastle.Checkpoints.Integration.{
  has_remaining_tasks, is_resumable_group, build_integration_branch, merged_head, update_claims,
  integrate_merged, integrate_anew, integrate_group, is_ready, published_receipt, close_published,
  close_each, close_group, publish_group, integrate_sorted, integrate_and_publish_group,
}
use flash_trips.Sandcastle.Claims.{
  claim_of, accepts_claim, is_refused_claim, claim_issue, promote_each,
  promote_unblocked_queued_issues, read_tasks, all_tasks, authorize_each, authorize_autopilot_tasks,
}
use flash_trips.Sandcastle.Rounds.{work_on_claims, claim_planned, run_round, run_main}
use flash_trips.Sandcastle.Round.{
  Round, claim_each, base_of, integration_bases, completed, block_failed, approve_each,
  add_to_groups, group_tasks, publish_groups, publish_completed,
}
use flash_trips.Sandcastle.Rounds.Laws.{run_main-ends}
use flash_trips.Sandcastle.Rounds.Safety.{run_round-Guarded}
use flash_trips.Sandcastle.Round.Reviewed.{round_rules}
use flash_trips.Sandcastle.Round.Safety.{Guarded}
use flash_trips.Sandcastle.CheckpointTests.{
  world, workshop, interrupted, commit, merged, tree, receipt,
}
use flash_trips.Sandcastle.ClaimTests.{settings, planned, answer}

abbrev round : Round
round = record {
  world = world;
  features = some [];
  tasks_of = λ n. none;
  queued = some [];
  authorised = some true;
  plan = some (planned ∷ []);
  answer = λ id. some (answer "Do it.");
  base = λ c. some commit;
  commits = λ c. some (commit ∷ []);
  pinned = λ branch. some commit;
  is_aborted = false;
  is_target_stable = true;
  workshop = λ branch. workshop;
}

-- The claim of the round, published.
abbrev approved_task : ActiveClaim
approved_task = record (claim_of planned (answer "Do it.")) {
  checkpoint = published;
  approved_sha = some commit;
  integration_head = some merged;
  expected_remote_tree = some tree;
  publication = some receipt;
}

publishes_task :
    (run_round settings round "main" 1 interrupted).0.deeds
    ≡ labelled "12" none
      ∷ closed approved_task commit receipt
      ∷ labelled "12" (some "agent:in-progress")
      ∷ []
unfolding run_round claim_planned work_on_claims integration_bases base_of completed block_failed
    approve_each add_to_groups group_tasks publish_groups publish_completed claim_each
    promote_unblocked_queued_issues promote_each authorize_autopilot_tasks read_tasks all_tasks
    authorize_each select_autopilot_authorizations each authorize_feature open_tasks sort insert
    claim_issue accepts_claim is_refused_claim has_external_pre_run_gates has_gates_from ends_line
    begins_section has_content strip resolve_task_environment parse_afk_environment find_heading
    after_prefix task_branch default_integration_branch integrate_and_publish_group integrate_sorted
    integrate_group is_resumable_group integrate_anew merged_head build_integration_branch
    integrate_merged update_claims persist_run_state publish_group published_receipt is_ready
    has_remaining_tasks close_group close_each close_published close_landed_issue release_closed
    verify_publication_receipt get_claim set_claim delete_claim has_claim write_file is_sha show
    show_from stored_state
publishes_task = refl

run_round-Guarded_example :
    Guarded world
      (round_rules settings round)
      interrupted
      (run_round settings round "main" 1 interrupted).0
run_round-Guarded_example = run_round-Guarded settings round "main" 1 interrupted

run_main-ends_example :
    (o : Outcome ℕ) × (run_main world
        (λ url. true)
        false
        (λ branch. workshop)
        (λ c. some commit)
        settings
        "main"
        1
        5
        (λ n. round)
        6
        interrupted
      ≡ some o)
    × ((n : ℕ) → o.1 ≡ ok n → n ≤ 5)
run_main-ends_example =
    run_main-ends world (λ url. true) false (λ branch. workshop) (λ c. some commit) settings "main"
      1 5 (λ n. round) interrupted

-- A Task whose implementer made no commit, on a branch that is one ahead.
abbrev sandbox : Sandbox
sandbox = record {
  starts = true;
  initial_status = some "";
  final_status = some " ";
  aligns = true;
  implement = some (record { commits = []; completes = true });
  ahead = some 1;
  head = some "aaaaaaaaaaaaaaaaaaaaaaaaaaaaaaaaaaaaaaaa ";
  review = some ("bbbb" ∷ [], some approved);
  closes = true;
}

returns_commits : run_issue_pipeline sandbox ≡ ok (commit ∷ "bbbb" ∷ [], reviewed_and_approved)
unfolding run_issue_pipeline run_in_sandbox after_implement after_progress after_head after_review
    after_status trim trim_start trim_end is_sha
returns_commits = refl

run_issue_pipeline_iff_example :
    (run_issue_pipeline sandbox ≡ ok (commit ∷ "bbbb" ∷ [], reviewed_and_approved))
    ↔ IsApproved sandbox (commit ∷ "bbbb" ∷ []) reviewed_and_approved
run_issue_pipeline_iff_example =
    run_issue_pipeline_iff sandbox commit ("bbbb" ∷ []) reviewed_and_approved
