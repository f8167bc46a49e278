-- ===== src/Tests/Services.antt =====
-- The queue of app/services/jobs.py, the claim of app/services/tasks.py, the lifecycle of
-- app/orchestration/lifecycle.py and the worker of app/worker.py on small tables.
use steh_v1_0_0_rc.Base.{
  ℕ, ◌+◌, ◌≤◌, String, ◌≡◌, ◌≢◌, refl, false, Option, select, none, some, List, [], ◌∷◌, All,
  Result, ok, true, err, value_error, human_review_conflict, arith, error_name,
}
use steh_v1_0_0_rc.Models.Task.{TaskStatus}
use steh_v1_0_0_rc.Models.Review.{
  HumanReviewStatus, HumanReviewArtifact, HumanReviewDecision, HumanDecision,
}
use steh_v1_0_0_rc.Context.Sanitize.{codes}
use steh_v1_0_0_rc.Db.{
  TaskRecord, AgentRunRecord, RunStatus, TaskJobRecord, JobKind, JobStatus, Tables, Session, raise,
}
use steh_v1_0_0_rc.Audit
use steh_v1_0_0_rc.Audit.Proofs.{Recorded, execute-Recorded}
use steh_v1_0_0_rc.Jobs
use steh_v1_0_0_rc.Jobs.Attempts.{UniqueIds}
use steh_v1_0_0_rc.Jobs.Queue.{operate_all, attempts_are_bounded}
use steh_v1_0_0_rc.Jobs.Lifecycle.{Operation, Steps}
use steh_v1_0_0_rc.Jobs.Entries.{entries}
use steh_v1_0_0_rc.Jobs.Refinement.{is_ok, queue_refines}
use steh_v1_0_0_rc.Jobs.Reaper.{is_expired, reap_expired_jobs}
use steh_v1_0_0_rc.Jobs.Claims.{NotAfter, claims_oldest, claims_are_exclusive}
use steh_v1_0_0_rc.Jobs.Expiry.{reap_leaves_none_expired}
use steh_v1_0_0_rc.Tasks.Review
use steh_v1_0_0_rc.Tasks.Claim.{one_decision}
use steh_v1_0_0_rc.Worker.{Services, handle, process_job}
use steh_v1_0_0_rc.Worker.Proofs.{FailureRecorded, failed_job_is_recorded}
use steh_v1_0_0_rc.Tests.Data.{no_tables, new_session, receiptless}

abbrev pub asked : HumanReviewArtifact
asked = record {
  status = HumanReviewStatus.pending;
  requested_at = 0;
  expires_at = 100;
  policy_result_count = 2;
  reviewer = none;
  justification = none;
  decided_at = none;
}

abbrev pub waiting_task : TaskRecord
waiting_task = record {
  task_id = 1;
  trace_id = 2;
  request = codes "r";
  status = TaskStatus.human_review;
  context_bundle = none;
  source_issue = none;
  issue_analysis = none;
  source_pull_request = none;
  pull_request_review = none;
  requirements = none;
  specification = none;
  architecture = none;
  security_review = none;
  risk_level = none;
  implementation = none;
  test_plan = none;
  validation = none;
  rework_count = 0;
  external_scan = none;
  rework_decision = none;
  human_review = some asked;
  judge_evaluation = none;
  created_at = 0;
  updated_at = 0;
}

abbrev failing_job : TaskJobRecord
failing_job = record {
  job_id = 7;
  task_id = 1;
  kind = JobKind.execute_task;
  payload = none;
  status = JobStatus.running;
  attempts = 1;
  locked_by = some "w";
  lease_expires_at = some 60;
  last_error = none;
  created_at = 0;
  started_at = some 0;
  finished_at = none;
}

abbrev one_task : Tables
one_task = record no_tables { tasks = waiting_task ∷ []; jobs = failing_job ∷ [] }

abbrev pub with_task : Session
with_task = record new_session { committed = one_task; pending = one_task; fresh = 10 }

-- Two claims of one job, whose lease runs out each time.
abbrev operations : List Operation
operations =
    Operation.enqueue waiting_task JobKind.execute_task none
    ∷ Operation.claim "a" 0
    ∷ Operation.reap
    ∷ Operation.claim "b" 0
    ∷ Operation.renew 1 "b" 0
    ∷ Operation.reap
    ∷ Operation.enqueue waiting_task JobKind.execute_task none
    ∷ []

attempts_are_bounded_example :
    All (λ j. j.attempts ≤ 2) (operate_all 2 operations new_session).1.committed.jobs
    × UniqueIds (operate_all 2 operations new_session).1.committed.jobs
attempts_are_bounded_example = attempts_are_bounded 2 operations new_session (omega arith) refl refl

abbrev pub approval : HumanReviewDecision
approval = record { decision = HumanDecision.approve; justification = "fine" }

abbrev claimed : Result TaskRecord × Session
claimed = Review.claim_human_review 1 "ana" approval with_task

abbrev refused : Result TaskRecord × Session
refused = Review.claim_human_review 1 "bob" approval claimed.1

claims :
    (claimed ≡ (ok (Review.resuming 0 waiting_task), claimed.1))
    × (refused ≡ (err human_review_conflict, refused.1))
unfolding Review.claim_human_review Review.claim_found Review.claim_review Review.queue_resume
    Review.resume_of Review.resolve_review_outcome Review.dump_resume Jobs.new_job
    Jobs.record_job_queued Jobs.kind_name Audit.record_event
claims = (refl, refl)

one_decision_example :
    (Review.claim_human_review 1 "bob" approval claimed.1).0 ≡ err human_review_conflict
one_decision_example = one_decision 1 "ana" approval with_task "bob" approval claims.0

-- another run, which is going on
abbrev open_run : AgentRunRecord
open_run = record {
  run_id = 7;
  task_id = 5;
  trace_id = 6;
  agent_name = "other_agent";
  status = RunStatus.started;
  result = none;
  findings = [];
  evidence = [];
  confidence = 0;
  started_at = 0;
  completed_at = none;
}

abbrev with_run : Session
with_run = record new_session {
  committed = record no_tables { agent_runs = open_run ∷ [] };
  pending = record no_tables { agent_runs = open_run ∷ [] };
}

execute-Recorded_example :
    Recorded receiptless "test_agent" with_run
      (Audit.execute receiptless "test_agent" (err value_error) with_run).0
      (Audit.execute receiptless "test_agent" (err value_error) with_run).1
execute-Recorded_example =
    execute-Recorded receiptless "test_agent" (err value_error) with_run (refl, tt)

abbrev refusing : Services
refusing = record {
  run_task_workflow = λ task_id attempt. raise value_error;
  run_github_issue_analysis = λ task_id attempt. raise value_error;
  run_pull_request_review = λ task_id. raise value_error;
  run_human_review_resume = λ task_id resume attempt. raise value_error;
}

refusing_handles :
    handle refusing failing_job JobKind.execute_task with_task ≡ (err value_error, with_task)
unfolding handle
refusing_handles = refl

failed_job_is_recorded_example :
    ((process_job refusing failing_job with_task).0 ≡ ok JobStatus.failed)
    × FailureRecorded failing_job 1
        (error_name value_error)
        (process_job refusing failing_job with_task).1
failed_job_is_recorded_example =
    failed_job_is_recorded refusing failing_job with_task refusing_handles refl refl

abbrev queued_job : ℕ → ℕ → TaskJobRecord
queued_job id created_at = record failing_job {
  job_id = id;
  status = JobStatus.queued;
  created_at = created_at;
}

abbrev with_queue : Session
with_queue = record new_session {
  pending = record no_tables { jobs = queued_job 1 30 ∷ queued_job 2 10 ∷ [] };
}

abbrev claim_by : String → Session → Result (Option TaskJobRecord) × Session
claim_by worker_id s = Jobs.claim_next_job worker_id 60 s

abbrev after_one : Session
after_one = (claim_by "a" with_queue).1

abbrev after_two : Session
after_two = (claim_by "b" after_one).1

abbrev taken : ℕ → ℕ → String → TaskJobRecord → TaskJobRecord
taken now lease worker_id job = Jobs.claimed worker_id now lease job

claiming :
    (claim_by "a" with_queue ≡ (ok (some (taken 0 60 "a" (queued_job 2 10))), after_one))
    × (claim_by "b" after_one ≡ (ok (some (taken 1 60 "b" (queued_job 1 30))), after_two))
    × (claim_by "c" after_two ≡ (ok none, (claim_by "c" after_two).1))
unfolding Jobs.claim_next_job Jobs.claim_row Jobs.next_queued Jobs.oldest
claiming = (refl, refl, refl)

claims_oldest_example :
    All
      (NotAfter (taken 0 60 "a" (queued_job 2 10)))
      (select (λ j. Jobs.is_queued j.status) with_queue.pending.jobs)
claims_oldest_example = claims_oldest "a" 60 with_queue claiming.0

claims_are_exclusive_example : ◌≢◌ {A = ℕ} 1 2
claims_are_exclusive_example = claims_are_exclusive "a" "b" 60 60 with_queue claiming.0 claiming.1

abbrev late : Session
late = record with_task { clock = λ n. n + 100 }

reap_leaves_none_expired_example :
    All (λ j. is_expired 100 j ≡ false) (reap_expired_jobs 2 late).1.committed.jobs
reap_leaves_none_expired_example = reap_leaves_none_expired 2 late refl

queue_refines_example :
    (is_ok (operate_all 2 operations new_session).0 ≡ true)
    × ((operate_all 2 operations new_session).1.committed.jobs
        ≡ (operate_all 2 operations new_session).1.pending.jobs)
    × Steps 2 [] operations (entries (operate_all 2 operations new_session).1.committed.jobs)
queue_refines_example = queue_refines 2 operations new_session (omega arith) refl refl
