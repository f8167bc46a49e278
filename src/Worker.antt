-- ===== src/Worker.antt =====
-- app/worker.py: the background worker. The thread that renews the lease during a job is not part of
-- `process_job`; its one operation is `renew_lease`. A job's kind is one of the four that are queued.
pub mod Proofs
use steh_v1_0_0_rc.Base.{
  ℕ, String, Bool, true, false, Option, none, some, Result, ok, err, Error, error_name, value_error,
}
use steh_v1_0_0_rc.Json.{Json, str, uuid, obj, end, field}
use steh_v1_0_0_rc.Models.Task.{TaskStatus}
use steh_v1_0_0_rc.Models.Review.{HumanReviewResume}
use steh_v1_0_0_rc.Db.{
  TaskRecord, TaskJobRecord, JobKind, JobStatus, Exec, ◌>>=◌, ◌>>◌, pure, raise, attempt, modify,
  gets, commit, rollback, utc_now, find_task, find_job, update_task,
}
use steh_v1_0_0_rc.Audit.{record_event}
use steh_v1_0_0_rc.Jobs.{kind_name, claim_next_job, finish_job}
use steh_v1_0_0_rc.Jobs.Reaper.{reap_expired_jobs}

-- The services that `HANDLERS` calls, with what each takes.
pub record Services : Type 0 where
  pub run_task_workflow : ℕ → ℕ → Exec (Unit {0})
  pub run_github_issue_analysis : ℕ → ℕ → Exec (Unit {0})
  pub run_pull_request_review : ℕ → Exec (Unit {0})
  pub run_human_review_resume : ℕ → HumanReviewResume → ℕ → Exec (Unit {0})

-- The payload of a resume job is validated by `HumanReviewResume.model_validate`.
abbrev pub resume_with :
    (HumanReviewResume → Exec (Unit {0})) → Option HumanReviewResume → Exec (Unit {0})
resume_with f none = raise value_error
resume_with f (some resume) = f resume

-- `HANDLERS`, on a job
unfoldable pub handle : Services → TaskJobRecord → JobKind → Exec (Unit {0})
handle services job JobKind.execute_task = services.run_task_workflow job.task_id job.attempts
handle services job JobKind.analyze_github_issue =
    services.run_github_issue_analysis job.task_id job.attempts
handle services job JobKind.review_pull_request = services.run_pull_request_review job.task_id
handle services job JobKind.resume_human_review =
    resume_with (λ resume. services.run_human_review_resume job.task_id resume job.attempts)
      job.payload

abbrev pub is_failed : TaskStatus → Bool
is_failed TaskStatus.failed = true
is_failed _ = false

-- `_mark_task_failed`, for the row that `db.get` returned
unfoldable pub mark_found : TaskJobRecord → String → Option TaskRecord → Exec (Unit {0})
unfolding record_event kind_name
mark_found job error_type none = pure tt
mark_found job error_type (some task) = elim (is_failed task.status) [
  | true ↦ pure tt
  | false ↦ (do
    now ← utc_now
    modify
        (update_task task.task_id (λ t. record t { status = TaskStatus.failed; updated_at = now }))
    commit
    record_event task.task_id task.trace_id "TASK_FAILED" "worker" (
        obj (
          field "job_id" (uuid job.job_id)
            (field "kind" (str (kind_name job.kind)) (field "error_type" (str error_type) end)))))
]

unfoldable pub mark_task_failed : TaskJobRecord → String → Exec (Unit {0})
unfolding mark_found
mark_task_failed job error_type = do
  task ← gets (find_task job.task_id)
  mark_found job error_type task

-- For the row that the handler's exception left.
unfoldable pub fail_claimed : Option TaskJobRecord → String → Exec (Unit {0})
unfolding mark_task_failed finish_job
fail_claimed none error_type = pure tt
fail_claimed (some claimed) error_type = do
  mark_task_failed claimed error_type
  finish_job claimed.job_id JobStatus.failed (some error_type)

-- What follows the handler in `_run_job`.
unfoldable pub settle_job : TaskJobRecord → Result (Unit {0}) → Exec JobStatus
unfolding fail_claimed finish_job
settle_job job (ok done) = do
  finish_job job.job_id JobStatus.succeeded none
  pure JobStatus.succeeded
settle_job job (err exc) = do
  rollback
  claimed ← gets (find_job job.job_id)
  fail_claimed claimed (error_name exc)
  pure JobStatus.failed

-- `process_job` with `_run_job`
unfoldable pub process_job : Services → TaskJobRecord → Exec JobStatus
unfolding handle settle_job error_name
process_job services job = do
  outcome ← attempt (handle services job job.kind)
  settle_job job outcome

-- For the job that was claimed.
unfoldable pub work_on : Services → Option TaskJobRecord → Exec Bool
unfolding process_job
work_on services none = pure false
work_on services (some job) = do status ← process_job services job; pure true

unfoldable pub run_once : Services → ℕ → String → ℕ → Exec Bool
unfolding reap_expired_jobs claim_next_job work_on
run_once services max_attempts worker_id lease_seconds = do
  reaped ← reap_expired_jobs max_attempts
  job ← claim_next_job worker_id lease_seconds
  work_on services job
