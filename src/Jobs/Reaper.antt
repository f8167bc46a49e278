-- ===== src/Jobs/Reaper.antt =====
-- app/services/jobs.py: what happens to running jobs whose lease has expired.
use steh_v1_0_0_rc.Base.{
  ℕ, String, Bool, true, false, ◌&&◌, Option, none, some, List, [], ◌∷◌, ◌++◌, nat_eq, ltb,
  if◌then◌else◌, length, select,
}
use steh_v1_0_0_rc.Json.{Json, num, str, uuid, obj, end, field, null}
use steh_v1_0_0_rc.Models.Task.{TaskStatus}
use steh_v1_0_0_rc.Db.{
  TaskRecord, TaskJobRecord, AgentRunRecord, JobStatus, RunStatus, Exec, ◌>>=◌, ◌>>◌, pure, modify,
  gets, commit, rollback, utc_now, update_where, find_task, update_task, update_job,
}
use steh_v1_0_0_rc.Audit.{record_event}
use steh_v1_0_0_rc.Jobs.{is_running, kind_name, lease_expired}

-- the `where` of the query in `reap_expired_jobs`; a missing lease compares as unknown
abbrev pub lease_before : Option ℕ → ℕ → Bool
lease_before none now = false
lease_before (some expiry) now = ltb expiry now

unfoldable pub is_expired : ℕ → TaskJobRecord → Bool
is_expired now job = is_running job.status && lease_before job.lease_expires_at now

abbrev pub is_started : RunStatus → Bool
is_started RunStatus.started = true
is_started _ = false

abbrev pub abandonable : ℕ → AgentRunRecord → Bool
abandonable task_id run = nat_eq run.task_id task_id && is_started run.status

-- `_abandon_agent_runs`
unfoldable pub abandon_agent_runs : ℕ → ℕ → Exec ℕ
abandon_agent_runs task_id now = do
  rowcount ← gets (λ t. length (select (abandonable task_id) t.agent_runs))
  modify (λ t. record t {
    agent_runs =
        update_where (abandonable task_id)
          (λ r. record r { status = RunStatus.abandoned; completed_at = some now }) t.agent_runs;
  })
  pure rowcount

-- What the loop of `reap_expired_jobs` writes to one job row, and to its task.
unfoldable pub requeued : TaskJobRecord → TaskJobRecord
requeued job = record job {
  lease_expires_at = none;
  last_error = some lease_expired;
  status = JobStatus.queued;
}

unfoldable pub given_up : ℕ → TaskJobRecord → TaskJobRecord
given_up now job = record job {
  lease_expires_at = none;
  last_error = some lease_expired;
  status = JobStatus.failed;
  finished_at = some now;
}

unfoldable pub reaped : ℕ → ℕ → TaskJobRecord → TaskJobRecord
unfolding requeued given_up
reaped max_attempts now job =
    if ltb job.attempts max_attempts then requeued job else given_up now job

abbrev pub fail_task : ℕ → TaskRecord → TaskRecord
fail_task now task = record task { status = TaskStatus.failed; updated_at = now }

abbrev pub reap_task : Bool → ℕ → TaskRecord → TaskRecord
reap_task true now task = task
reap_task false now task = fail_task now task

-- A job that was reaped, its task, and the number of agent runs closed with it.
pub record Outcome : Type 0 where
  pub job : TaskJobRecord
  pub task : TaskRecord
  pub recoverable : Bool
  pub abandoned_runs : ℕ

unfoldable pub outcome_of : TaskJobRecord → Bool → ℕ → Option TaskRecord → List Outcome
outcome_of job recoverable abandoned_runs none = []
outcome_of job recoverable abandoned_runs (some task) =
    (record { job = job; task = task; recoverable = recoverable; abandoned_runs = abandoned_runs })
    ∷ []

-- one round of the loop
unfoldable pub reap_job : ℕ → ℕ → TaskJobRecord → Exec (List Outcome)
unfolding abandon_agent_runs reaped outcome_of
reap_job max_attempts now job = do
  task ← gets (find_task job.task_id)
  abandoned_runs ← abandon_agent_runs job.task_id now
  modify (λ t.
      update_task job.task_id (reap_task (ltb job.attempts max_attempts) now)
        (update_job job.job_id (λ _. reaped max_attempts now job) t))
  pure
      (outcome_of (reaped max_attempts now job) (ltb job.attempts max_attempts) abandoned_runs task)

unfoldable pub reap_all : ℕ → ℕ → List TaskJobRecord → Exec (List Outcome)
unfolding reap_job
reap_all max_attempts now [] = pure []
reap_all max_attempts now (job ∷ jobs) = do
  first ← reap_job max_attempts now job
  rest ← reap_all max_attempts now jobs
  pure (first ++ rest)

abbrev pub holder : Option String → Json
holder none = null
holder (some worker_id) = str worker_id

-- one round of the loop that follows the commit
unfoldable pub record_outcome : ℕ → Outcome → Exec (Unit {0})
unfolding record_event kind_name
record_outcome max_attempts o =
    record_event o.task.task_id o.task.trace_id
      (if o.recoverable then "TASK_RECOVERY_SCHEDULED" else "TASK_ABANDONED") "worker"
      (obj (
        field "job_id" (uuid o.job.job_id) (
          field "kind" (str (kind_name o.job.kind)) (
            field "locked_by" (holder o.job.locked_by) (
              field "attempts" (num o.job.attempts) (
                field "max_attempts" (num max_attempts)
                  (field "abandoned_agent_runs" (num o.abandoned_runs) end)))))))

unfoldable pub record_outcomes : ℕ → List Outcome → Exec (Unit {0})
unfolding record_outcome
record_outcomes max_attempts [] = pure tt
record_outcomes max_attempts (o ∷ os) = do
  record_outcome max_attempts o
  record_outcomes max_attempts os

-- What follows the query, for the rows that it returned.
unfoldable pub reap_rows : ℕ → ℕ → List TaskJobRecord → Exec ℕ
unfolding reap_all record_outcomes
reap_rows max_attempts now [] = do rollback; pure 0
reap_rows max_attempts now (job ∷ jobs) = do
  outcomes ← reap_all max_attempts now (job ∷ jobs)
  commit
  record_outcomes max_attempts outcomes
  pure (length (job ∷ jobs))

unfoldable pub reap_expired_jobs : ℕ → Exec ℕ
unfolding is_expired reap_rows
reap_expired_jobs max_attempts = do
  now ← utc_now
  rows ← gets (λ t. select (is_expired now) t.jobs)
  reap_rows max_attempts now rows
