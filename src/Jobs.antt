-- ===== src/Jobs.antt =====
-- app/services/jobs.py: the queue of task jobs. A locked row that another transaction skips is not
-- modelled: operations on a session run one after the other.
pub mod Reaper
pub mod Attempts
pub mod Bound
pub mod Kept
pub mod Lifecycle
pub mod Queue
pub mod Entries
mod Reaping
pub mod Refinement
pub mod Claims
pub mod Expiry
use steh_v1_0_0_rc.Base.{
  ℕ, suc, ◌+◌, String, Bool, true, false, ◌&&◌, Option, none, some, List, [], ◌∷◌, ◌++◌, nat_eq,
  ltb, leb, if◌then◌else◌, length, select, first_chars, ◌==◌, is_some,
}
use steh_v1_0_0_rc.Json.{Json, bool, num, str, uuid, obj, end, field, null}
use steh_v1_0_0_rc.Models.Task.{TaskStatus}
use steh_v1_0_0_rc.Models.Review.{HumanReviewResume}
use steh_v1_0_0_rc.Db.{
  TaskRecord, TaskJobRecord, AgentRunRecord, JobKind, JobStatus, RunStatus, Tables, Exec, ◌>>=◌,
  ◌>>◌, pure, modify, gets, commit, rollback, utc_now, uuid4, update_where, find_task, update_task,
  update_job,
}
use steh_v1_0_0_rc.Audit.{record_event}

abbrev pub is_queued : JobStatus → Bool
is_queued JobStatus.queued = true
is_queued _ = false

abbrev pub is_running : JobStatus → Bool
is_running JobStatus.running = true
is_running _ = false

-- the text of a `JobKind`
unfoldable pub kind_name : JobKind → String
kind_name JobKind.execute_task = "EXECUTE_TASK"
kind_name JobKind.analyze_github_issue = "ANALYZE_GITHUB_ISSUE"
kind_name JobKind.review_pull_request = "REVIEW_PULL_REQUEST"
kind_name JobKind.resume_human_review = "RESUME_HUMAN_REVIEW"

abbrev pub lease_expired : String
lease_expired = "LeaseExpired"

unfoldable pub new_job : ℕ → JobKind → Option HumanReviewResume → Exec TaskJobRecord
new_job task_id kind payload = do
  job_id ← uuid4
  created_at ← utc_now
  pure (record {
    job_id = job_id;
    task_id = task_id;
    kind = kind;
    payload = payload;
    status = JobStatus.queued;
    attempts = 0;
    locked_by = none;
    lease_expires_at = none;
    last_error = none;
    created_at = created_at;
    started_at = none;
    finished_at = none;
  })

unfoldable pub record_job_queued : TaskRecord → TaskJobRecord → Exec (Unit {0})
unfolding record_event kind_name
record_job_queued task job =
    record_event task.task_id task.trace_id "JOB_QUEUED" "api"
      (obj (field "job_id" (uuid job.job_id) (field "kind" (str (kind_name job.kind)) end)))

abbrev pub add_job : TaskJobRecord → Tables → Tables
add_job job t = record t { jobs = t.jobs ++ (job ∷ []) }

unfoldable pub enqueue_job : TaskRecord → JobKind → Option HumanReviewResume → Exec TaskJobRecord
unfolding new_job record_job_queued
enqueue_job task kind payload = do
  job ← new_job task.task_id kind payload
  modify (add_job job)
  commit
  record_job_queued task job
  pure job

-- `order_by(created_at).limit(1)` on the rows that `p` selects; the first of equals is taken.
unfoldable pub oldest : List TaskJobRecord → Option TaskJobRecord
oldest [] = none
oldest (j ∷ js) = elim (oldest js) [
  | none ↦ some j
  | some k ↦ if leb j.created_at k.created_at then some j else some k
]

unfoldable pub next_queued : Tables → Option TaskJobRecord
unfolding oldest
next_queued t = oldest (select (λ j. is_queued j.status) t.jobs)

abbrev pub claimed : String → ℕ → ℕ → TaskJobRecord → TaskJobRecord
claimed worker_id now lease_seconds job = record job {
  status = JobStatus.running;
  attempts = job.attempts + 1;
  locked_by = some worker_id;
  started_at = some now;
  lease_expires_at = some (now + lease_seconds);
}

-- What follows the query, for the row that it returned.
unfoldable pub claim_row : String → ℕ → Option TaskJobRecord → Exec (Option TaskJobRecord)
claim_row worker_id lease_seconds none = do rollback; pure none
claim_row worker_id lease_seconds (some job) = do
  now ← utc_now
  modify (update_job job.job_id (claimed worker_id now lease_seconds))
  commit
  pure (some (claimed worker_id now lease_seconds job))

unfoldable pub claim_next_job : String → ℕ → Exec (Option TaskJobRecord)
unfolding next_queued claim_row
claim_next_job worker_id lease_seconds = do
  row ← gets next_queued
  claim_row worker_id lease_seconds row

-- `locked_by == worker_id`
unfoldable pub locked_by_worker : Option String → String → Bool
locked_by_worker none worker_id = false
locked_by_worker (some holder) worker_id = holder == worker_id

-- the `where` of the update in `renew_lease`
unfoldable pub holds_lease : ℕ → String → TaskJobRecord → Bool
unfolding locked_by_worker
holds_lease job_id worker_id job =
    nat_eq job.job_id job_id && is_running job.status && locked_by_worker job.locked_by worker_id

unfoldable pub renew_lease : ℕ → String → ℕ → Exec Bool
unfolding holds_lease
renew_lease job_id worker_id lease_seconds = do
  rowcount ← gets (λ t. length (select (holds_lease job_id worker_id) t.jobs))
  now ← utc_now
  modify (λ t. record t {
    jobs =
        update_where (holds_lease job_id worker_id)
          (λ j. record j { lease_expires_at = some (now + lease_seconds) }) t.jobs;
  })
  commit
  pure (nat_eq rowcount 1)

-- `error_type[:120] if error_type else None`
unfoldable pub short_error : Option String → Option String
short_error none = none
short_error (some name) = if name == "" then none else some (first_chars 120 name)

unfoldable pub finish_job : ℕ → JobStatus → Option String → Exec (Unit {0})
unfolding short_error
finish_job job_id status error_type = do
  now ← utc_now
  modify (
      update_job job_id (λ j. record j {
        status = status;
        finished_at = some now;
        lease_expires_at = none;
        last_error = short_error error_type;
      }))
  commit
