-- ===== src/Worker/Proofs.antt =====
-- What a job that fails leaves: the rolled-back tables with the task and the job marked as failed.
use steh_v1_0_0_rc.Base.{
  ℕ, String, ◌≡◌, refl, Bool, true, false, none, some, ok, err, Error, error_name, Result, arith,
}
use steh_v1_0_0_rc.Models.Task.{TaskStatus}
use steh_v1_0_0_rc.Db.{TaskRecord, TaskJobRecord, JobStatus, Session, find_task, find_job}
use steh_v1_0_0_rc.Db.Rows.{find-update, find-key}
use steh_v1_0_0_rc.Audit.{record_event}
use steh_v1_0_0_rc.Jobs.{finish_job, short_error}
use steh_v1_0_0_rc.Worker.{
  Services, handle, is_failed, mark_found, mark_task_failed, fail_claimed, settle_job, process_job,
}

-- The task after `_mark_task_failed`, which touches no job.
record Marked (task_id : ℕ) (w : Session) (p : Result (Unit {0}) × Session) : Type 0 where
  pub task : TaskRecord
  pub after : Session
  pub returned : p ≡ (ok tt, after)
  pub found : find_task task_id after.pending ≡ some task
  pub failed : task.status ≡ TaskStatus.failed
  pub same_jobs : after.pending.jobs ≡ w.pending.jobs

mark_task_failed-Marked :
    (row : TaskJobRecord) (name : String) (w : Session) {task : TaskRecord}
    → find_task row.task_id w.pending ≡ some task
    → (b : Bool) → is_failed task.status ≡ b
    → Marked row.task_id w (mark_task_failed row name w)
unfolding mark_task_failed mark_found record_event
mark_task_failed-Marked row name w {task} t true e = record {
  task = task;
  after = w;
  returned = rw (t, mark_found, e) refl;
  found = t;
  failed = ground arith;
  same_jobs = refl;
}
mark_task_failed-Marked row name w {task} t false e = record {
  task = record task { status = TaskStatus.failed; updated_at = w.clock w.readings };
  after = (mark_task_failed row name w).1;
  returned = rw (t, mark_found, e) refl;
  found =
      let key = find-key (λ r. r.task_id) row.task_id w.pending.tasks t in
      let up =
        find-update (λ r. r.task_id) row.task_id
          (λ r. record r { status = TaskStatus.failed; updated_at = w.clock w.readings })
          (λ r. refl) w.pending.tasks t in
      ground (arith, mark_found, t, e, key, up);
  failed = refl;
  same_jobs = rw (t, mark_found, e) refl;
}

-- What the worker promises for a job whose handler raised.
pub record FailureRecorded (job : TaskJobRecord) (task_id : ℕ) (error_type : String) (s : Session)
    : Type 0 where
  pub task : TaskRecord
  pub found : find_task task_id s.committed ≡ some task
  pub failed : task.status ≡ TaskStatus.failed
  pub row : TaskJobRecord
  pub stored : find_job job.job_id s.committed ≡ some row
  pub finished : row.status ≡ JobStatus.failed
  pub released : row.lease_expires_at ≡ none
  pub reason : row.last_error ≡ short_error (some error_type)

-- If a handler raises an exception, whatever it has written or committed, then `process_job` returns
-- FAILED, and if the job's row and its task's are in the committed tables, then there the task's status
-- is FAILED, and the job is FAILED without a lease and names the exception's type.
pub failed_job_is_recorded :
    (services : Services) (job : TaskJobRecord) (s : Session) {e : Error} {v : Session}
    {row : TaskJobRecord} {task : TaskRecord}
    → handle services job job.kind s ≡ (err e, v)
    → find_job job.job_id v.committed ≡ some row
    → find_task row.task_id v.committed ≡ some task
    → ((process_job services job s).0 ≡ ok JobStatus.failed)
      × FailureRecorded job row.task_id (error_name e) (process_job services job s).1
unfolding process_job settle_job fail_claimed finish_job
failed_job_is_recorded services job s {e} {v} {row} {task} h j t =
    let w : Session = record v { pending = v.committed } in
    let m = mark_task_failed-Marked row (error_name e) w t (is_failed task.status) refl in
    let key = find-key (λ r. r.job_id) job.job_id v.committed.jobs j in
    let up =
      find-update (λ r. r.job_id) job.job_id
        (λ r. record r {
          status = JobStatus.failed;
          finished_at = some (m.after.clock m.after.readings);
          lease_expires_at = none;
          last_error = short_error (some (error_name e));
        })
        (λ r. refl) v.committed.jobs j in
    let r = m.returned in
    let f = m.found in
    rw (h, j, r)
      (
        refl,
        record {
          task = m.task;
          found = f;
          failed = m.failed;
          row = record row {
            status = JobStatus.failed;
            finished_at = some (m.after.clock m.after.readings);
            lease_expires_at = none;
            last_error = short_error (some (error_name e));
          };
          stored = ground (arith, m.same_jobs, key, up);
          finished = refl;
          released = refl;
          reason = refl;
        },
      )
