-- ===== src/Jobs/Lifecycle.antt =====
-- What the queue of app/services/jobs.py promises: each job has an id, a status and a number of
-- attempts, and an operation moves them by one of the steps below. Times, leases, workers, tasks and
-- the audit trail are forgotten.
use steh_v1_0_0_rc.Base.{
  ℕ, ◌+◌, ◌<◌, ◌≤◌, String, ◌≡◌, ◌≢◌, false, Option, List, [], ◌∷◌, ◌++◌, nat_eq, All,
}
use mathlib.Core.List.{Memᴰ}
use steh_v1_0_0_rc.Models.Review.{HumanReviewResume}
use steh_v1_0_0_rc.Db.{TaskRecord, TaskJobRecord, JobKind, JobStatus, update_where}
use steh_v1_0_0_rc.Jobs.{is_queued}

-- The calls of the queue's functions in app/: the worker finishes a job as succeeded or as failed.
pub data Operation : Type 0 where
  enqueue : TaskRecord → JobKind → Option HumanReviewResume → Operation
  claim : String → ℕ → Operation
  renew : ℕ → String → ℕ → Operation
  succeed : ℕ → Operation
  fail : ℕ → Option String → Operation
  reap : Operation

pub record Entry : Type 0 where
  pub id : ℕ
  pub status : JobStatus
  pub attempts : ℕ

abbrev pub entry : TaskJobRecord → Entry
entry job = record { id = job.job_id; status = job.status; attempts = job.attempts }

abbrev pub start : Entry → Entry
start e = record e { status = JobStatus.running; attempts = e.attempts + 1 }

abbrev pub end_as : JobStatus → Entry → Entry
end_as status e = record e { status = status }

-- The one entry that has the id becomes what `f` makes of it.
abbrev pub put : ℕ → (Entry → Entry) → List Entry → List Entry
put id f = update_where (λ e. nat_eq e.id id) f

-- What a reaper that allows `m` attempts may do to an entry: leave it, or take a running one back.
pub data Reaped (m : ℕ) (e : Entry) : Entry → Type 0 where
  left : Reaped m e e
  retried : e.status ≡ JobStatus.running → e.attempts < m → Reaped m e (end_as JobStatus.queued e)
  given_up : e.status ≡ JobStatus.running → m ≤ e.attempts → Reaped m e (end_as JobStatus.failed e)

pub data AllReaped (m : ℕ) : List Entry → List Entry → Type 0 where
  nil : AllReaped m [] []
  cons :
      {e e' : Entry} {q q' : List Entry}
      → Reaped m e e'
      → AllReaped m q q'
      → AllReaped m (e ∷ q) (e' ∷ q')

pub data Step (m : ℕ) (q : List Entry) : Operation → List Entry → Type 0 where
  enqueued :
      {task : TaskRecord} {kind : JobKind} {payload : Option HumanReviewResume} (id : ℕ)
      → All (λ e. e.id ≢ id) q
      → Step m q
          (enqueue task kind payload)
          (q ++ record { id = id; status = JobStatus.queued; attempts = 0 } ∷ [])
  started :
      {worker_id : String} {lease : ℕ} (e : Entry)
      → Memᴰ e q
      → e.status ≡ JobStatus.queued
      → Step m q (claim worker_id lease) (put e.id start q)
  idle :
      {worker_id : String} {lease : ℕ}
      → All (λ e. is_queued e.status ≡ false) q
      → Step m q (claim worker_id lease) q
  renewed : {id : ℕ} {worker_id : String} {lease : ℕ} → Step m q (renew id worker_id lease) q
  succeeded : {id : ℕ} → Step m q (succeed id) (put id (end_as JobStatus.succeeded) q)
  failed :
      {id : ℕ} {error_type : Option String}
      → Step m q (fail id error_type) (put id (end_as JobStatus.failed) q)
  reaped : {q' : List Entry} → AllReaped m q q' → Step m q reap q'

-- The operations, one after the other.
pub data Steps (m : ℕ) : List Entry → List Operation → List Entry → Type 0 where
  done : {q : List Entry} → Steps m q [] q
  next :
      {o : Operation} {os : List Operation} {q r t : List Entry}
      → Step m q o r
      → Steps m r os t
      → Steps m q (o ∷ os) t
