-- ===== src/Jobs/Queue.antt =====
-- The queue over its life: any sequence of operations, by any workers, on a table of jobs that starts
-- empty.
use steh_v1_0_0_rc.Base.{ℕ, ◌<◌, ◌≤◌, ◌≡◌, refl, Option, List, [], ◌∷◌, All}
use steh_v1_0_0_rc.Db.{TaskJobRecord, JobStatus, Session, Exec, ◌>>=◌, ◌>>◌, pure}
use steh_v1_0_0_rc.Db.Keeps.{Keeps, pure-Keeps, bind-Keeps}
use steh_v1_0_0_rc.Jobs.Lifecycle.{Operation, enqueue, claim, renew, succeed, fail, reap}
use steh_v1_0_0_rc.Jobs.{enqueue_job, claim_next_job, renew_lease, finish_job}
use steh_v1_0_0_rc.Jobs.Reaper.{reap_expired_jobs}
use steh_v1_0_0_rc.Jobs.Attempts.{AllBounded, UniqueIds}
use steh_v1_0_0_rc.Jobs.Bound.{
  QueueInv, claim_next_job-QueueInv, renew_lease-QueueInv, finish_job-QueueInv,
}
use steh_v1_0_0_rc.Jobs.Kept.{enqueue_job-QueueInv, reap_expired_jobs-QueueInv}

unfoldable pub operate : ℕ → Operation → Exec (Unit {0})
operate m (enqueue task kind payload) = do _ ← enqueue_job task kind payload; pure tt
operate m (claim worker_id lease_seconds) = do _ ← claim_next_job worker_id lease_seconds; pure tt
operate m (renew job_id worker_id lease_seconds) = do
  _ ← renew_lease job_id worker_id lease_seconds
  pure tt
operate m (succeed job_id) = finish_job job_id JobStatus.succeeded Option.none
operate m (fail job_id error_type) = finish_job job_id JobStatus.failed error_type
operate m reap = do _ ← reap_expired_jobs m; pure tt

unfoldable pub operate_all : ℕ → List Operation → Exec (Unit {0})
unfolding operate
operate_all m [] = pure tt
operate_all m (o ∷ os) = do operate m o; operate_all m os

pub operate-QueueInv : (m : ℕ) → 0 < m → (o : Operation) → Keeps (QueueInv m) (operate m o)
unfolding operate
operate-QueueInv m p (enqueue task kind payload) =
    bind-Keeps _ _ (enqueue_job-QueueInv m task kind payload p) (λ _. pure-Keeps tt)
operate-QueueInv m p (claim worker_id lease) =
    bind-Keeps _ _ (claim_next_job-QueueInv m worker_id lease) (λ _. pure-Keeps tt)
operate-QueueInv m p (renew job_id worker_id lease) =
    bind-Keeps _ _ (renew_lease-QueueInv m job_id worker_id lease) (λ _. pure-Keeps tt)
operate-QueueInv m p (succeed job_id) =
    finish_job-QueueInv m job_id JobStatus.succeeded Option.none refl
operate-QueueInv m p (fail job_id error_type) =
    finish_job-QueueInv m job_id JobStatus.failed error_type refl
operate-QueueInv m p reap = bind-Keeps _ _ (reap_expired_jobs-QueueInv m) (λ _. pure-Keeps tt)

operate_all-QueueInv :
    (m : ℕ) → 0 < m → (os : List Operation) → Keeps (QueueInv m) (operate_all m os)
unfolding operate_all
operate_all-QueueInv m p [] = pure-Keeps tt
operate_all-QueueInv m p (o ∷ os) =
    bind-Keeps _ _ (operate-QueueInv m p o) (λ _. operate_all-QueueInv m p os)

tried-AllBounded :
    (m : ℕ) (js : List TaskJobRecord) → AllBounded m js → All (λ j. j.attempts ≤ m) js
tried-AllBounded m [] h = tt
tried-AllBounded m (j ∷ js) h = (h.0.tried, tried-AllBounded m js h.1)

pub no_jobs-QueueInv :
    (m : ℕ) (s : Session) → s.pending.jobs ≡ [] → s.committed.jobs ≡ [] → QueueInv m s
no_jobs-QueueInv m s e f = record {
  pending = record { bounded = rw e tt; unique = rw e tt; drawn = rw e tt };
  committed = record { bounded = rw f tt; unique = rw f tt; drawn = rw f tt };
}

-- If the limit is positive and the tables hold no job at first, then after any sequence of enqueueing,
-- claiming, renewing, finishing and reaping, no committed job has been tried more often than the limit,
-- and no two committed jobs have the same id.
pub attempts_are_bounded :
    (m : ℕ) (os : List Operation) (s : Session)
    → 0 < m
    → s.pending.jobs ≡ []
    → s.committed.jobs ≡ []
    → All (λ j. j.attempts ≤ m) (operate_all m os s).1.committed.jobs
      × UniqueIds (operate_all m os s).1.committed.jobs
attempts_are_bounded m os s p e f =
    let start = no_jobs-QueueInv m s e f in
    let final = ((operate_all-QueueInv m p os).after s start).committed in
    (tried-AllBounded m _ final.bounded, final.unique)
