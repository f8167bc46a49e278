-- ===== src/Jobs/Refinement.antt =====
-- The queue of app/services/jobs.py implements its lifecycle: whatever an operation does to the rows is
-- one of its steps.
use steh_v1_0_0_rc.Base.{
  ℕ, suc, ◌+◌, ◌<◌, String, ◌≡◌, refl, Bool, true, false, Option, none, some, List, [], ◌∷◌, All,
  Result, ok, err,
}
use mathlib.Core.List.{Memᴰ, map-append}
use mathlib.Core.Path.{subst}
use steh_v1_0_0_rc.Models.Review.{HumanReviewResume}
use steh_v1_0_0_rc.Db.{TaskRecord, TaskJobRecord, JobKind, JobStatus, Session, then_do, pure}
use steh_v1_0_0_rc.Audit.{record_event}
use steh_v1_0_0_rc.Jobs.{
  next_queued, claimed, claim_row, claim_next_job, holds_lease, renew_lease, finish_job,
  enqueue_job, new_job, record_job_queued,
}
use steh_v1_0_0_rc.Jobs.Reaper.{
  Outcome, is_expired, record_outcome, record_outcomes, reap_rows, reap_expired_jobs,
}
use steh_v1_0_0_rc.Jobs.Attempts.{UniqueIds, Memᴰ-select, next_queued-mem}
use steh_v1_0_0_rc.Jobs.Claims.{oldest-none}
use steh_v1_0_0_rc.Jobs.Bound.{QueueInv}
use steh_v1_0_0_rc.Jobs.Queue.{operate, operate_all, operate-QueueInv, no_jobs-QueueInv}
use steh_v1_0_0_rc.Jobs.Lifecycle.{
  Operation, enqueue, claim, renew, succeed, fail, reap, entry, start, end_as, put, Step, Steps,
}
use steh_v1_0_0_rc.Jobs.Entries.{
  entries, entries-update, entries-same, entries-mem, entries-fresh, entries-idle, is_queued-eq,
}
use steh_v1_0_0_rc.Jobs.Reaping.{Rows-refl, Rows-AllReaped, reap_all-Rows}

-- No change to the jobs waits for a commit.
abbrev Settled : Session → Type 0
Settled s = s.committed.jobs ≡ s.pending.jobs

abbrev pub is_ok {ℓ} : {A : Type ℓ} → Result A → Bool
is_ok (ok a) = true
is_ok (err e) = false

-- An operation returns with its changes committed, and these are one step of the lifecycle.
abbrev Refines {ℓ} : {A : Type ℓ} → ℕ → Session → Operation → Result A × Session → Type 0
Refines m s o r =
    (is_ok r.0 ≡ true) × Settled r.1 × Step m (entries s.pending.jobs) o (entries r.1.pending.jobs)

enqueue-Refines :
    (m : ℕ) (task : TaskRecord) (kind : JobKind) (payload : Option HumanReviewResume) (s : Session)
    → All (λ j. j.job_id < s.fresh) s.pending.jobs
    → Refines m s (enqueue task kind payload) (enqueue_job task kind payload s)
unfolding enqueue_job record_job_queued new_job record_event
enqueue-Refines m task kind payload s drawn =
    (refl, refl, rw map-append (Step.enqueued s.fresh (entries-fresh s.fresh s.pending.jobs drawn)))

claim_row-Refines :
    (m : ℕ) (worker_id : String) (lease : ℕ) (s : Session) (o : Option TaskJobRecord)
    → next_queued s.pending ≡ o
    → Settled s
    → Refines m s (claim worker_id lease) (claim_row worker_id lease o s)
unfolding claim_row next_queued
claim_row-Refines m worker_id lease s none n e =
    let empty = entries-idle s.pending.jobs (oldest-none _ n) in
    (refl, refl, rw e (Step.idle empty))
claim_row-Refines m worker_id lease s (some job) n e =
    let (i, q) = next_queued-mem s.pending n in
    let moved =
      entries-update job.job_id (claimed worker_id (s.clock s.readings) lease) start (λ j. refl)
        s.pending.jobs in
    (
      refl,
      refl,
      rw moved
          (Step.started (entry job) (entries-mem s.pending.jobs i) (is_queued-eq job.status q)),
    )

claim-Refines :
    (m : ℕ) (worker_id : String) (lease : ℕ) (s : Session)
    → Settled s
    → Refines m s (claim worker_id lease) (claim_next_job worker_id lease s)
unfolding claim_next_job
claim-Refines m worker_id lease s e =
    claim_row-Refines m worker_id lease s (next_queued s.pending) refl e

renew-Refines :
    (m job_id : ℕ) (worker_id : String) (lease : ℕ) (s : Session)
    → Refines m s (renew job_id worker_id lease) (renew_lease job_id worker_id lease s)
unfolding renew_lease
renew-Refines m job_id worker_id lease s = (
  refl,
  refl,
  rw
      (entries-same (holds_lease job_id worker_id)
        (λ j. record j { lease_expires_at = some (s.clock s.readings + lease) }) (λ j. refl)
        s.pending.jobs)
      Step.renewed,
)

finish-put :
    (job_id : ℕ) (status : JobStatus) (error_type : Option String) (s : Session)
    → (is_ok (finish_job job_id status error_type s).0 ≡ true)
      × Settled (finish_job job_id status error_type s).1
      × (entries (finish_job job_id status error_type s).1.pending.jobs
          ≡ put job_id (end_as status) (entries s.pending.jobs))
unfolding finish_job
finish-put job_id status error_type s =
    (refl, refl, entries-update job_id _ (end_as status) (λ j. refl) s.pending.jobs)

-- The audit trail is written beside the jobs.
record_outcomes-jobs :
    (m : ℕ) (os : List Outcome) (s : Session)
    → Settled s
    → (s' : Session) × (record_outcomes m os s ≡ (ok tt, s'))
      × Settled s'
      × (s'.pending.jobs ≡ s.pending.jobs)
unfolding record_outcomes record_outcome record_event
record_outcomes-jobs m [] s e = (s, refl, e, refl)
record_outcomes-jobs m (o ∷ os) s e =
    let (s', run, settled, same) = record_outcomes-jobs m os (record_outcome m o s).1 refl in
    (s', run, settled, same)

reap_rows-Refines :
    (m now : ℕ) (left : List TaskJobRecord) (s : Session)
    → Settled s
    → UniqueIds s.pending.jobs
    → ((j : TaskJobRecord) → Memᴰ j left → Memᴰ j s.pending.jobs × (is_expired now j ≡ true))
    → Refines m s reap (reap_rows m now left s)
unfolding reap_rows
reap_rows-Refines m now [] s e u h =
    (refl, refl, rw e (Step.reaped (Rows-AllReaped m now (Rows-refl m now s.pending.jobs))))
reap_rows-Refines m now (job ∷ left) s e u h =
    let (outcomes, s', run, rows) =
      reap_all-Rows m now s.pending.jobs (job ∷ left) s u h (Rows-refl m now s.pending.jobs) in
    let (s'', recorded, settled, same) =
      record_outcomes-jobs m outcomes (record s' { committed = s'.pending }) refl in
    rw (run, recorded) (refl, settled, rw same (Step.reaped (Rows-AllReaped m now rows)))

reap-Refines :
    (m : ℕ) (s : Session)
    → Settled s
    → UniqueIds s.pending.jobs
    → Refines m s reap (reap_expired_jobs m s)
unfolding reap_expired_jobs
reap-Refines m s e u =
    reap_rows-Refines m (s.clock s.readings) _ (record s { readings = suc s.readings }) e u
      (λ j i. Memᴰ-select (is_expired (s.clock s.readings)) s.pending.jobs i)

-- To drop the value of an action changes nothing of what it does.
dropped-Refines {ℓ} :
    {A : Type ℓ} (m : ℕ) (s : Session) (o : Operation) (r : Result A × Session)
    → Refines m s o r
    → Refines m s o (then_do (λ _. pure (tt {0})) r)
dropped-Refines m s o (ok a, s') h = h
dropped-Refines m s o (err e, s') h = h

operate-Refines :
    (m : ℕ) (o : Operation) (s : Session) → QueueInv m s → Settled s → Refines m s o (operate m o s)
unfolding operate
operate-Refines m (enqueue task kind payload) s inv e =
    dropped-Refines m s _ (enqueue_job task kind payload s)
      (enqueue-Refines m task kind payload s inv.pending.drawn)
operate-Refines m (claim worker_id lease) s inv e =
    dropped-Refines m s _ (claim_next_job worker_id lease s) (claim-Refines m worker_id lease s e)
operate-Refines m (renew job_id worker_id lease) s inv e =
    dropped-Refines m s _ (renew_lease job_id worker_id lease s)
      (renew-Refines m job_id worker_id lease s)
operate-Refines m (succeed job_id) s inv e =
    let (returned, settled, moved) = finish-put job_id JobStatus.succeeded none s in
    (returned, settled, rw moved Step.succeeded)
operate-Refines m (fail job_id error_type) s inv e =
    let (returned, settled, moved) = finish-put job_id JobStatus.failed error_type s in
    (returned, settled, rw moved Step.failed)
operate-Refines m reap s inv e =
    dropped-Refines m s _ (reap_expired_jobs m s) (reap-Refines m s e inv.pending.unique)

operate_all-Refines :
    (m : ℕ) (os : List Operation) (s : Session)
    → 0 < m
    → QueueInv m s
    → Settled s
    → (is_ok (operate_all m os s).0 ≡ true)
      × Settled (operate_all m os s).1
      × Steps m (entries s.pending.jobs) os (entries (operate_all m os s).1.pending.jobs)
unfolding operate_all
operate_all-Refines m [] s p inv e = (refl, e, Steps.done)
operate_all-Refines m (o ∷ os) s p inv e =
    go (operate m o s) (operate-Refines m o s inv e) ((operate-QueueInv m p o).after s inv)
      (λ t i u. operate_all-Refines m os t p i u)
  where
    go :
        (r : Result (Unit {0}) × Session)
        → Refines m s o r
        → QueueInv m r.1
        → ((t : Session)
            → QueueInv m t
            → Settled t
            → (is_ok (operate_all m os t).0 ≡ true)
              × Settled (operate_all m os t).1
              × Steps m (entries t.pending.jobs) os (entries (operate_all m os t).1.pending.jobs))
        → (is_ok (then_do (λ _. operate_all m os) r).0 ≡ true)
          × Settled (then_do (λ _. operate_all m os) r).1
          × Steps m
              (entries s.pending.jobs)
              (o ∷ os)
              (entries (then_do (λ _. operate_all m os) r).1.pending.jobs)
    go (err x, t) h i later = cc (h.0)
    go (ok u, t) h i later =
        let (returned, settled, steps) = later t i h.1 in (returned, settled, Steps.next h.2 steps)

-- If the limit is positive and the tables hold no job at first, then any sequence of enqueueing,
-- claiming, renewing, finishing and reaping returns, leaves no uncommitted change to the jobs, and has
-- taken the committed jobs through one step of the lifecycle for each operation, in their order.
pub queue_refines :
    (m : ℕ) (os : List Operation) (s : Session)
    → 0 < m
    → s.pending.jobs ≡ []
    → s.committed.jobs ≡ []
    → (is_ok (operate_all m os s).0 ≡ true)
      × ((operate_all m os s).1.committed.jobs ≡ (operate_all m os s).1.pending.jobs)
      × Steps m [] os (entries (operate_all m os s).1.committed.jobs)
queue_refines m os s p e f =
    let (returned, settled, steps) =
      operate_all-Refines m os s p (no_jobs-QueueInv m s e f) (cc (e, f)) in
    (
      returned,
      settled,
      rw settled (
          subst (λ js. Steps m (entries js) os (entries (operate_all m os s).1.pending.jobs)) e
            steps),
    )
