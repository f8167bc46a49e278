-- ===== src/Jobs/Kept.antt =====
-- The queue's invariant through enqueueing and through the reaper.
use steh_v1_0_0_rc.Base.{
  ℕ, suc, ◌≤◌, ◌<◌, ◌≡◌, refl, Bool, Option, List, [], ◌∷◌, ◌++◌, nat_eq, ltb, select, length, All,
  Bool-cases, inl, inr, arith,
}
use steh_v1_0_0_rc.Models.Review.{HumanReviewResume}
use steh_v1_0_0_rc.Db.{TaskRecord, TaskJobRecord, JobKind, modify, commit, ◌>>=◌, ◌>>◌}
use steh_v1_0_0_rc.Db.Keeps.{Keeps, pure-Keeps, bind-Keeps}
use steh_v1_0_0_rc.Jobs.{new_job, add_job, record_job_queued, enqueue_job}
use steh_v1_0_0_rc.Jobs.Reaper.{
  Outcome, is_expired, abandon_agent_runs, reaped, requeued, given_up, reap_job, reap_all,
  record_outcome, record_outcomes, reap_rows, reap_expired_jobs,
}
use steh_v1_0_0_rc.Jobs.Attempts.{IsBounded, AllBounded}
use steh_v1_0_0_rc.Jobs.Bound.{QueueInv, add_job-TableInv, update-TableInv, record_event-QueueInv}

reaped-IsBounded :
    (m now : ℕ) (job k : TaskJobRecord) → job.attempts ≤ m → IsBounded m (reaped m now job)
unfolding reaped requeued given_up
reaped-IsBounded m now job k b = elim (Bool-cases (ltb job.attempts m)) [
  | inl e ↦ rw e (record { tried = b; room = λ q. ground arith })
  | inr e ↦ rw e (record { tried = b; room = λ q. cc })
]

reaped-id : (m now : ℕ) (job : TaskJobRecord) → (reaped m now job).job_id ≡ job.job_id
unfolding reaped requeued given_up
reaped-id m now job = ground arith

select-tried :
    (m : ℕ) (p : TaskJobRecord → Bool) (js : List TaskJobRecord)
    → AllBounded m js
    → All (λ j. j.attempts ≤ m) (select p js)
select-tried m p [] h = tt
select-tried m p (j ∷ js) h = elim (Bool-cases (p j)) [
  | inl e ↦ rw e (h.0.tried, select-tried m p js h.1)
  | inr e ↦ rw e (select-tried m p js h.1)
]

module _ (m : ℕ) where
  pub enqueue_job-QueueInv :
      (task : TaskRecord) (kind : JobKind) (payload : Option HumanReviewResume)
      → 0 < m
      → Keeps (QueueInv m) (enqueue_job task kind payload)
  unfolding enqueue_job new_job record_job_queued
  enqueue_job-QueueInv task kind payload p = record {
    after = λ s h.
        let t =
          add_job-TableInv m s.fresh s.pending.jobs _
            (record { tried = omega arith; room = λ q. p }) refl h.pending in
        (record_event-QueueInv m task.task_id task.trace_id "JOB_QUEUED" "api" _).after
          ((do job ← new_job task.task_id kind payload; modify (add_job job); commit) s).1
          (record { pending = t; committed = t });
  }

  reap_job-QueueInv :
      (now : ℕ) (job : TaskJobRecord) → job.attempts ≤ m → Keeps (QueueInv m) (reap_job m now job)
  unfolding reap_job abandon_agent_runs
  reap_job-QueueInv now job b = record {
    after = λ s h.
        let t =
          update-TableInv (λ j. nat_eq j.job_id job.job_id) (λ _. reaped m now job)
            (λ j q. let same = reaped-id m now job in ground arith) m s.fresh s.pending.jobs
            (λ j k q c. reaped-IsBounded m now job j b) h.pending in
        record { pending = t; committed = h.committed };
  }

  reap_all-QueueInv :
      (now : ℕ) (jobs : List TaskJobRecord)
      → All (λ j. j.attempts ≤ m) jobs
      → Keeps (QueueInv m) (reap_all m now jobs)
  unfolding reap_all
  reap_all-QueueInv now [] h = pure-Keeps _
  reap_all-QueueInv now (job ∷ jobs) h = bind-Keeps _ _ (reap_job-QueueInv now job h.0) (λ first.
      bind-Keeps _ _ (reap_all-QueueInv now jobs h.1) (λ rest. pure-Keeps (first ++ rest)))

  record_outcomes-QueueInv : (os : List Outcome) → Keeps (QueueInv m) (record_outcomes m os)
  unfolding record_outcomes record_outcome
  record_outcomes-QueueInv [] = pure-Keeps _
  record_outcomes-QueueInv (o ∷ os) =
      bind-Keeps _ _ (record_event-QueueInv m _ _ _ _ _) (λ u. record_outcomes-QueueInv os)

  commit-QueueInv : Keeps (QueueInv m) commit
  commit-QueueInv = record { after = λ s h. record { pending = h.pending; committed = h.pending } }

  reap_rows-QueueInv :
      (now : ℕ) (rows : List TaskJobRecord)
      → All (λ j. j.attempts ≤ m) rows
      → Keeps (QueueInv m) (reap_rows m now rows)
  unfolding reap_rows
  reap_rows-QueueInv now [] h = record {
    after = λ s q. record { pending = q.committed; committed = q.committed };
  }
  reap_rows-QueueInv now (job ∷ jobs) h =
      bind-Keeps _ _ (reap_all-QueueInv now (job ∷ jobs) h) (λ outcomes.
        bind-Keeps _ _ commit-QueueInv (λ u.
          bind-Keeps _ _ (record_outcomes-QueueInv outcomes)
            (λ v. pure-Keeps (length (job ∷ jobs)))))

  pub reap_expired_jobs-QueueInv : Keeps (QueueInv m) (reap_expired_jobs m)
  unfolding reap_expired_jobs
  reap_expired_jobs-QueueInv = record {
    after = λ s h.
        (reap_rows-QueueInv (s.clock s.readings) _ (
            select-tried m (is_expired (s.clock s.readings)) s.pending.jobs
              h.pending.bounded)).after
          (record s { readings = suc s.readings })
          (record { pending = h.pending; committed = h.committed });
  }
