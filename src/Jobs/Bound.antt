-- ===== src/Jobs/Bound.antt =====
-- The invariant of the queue, kept by every operation on it: attempts stay within the policy's limit,
-- and ids stay unique.
use steh_v1_0_0_rc.Base.{
  ℕ, suc, ◌+◌, ◌<◌, String, ◌≡◌, ◌≢◌, refl, Bool, true, false, Option, none, some, List, [], ◌∷◌,
  ◌++◌, nat_eq, All, All-append, Bool-cases, inl, inr, arith,
}
use steh_v1_0_0_rc.Json.{Json}
use steh_v1_0_0_rc.Db.{TaskJobRecord, JobStatus, Tables, Session, update_where, update_job}
use steh_v1_0_0_rc.Db.Keeps.{Keeps}
use steh_v1_0_0_rc.Audit.{record_event}
use steh_v1_0_0_rc.Jobs.{
  is_queued, next_queued, claimed, claim_row, claim_next_job, holds_lease, renew_lease, finish_job,
  short_error,
}
use steh_v1_0_0_rc.Jobs.Attempts.{
  IsBounded, AllBounded, UniqueIds, update-AllBounded, All-mem, UniqueIds-same, next_queued-mem,
}
use mathlib.Core.List.{Memᴰ}

-- A table of jobs whose ids were drawn below `fresh`.
pub record TableInv (m fresh : ℕ) (js : List TaskJobRecord) : Type 0 where
  pub bounded : AllBounded m js
  pub unique : UniqueIds js
  pub drawn : All (λ j. j.job_id < fresh) js

pub record QueueInv (m : ℕ) (s : Session) : Type 0 where
  pub pending : TableInv m s.fresh s.pending.jobs
  pub committed : TableInv m s.fresh s.committed.jobs

drawn-suc :
    (n : ℕ) (js : List TaskJobRecord) → All (λ j. j.job_id < n) js → All (λ j. j.job_id < suc n) js
drawn-suc n [] h = tt
drawn-suc n (j ∷ js) h = (omega (arith, h.0), drawn-suc n js h.1)

pub TableInv-suc : (m n : ℕ) (js : List TaskJobRecord) → TableInv m n js → TableInv m (suc n) js
TableInv-suc m n js h = record {
  bounded = h.bounded;
  unique = h.unique;
  drawn = drawn-suc n js h.drawn;
}

module _ (p : TaskJobRecord → Bool) (f : TaskJobRecord → TaskJobRecord)
    (same : (j : TaskJobRecord) → p j ≡ true → (f j).job_id ≡ j.job_id) where
  update-ids {κ} :
      (P : ℕ → Type κ) (js : List TaskJobRecord)
      → All (λ j. P j.job_id) js
      → All (λ j. P j.job_id) (update_where p f js)
  update-ids P [] h = tt
  update-ids P (j ∷ js) h = elim (Bool-cases (p j)) [
    | inl e ↦ rw e ((rw (same j e) h.0), update-ids P js h.1)
    | inr e ↦ rw e (h.0, update-ids P js h.1)
  ]

  update-UniqueIds : (js : List TaskJobRecord) → UniqueIds js → UniqueIds (update_where p f js)
  update-UniqueIds [] h = tt
  update-UniqueIds (j ∷ js) h = elim (Bool-cases (p j)) [
    | inl e ↦ rw e (rw (same j e) (update-ids (λ n. n ≢ j.job_id) js h.0), update-UniqueIds js h.1)
    | inr e ↦ rw e (update-ids (λ n. n ≢ j.job_id) js h.0, update-UniqueIds js h.1)
  ]

  pub update-TableInv :
      (m fresh : ℕ) (js : List TaskJobRecord)
      → ((j : TaskJobRecord) → Memᴰ j js → p j ≡ true → IsBounded m j → IsBounded m (f j))
      → TableInv m fresh js
      → TableInv m fresh (update_where p f js)
  update-TableInv m fresh js keep h = record {
    bounded = update-AllBounded m p f js keep h.bounded;
    unique = update-UniqueIds js h.unique;
    drawn = update-ids (λ n. n < fresh) js h.drawn;
  }

UniqueIds-append :
    (n : ℕ) (js : List TaskJobRecord) (j : TaskJobRecord)
    → j.job_id ≡ n
    → UniqueIds js
    → All (λ k. k.job_id < n) js
    → UniqueIds (js ++ j ∷ [])
UniqueIds-append n [] j e u d = (tt, tt)
UniqueIds-append n (k ∷ js) j e u d = (
  All-append (λ y. y.job_id ≢ k.job_id) js (j ∷ []) u.0 ((λ q. omega (arith, q, e, d.0)), tt),
  UniqueIds-append n js j e u.1 d.1,
)

pub add_job-TableInv :
    (m n : ℕ) (js : List TaskJobRecord) (j : TaskJobRecord)
    → IsBounded m j
    → j.job_id ≡ n
    → TableInv m n js
    → TableInv m (suc n) (js ++ j ∷ [])
add_job-TableInv m n js j b e h = record {
  bounded = All-append (IsBounded m) js (j ∷ []) h.bounded (b, tt);
  unique = UniqueIds-append n js j e h.unique h.drawn;
  drawn = All-append (λ j. j.job_id < suc n) js (j ∷ []) (drawn-suc n js h.drawn) (omega arith, tt);
}

-- The step of the invariant for the actions that touch no job: they only draw ids.
suc-QueueInv :
    {m : ℕ} (s : Session)
    → TableInv m s.fresh s.pending.jobs
    → TableInv m (suc s.fresh) s.pending.jobs
suc-QueueInv s h = TableInv-suc _ s.fresh s.pending.jobs h

module _ (m : ℕ) where
  pub record_event-QueueInv :
      (task_id trace_id : ℕ) (event_type actor : String) (payload : Json)
      → Keeps (QueueInv m) (record_event task_id trace_id event_type actor payload)
  unfolding record_event
  record_event-QueueInv task_id trace_id event_type actor payload = record {
    after =
        λ s h. record { pending = suc-QueueInv s h.pending; committed = suc-QueueInv s h.pending };
  }

  -- Claiming turns a queued job, which has room for one more attempt, into a running one.
  claim_job-TableInv :
      (worker_id : String) (now lease n : ℕ) (t : Tables) (job : TaskJobRecord)
      → next_queued t ≡ some job
      → TableInv m n t.jobs
      → TableInv m n (update_job job.job_id (claimed worker_id now lease) t).jobs
  claim_job-TableInv worker_id now lease n t job e h =
      let (i, q) = next_queued-mem t e in
      let room = (All-mem (IsBounded m) t.jobs i h.bounded).room q in
      update-TableInv (λ j. nat_eq j.job_id job.job_id) (claimed worker_id now lease) (λ j p. refl)
        m n t.jobs
        (λ j k p b.
          let same = UniqueIds-same t.jobs h.unique k i (ground arith) in
          record { tried = rw same (omega (arith, room)); room = λ c. cc })
        h

  pub claim_next_job-QueueInv :
      (worker_id : String) (lease : ℕ) → Keeps (QueueInv m) (claim_next_job worker_id lease)
  unfolding claim_next_job claim_row
  claim_next_job-QueueInv worker_id lease = record {
    after = λ s h. go s (next_queued s.pending) refl h;
  }
    where
      go :
          (s : Session) (o : Option TaskJobRecord)
          → next_queued s.pending ≡ o
          → QueueInv m s
          → QueueInv m (claim_row worker_id lease o s).1
      go s none e h = record { pending = h.committed; committed = h.committed }
      go s (some job) e h =
          let t =
            claim_job-TableInv worker_id (s.clock s.readings) lease s.fresh s.pending job e
              h.pending in
          record { pending = t; committed = t }

  pub renew_lease-QueueInv :
      (job_id : ℕ) (worker_id : String) (lease : ℕ)
      → Keeps (QueueInv m) (renew_lease job_id worker_id lease)
  unfolding renew_lease
  renew_lease-QueueInv job_id worker_id lease = record {
    after = λ s h.
        let t =
          update-TableInv (holds_lease job_id worker_id)
            (λ j. record j { lease_expires_at = some (s.clock s.readings + lease) }) (λ j p. refl) m
            s.fresh s.pending.jobs (λ j k p b. record { tried = b.tried; room = b.room })
            h.pending in
        record { pending = t; committed = t };
  }

  -- A job is finished as succeeded or failed, never as queued.
  pub finish_job-QueueInv :
      (job_id : ℕ) (status : JobStatus) (error_type : Option String)
      → is_queued status ≡ false
      → Keeps (QueueInv m) (finish_job job_id status error_type)
  unfolding finish_job
  finish_job-QueueInv job_id status error_type n = record {
    after = λ s h.
        let t =
          update-TableInv (λ j. nat_eq j.job_id job_id)
            (λ j. record j {
              status = status;
              finished_at = some (s.clock s.readings);
              lease_expires_at = none;
              last_error = short_error error_type;
            })
            (λ j p. refl) m s.fresh s.pending.jobs
            (λ j k p b. record { tried = b.tried; room = λ q. cc }) h.pending in
        record { pending = t; committed = t };
  }
