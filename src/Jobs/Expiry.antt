-- ===== src/Jobs/Expiry.antt =====
-- The reaper of app/services/jobs.py leaves no job whose lease had expired.
use steh_v1_0_0_rc.Base.{
  ℕ, suc, ◌≡◌, refl, true, false, not, ◌||◌, List, [], ◌∷◌, ◌++◌, length, nat_eq, ltb, any, select,
  All, Bool-cases, inl, inr, arith, ok,
}
use steh_v1_0_0_rc.Db.{TaskJobRecord, Session, update_where, find_task}
use mathlib.Core.Path.{subst, sym}
use steh_v1_0_0_rc.Db.Keeps.{Keeps, pure-Keeps, bind-Keeps}
use steh_v1_0_0_rc.Audit.{record_event}
use steh_v1_0_0_rc.Jobs.Reaper.{
  Outcome, outcome_of, abandonable, is_expired, reaped, requeued, given_up, abandon_agent_runs,
  reap_job, reap_all, record_outcome, record_outcomes, reap_rows, reap_expired_jobs,
}

-- If the row is expired then it is one of those that are left to reap.
abbrev Pending : ℕ → List TaskJobRecord → TaskJobRecord → Type 0
Pending now left row =
    (not (is_expired now row) || any (λ r. nat_eq row.job_id r.job_id) left) ≡ true

reaped-expired : (m now : ℕ) (job : TaskJobRecord) → is_expired now (reaped m now job) ≡ false
unfolding is_expired reaped requeued given_up
reaped-expired m now job = ground arith

reap_row-Pending :
    (m now : ℕ) (job : TaskJobRecord) (left js : List TaskJobRecord)
    → All (Pending now (job ∷ left)) js
    → All
        (Pending now left)
        (update_where (λ j. nat_eq j.job_id job.job_id) (λ _. reaped m now job) js)
reap_row-Pending m now job left [] h = tt
reap_row-Pending m now job left (j ∷ js) h = elim (Bool-cases (nat_eq j.job_id job.job_id)) [
  | inl e ↦ rw e (ground (arith, reaped-expired m now job), reap_row-Pending m now job left js h.1)
  | inr e ↦ rw e (ground arith, reap_row-Pending m now job left js h.1)
]

Pending-more :
    (now : ℕ) (job : TaskJobRecord) (left js : List TaskJobRecord)
    → All (Pending now left) js
    → All (Pending now (job ∷ left)) js
Pending-more now job left [] h = tt
Pending-more now job left (j ∷ js) h = (ground arith, Pending-more now job left js h.1)

select-Pending :
    (now : ℕ) (js : List TaskJobRecord) → All (Pending now (select (is_expired now) js)) js
select-Pending now [] = tt
select-Pending now (j ∷ js) = elim (Bool-cases (is_expired now j)) [
  | inl e ↦
      let sel : select (is_expired now) (j ∷ js) ≡ j ∷ select (is_expired now) js = rw e in
      subst (λ l. All (Pending now l) (j ∷ js)) (sym sel)
        (ground arith, Pending-more now j (select (is_expired now) js) js (select-Pending now js))
  | inr e ↦
      let sel : select (is_expired now) (j ∷ js) ≡ select (is_expired now) js = rw e in
      subst (λ l. All (Pending now l) (j ∷ js)) (sym sel) (ground arith, select-Pending now js)
]

-- The loop of the reaper returns, and has no expired row left.
reap_all-Pending :
    (m now : ℕ) (left : List TaskJobRecord) (s : Session)
    → All (Pending now left) s.pending.jobs
    → (outcomes : List Outcome) × (s' : Session) × (reap_all m now left s ≡ (ok outcomes, s'))
      × All (Pending now []) s'.pending.jobs
unfolding reap_all reap_job abandon_agent_runs
reap_all-Pending m now [] s h = ([], s, refl, h)
reap_all-Pending m now (job ∷ left) s h =
    let (rest, s', e, done) =
      reap_all-Pending m now left (reap_job m now job s).1
        (reap_row-Pending m now job left s.pending.jobs h) in
    let first =
      outcome_of (reaped m now job) (ltb job.attempts m)
        (length (select (abandonable job.task_id) s.pending.agent_runs))
        (find_task job.task_id s.pending) in
    (first ++ rest, s', rw e, done)

-- No row that was expired at the time is left, in the pending or the committed tables.
abbrev Clear : ℕ → Session → Type 0
Clear now s = All (Pending now []) s.pending.jobs × All (Pending now []) s.committed.jobs

record_outcome-Clear : (m now : ℕ) (o : Outcome) → Keeps (Clear now) (record_outcome m o)
unfolding record_outcome record_event
record_outcome-Clear m now o = record { after = λ s h. (h.0, h.0) }

record_outcomes-Clear : (m now : ℕ) (os : List Outcome) → Keeps (Clear now) (record_outcomes m os)
unfolding record_outcomes
record_outcomes-Clear m now [] = pure-Keeps _
record_outcomes-Clear m now (o ∷ os) =
    bind-Keeps _ _ (record_outcome-Clear m now o) (λ u. record_outcomes-Clear m now os)

reap_rows-Clear :
    (m now : ℕ) (left : List TaskJobRecord) (s : Session)
    → s.committed.jobs ≡ s.pending.jobs
    → All (Pending now left) s.pending.jobs
    → Clear now (reap_rows m now left s).1
unfolding reap_rows
reap_rows-Clear m now [] s e h = rw e (h, h)
reap_rows-Clear m now (job ∷ left) s e h =
    let (outcomes, s', run, done) = reap_all-Pending m now (job ∷ left) s h in
    rw run (
      (bind-Keeps {P = Clear now} _ _ (record_outcomes-Clear m now outcomes)
          (λ u. pure-Keeps _)).after
        (record s' { committed = s'.pending }) (done, done))

Pending-none :
    (now : ℕ) (js : List TaskJobRecord)
    → All (Pending now []) js
    → All (λ j. is_expired now j ≡ false) js
Pending-none now [] h = tt
Pending-none now (j ∷ js) h = (ground arith, Pending-none now js h.1)

-- If the session has no uncommitted change to the jobs, then after the reaper no committed job is
-- running under a lease that had expired when the reaper started.
pub reap_leaves_none_expired :
    (m : ℕ) (s : Session)
    → s.committed.jobs ≡ s.pending.jobs
    → All (λ j. is_expired (s.clock s.readings) j ≡ false) (reap_expired_jobs m s).1.committed.jobs
unfolding reap_expired_jobs
reap_leaves_none_expired m s e =
    Pending-none _ _
      (reap_rows-Clear m (s.clock s.readings) _ (record s { readings = suc s.readings }) e
        (select-Pending (s.clock s.readings) s.pending.jobs)).1
