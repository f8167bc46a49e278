-- ===== src/Jobs/Reaping.antt =====
-- What the reaper of app/services/jobs.py does to the rows of jobs, and to their entries.
use steh_v1_0_0_rc.Base.{
  ℕ, ◌≡◌, refl, true, List, [], ◌∷◌, ◌++◌, nat_eq, ltb, select, length, Bool-cases, inl, inr, arith,
  ok,
}
use mathlib.Core.List.{Memᴰ}
use steh_v1_0_0_rc.Db.{TaskJobRecord, Session, update_where, find_task}
use steh_v1_0_0_rc.Jobs.Reaper.{
  Outcome, outcome_of, abandonable, is_expired, reaped, requeued, given_up, abandon_agent_runs,
  reap_job, reap_all,
}
use steh_v1_0_0_rc.Jobs.Attempts.{UniqueIds, UniqueIds-same}
use steh_v1_0_0_rc.Jobs.Lifecycle.{entry, Reaped, AllReaped}
use steh_v1_0_0_rc.Jobs.Entries.{entries, is_running-eq}

-- A row before the reaper, and after some of the expired rows were reaped.
pub data Row (m now : ℕ) (o : TaskJobRecord) : TaskJobRecord → Type 0 where
  kept : Row m now o o
  taken : is_expired now o ≡ true → Row m now o (reaped m now o)

pub data Rows (m now : ℕ) : List TaskJobRecord → List TaskJobRecord → Type 0 where
  nil : Rows m now [] []
  cons :
      {o c : TaskJobRecord} {os cs : List TaskJobRecord}
      → Row m now o c
      → Rows m now os cs
      → Rows m now (o ∷ os) (c ∷ cs)

pub Rows-refl : (m now : ℕ) (js : List TaskJobRecord) → Rows m now js js
Rows-refl m now [] = Rows.nil
Rows-refl m now (j ∷ js) = Rows.cons Row.kept (Rows-refl m now js)

Row-id : (m now : ℕ) {o c : TaskJobRecord} → Row m now o c → c.job_id ≡ o.job_id
unfolding reaped requeued given_up
Row-id m now Row.kept = refl
Row-id m now {o} (Row.taken e) = ground arith

-- Writing over the rows with the id of an expired row takes that row.
reap_row-Rows :
    (m now : ℕ) (job : TaskJobRecord)
    → is_expired now job ≡ true
    → {os cs : List TaskJobRecord}
    → ((o : TaskJobRecord) → Memᴰ o os → o.job_id ≡ job.job_id → o ≡ job)
    → Rows m now os cs
    → Rows m now os (update_where (λ j. nat_eq j.job_id job.job_id) (λ _. reaped m now job) cs)
reap_row-Rows m now job x same Rows.nil = Rows.nil
reap_row-Rows m now job x same (Rows.cons {o} {c} r rs) =
    let rest = reap_row-Rows m now job x (λ k i. same k (Memᴰ.tail i)) rs in
    elim (Bool-cases (nat_eq c.job_id job.job_id)) [
      | inl e ↦
          let id = Row-id m now r in
          let is = same o (Memᴰ.head refl) (ground arith) in
          rw e (Rows.cons (rw (← is) (Row.taken (rw is x))) rest)
      | inr e ↦ rw e (Rows.cons r rest)
    ]

Row-Reaped : (m now : ℕ) {o c : TaskJobRecord} → Row m now o c → Reaped m (entry o) (entry c)
unfolding reaped requeued given_up is_expired
Row-Reaped m now Row.kept = Reaped.left
Row-Reaped m now {o} (Row.taken e) =
    let running = is_running-eq o.status (ground arith) in
    elim (Bool-cases (ltb o.attempts m)) [
      | inl t ↦ rw t (Reaped.retried running (ground arith))
      | inr t ↦ rw t (Reaped.given_up running (ground arith))
    ]

pub Rows-AllReaped :
    (m now : ℕ) {os cs : List TaskJobRecord}
    → Rows m now os cs
    → AllReaped m (entries os) (entries cs)
Rows-AllReaped m now Rows.nil = AllReaped.nil
Rows-AllReaped m now (Rows.cons r rs) =
    AllReaped.cons (Row-Reaped m now r) (Rows-AllReaped m now rs)

-- The loop of the reaper returns, and has taken expired rows only.
pub reap_all-Rows :
    (m now : ℕ) (os left : List TaskJobRecord) (s : Session)
    → UniqueIds os
    → ((j : TaskJobRecord) → Memᴰ j left → Memᴰ j os × (is_expired now j ≡ true))
    → Rows m now os s.pending.jobs
    → (outcomes : List Outcome) × (s' : Session) × (reap_all m now left s ≡ (ok outcomes, s'))
      × Rows m now os s'.pending.jobs
unfolding reap_all reap_job abandon_agent_runs
reap_all-Rows m now os [] s u h rows = ([], s, refl, rows)
reap_all-Rows m now os (job ∷ left) s u h rows =
    let (i, x) = h job (Memᴰ.head refl) in
    let (rest, s', e, done) =
      reap_all-Rows m now os left (reap_job m now job s).1 u (λ j k. h j (Memᴰ.tail k))
        (reap_row-Rows m now job x (λ o k q. UniqueIds-same os u k i q) rows) in
    let first =
      outcome_of (reaped m now job) (ltb job.attempts m)
        (length (select (abandonable job.task_id) s.pending.agent_runs))
        (find_task job.task_id s.pending) in
    (first ++ rest, s', rw e, done)
