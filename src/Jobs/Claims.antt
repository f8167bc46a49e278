-- ===== src/Jobs/Claims.antt =====
-- Which job a claim of app/services/jobs.py takes: the oldest that is queued, and none twice.
use steh_v1_0_0_rc.Base.{
  ℕ, ◌≤◌, String, ◌≡◌, ◌≢◌, refl, false, none, some, List, [], ◌∷◌, nat_eq, leb, select, All,
  Bool-cases, Option-cases, inl, inr, arith, ok,
}
use mathlib.Core.Path.{subst}
use steh_v1_0_0_rc.Db.{TaskJobRecord, Session, update_where}
use steh_v1_0_0_rc.Jobs.{is_queued, oldest, next_queued, claimed, claim_row, claim_next_job}
use steh_v1_0_0_rc.Jobs.Attempts.{All-mem, next_queued-mem}

-- Not younger than the row, if the row is queued.
abbrev pub NotAfter : TaskJobRecord → TaskJobRecord → Type 0
NotAfter job row = job.created_at ≤ row.created_at

NotAfter-le :
    (a b : TaskJobRecord) (js : List TaskJobRecord)
    → a.created_at ≤ b.created_at
    → All (NotAfter b) js
    → All (NotAfter a) js
NotAfter-le a b [] l h = tt
NotAfter-le a b (j ∷ js) l h = (omega (arith, l, h.0), NotAfter-le a b js l h.1)

oldest-NotAfter :
    (js : List TaskJobRecord) {job : TaskJobRecord} → oldest js ≡ some job → All (NotAfter job) js
unfolding oldest
oldest-NotAfter [] e = tt
oldest-NotAfter (x ∷ xs) {job} e = elim (Option-cases (oldest xs)) [
  | inl n ↦ oldest-alone x xs {job = job} n (ground arith)
  | inr (k, n) ↦ elim (Bool-cases (leb x.created_at k.created_at)) [
    | inl l ↦
        let same : x ≡ job = ground arith in
        subst (λ r. All (NotAfter r) (x ∷ xs)) same
          (omega arith, NotAfter-le x k xs (ground arith) (oldest-NotAfter xs n))
    | inr l ↦
        let same : k ≡ job = ground arith in
        subst (λ r. All (NotAfter r) (x ∷ xs)) same (ground arith, oldest-NotAfter xs n)
  ]
]
  where
    oldest-alone :
        (x : TaskJobRecord) (xs : List TaskJobRecord) {job : TaskJobRecord}
        → oldest xs ≡ none
        → x ≡ job
        → All (NotAfter job) (x ∷ xs)
    oldest-alone x [] n e = rw e (omega arith, tt)
    oldest-alone x (y ∷ ys) n e = absurd (ground arith)

pub oldest-none : (js : List TaskJobRecord) → oldest js ≡ none → js ≡ []
unfolding oldest
oldest-none [] e = refl
oldest-none (x ∷ xs) e = absurd (ground arith)

-- A claim returns no job only if no job is queued.
claims_unless_empty :
    (worker_id : String) (lease_seconds : ℕ) (s : Session) {s' : Session}
    → claim_next_job worker_id lease_seconds s ≡ (ok none, s')
    → select (λ j. is_queued j.status) s.pending.jobs ≡ []
unfolding claim_next_job claim_row next_queued
claims_unless_empty worker_id lease_seconds s h =
    elim (Option-cases (oldest (select (λ j. is_queued j.status) s.pending.jobs))) [
      | inl n ↦ oldest-none _ n
      | inr (k, n) ↦ absurd (ground arith)
    ]

-- The rows with the id are not queued.
abbrev Taken : ℕ → TaskJobRecord → Type 0
Taken id row = row.job_id ≡ id → is_queued row.status ≡ false

claimed-Taken :
    (id : ℕ) (worker_id : String) (now lease : ℕ) (js : List TaskJobRecord)
    → All (Taken id) (update_where (λ j. nat_eq j.job_id id) (claimed worker_id now lease) js)
claimed-Taken id worker_id now lease [] = tt
claimed-Taken id worker_id now lease (j ∷ js) = elim (Bool-cases (nat_eq j.job_id id)) [
  | inl e ↦ rw e (λ q. refl, claimed-Taken id worker_id now lease js)
  | inr e ↦ rw e (λ q. absurd (ground arith), claimed-Taken id worker_id now lease js)
]

claim-Taken :
    (worker_id : String) (lease_seconds : ℕ) (s : Session) {job : TaskJobRecord} {s' : Session}
    → claim_next_job worker_id lease_seconds s ≡ (ok (some job), s')
    → All (Taken job.job_id) s'.pending.jobs
unfolding claim_next_job claim_row
claim-Taken worker_id lease_seconds s {job} {s'} h = elim (Option-cases (next_queued s.pending)) [
  | inl n ↦ absurd (ground arith)
  | inr (k, n) ↦
      let same : job.job_id ≡ k.job_id = ground arith in
      let after : s'.pending.jobs
          ≡ update_where (λ j. nat_eq j.job_id k.job_id)
              (claimed worker_id (s.clock s.readings) lease_seconds) s.pending.jobs =
        ground arith in
      rw (same, after)
        (claimed-Taken k.job_id worker_id (s.clock s.readings) lease_seconds s.pending.jobs)
]

claim-queued :
    (worker_id : String) (lease_seconds : ℕ) (s : Session) {job : TaskJobRecord} {s' : Session}
    → claim_next_job worker_id lease_seconds s ≡ (ok (some job), s')
    → (k : TaskJobRecord) × (next_queued s.pending ≡ some k)
      × (job.job_id ≡ k.job_id)
      × (job.created_at ≡ k.created_at)
unfolding claim_next_job claim_row
claim-queued worker_id lease_seconds s {job} h = elim (Option-cases (next_queued s.pending)) [
  | inl n ↦ absurd (ground arith)
  | inr (k, n) ↦ (k, n, ground arith, ground arith)
]

-- If a claim returns a job, then no queued job was created earlier.
pub claims_oldest :
    (worker_id : String) (lease_seconds : ℕ) (s : Session) {job : TaskJobRecord} {s' : Session}
    → claim_next_job worker_id lease_seconds s ≡ (ok (some job), s')
    → All (NotAfter job) (select (λ j. is_queued j.status) s.pending.jobs)
unfolding next_queued
claims_oldest worker_id lease_seconds s {job} h =
    let (k, n, _, same) = claim-queued worker_id lease_seconds s h in
    NotAfter-le job k _ (omega arith) (oldest-NotAfter _ n)

-- Two claims, one after the other, by any workers, take different jobs.
pub claims_are_exclusive :
    (first second : String) (lease lease' : ℕ) (s : Session) {a b : TaskJobRecord}
    {s' s'' : Session}
    → claim_next_job first lease s ≡ (ok (some a), s')
    → claim_next_job second lease' s' ≡ (ok (some b), s'')
    → b.job_id ≢ a.job_id
claims_are_exclusive first second lease lease' s {a} {b} {s'} h k e =
    let (row, n, same, _) = claim-queued second lease' s' k in
    let (m, queued) = next_queued-mem s'.pending n in
    absurd (cc (All-mem (Taken a.job_id) s'.pending.jobs m (claim-Taken first lease s h) (cc)))
