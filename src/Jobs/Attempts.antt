-- ===== src/Jobs/Attempts.antt =====
-- No job is run more often than the policy allows: the bound on `attempts` through every operation on
-- the queue.
use steh_v1_0_0_rc.Base.{
  ℕ, ◌≤◌, ◌<◌, ◌≡◌, ◌≢◌, refl, Bool, true, some, List, [], ◌∷◌, leb, select, All, Bool-cases,
  Option-cases, inl, inr, arith,
}
use mathlib.Core.List.{Memᴰ}
use steh_v1_0_0_rc.Db.{TaskJobRecord, Tables, update_where}
use steh_v1_0_0_rc.Jobs.{is_queued, oldest, next_queued}

-- A job was tried at most `m` times, and less often if it is queued to be tried again.
pub record IsBounded (m : ℕ) (job : TaskJobRecord) : Type 0 where
  pub tried : job.attempts ≤ m
  pub room : is_queued job.status ≡ true → job.attempts < m

abbrev pub AllBounded : ℕ → List TaskJobRecord → Type 0
AllBounded m = All (IsBounded m)

-- No two rows have the same id: it is the primary key.
abbrev pub UniqueIds : List TaskJobRecord → Type 0
UniqueIds [] = Unit
UniqueIds (x ∷ xs) = All (λ y. y.job_id ≢ x.job_id) xs × UniqueIds xs

-- Rewriting the rows with one id keeps the bound if it holds of what they become.
pub update-AllBounded :
    (m : ℕ) (p : TaskJobRecord → Bool) (f : TaskJobRecord → TaskJobRecord) (js : List TaskJobRecord)
    → ((j : TaskJobRecord) → Memᴰ j js → p j ≡ true → IsBounded m j → IsBounded m (f j))
    → AllBounded m js
    → AllBounded m (update_where p f js)
update-AllBounded m p f [] keep h = tt
update-AllBounded m p f (j ∷ js) keep h = elim (Bool-cases (p j)) [
  | inl e ↦
      rw e (
        keep j (Memᴰ.head refl) e h.0,
        update-AllBounded m p f js (λ k i. keep k (Memᴰ.tail i)) h.1,
      )
  | inr e ↦ rw e (h.0, update-AllBounded m p f js (λ k i. keep k (Memᴰ.tail i)) h.1)
]

pub All-mem {ℓ κ} : {A : Type ℓ} (P : A → Type κ) {a : A} (xs : List A) → Memᴰ a xs → All P xs → P a
All-mem P [] i h = elim i [ ]
All-mem P (x ∷ xs) (Memᴰ.head e) h = rw e h.0
All-mem P (x ∷ xs) (Memᴰ.tail i) h = All-mem P xs i h.1

-- In a table with unique ids a row is determined by its id.
pub UniqueIds-same :
    (js : List TaskJobRecord) {a b : TaskJobRecord}
    → UniqueIds js
    → Memᴰ a js
    → Memᴰ b js
    → a.job_id ≡ b.job_id
    → a ≡ b
UniqueIds-same [] u i j e = elim i [ ]
UniqueIds-same (x ∷ xs) u (Memᴰ.head p) (Memᴰ.head q) e = cc
UniqueIds-same (x ∷ xs) u (Memᴰ.head p) (Memᴰ.tail j) e =
    absurd (All-mem (λ y. y.job_id ≢ x.job_id) xs j u.0 (cc))
UniqueIds-same (x ∷ xs) u (Memᴰ.tail i) (Memᴰ.head q) e =
    absurd (All-mem (λ y. y.job_id ≢ x.job_id) xs i u.0 (cc))
UniqueIds-same (x ∷ xs) u (Memᴰ.tail i) (Memᴰ.tail j) e = UniqueIds-same xs u.1 i j e

head_or_tail :
    (p : TaskJobRecord → Bool) {a : TaskJobRecord} (x : TaskJobRecord) (xs : List TaskJobRecord)
    → Memᴰ a (x ∷ select p xs)
    → p x ≡ true
    → (Memᴰ a (select p xs) → Memᴰ a xs × (p a ≡ true))
    → Memᴰ a (x ∷ xs) × (p a ≡ true)
head_or_tail p x xs (Memᴰ.head q) e later = (Memᴰ.head q, rw q e)
head_or_tail p x xs (Memᴰ.tail j) e later = let (k, q) = later j in (Memᴰ.tail k, q)

-- The row that a claim takes is a queued row of the table.
pub Memᴰ-select :
    (p : TaskJobRecord → Bool) {a : TaskJobRecord} (xs : List TaskJobRecord)
    → Memᴰ a (select p xs)
    → Memᴰ a xs × (p a ≡ true)
Memᴰ-select p [] i = elim i [ ]
Memᴰ-select p (x ∷ xs) i = elim (Bool-cases (p x)) [
  | inl e ↦ head_or_tail p x xs (rw e at i) e (λ j. Memᴰ-select p xs j)
  | inr e ↦ let (j, q) = Memᴰ-select p xs (rw e at i) in (Memᴰ.tail j, q)
]

pub oldest-mem : (js : List TaskJobRecord) {j : TaskJobRecord} → oldest js ≡ some j → Memᴰ j js
unfolding oldest
oldest-mem [] e = cc
oldest-mem (x ∷ xs) e = elim (Option-cases (oldest xs)) [
  | inl n ↦ Memᴰ.head (ground arith)
  | inr (k, n) ↦ elim (Bool-cases (leb x.created_at k.created_at)) [
    | inl l ↦ Memᴰ.head (ground arith)
    | inr l ↦ Memᴰ.tail (oldest-mem xs (ground arith))
  ]
]

-- The job that a claim takes is a queued job of the table.
pub next_queued-mem :
    (t : Tables) {j : TaskJobRecord}
    → next_queued t ≡ some j
    → Memᴰ j t.jobs × (is_queued j.status ≡ true)
unfolding next_queued
next_queued-mem t e = Memᴰ-select (λ j. is_queued j.status) t.jobs (oldest-mem _ e)
