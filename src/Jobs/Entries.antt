-- ===== src/Jobs/Entries.antt =====
-- The rows of app/services/jobs.py as entries of the lifecycle, and how writes to rows read there.
use steh_v1_0_0_rc.Base.{
  ℕ, ◌<◌, ◌≡◌, ◌≢◌, refl, Bool, true, false, List, [], ◌∷◌, map, nat_eq, select, All, Bool-cases,
  inl, inr, arith,
}
use mathlib.Core.List.{Memᴰ}
use steh_v1_0_0_rc.Db.{TaskJobRecord, JobStatus, update_where}
use steh_v1_0_0_rc.Jobs.{is_queued, is_running}
use steh_v1_0_0_rc.Jobs.Lifecycle.{Entry, entry, put}

abbrev pub entries : List TaskJobRecord → List Entry
entries js = map entry js

-- A write to the rows with an id is a write to the entries with it.
pub entries-update :
    (id : ℕ) (f : TaskJobRecord → TaskJobRecord) (g : Entry → Entry)
    → ((j : TaskJobRecord) → entry (f j) ≡ g (entry j))
    → (js : List TaskJobRecord)
    → entries (update_where (λ j. nat_eq j.job_id id) f js) ≡ put id g (entries js)
entries-update id f g same [] = refl
entries-update id f g same (j ∷ js) = elim (Bool-cases (nat_eq j.job_id id)) [
  | inl e ↦ rw e (cc (same j, entries-update id f g same js))
  | inr e ↦ rw e (cc (entries-update id f g same js))
]

-- A write that moves no entry.
pub entries-same :
    (p : TaskJobRecord → Bool) (f : TaskJobRecord → TaskJobRecord)
    → ((j : TaskJobRecord) → entry (f j) ≡ entry j)
    → (js : List TaskJobRecord) → entries (update_where p f js) ≡ entries js
entries-same p f same [] = refl
entries-same p f same (j ∷ js) = elim (Bool-cases (p j)) [
  | inl e ↦ rw e (cc (same j, entries-same p f same js))
  | inr e ↦ rw e (cc (entries-same p f same js))
]

pub entries-mem :
    {job : TaskJobRecord} (js : List TaskJobRecord) → Memᴰ job js → Memᴰ (entry job) (entries js)
entries-mem [] i = elim i [ ]
entries-mem (j ∷ js) (Memᴰ.head e) = Memᴰ.head (cc e)
entries-mem (j ∷ js) (Memᴰ.tail i) = Memᴰ.tail (entries-mem js i)

pub entries-fresh :
    (n : ℕ) (js : List TaskJobRecord)
    → All (λ j. j.job_id < n) js
    → All (λ e. e.id ≢ n) (entries js)
entries-fresh n [] h = tt
entries-fresh n (j ∷ js) h = (λ e. omega (arith, e, h.0), entries-fresh n js h.1)

pub entries-idle :
    (js : List TaskJobRecord)
    → select (λ j. is_queued j.status) js ≡ []
    → All (λ e. is_queued e.status ≡ false) (entries js)
entries-idle [] h = tt
entries-idle (j ∷ js) h = elim (Bool-cases (is_queued j.status)) [
  | inl e ↦ absurd (ground arith)
  | inr e ↦ (e, entries-idle js (rw e at h))
]

pub is_queued-eq : (s : JobStatus) → is_queued s ≡ true → s ≡ JobStatus.queued
is_queued-eq JobStatus.queued h = refl
is_queued-eq JobStatus.running h = cc
is_queued-eq JobStatus.succeeded h = cc
is_queued-eq JobStatus.failed h = cc

pub is_running-eq : (s : JobStatus) → is_running s ≡ true → s ≡ JobStatus.running
is_running-eq JobStatus.running h = refl
is_running-eq JobStatus.queued h = cc
is_running-eq JobStatus.succeeded h = cc
is_running-eq JobStatus.failed h = cc
