-- ===== src/Tasks/Claim.antt =====
-- The claim of a human review: at most one decision is taken, and a refused one changes nothing.
use steh_v1_0_0_rc.Base.{
  ℕ, String, ◌≡◌, refl, inl, inr, List, [], ◌∷◌, ok, err, human_review_conflict, arith, Bool-cases,
  Option-cases, length, select,
}
use steh_v1_0_0_rc.Models.Review.{HumanReviewDecision}
use steh_v1_0_0_rc.Db.Rows.{find-key}
use steh_v1_0_0_rc.Db.{TaskRecord, Session, find_task, update_where}
use steh_v1_0_0_rc.Audit.{record_event}
use steh_v1_0_0_rc.Jobs.{new_job, record_job_queued}
use steh_v1_0_0_rc.Tasks.Review.{
  claimable, resuming, queue_resume, claim_review, claim_found, claim_human_review,
}

-- After the update no row of the task can be claimed.
none_claimable :
    (id now : ℕ) (ts : List TaskRecord)
    → length (select (claimable id) (update_where (claimable id) (resuming now) ts)) ≡ 0
none_claimable id now [] = refl
none_claimable id now (t ∷ ts) = elim (Bool-cases (claimable id t)) [
  | inl e ↦ ground (arith, none_claimable id now ts)
  | inr e ↦ ground (arith, none_claimable id now ts)
]

claim_without_rows :
    (id : ℕ) (reviewer : String) (payload : HumanReviewDecision) (s : Session)
    → length (select (claimable id) s.pending.tasks) ≡ 0
    → (claim_human_review id reviewer payload s).0 ≡ err human_review_conflict
unfolding claim_human_review claim_found claim_review queue_resume
claim_without_rows id reviewer payload s n = elim (Option-cases (find_task id s.pending)) [
  | inl e ↦ ground arith
  | inr (t, e) ↦ ground (arith, find-key (λ r. r.task_id) id s.pending.tasks e)
]

claimed-rows :
    (task_id : ℕ) (reviewer : String) (payload : HumanReviewDecision) (s : Session) {t : TaskRecord}
    {s' : Session}
    → claim_human_review task_id reviewer payload s ≡ (ok t, s')
    → length (select (claimable task_id) s'.pending.tasks) ≡ 0
unfolding claim_human_review claim_found claim_review queue_resume new_job record_event
    record_job_queued
claimed-rows task_id reviewer payload s h = elim (Option-cases (find_task task_id s.pending)) [
  | inl e ↦ ground arith
  | inr (t, e) ↦ ground (
    arith,
    find-key (λ r. r.task_id) task_id s.pending.tasks e,
    none_claimable task_id (s.clock s.readings) s.pending.tasks,
  )
]

-- Once a claim of a task's review has succeeded, every further claim of it on the same session raises a
-- conflict, whatever the decision and whoever decides.
pub one_decision :
    (task_id : ℕ) (reviewer : String) (payload : HumanReviewDecision) (s : Session) {t : TaskRecord}
    {s' : Session} (second : String) (other : HumanReviewDecision)
    → claim_human_review task_id reviewer payload s ≡ (ok t, s')
    → (claim_human_review task_id second other s').0 ≡ err human_review_conflict
one_decision task_id reviewer payload s {t} {s'} second other h =
    claim_without_rows task_id second other s' (claimed-rows task_id reviewer payload s h)
