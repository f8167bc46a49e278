-- ===== src/Tasks/Review.antt =====
-- app/services/tasks.py: the decision on a pending human review, and its claim.
use steh_v1_0_0_rc.Base.{
  ℕ, String, Bool, true, false, not, ◌&&◌, Option, none, some, nat_eq, leb, if◌then◌else◌, length,
  select, human_review_conflict,
}
use steh_v1_0_0_rc.Json.{Json, str, instant, obj, end, field}
use steh_v1_0_0_rc.Models.Task.{TaskStatus}
use steh_v1_0_0_rc.Models.Review.{
  HumanDecision, HumanReviewStatus, HumanReviewDecision, HumanReviewResume, HumanReviewArtifact,
}
use steh_v1_0_0_rc.Db.{
  TaskRecord, JobKind, Exec, ◌>>=◌, ◌>>◌, pure, raise, modify, gets, commit, rollback, utc_now,
  update_where, find_task,
}
use steh_v1_0_0_rc.Audit.{record_event}
use steh_v1_0_0_rc.Jobs.{new_job, add_job, record_job_queued}

abbrev pub expired_justification : String
expired_justification = "Human review request expired before a decision."

unfoldable pub resolve_review_outcome :
    HumanReviewArtifact → HumanReviewDecision → ℕ → HumanReviewStatus × String
resolve_review_outcome review payload decided_at =
    if leb review.expires_at decided_at
    then (HumanReviewStatus.expired, expired_justification)
    else (elim payload.decision [
      | HumanDecision.approve ↦ (HumanReviewStatus.approved, payload.justification)
      | HumanDecision.reject ↦ (HumanReviewStatus.rejected, payload.justification)
    ])

abbrev pub is_pending : HumanReviewStatus → Bool
is_pending HumanReviewStatus.pending = true
is_pending _ = false

abbrev pub awaits_review : TaskStatus → Bool
awaits_review TaskStatus.human_review = true
awaits_review _ = false

-- the `where` of the update in `claim_human_review`
abbrev pub claimable : ℕ → TaskRecord → Bool
claimable task_id task = nat_eq task.task_id task_id && awaits_review task.status

abbrev pub resuming : ℕ → TaskRecord → TaskRecord
resuming decided_at task = record task { status = TaskStatus.resuming; updated_at = decided_at }

abbrev pub outcome_text : HumanReviewStatus → String
outcome_text HumanReviewStatus.pending = "PENDING"
outcome_text HumanReviewStatus.approved = "APPROVED"
outcome_text HumanReviewStatus.rejected = "REJECTED"
outcome_text HumanReviewStatus.expired = "EXPIRED"

-- `resume.model_dump(mode="json")`
unfoldable pub dump_resume : HumanReviewResume → Json
dump_resume r = obj (
    field "status" (str (outcome_text r.status)) (
      field "reviewer" (str r.reviewer) (
        field "justification" (str r.justification)
          (field "decided_at" (instant r.decided_at) end))))

unfoldable pub resume_of :
    HumanReviewArtifact → HumanReviewDecision → String → ℕ → HumanReviewResume
unfolding resolve_review_outcome
resume_of review payload reviewer decided_at =
    let (outcome, justification) = resolve_review_outcome review payload decided_at in
    record {
      status = outcome;
      reviewer = reviewer;
      justification = justification;
      decided_at = decided_at;
    }

-- From the update on: `rowcount` rows matched its `where`.
unfoldable pub queue_resume : TaskRecord → HumanReviewResume → ℕ → Exec TaskRecord
unfolding new_job record_event dump_resume record_job_queued
queue_resume task resume rowcount =
    if not (nat_eq rowcount 1) then (do rollback; raise human_review_conflict) else (do
      job ← new_job task.task_id JobKind.resume_human_review (some resume)
      modify (add_job job)
      commit
      record_event task.task_id task.trace_id "HUMAN_REVIEW_DECIDED" resume.reviewer
          (dump_resume resume)
      record_job_queued task job
      pure (resuming resume.decided_at task))

-- For the row that was found and its review.
unfoldable pub claim_review :
    TaskRecord → HumanReviewArtifact → String → HumanReviewDecision → Exec TaskRecord
unfolding queue_resume resume_of
claim_review task review reviewer payload =
    if not (is_pending review.status) then raise human_review_conflict else (do
      decided_at ← utc_now
      rowcount ← gets (λ t. length (select (claimable task.task_id) t.tasks))
      modify (λ t. record t {
        tasks = update_where (claimable task.task_id) (resuming decided_at) t.tasks;
      })
      queue_resume task (resume_of review payload reviewer decided_at) rowcount)

-- For the row that `db.get` returned.
unfoldable pub claim_found : Option TaskRecord → String → HumanReviewDecision → Exec TaskRecord
unfolding claim_review
claim_found none reviewer payload = raise human_review_conflict
claim_found (some task) reviewer payload = elim task.human_review [
  | none ↦ raise human_review_conflict
  | some review ↦ claim_review task review reviewer payload
]

unfoldable pub claim_human_review : ℕ → String → HumanReviewDecision → Exec TaskRecord
unfolding claim_found
claim_human_review task_id reviewer payload = do
  task ← gets (find_task task_id)
  claim_found task reviewer payload
