-- ===== src/Api/Completing.antt =====
-- When `external_validation` of app/api/routes/tasks.py completes a task.
use mathlib.Core.Path.{subst}
use steh_v1_0_0_rc.Base.{
  ℕ, ◌+◌, ◌<◌, ◌≡◌, refl, sym, ap, ◌∙◌, String, true, false, inl, inr, some, List, [], ◌∷◌, All,
  arith, Bool-cases, Option-cases, Result, ok, err,
}
use steh_v1_0_0_rc.Json.{Json}
use steh_v1_0_0_rc.Models.Task.{TaskStatus, ReworkDecision}
use steh_v1_0_0_rc.Rework.{ReworkPolicy, decide}
use steh_v1_0_0_rc.Db.{TaskRecord, Session, find_task, lift, >>=-eq-ok as Exec_eq_ok}
use steh_v1_0_0_rc.Db.Rows.{find-update}
use steh_v1_0_0_rc.Audit.{record_event}
use steh_v1_0_0_rc.Tools.Scanners.{ScannerEvidence}
use steh_v1_0_0_rc.Api.Responses.{Answer, answered}
use steh_v1_0_0_rc.Api.ExternalValidation.{
  reasons_of, status_after, with_scan, serialized, Validated, is_implemented, store, conclude,
  concluded, external_validation,
}
use steh_v1_0_0_rc.Api.Clean.{IsClean, no_reasons-IsClean, IsClean-no_reasons}

decided_completed :
    (policy : ReworkPolicy) (n : ℕ) (reasons : List String) {d : ReworkDecision}
    → decide policy n reasons ≡ ok d
    → status_after d ≡ TaskStatus.completed
    → reasons ≡ []
unfolding decide status_after
decided_completed policy n [] h c = refl
decided_completed policy n (x ∷ xs) h c = absurd (ground arith)

abbrev status_of : Result (Answer Validated) → TaskStatus
status_of (ok (answered v)) = v.status
status_of _ = TaskStatus.created

no_reasons_decision :
    (policy : ReworkPolicy) (n : ℕ)
    → 0 < policy.max_attempts
    → decide policy n []
      ≡ ok (record {
        required = false;
        attempt = n;
        max_attempts = policy.max_attempts;
        exhausted = false;
        automatic = policy.automatic;
        reasons = [];
      })
unfolding decide
no_reasons_decision policy n m = ground arith

-- What a task that the route completed shows.
abbrev pub IsCompletedBy : List ScannerEvidence → ℕ → Session → Type 0
IsCompletedBy evidence task_id t =
    (task : TaskRecord) × (find_task task_id t.committed ≡ some task)
    × (task.status ≡ TaskStatus.completed)
    × (task.external_scan ≡ some (serialized evidence))

store_lem :
    (task_id : ℕ) (task : TaskRecord) (evidence : List ScannerEvidence) (decision : ReworkDecision)
    (s : Session) {v : Validated} {t : Session}
    → find_task task_id s.pending ≡ some task
    → store task_id task evidence decision s ≡ (ok (answered v), t)
    → (v.status ≡ status_after decision)
      × (find_task task_id t.committed ≡ some (with_scan evidence decision task))
unfolding store record_event with_scan
store_lem task_id task evidence decision s e h = (
  sym (ap (λ p. status_of p.0) h),
  subst (λ u. find_task task_id u.committed ≡ some (with_scan evidence decision task))
      (ap (λ p. p.1) h)
      (find-update (λ r. r.task_id) task_id (with_scan evidence decision) (λ r. refl)
        s.pending.tasks e),
)

module _ (show : Json → String) (policy : ReworkPolicy) where
  conclude_completed :
      (task_id : ℕ) (task : TaskRecord) (evidence : List ScannerEvidence) (s : Session)
      {v : Validated} {t : Session}
      → find_task task_id s.pending ≡ some task
      → conclude show policy task_id task evidence s ≡ (ok (answered v), t)
      → v.status ≡ TaskStatus.completed
      → All IsClean evidence × IsCompletedBy evidence task_id t
  unfolding conclude with_scan
  conclude_completed task_id task evidence s {v} {t} e h c =
      let (reasons, s1, f, r) = Exec_eq_ok (lift (reasons_of show evidence)) _ s h in
      let (decision, s2, d, q) =
        Exec_eq_ok (lift (decide policy (task.rework_count + 1) reasons)) _ s1 r in
      let found : reasons_of show evidence ≡ ok reasons = ap (λ p. p.0) f in
      let made : decide policy (task.rework_count + 1) reasons ≡ ok decision = ap (λ p. p.0) d in
      let same : s ≡ s2 = ap (λ p. p.1) f ∙ ap (λ p. p.1) d in
      let (status, stored) = store_lem task_id task evidence decision s e (rw (← same) at q) in
      let done : status_after decision ≡ TaskStatus.completed = cc (status, c) in
      let none_found = decided_completed policy (task.rework_count + 1) reasons made done in
      (
        no_reasons-IsClean show evidence (cc (found, none_found)),
        (with_scan evidence decision task, stored, done, refl),
      )

  module _ (run : ℕ → Result (List ScannerEvidence)) where
    -- A task that the route completes is completed in the committed tables with the evidence of the
    -- scanners, each of which ran and found nothing that is rated high or critical.
    pub completed-IsClean :
        (task_id : ℕ) (s : Session) {v : Validated} {t : Session}
        → external_validation show policy run task_id s ≡ (ok (answered v), t)
        → v.status ≡ TaskStatus.completed
        → (evidence : List ScannerEvidence) × (run task_id ≡ ok evidence)
          × All IsClean evidence
          × IsCompletedBy evidence task_id t
    unfolding external_validation
    completed-IsClean task_id s {v} {t} h c = elim (Option-cases (find_task task_id s.pending)) [
      | inl e ↦ absurd (cc (rw (e, external_validation) at h))
      | inr (task, e) ↦ elim (Bool-cases (is_implemented task.implementation)) [
        | inr i ↦ absurd (cc (rw (e, external_validation, i) at h))
        | inl i ↦ scanned task e (rw (e, external_validation, i) at h) (run task_id) refl
      ]
    ]
      where
        scanned :
            (task : TaskRecord)
            → find_task task_id s.pending ≡ some task
            → concluded show policy task_id task (run task_id) s ≡ (ok (answered v), t)
            → (r : Result (List ScannerEvidence)) → run task_id ≡ r
            → (evidence : List ScannerEvidence) × (run task_id ≡ ok evidence)
              × All IsClean evidence
              × IsCompletedBy evidence task_id t
        scanned task e k (err x) ran = absurd (cc (rw ran at k))
        scanned task e k (ok evidence) ran =
            let (clean, done) = conclude_completed task_id task evidence s e (rw ran at k) c in
            (evidence, ran, clean, done)

    -- If the scanners run and find nothing severe, a task with an implementation is completed, whatever
    -- its status was, and one more rework is counted.
    pub clean_scan_completes :
        (task_id : ℕ) (s : Session) {task : TaskRecord} {evidence : List ScannerEvidence}
        → 0 < policy.max_attempts
        → find_task task_id s.pending ≡ some task
        → is_implemented task.implementation ≡ true
        → run task_id ≡ ok evidence
        → All IsClean evidence
        → (stored : TaskRecord) × (find_task task_id
              (external_validation show policy run task_id s).1.committed
            ≡ some stored)
          × (stored.status ≡ TaskStatus.completed)
          × (stored.rework_count ≡ task.rework_count + 1)
    unfolding external_validation conclude store record_event with_scan status_after
    clean_scan_completes task_id s {task} {evidence} m e i ran clean =
        let decision : ReworkDecision = record {
          required = false;
          attempt = task.rework_count + 1;
          max_attempts = policy.max_attempts;
          exhausted = false;
          automatic = policy.automatic;
          reasons = [];
        } in
        (
          with_scan evidence decision task,
          rw
              (
                e,
                i,
                ran,
                IsClean-no_reasons show evidence clean,
                no_reasons_decision policy (task.rework_count + 1) m,
              )
              (find-update (λ r. r.task_id) task_id (with_scan evidence decision) (λ r. refl)
                s.pending.tasks e),
          refl,
          refl,
        )
