-- ===== src/Workflow/Security.antt =====
-- What the security gate and the validation gate establish under the shipped policies.
use steh_v1_0_0_rc.Base.{
  ℕ, String, ◌≡◌, ◌≢◌, true, false, ◌⊎◌, inl, inr, eq_refl, Option, some, List, [], ◌∷◌, ok, arith,
  >>=-eq-ok, traverse, traverse-Each,
}
use steh_v1_0_0_rc.Json.{Json, get, truthy}
use steh_v1_0_0_rc.Models.Task.{TaskStatus}
use steh_v1_0_0_rc.Models.State.{EngineeringState}
use steh_v1_0_0_rc.Policy.{PolicyDecision}
use steh_v1_0_0_rc.Policy.QualityGates.{quality_gates}
use steh_v1_0_0_rc.Policy.Engine.{severity_count, evaluate, or_empty}
use steh_v1_0_0_rc.Policy.Decisions.{
  sec_001_decision, sec_002_decision, test_001_decision, scan_001_decision,
}
use steh_v1_0_0_rc.Workflow.Gates.{
  failed_with, security_status, security_gate, validation_gate, next_status,
}
use steh_v1_0_0_rc.Rework.{ReworkPolicy}
use steh_v1_0_0_rc.Rework

-- The artifact has a true value under `key`.
abbrev pub Holds : Option Json → String → Type 0
Holds artifact key = (v : Json) × (get (or_empty artifact) key ≡ ok v) × (truthy v ≡ true)

fails :
    (d : PolicyDecision) {action : String}
    → (d.passed ≡ false) × (d.action ≡ action)
    → failed_with action d ≡ true
fails d {action} h = rw (h.0, h.1) (eq_refl action)

-- How the status of the security gate depends on its first two decisions.
security_status_lem :
    (a b : PolicyDecision) (ds : List PolicyDecision) (x : TaskStatus)
    → security_status (a ∷ b ∷ ds) ≡ x
    → (failed_with "BLOCK" a ≡ true → x ≡ TaskStatus.blocked)
      × (failed_with "HUMAN_REVIEW" b ≡ true → x ≢ TaskStatus.ready_for_implementation)
security_status_lem a b ds x h = (ground arith, ground arith)

module _ (s : EngineeringState) {t : EngineeringState} where
  -- The security gate leaves the review as it is. It lets the workflow go on, or asks a human, only
  -- if no critical finding is open, and goes on without a human only if no high one is.
  pub security_gate_lem :
      security_gate quality_gates s ≡ ok t
      → (t.security_review ≡ s.security_review)
        × (t.status ≡ some TaskStatus.ready_for_implementation
            → (severity_count s "CRITICAL" ≡ ok 0) × (severity_count s "HIGH" ≡ ok 0))
        × (t.status ≡ some TaskStatus.human_review → severity_count s "CRITICAL" ≡ ok 0)
        × (t.status ≢ some TaskStatus.completed)
  unfolding security_gate
  security_gate_lem h =
      let f = λ (id : String). evaluate quality_gates id s in
      let ids : List String = "SEC-001" ∷ "SEC-002" ∷ "SEC-003" ∷ "SEC-004" ∷ [] in
      let (ds, e, r) = >>=-eq-ok (traverse f ids) _ h in
      let (a, ds', ea, la, more) = traverse-Each f ids e in
      let (b, ds'', eb, lb, rest) = more in
      let st = security_status_lem a b ds'' (security_status ds) (cc) in
      let status : t.status ≡ some (security_status ds) = ground arith in
      let critical : (security_status ds ≡ TaskStatus.blocked)
          ⊎ (severity_count s "CRITICAL" ≡ ok 0) =
        elim (sec_001_decision s ea) [ inl c ↦ inr c | inr bad ↦ inl (st.0 (fails a bad)) ] in
      let high : (security_status ds ≢ TaskStatus.ready_for_implementation)
          ⊎ (severity_count s "HIGH" ≡ ok 0) =
        elim (sec_002_decision s eb) [ inl c ↦ inr c | inr bad ↦ inl (st.1 (fails b bad)) ] in
      (
        ground arith,
        λ g. (
          (elim critical [ inl x ↦ absurd (cc x) | inr y ↦ y ]),
          (elim high [ inl x ↦ absurd (x (cc)) | inr y ↦ y ]),
        ),
        λ g. elim critical [ inl x ↦ absurd (cc x) | inr y ↦ y ],
        ground arith,
      )

  -- The validation gate leaves the artifact as it is, and completes only what it says has passed the
  -- tests and the scanners.
  pub validation_gate_lem :
      (rework : ReworkPolicy) (now : ℕ)
      → validation_gate quality_gates rework now s ≡ ok t
      → (t.validation ≡ s.validation)
        × (t.status ≡ some TaskStatus.completed
            → Holds s.validation "test_passed" × Holds s.validation "scanners_passed")
  unfolding validation_gate next_status Rework.decide
  validation_gate_lem rework now h =
      let f = λ (id : String). evaluate quality_gates id s in
      let ids : List String = "TEST-001" ∷ "SCAN-001" ∷ [] in
      let (ds, e, r) = >>=-eq-ok (traverse f ids) _ h in
      let (a, ds', ea, la, more) = traverse-Each f ids e in
      let (b, ds'', eb, lb, rest) = more in
      let (v, gv, pv) = test_001_decision s ea in
      let (w, gw, pw) = scan_001_decision s eb in
      (ground arith, λ c. ((v, gv, ground arith), (w, gw, ground arith)))
