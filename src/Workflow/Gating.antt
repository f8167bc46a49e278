-- ===== src/Workflow/Gating.antt =====
-- What it takes to pass the security gate and the validation gate of app/orchestration/graph.py.
use steh_v1_0_0_rc.Base.{ℕ, ◌+◌, ◌<◌, String, ◌≡◌, true, Option, some, List, All, ok, arith, get_or}
use steh_v1_0_0_rc.Json.{Json}
use steh_v1_0_0_rc.Models.Task.{TaskStatus}
use steh_v1_0_0_rc.Models.State.{EngineeringState}
use steh_v1_0_0_rc.Policy.{PolicyConfig}
use steh_v1_0_0_rc.Policy.QualityGates.{quality_gates}
use steh_v1_0_0_rc.Policy.Engine.{or_empty, rows_of, open_count}
use steh_v1_0_0_rc.Policy.Meaning.{Settled, open_count-Settled}
use steh_v1_0_0_rc.Rework.{ReworkPolicy}
use steh_v1_0_0_rc.Rework
use steh_v1_0_0_rc.Workflow.Gates.{security_gate, validation_gate, next_status}
use steh_v1_0_0_rc.Workflow.Security.{security_gate_lem}

-- The findings of the review can be read, and every one is settled at the severities given.
pub record AllSettled (review : Option Json) (severity : String) : Type 0 where
  pub findings : List Json
  pub read : rows_of (or_empty review) "findings" ≡ ok findings
  pub settled : All (Settled severity) findings

settled_review :
    (review : Option Json) (severity : String)
    → open_count review severity ≡ ok 0
    → AllSettled review severity
settled_review review severity h =
    let (rows, e, a) = open_count-Settled review severity h in
    record { findings = rows; read = e; settled = a }

-- Under the shipped policies, if the security gate makes the task ready for implementation without a
-- human review, none of the review's findings is an open critical or an open high one.
ready_without_open_findings :
    (s : EngineeringState) {t : EngineeringState}
    → security_gate quality_gates s ≡ ok t
    → t.status ≡ some TaskStatus.ready_for_implementation
    → AllSettled s.security_review "CRITICAL" × AllSettled s.security_review "HIGH"
ready_without_open_findings s h r =
    let (same, ready, human, other) = security_gate_lem s h in
    let (c, i) = ready r in
    (settled_review s.security_review "CRITICAL" c, settled_review s.security_review "HIGH" i)

-- Under the shipped policies, if the security gate asks for a human review, none of the review's
-- findings is an open critical one.
review_without_open_critical :
    (s : EngineeringState) {t : EngineeringState}
    → security_gate quality_gates s ≡ ok t
    → t.status ≡ some TaskStatus.human_review
    → AllSettled s.security_review "CRITICAL"
review_without_open_critical s h r =
    let (same, ready, human, other) = security_gate_lem s h in
    settled_review s.security_review "CRITICAL" (human r)

-- With any policies, if the validation gate asks for a rework, the attempt that it counts is one more
-- than before and below the limit, and the policy makes reworks automatic.
rework_is_counted :
    (config : PolicyConfig) (rework : ReworkPolicy) (now : ℕ) (s : EngineeringState)
    {t : EngineeringState}
    → validation_gate config rework now s ≡ ok t
    → t.status ≡ some TaskStatus.rework_required
    → (t.rework_count ≡ some (get_or s.rework_count 0 + 1))
      × (get_or s.rework_count 0 + 1 < rework.max_attempts)
      × (rework.automatic ≡ true)
unfolding validation_gate next_status Rework.decide
rework_is_counted config rework now s h r = ground arith
