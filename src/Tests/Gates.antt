-- ===== src/Tests/Gates.antt =====
-- The gates of app/orchestration/graph.py on artifacts that pass, ask a human, or fail.
use mathlib.Core.List.{flatten}
use steh_v1_0_0_rc.Base.{◌≡◌, refl, false, some, List, [], ◌∷◌, Result, ok, err}
use steh_v1_0_0_rc.Json.{Json, truthy, get, get_default, item, iterate, or_default}
use steh_v1_0_0_rc.Models.Task.{TaskStatus}
use steh_v1_0_0_rc.Models.State.{EngineeringState}
use steh_v1_0_0_rc.Policy.QualityGates.{quality_gates}
use steh_v1_0_0_rc.Policy.Engine
use steh_v1_0_0_rc.Rework.{execution_policy}
use steh_v1_0_0_rc.Rework
use steh_v1_0_0_rc.Workflow.Gates
use steh_v1_0_0_rc.Workflow.Traceability.{
  IsIdentified, Covers, specification_gate_lem, test_plan_gate_lem,
}
use steh_v1_0_0_rc.Tests.Data.{
  request_state, specification_json, security_json, test_plan_json, validation_json, finding_of,
}

abbrev drafted : List Json → EngineeringState
drafted findings = record request_state {
  specification = some specification_json;
  security_review = some (security_json findings);
  test_plan = some test_plan_json;
  validation = some (validation_json false);
}

abbrev left : Result EngineeringState → EngineeringState
left (ok t) = t
left (err e) = request_state

abbrev ready : Result EngineeringState
ready = Gates.security_gate quality_gates (drafted (finding_of "LOW" ∷ []))

abbrev asking : Result EngineeringState
asking = Gates.security_gate quality_gates (drafted (finding_of "HIGH" ∷ []))

abbrev reworked : Result EngineeringState
reworked = Gates.validation_gate quality_gates execution_policy 4 (drafted [])

abbrev specified : Result EngineeringState
specified = Gates.specification_gate quality_gates (drafted [])

abbrev planned : Result EngineeringState
planned = Gates.test_plan_gate quality_gates (drafted [])

gates :
    (ready ≡ ok (left ready))
    × ((left ready).status ≡ some TaskStatus.ready_for_implementation)
    × (asking ≡ ok (left asking))
    × ((left asking).status ≡ some TaskStatus.human_review)
    × (reworked ≡ ok (left reworked))
    × ((left reworked).status ≡ some TaskStatus.rework_required)
    × (specified ≡ ok (left specified))
    × ((left specified).blocked ≡ some false)
    × (planned ≡ ok (left planned))
    × ((left planned).blocked ≡ some false)
unfolding Engine.or_empty Engine.equals_text Engine.same Engine.hashable Engine.contains
    Engine.to_set Engine.subset Engine.rows_of Engine.counts Engine.open_count Engine.identifier
    Engine.identifiers Engine.row_references Engine.references Engine.structured
    Engine.negative_security Engine.gather Engine.checks Engine.check Engine.decide Engine.evaluate
    Gates.specification_gate Gates.test_plan_gate Gates.security_gate Gates.validation_gate
    Gates.next_status Gates.rework_evidence Rework.decide truthy get get_default item iterate
    or_default flatten
gates = (refl, refl, refl, refl, refl, refl, refl, refl, refl, refl)

specification_gate_lem_example :
    (ids : List Json) × IsIdentified (drafted []) ids
    × Covers (some specification_json) "acceptance_scenarios" ids
specification_gate_lem_example = specification_gate_lem (drafted []) gates.6 gates.7

test_plan_gate_lem_example :
    (ids : List Json) × (rows : List Json) × (Engine.rows_of
        (Engine.or_empty (some specification_json))
        "requirements"
      ≡ ok rows)
    × (Engine.identifiers rows ≡ ok ids)
    × Covers (some test_plan_json) "test_cases" ids
test_plan_gate_lem_example = test_plan_gate_lem (drafted []) gates.8 gates.9
