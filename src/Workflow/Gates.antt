-- ===== src/Workflow/Gates.antt =====
-- app/orchestration/graph.py: the gate nodes and the routes. Each gate returns the state with the keys
-- of its update overwritten.
use steh_v1_0_0_rc.Base.{
  ℕ, ◌+◌, String, Bool, not, ◌&&◌, Option, some, List, [], ◌∷◌, ◌++◌, map, ◌==◌, if◌then◌else◌, any,
  select, get_or, non_empty, Result, ok, ◌>>=◌, traverse,
}
use steh_v1_0_0_rc.Json.{Json, bool, num, str, instant, arr, obj, end, field, of_list}
use steh_v1_0_0_rc.Models.Task.{TaskStatus, ReworkDecision}
use steh_v1_0_0_rc.Models.State.{EngineeringState}
use steh_v1_0_0_rc.Policy.{PolicyConfig, PolicyDecision}
use steh_v1_0_0_rc.Policy.Engine.{evaluate}
use steh_v1_0_0_rc.Rework.{ReworkPolicy}
use steh_v1_0_0_rc.Rework

-- `not decision.passed and decision.action == action`
abbrev pub failed_with : String → PolicyDecision → Bool
failed_with action d = not d.passed && d.action == action

abbrev pub failed : PolicyDecision → Bool
failed d = not d.passed

-- `[*state.get("policy_results", []), *decisions]`
abbrev pub add_results : EngineeringState → List PolicyDecision → Option (List PolicyDecision)
add_results s decisions = some (get_or s.policy_results [] ++ decisions)

-- `[*state.get("evidence", []), *entries]`
abbrev pub add_evidence : EngineeringState → List Json → Option (List Json)
add_evidence s entries = some (get_or s.evidence [] ++ entries)

-- The status that the security gate sets, from its decisions.
abbrev pub security_status : List PolicyDecision → TaskStatus
security_status decisions =
    if any (failed_with "BLOCK") decisions
    then TaskStatus.blocked
    else if any (failed_with "HUMAN_REVIEW") decisions
    then TaskStatus.human_review
    else TaskStatus.ready_for_implementation

module _ (config : PolicyConfig) where
  unfoldable pub requirements_gate : EngineeringState → Result EngineeringState
  requirements_gate s = do
    decisions ← traverse (λ id. evaluate config id s) ("REQ-001" ∷ "AUDIT-001" ∷ [])
    ok (record s {
      policy_results = some decisions;
      blocked = some (any (failed_with "BLOCK") decisions);
    })

  unfoldable pub specification_gate : EngineeringState → Result EngineeringState
  specification_gate s = do
    decisions ←
        traverse (λ id. evaluate config id s)
          ("SPEC-001" ∷ "SPEC-002" ∷ "SPEC-003" ∷ "TRACE-001" ∷ [])
    ok (record s {
      policy_results = add_results s decisions;
      blocked = some (any failed decisions);
    })

  unfoldable pub architecture_gate : EngineeringState → Result EngineeringState
  architecture_gate s = do
    decision ← evaluate config "ARCH-001" s
    ok (record s {
      policy_results = add_results s (decision ∷ []);
      blocked = some (failed decision);
    })

  unfoldable pub security_gate : EngineeringState → Result EngineeringState
  security_gate s = do
    decisions ←
        traverse (λ id. evaluate config id s) ("SEC-001" ∷ "SEC-002" ∷ "SEC-003" ∷ "SEC-004" ∷ [])
    ok (record s {
      policy_results = add_results s decisions;
      blocked = some (any (failed_with "BLOCK") decisions);
      status = some (security_status decisions);
    })

  unfoldable pub test_plan_gate : EngineeringState → Result EngineeringState
  test_plan_gate s = do
    decisions ←
        traverse (λ id. evaluate config id s)
          ("TESTPLAN-001" ∷ "TESTPLAN-002" ∷ "TESTPLAN-003" ∷ [])
    ok (record s {
      policy_results = add_results s decisions;
      blocked = some (any failed decisions);
    })

  unfoldable pub implementation_gate : EngineeringState → Result EngineeringState
  implementation_gate s = do
    decision ← evaluate config "IMPL-001" s
    ok (record s {
      policy_results = add_results s (decision ∷ []);
      blocked = some (failed decision);
      status = some (if failed decision then TaskStatus.blocked else TaskStatus.implementing);
    })

-- The status that the validation gate sets.
unfoldable pub next_status : ReworkDecision → TaskStatus
next_status d =
    if not d.required
    then TaskStatus.completed
    else if d.exhausted
    then TaskStatus.rework_exhausted
    else if d.automatic
    then TaskStatus.rework_required
    else TaskStatus.human_review

-- `decision.model_dump(mode="json")` behind the two fields of the evidence entry
unfoldable pub rework_evidence : ℕ → ReworkDecision → Json
rework_evidence now d = obj (
    field "type" (str "rework_decision") (
      field "timestamp" (instant now) (
        field "required" (bool d.required) (
          field "attempt" (num d.attempt) (
            field "max_attempts" (num d.max_attempts) (
              field "exhausted" (bool d.exhausted) (
                field "automatic" (bool d.automatic)
                  (field "reasons" (arr (of_list (map str d.reasons))) end))))))))

module _ (config : PolicyConfig) (rework : ReworkPolicy) where
  unfoldable pub validation_gate : ℕ → EngineeringState → Result EngineeringState
  unfolding next_status rework_evidence
  validation_gate now s = do
    decisions ← traverse (λ id. evaluate config id s) ("TEST-001" ∷ "SCAN-001" ∷ [])
    let reasons = map (λ d. d.reason) (select failed decisions)
    let current_attempt = get_or s.rework_count 0
    decision ←
        Rework.decide rework (if non_empty reasons then current_attempt + 1 else current_attempt)
          reasons
    ok (record s {
      policy_results = add_results s decisions;
      status = some (next_status decision);
      rework_count = some decision.attempt;
      rework_decision = some decision;
      rework_history = some (get_or s.rework_history [] ++ (decision ∷ []));
      evidence = add_evidence s (rework_evidence now decision ∷ []);
    })
