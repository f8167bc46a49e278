-- ===== src/Tasks/Records.antt =====
-- app/services/tasks.py and app/services/security.py: what the services write about a run.
use steh_v1_0_0_rc.Base.{ℕ, String, List, [], ◌∷◌, ◌++◌, map, get_or, Option, or_raise, value_error}
use steh_v1_0_0_rc.Json.{
  Json, bool, num, str, arr, obj, end, field, of_list, get_default, item, empty_list,
}
use steh_v1_0_0_rc.Models.Task.{TaskStatus, ReworkDecision}
use steh_v1_0_0_rc.Models.State.{EngineeringState}
use steh_v1_0_0_rc.Policy.{PolicyDecision}
use steh_v1_0_0_rc.Db.{
  TaskRecord, SecurityFindingRecord, Tables, Exec, ◌>>=◌, ◌>>◌, pure, lift, modify, commit,
}
use steh_v1_0_0_rc.Audit.{record_event}

-- `_apply_workflow_result`, at the instant `now`
unfoldable pub apply_workflow_result : EngineeringState → ℕ → TaskRecord → TaskRecord
apply_workflow_result result now task = record task {
  context_bundle = result.context_bundle;
  requirements = result.requirements;
  specification = result.specification;
  architecture = result.architecture;
  security_review = result.security_review;
  risk_level = result.risk_level;
  implementation = result.implementation;
  test_plan = result.test_plan;
  validation = result.validation;
  rework_count = get_or result.rework_count 0;
  rework_decision = result.rework_decision;
  human_review = result.human_review;
  judge_evaluation = result.judge_evaluation;
  status = get_or result.status TaskStatus.failed;
  updated_at = now;
}

-- Python's UUIDs: `text` is `str(id)`, `read` is `UUID(str(value))`, and none where that raises
-- ValueError.
pub record Ids : Type 0 where
  pub text : ℕ → String
  pub read : Json → Option Json

-- one row of `persist_security_findings`
unfoldable pub finding_row : Ids → ℕ → ℕ → Json → Exec SecurityFindingRecord
finding_row ids task_id trace_id finding = do
  given ← lift (item finding "finding_id")
  finding_id ← lift (or_raise (ids.read given) value_error)
  title ← lift (item finding "title")
  description ← lift (item finding "description")
  severity ← lift (item finding "severity")
  category ← lift (item finding "category")
  affected_component ← lift (item finding "affected_component")
  threat ← lift (item finding "threat")
  recommendation ← lift (item finding "recommendation")
  evidence ← lift (get_default finding "evidence" empty_list)
  status ← lift (get_default finding "status" (str "OPEN"))
  pure (record {
    finding_id = finding_id;
    task_id = task_id;
    trace_id = trace_id;
    title = title;
    description = description;
    severity = severity;
    category = category;
    affected_component = affected_component;
    threat = threat;
    recommendation = recommendation;
    evidence = evidence;
    status = status;
  })

abbrev pub add_finding : SecurityFindingRecord → Tables → Tables
add_finding row t = record t { security_findings = t.security_findings ++ (row ∷ []) }

unfoldable pub add_findings : Ids → ℕ → ℕ → List Json → Exec (Unit {0})
unfolding finding_row
add_findings ids task_id trace_id [] = pure tt
add_findings ids task_id trace_id (finding ∷ findings) = do
  row ← finding_row ids task_id trace_id finding
  modify (add_finding row)
  add_findings ids task_id trace_id findings

unfoldable pub persist_security_findings : Ids → ℕ → ℕ → List Json → Exec (Unit {0})
unfolding add_findings
persist_security_findings ids task_id trace_id findings = do
  add_findings ids task_id trace_id findings
  commit

-- `decision.__dict__`
unfoldable pub dump_decision : PolicyDecision → Json
dump_decision d = obj (
    field "policy_id" (str d.policy_id) (
      field "passed" (bool d.passed)
        (field "action" (str d.action) (field "reason" (str d.reason) end))))

unfoldable pub dump_rework : ReworkDecision → Json
dump_rework d = obj (
    field "required" (bool d.required) (
      field "attempt" (num d.attempt) (
        field "max_attempts" (num d.max_attempts) (
          field "exhausted" (bool d.exhausted) (
            field "automatic" (bool d.automatic)
              (field "reasons" (arr (of_list (map str d.reasons))) end))))))

-- `for decision in decisions: record_event(...)`
unfoldable pub record_policies : TaskRecord → List PolicyDecision → Exec (Unit {0})
unfolding record_event dump_decision
record_policies task [] = pure tt
record_policies task (d ∷ ds) = do
  record_event task.task_id task.trace_id "POLICY_DECISION" "policy_engine" (dump_decision d)
  record_policies task ds

unfoldable pub record_reworks : TaskRecord → List ReworkDecision → Exec (Unit {0})
unfolding record_event dump_rework
record_reworks task [] = pure tt
record_reworks task (d ∷ ds) = do
  record_event task.task_id task.trace_id "REWORK_DECISION" "rework_controller" (dump_rework d)
  record_reworks task ds

-- `final_event` of `run_task_workflow`
unfoldable pub workflow_event : TaskStatus → String
workflow_event TaskStatus.completed = "TASK_COMPLETED"
workflow_event TaskStatus.blocked = "TASK_BLOCKED"
workflow_event TaskStatus.human_review = "TASK_HUMAN_REVIEW"
workflow_event TaskStatus.rework_required = "TASK_REWORK_REQUIRED"
workflow_event TaskStatus.rework_exhausted = "TASK_REWORK_EXHAUSTED"
workflow_event _ = "TASK_FAILED"

-- `final_event` of `run_human_review_resume`
unfoldable pub resume_event : TaskStatus → String
resume_event TaskStatus.completed = "TASK_COMPLETED"
resume_event TaskStatus.blocked = "TASK_BLOCKED"
resume_event TaskStatus.rework_exhausted = "TASK_REWORK_EXHAUSTED"
resume_event _ = "TASK_FAILED"

unfoldable pub status_text : TaskStatus → String
status_text TaskStatus.created = "CREATED"
status_text TaskStatus.queued = "QUEUED"
status_text TaskStatus.analyzing_issue = "ANALYZING_ISSUE"
status_text TaskStatus.analyzing_pull_request = "ANALYZING_PULL_REQUEST"
status_text TaskStatus.contextualizing = "CONTEXTUALIZING"
status_text TaskStatus.analyzing = "ANALYZING"
status_text TaskStatus.specifying = "SPECIFYING"
status_text TaskStatus.architecting = "ARCHITECTING"
status_text TaskStatus.security_review = "SECURITY_REVIEW"
status_text TaskStatus.test_planning = "TEST_PLANNING"
status_text TaskStatus.ready_for_implementation = "READY_FOR_IMPLEMENTATION"
status_text TaskStatus.implementing = "IMPLEMENTING"
status_text TaskStatus.validating = "VALIDATING"
status_text TaskStatus.human_review = "HUMAN_REVIEW"
status_text TaskStatus.blocked = "BLOCKED"
status_text TaskStatus.rework_required = "REWORK_REQUIRED"
status_text TaskStatus.rework_exhausted = "REWORK_EXHAUSTED"
status_text TaskStatus.resuming = "RESUMING"
status_text TaskStatus.completed = "COMPLETED"
status_text TaskStatus.failed = "FAILED"
