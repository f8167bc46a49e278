-- ===== src/Tests/Data.antt =====
-- Artifacts, agents and tables for the runs of the workflow of app/orchestration/graph.py.
use steh_v1_0_0_rc.Base.{
  String, Bool, true, false, Option, none, some, List, [], ◌∷◌, ok, err, value_error,
}
use steh_v1_0_0_rc.Json.{Json, null, bool, str, arr, obj, end, field, of_list}
use steh_v1_0_0_rc.Models.Task.{AgentResult}
use steh_v1_0_0_rc.Models.Context.{ContextBundle}
use steh_v1_0_0_rc.Models.Judge.{
  JudgeInputSnapshot, JudgeEvaluationArtifact, JudgeEvaluationStatus, JudgeVerdict,
}
use steh_v1_0_0_rc.Context.Sanitize.{codes}
use steh_v1_0_0_rc.Models.State.{EngineeringState}
use steh_v1_0_0_rc.Policy.QualityGates.{quality_gates}
use steh_v1_0_0_rc.Rework.{execution_policy}
use steh_v1_0_0_rc.Db.{Tables, Session}
use steh_v1_0_0_rc.Audit.{AgentLifecycle}
use steh_v1_0_0_rc.Workflow.{Environment}

abbrev pub no_tables : Tables
no_tables = record {
  tasks = [];
  jobs = [];
  agent_runs = [];
  audit_events = [];
  security_findings = [];
}

abbrev pub new_session : Session
new_session = record {
  committed = no_tables;
  pending = no_tables;
  clock = λ n. n;
  readings = 0;
  fresh = 1;
}

abbrev pub empty_bundle : ContextBundle
empty_bundle = record {
  bundle_id = "ctx_0";
  bundle_sha256 = "b";
  request_sha256 = "r";
  created_at = 0;
  sources = [];
  token_estimate = 0;
  max_tokens = 100;
  truncated = false;
}

abbrev pub ids : Json
ids = arr (of_list (str "R-1" ∷ []))

abbrev pub specification_json : Json
specification_json = obj (
    field "requirements" (arr (of_list (obj (field "id" (str "R-1") end) ∷ []))) (
      field "acceptance_scenarios"
        (arr (
          of_list (
            obj (
              field "id" (str "S-1") (
                field "requirement_ids" ids
                  (field "given" (str "a") (field "when" (str "b") (field "then" (str "c") end)))))
            ∷ [])))
        end))

abbrev pub finding_of : String → Json
finding_of severity = obj (field "severity" (str severity) (field "status" (str "OPEN") end))

abbrev pub security_json : List Json → Json
security_json findings = obj (
    field "overall_risk" (str "LOW") (
      field "findings" (arr (of_list findings)) (
        field "threat_model"
          (obj (field "security_requirements" (arr (of_list (str "X" ∷ []))) end)) end)))

abbrev pub test_plan_json : Json
test_plan_json = obj (
    field "test_cases"
      (arr (
        of_list (
          obj (
            field "requirement_ids" ids
              (field "negative" (bool true) (field "test_type" (str "SECURITY") end)))
          ∷ [])))
      end)

abbrev pub validation_json : Bool → Json
validation_json passed =
    obj (field "test_passed" (bool passed) (field "scanners_passed" (bool true) end))

abbrev pub answer : Json → AgentResult
answer json = record {
  agent = "agent";
  status = "success";
  result = json;
  findings = [];
  evidence = str "ran" ∷ [];
  confidence = 90;
}

abbrev pub small_json : Json
small_json = obj (field "summary" (str "x") end)

abbrev pub judge_snapshot : JudgeInputSnapshot
judge_snapshot = record {
  content = [];
  input_sha256 = "s";
  artifact_names = [];
  truncated = false;
  redacted = false;
  suspicious_instruction = false;
}

abbrev pub skipped_evaluation : JudgeEvaluationArtifact
skipped_evaluation = record {
  rubric_version = "1";
  rubric_sha256 = "r";
  status = JudgeEvaluationStatus.skipped;
  verdict = JudgeVerdict.not_evaluated;
  overall_score = none;
  dimension_scores = null;
  criteria = null;
  summary = "";
  limitations = [];
  provider = "";
  model = "";
  input_sha256 = "s";
  input_truncated = false;
  input_redacted = false;
  output_redacted = false;
  suspicious_instruction = false;
  authoritative = false;
  evaluated_at = 0;
  error_type = none;
}

abbrev pub receiptless : AgentLifecycle
receiptless = record { task_id = 1; trace_id = 2; prompt_receipt = λ name. ok none }

-- Agents that return a fixed artifact each: the findings of the security review and whether the tests
-- pass are given.
abbrev pub agents : List Json → Bool → Option AgentLifecycle → Environment
agents findings passed lifecycle = record {
  config = quality_gates;
  rework = execution_policy;
  human_review_ttl = 10;
  lifecycle = lifecycle;
  build_context = λ request now. ok empty_bundle;
  requirements_agent = λ request bundle. ok (answer small_json);
  specification_agent = λ requirements. ok (answer specification_json);
  architecture_agent = λ requirements. ok (answer small_json);
  security_agent = λ requirements architecture. ok (answer (security_json findings));
  test_planning_agent = λ specification architecture security. ok (answer test_plan_json);
  implementation_agent =
      λ task requirements architecture security plan rework. ok (answer small_json);
  test_agent = λ task implementation. ok (answer (validation_json passed));
  judge_enabled = false;
  empty_judge_input = ok judge_snapshot;
  judge_input = λ s. ok judge_snapshot;
  rubric = ok null;
  judge_agent = λ rubric snapshot s. err value_error;
  read_evaluation = λ json. err value_error;
  non_authoritative = λ snapshot now error rubric. skipped_evaluation;
}

abbrev pub request_state : EngineeringState
request_state = record {
  task_id = some "t";
  trace_id = some "tr";
  user_request = some (codes "add a field");
  status = none;
  context_bundle = none;
  requirements = none;
  requirements_run = none;
  specification = none;
  specification_run = none;
  architecture = none;
  architecture_run = none;
  security_review = none;
  security_run = none;
  risk_level = none;
  human_review = none;
  test_plan = none;
  test_plan_run = none;
  implementation = none;
  implementation_run = none;
  validation = none;
  test_run = none;
  judge_evaluation = none;
  judge_run = none;
  rework_count = none;
  rework_decision = none;
  rework_history = none;
  evidence = none;
  policy_results = none;
  blocked = none;
}
