-- ===== src/Tasks/Run.antt =====
-- app/services/tasks.py: `run_task_workflow` and `run_human_review_resume`. The graph that
-- `build_graph` returns for the thread of the task is an argument.
use steh_v1_0_0_rc.Base.{
  ℕ, String, Bool, true, false, Option, none, some, [], ltb, if◌then◌else◌, drop, get_or, length,
  Error, value_error,
}
use steh_v1_0_0_rc.Json.{
  Json, null, num, str, instant, obj, end, field, truthy, get_default, iterate, empty_list,
}
use steh_v1_0_0_rc.Models.Task.{TaskStatus}
use steh_v1_0_0_rc.Models.Review.{HumanReviewArtifact, HumanReviewResume}
use steh_v1_0_0_rc.Models.Context.{ContextBundle}
use steh_v1_0_0_rc.Models.Judge.{JudgeEvaluationArtifact}
use steh_v1_0_0_rc.Models.State.{EngineeringState}
use steh_v1_0_0_rc.Db.{
  TaskRecord, Exec, ◌>>=◌, ◌>>◌, pure, lift, raise, catch, modify, gets, commit, utc_now, find_task,
  update_task,
}
use steh_v1_0_0_rc.Audit.{record_event}
use steh_v1_0_0_rc.Judge.Receipt.{judge_evaluation_receipt}
use steh_v1_0_0_rc.Tasks.Review.{outcome_text}
use steh_v1_0_0_rc.Tasks.Invoke.{Graph, Start, invoke_workflow}
use steh_v1_0_0_rc.Tasks.Records.{
  Ids, apply_workflow_result, persist_security_findings, record_policies, record_reworks,
  workflow_event, resume_event, status_text,
}

abbrev pub empty_state : EngineeringState
empty_state = record {
  task_id = none;
  trace_id = none;
  user_request = none;
  status = none;
  context_bundle = none;
  requirements = none;
  requirements_run = none;
  specification = none;
  specification_run = none;
  architecture = none;
  architecture_run = none;
  security_review = none;
  security_run = none;
  risk_level = none;
  human_review = none;
  test_plan = none;
  test_plan_run = none;
  implementation = none;
  implementation_run = none;
  validation = none;
  test_run = none;
  judge_evaluation = none;
  judge_run = none;
  rework_count = none;
  rework_decision = none;
  rework_history = none;
  evidence = none;
  policy_results = none;
  blocked = none;
}

-- The input of a new thread; `task_text` and `trace_text` are the texts of the two ids.
unfoldable pub workflow_input : String → String → TaskRecord → ContextBundle → EngineeringState
workflow_input task_text trace_text task bundle = record empty_state {
  task_id = some task_text;
  trace_id = some trace_text;
  user_request = some task.request;
  status = some TaskStatus.analyzing;
  context_bundle = some bundle;
  evidence = some [];
}

-- `raise ValueError` if there is no such row, or none with the artifact that is asked for
abbrev pub or_value_error {ℓ} : {A : Type ℓ} → Option A → Exec A
or_value_error none = raise value_error
or_value_error (some a) = pure a

-- `if record.security_review: persist_security_findings(...)`
unfoldable pub persist_review : Ids → TaskRecord → Option Json → Exec (Unit {0})
unfolding persist_security_findings
persist_review ids task none = pure tt
persist_review ids task (some review) =
    if truthy review
    then (do
      found ← lift (get_default review "findings" empty_list)
      findings ← lift (iterate found)
      persist_security_findings ids task.task_id task.trace_id findings)
    else pure tt

-- `record.human_review` as a payload
unfoldable pub dump_review : HumanReviewArtifact → Json
dump_review r = obj (
    field "status" (str (outcome_text r.status)) (
      field "requested_at" (instant r.requested_at) (
        field "expires_at" (instant r.expires_at) (
          field "policy_result_count" (num r.policy_result_count) (
            field "reviewer" (elim r.reviewer [ none ↦ null | some x ↦ str x ])
              (field "justification" (elim r.justification [ none ↦ null | some x ↦ str x ])
                (field "decided_at" (elim r.decided_at [ none ↦ null | some x ↦ instant x ])
                  end)))))))

unfoldable pub record_review : TaskRecord → Option HumanReviewArtifact → Exec (Unit {0})
unfolding record_event dump_review
record_review task none = pure tt
record_review task (some review) =
    record_event task.task_id task.trace_id "HUMAN_REVIEW_REQUESTED" "orchestrator"
      (dump_review review)

unfoldable pub record_judge : TaskRecord → Option JudgeEvaluationArtifact → Exec (Unit {0})
unfolding record_event
record_judge task none = pure tt
record_judge task (some evaluation) =
    record_event task.task_id task.trace_id "JUDGE_EVALUATION" "llm_judge_agent"
      (obj (judge_evaluation_receipt evaluation))

unfoldable pub set_status : ℕ → TaskStatus → Exec (Unit {0})
set_status task_id status = modify (update_task task_id (λ t. record t { status = status }))

-- `_apply_workflow_result(record, result)`
unfoldable pub apply_result : ℕ → EngineeringState → Exec (Unit {0})
unfolding apply_workflow_result
apply_result task_id result = do
  now ← utc_now
  modify (update_task task_id (apply_workflow_result result now))

-- What follows the workflow in `run_task_workflow`.
unfoldable pub conclude : Ids → TaskRecord → EngineeringState → Exec (Unit {0})
unfolding apply_result persist_review record_policies record_review record_judge record_reworks
conclude ids task result = do
  apply_result task.task_id result
  persist_review ids task result.security_review
  record_policies task (get_or result.policy_results [])
  record_review task result.human_review
  record_judge task result.judge_evaluation
  record_event task.task_id task.trace_id (workflow_event (get_or result.status TaskStatus.failed))
      "orchestrator"
      (obj (
        field "status" (str (status_text (get_or result.status TaskStatus.failed)))
          (field "risk_level" (get_or result.risk_level null) end)))
  record_reworks task (get_or result.rework_history [])
  commit

unfoldable pub started_payload : TaskRecord → ℕ → Bool → Json
started_payload task attempt true = obj (field "attempt" (num attempt) end)
started_payload task attempt false = obj (field "request_length" (num (length task.request)) end)

-- `run_task_workflow`
unfoldable pub run_task_workflow : Ids → Graph → ℕ → ℕ → Exec (Unit {0})
unfolding set_status started_payload conclude
run_task_workflow ids graph task_id attempt = do
  found ← gets (find_task task_id)
  task ← or_value_error found
  bundle ← or_value_error task.context_bundle
  set_status task_id TaskStatus.analyzing
  commit
  let recover = ltb 1 attempt
  record_event task_id task.trace_id (if recover then "TASK_RECOVERED" else "TASK_STARTED")
      "orchestrator" (started_payload task attempt recover)
  result ←
      invoke_workflow graph
        (Start.input (workflow_input (ids.text task_id) (ids.text task.trace_id) task bundle))
        recover false
  conclude ids task result

-- The handler of `run_human_review_resume`.
unfoldable pub resume_failed : TaskRecord → String → Error → Exec EngineeringState
unfolding record_event
resume_failed task reviewer exc = do
  now ← utc_now
  modify (update_task task.task_id (λ t. record t { status = TaskStatus.failed; updated_at = now }))
  commit
  record_event task.task_id task.trace_id "TASK_RESUME_FAILED" "orchestrator"
      (obj (field "reviewer" (str reviewer) end))
  raise exc

-- What follows the workflow in `run_human_review_resume`.
unfoldable pub conclude_resume :
    TaskRecord → HumanReviewArtifact → String → EngineeringState → Exec (Unit {0})
unfolding apply_result record_policies record_reworks record_judge
conclude_resume task review reviewer result = do
  apply_result task.task_id result
  record_policies task (drop review.policy_result_count (get_or result.policy_results []))
  record_reworks task (get_or result.rework_history [])
  record_judge task result.judge_evaluation
  record_event task.task_id task.trace_id (resume_event (get_or result.status TaskStatus.failed))
      "orchestrator"
      (obj (
        field "status" (str (status_text (get_or result.status TaskStatus.failed)))
          (field "reviewer" (str reviewer) end)))
  commit

-- `if recover: record_event(...)`
unfoldable pub record_recovery : TaskRecord → String → ℕ → Bool → Exec (Unit {0})
unfolding record_event
record_recovery task reviewer attempt false = pure tt
record_recovery task reviewer attempt true =
    record_event task.task_id task.trace_id "TASK_RECOVERED" "orchestrator"
      (obj (field "attempt" (num attempt) (field "reviewer" (str reviewer) end)))

unfoldable pub run_human_review_resume : Graph → ℕ → HumanReviewResume → ℕ → Exec (Unit {0})
unfolding record_recovery resume_failed conclude_resume
run_human_review_resume graph task_id resume attempt = do
  found ← gets (find_task task_id)
  task ← or_value_error found
  review ← or_value_error task.human_review
  record_recovery task resume.reviewer attempt (ltb 1 attempt)
  result ←
      catch (invoke_workflow graph (Start.resume resume) (ltb 1 attempt) true)
        (resume_failed task resume.reviewer)
  conclude_resume task review resume.reviewer result
