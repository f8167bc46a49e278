-- ===== src/Tests/Workflow.antt =====
-- Runs of the graph of app/orchestration/graph.py: one that completes, one that a human approves or
-- rejects, and one that uses up its reworks.
use steh_v1_0_0_rc.Base.{◌≡◌, ◌≢◌, refl, true, false, none, some, [], ◌∷◌, Result, ok, err, arith}
use mathlib.Core.List.{flatten}
use steh_v1_0_0_rc.Json.{truthy, get, get_default, item, iterate, or_default}
use steh_v1_0_0_rc.Models.Task.{TaskStatus}
use steh_v1_0_0_rc.Models.Review.{HumanReviewArtifact, HumanReviewStatus, HumanReviewResume}
use steh_v1_0_0_rc.Models.State.{EngineeringState}
use steh_v1_0_0_rc.Policy.Engine
use steh_v1_0_0_rc.Rework
use steh_v1_0_0_rc.Judge.Receipt.{judge_evaluation_receipt, receipt_json}
use steh_v1_0_0_rc.Db.{Session}
use steh_v1_0_0_rc.Audit
use steh_v1_0_0_rc.Context.Build
use steh_v1_0_0_rc.Workflow.Gates
use steh_v1_0_0_rc.Workflow.Nodes
use steh_v1_0_0_rc.Workflow.Judging
use steh_v1_0_0_rc.Workflow.Run.{
  Node, Outcome, finished, interrupted, out_of_fuel, run, enter, next, route_after_security,
  route_after_human_review, route_after_validation,
}
use steh_v1_0_0_rc.Workflow.Invariant.{Authorized, Validated}
use steh_v1_0_0_rc.Workflow.Safety.{completed_is_safe, resumed_is_safe, rejected_is_blocked}
use steh_v1_0_0_rc.Workflow.Termination.{run_terminates}
use steh_v1_0_0_rc.Tests.Data.{agents, request_state, new_session, receiptless, finding_of}

abbrev final_of : Result Outcome × Session → EngineeringState
final_of (ok (finished t), w) = t
final_of (ok (interrupted t), w) = t
final_of (ok (out_of_fuel t), w) = t
final_of (err e, w) = request_state

-- A run without a finding, with the lifecycle.
abbrev smooth : Result Outcome × Session
smooth = run (agents [] true (some receiptless)) 30 Node.context none request_state new_session

abbrev pending_review : HumanReviewArtifact
pending_review = record {
  status = HumanReviewStatus.pending;
  requested_at = 1;
  expires_at = 11;
  policy_result_count = 11;
  reviewer = none;
  justification = none;
  decided_at = none;
}

-- A run that a high finding stops, and what an approval and a rejection make of it.
abbrev waiting : Result Outcome × Session
waiting =
    run (agents (finding_of "HIGH" ∷ []) true none) 30 Node.context none request_state new_session

abbrev decision : HumanReviewStatus → HumanReviewResume
decision status = record {
  status = status;
  reviewer = "ana";
  justification = "seen";
  decided_at = 3;
}

abbrev resumed : HumanReviewStatus → Result Outcome × Session
resumed status =
    run (agents (finding_of "HIGH" ∷ []) true none) 30 Node.human_review (some (decision status))
      (final_of waiting) waiting.1

-- A run whose tests never pass.
abbrev failing : Result Outcome × Session
failing = run (agents [] false none) 23 Node.context none request_state new_session

abbrev Returns : Outcome → Result Outcome × Session → Type 0
Returns o p = p ≡ (ok o, p.1)

runs :
    Returns (finished (final_of smooth)) smooth
    × ((final_of smooth).status ≡ some TaskStatus.completed)
    × Returns (interrupted (final_of waiting)) waiting
    × Returns
        (finished (final_of (resumed HumanReviewStatus.approved)))
        (resumed HumanReviewStatus.approved)
    × ((final_of (resumed HumanReviewStatus.approved)).status ≡ some TaskStatus.completed)
    × Returns (finished (final_of failing)) failing
    × ((final_of failing).status ≡ some TaskStatus.rework_exhausted)
    × ((final_of failing).rework_count ≡ some 2)
    × ((final_of waiting).human_review ≡ some pending_review)
unfolding run enter next route_after_security route_after_human_review route_after_validation
    Engine.or_empty Engine.equals_text Engine.same Engine.hashable Engine.contains Engine.to_set
    Engine.subset Engine.rows_of Engine.counts Engine.open_count Engine.identifier
    Engine.identifiers Engine.row_references Engine.references Engine.structured
    Engine.negative_security Engine.gather Engine.checks Engine.check Engine.decide Engine.evaluate
    Gates.requirements_gate Gates.specification_gate Gates.architecture_gate Gates.security_gate
    Gates.test_plan_gate Gates.implementation_gate Gates.next_status Gates.rework_evidence
    Gates.validation_gate Nodes.perform Nodes.decided Nodes.reviewed Nodes.bundle_for
    Nodes.contextualize Nodes.requirements Nodes.specification Nodes.architecture Nodes.security
    Nodes.prepare_human_review Nodes.human_review Nodes.test_planning Nodes.implementation
    Nodes.validation Judging.evaluate_judge Judging.judge_unavailable Judging.assess Judging.judge
    Audit.record_event Audit.start_agent_run Audit.complete_agent_run Audit.fail_agent_run
    Audit.supervise Audit.record_failure Audit.execute Rework.decide truthy get get_default item
    iterate or_default judge_evaluation_receipt receipt_json Build.context_receipt
    Build.source_receipt Build.receipt_fields Build.dump_source_receipt flatten
runs = (refl, refl, refl, refl, refl, refl, refl, refl, refl)

completed_is_safe_example : Authorized (final_of smooth) × Validated (final_of smooth)
completed_is_safe_example =
    completed_is_safe (agents [] true (some receiptless)) refl none 30 request_state new_session
      runs.0 runs.1

resumed_is_safe_example :
    Authorized (final_of (resumed HumanReviewStatus.approved))
    × Validated (final_of (resumed HumanReviewStatus.approved))
resumed_is_safe_example =
    resumed_is_safe (agents (finding_of "HIGH" ∷ []) true none) refl
      (decision HumanReviewStatus.approved) 30 30 request_state new_session waiting.1 runs.2 runs.3
      runs.4

run_terminates_example :
    run (agents [] false none) 23 Node.context none request_state new_session
    ≢ (ok (out_of_fuel request_state), new_session)
run_terminates_example =
    run_terminates (agents [] false none) none 23 request_state request_state new_session
      (omega arith)

rejected_is_blocked_example :
    (t : EngineeringState) × (resumed HumanReviewStatus.rejected ≡ (ok (finished t), waiting.1))
    × (t.status ≡ some TaskStatus.blocked)
    × (t.human_review ≡ some (Nodes.decided pending_review (decision HumanReviewStatus.rejected)))
    × (t.implementation ≡ (final_of waiting).implementation)
rejected_is_blocked_example =
    rejected_is_blocked (agents (finding_of "HIGH" ∷ []) true none)
      (decision HumanReviewStatus.rejected) pending_review 27 (final_of waiting) waiting.1 (cc)
      runs.8
