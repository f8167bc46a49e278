-- ===== src/Workflow/Nodes.antt =====
-- app/orchestration/graph.py: the nodes that build the context, run an agent or ask for a human review.
-- Each returns the state with the keys of its update overwritten.
use steh_v1_0_0_rc.Base.{
  ◌+◌, String, Bool, true, false, Option, none, some, [], ◌∷◌, if◌then◌else◌, get_or, length,
  Result, key_error, or_raise,
}
use steh_v1_0_0_rc.Json.{Json, str, null, instant, obj, end, field, bool}
use steh_v1_0_0_rc.Json
use steh_v1_0_0_rc.Models.Task.{TaskStatus, AgentResult}
use steh_v1_0_0_rc.Models.Review.{
  HumanReviewArtifact, HumanReviewResume, HumanReviewStatus, pending,
}
use steh_v1_0_0_rc.Models.Context.{ContextBundle}
use steh_v1_0_0_rc.Models.State.{EngineeringState}
use steh_v1_0_0_rc.Context.Build.{context_receipt, receipt_fields}
use steh_v1_0_0_rc.Audit.{AgentLifecycle, execute}
use steh_v1_0_0_rc.Db.{Exec, ◌>>=◌, pure, lift, utc_now}
use steh_v1_0_0_rc.Workflow.{Environment}
use steh_v1_0_0_rc.Workflow.Gates.{add_evidence}

-- `state[key]`
abbrev pub require {ℓ} : {A : Type ℓ} → Option A → Exec A
require o = lift (or_raise o key_error)

-- `lifecycle.execute(agent_name, call) if lifecycle else call()`
unfoldable pub perform : Option AgentLifecycle → String → Result AgentResult → Exec AgentResult
perform none agent_name call = lift call
perform (some lifecycle) agent_name call = execute lifecycle agent_name call

abbrev pub review_status_text : HumanReviewStatus → String
review_status_text HumanReviewStatus.pending = "PENDING"
review_status_text HumanReviewStatus.approved = "APPROVED"
review_status_text HumanReviewStatus.rejected = "REJECTED"
review_status_text HumanReviewStatus.expired = "EXPIRED"

abbrev pub is_approved : HumanReviewStatus → Bool
is_approved HumanReviewStatus.approved = true
is_approved _ = false

unfoldable pub decided : HumanReviewArtifact → HumanReviewResume → HumanReviewArtifact
decided review resume = record review {
  status = resume.status;
  reviewer = some resume.reviewer;
  justification = some resume.justification;
  decided_at = some resume.decided_at;
}

-- The state that the human review leaves.
unfoldable pub reviewed :
    HumanReviewResume → HumanReviewArtifact → EngineeringState → EngineeringState
unfolding decided
reviewed resume review s = record s {
  human_review = some (decided review resume);
  status = some (
      if is_approved resume.status
      then TaskStatus.ready_for_implementation
      else TaskStatus.blocked);
  blocked = some (if is_approved resume.status then false else true);
  evidence = add_evidence s (
      obj (
        field "type" (str "human_review_decided") (
          field "timestamp" (instant resume.decided_at) (
            field "status" (str (review_status_text resume.status))
              (field "reviewer" (str resume.reviewer) end))))
      ∷ []);
}

module _ (env : Environment) where
  -- The bundle that is stored, or one built from the request alone.
  unfoldable pub bundle_for : EngineeringState → Exec ContextBundle
  bundle_for s = elim s.context_bundle [
    | some bundle ↦ pure bundle
    | none ↦ (do
      request ← require s.user_request
      now ← utc_now
      lift (env.build_context request now))
  ]

  unfoldable pub contextualize : EngineeringState → Exec EngineeringState
  unfolding bundle_for
  contextualize s = do
    bundle ← bundle_for s
    pure (record s {
      context_bundle = some bundle;
      evidence = add_evidence s (
          obj (
            field "type" (str "context_bundle") (
              field "timestamp" (instant bundle.created_at)
                (receipt_fields (context_receipt bundle))))
          ∷ []);
      status = some TaskStatus.contextualizing;
    })

  unfoldable pub requirements : EngineeringState → Exec EngineeringState
  requirements s = do
    request ← require s.user_request
    bundle ← require s.context_bundle
    result ← perform env.lifecycle "requirements_agent" (env.requirements_agent request bundle)
    pure (record s {
      requirements = some result.result;
      requirements_run = some result;
      evidence = some result.evidence;
      status = some TaskStatus.analyzing;
    })

  unfoldable pub specification : EngineeringState → Exec EngineeringState
  specification s = do
    requirements ← require s.requirements
    result ← perform env.lifecycle "specification_agent" (env.specification_agent requirements)
    pure (record s {
      specification = some result.result;
      specification_run = some result;
      evidence = add_evidence s result.evidence;
      status = some TaskStatus.specifying;
    })

  unfoldable pub architecture : EngineeringState → Exec EngineeringState
  architecture s = do
    requirements ← require s.requirements
    result ← perform env.lifecycle "architecture_agent" (env.architecture_agent requirements)
    pure (record s {
      architecture = some result.result;
      architecture_run = some result;
      evidence = add_evidence s result.evidence;
      status = some TaskStatus.architecting;
    })

  unfoldable pub security : EngineeringState → Exec EngineeringState
  security s = do
    requirements ← require s.requirements
    architecture ← require s.architecture
    result ← perform env.lifecycle "security_agent" (env.security_agent requirements architecture)
    risk_level ← lift (Json.item result.result "overall_risk")
    pure (record s {
      security_review = some result.result;
      security_run = some result;
      risk_level = some risk_level;
      evidence = add_evidence s result.evidence;
      status = some TaskStatus.security_review;
    })

  unfoldable pub prepare_human_review : EngineeringState → Exec EngineeringState
  prepare_human_review s = do
    requested_at ← utc_now
    let expires_at = requested_at + env.human_review_ttl
    pure (record s {
      human_review = some (record {
        status = pending;
        requested_at = requested_at;
        expires_at = expires_at;
        policy_result_count = length (get_or s.policy_results []);
        reviewer = none;
        justification = none;
        decided_at = none;
      });
      status = some TaskStatus.human_review;
      evidence = add_evidence s (
          obj (
            field "type" (str "human_review_requested") (
              field "timestamp" (instant requested_at)
                (field "expires_at" (instant expires_at) end)))
          ∷ []);
    })

  -- The node after `interrupt` has returned the decision that the workflow was resumed with.
  unfoldable pub human_review : HumanReviewResume → EngineeringState → Exec EngineeringState
  unfolding reviewed
  human_review resume s = do review ← require s.human_review; pure (reviewed resume review s)

  unfoldable pub test_planning : EngineeringState → Exec EngineeringState
  test_planning s = do
    specification ← require s.specification
    architecture ← require s.architecture
    security_review ← require s.security_review
    result ←
        perform env.lifecycle "test_planning_agent"
          (env.test_planning_agent specification architecture security_review)
    pure (record s {
      test_plan = some result.result;
      test_plan_run = some result;
      evidence = add_evidence s result.evidence;
      status = some TaskStatus.test_planning;
    })

  unfoldable pub implementation : EngineeringState → Exec EngineeringState
  implementation s = do
    task_id ← require s.task_id
    requirements ← require s.requirements
    architecture ← require s.architecture
    security_review ← require s.security_review
    test_plan ← require s.test_plan
    result ← perform env.lifecycle "implementation_agent" (
        env.implementation_agent task_id requirements architecture security_review test_plan
          s.rework_decision)
    pure (record s {
      implementation = some result.result;
      implementation_run = some result;
      evidence = add_evidence s result.evidence;
      status = some TaskStatus.implementing;
    })

  unfoldable pub validation : EngineeringState → Exec EngineeringState
  validation s = do
    task_id ← require s.task_id
    implementation ← require s.implementation
    result ← perform env.lifecycle "test_agent" (env.test_agent task_id implementation)
    pure (record s {
      validation = some result.result;
      test_run = some result;
      evidence = add_evidence s result.evidence;
      status = some TaskStatus.validating;
    })
