-- ===== src/Workflow.antt =====
-- app/orchestration/graph.py: the workflow graph. `Gates` are the nodes that evaluate policies,
-- `Nodes` those that run an agent, `Judging` the one that calls the judge, and `Run` follows the edges.
-- The other children are proofs.
pub mod Gates
pub mod Nodes
pub mod Judging
pub mod Run
pub mod Security
pub mod Traceability
pub mod Gating
pub mod Invariant
pub mod Safety
pub mod Termination
use steh_v1_0_0_rc.Base.{ℕ, String, Bool, Option, Result}
use steh_v1_0_0_rc.Json.{Json}
use steh_v1_0_0_rc.Models.Task.{AgentResult, ReworkDecision}
use steh_v1_0_0_rc.Models.Context.{Text, ContextBundle}
use steh_v1_0_0_rc.Models.Judge.{JudgeInputSnapshot, JudgeEvaluationArtifact}
use steh_v1_0_0_rc.Models.State.{EngineeringState}
use steh_v1_0_0_rc.Policy.{PolicyConfig}
use steh_v1_0_0_rc.Rework.{ReworkPolicy}
use steh_v1_0_0_rc.Audit.{AgentLifecycle}

-- What `build_graph` sets up before it defines the nodes: the settings, the policies, and the agents,
-- each as the function from its inputs to what its `run` returns or raises. `judge_input` is
-- `build_judge_input` on a state, `empty_judge_input` the same on the empty dict, `rubric` what
-- loading the rubric gives, and `non_authoritative` is `non_authoritative_judge_result` of an input,
-- an instant, the type of the exception (none for a judge that is disabled) and the rubric.
pub record Environment : Type 0 where
  pub config : PolicyConfig
  pub rework : ReworkPolicy
  pub human_review_ttl : ℕ
  pub lifecycle : Option AgentLifecycle
  pub build_context : Text → ℕ → Result ContextBundle
  pub requirements_agent : Text → ContextBundle → Result AgentResult
  pub specification_agent : Json → Result AgentResult
  pub architecture_agent : Json → Result AgentResult
  pub security_agent : Json → Json → Result AgentResult
  pub test_planning_agent : Json → Json → Json → Result AgentResult
  pub implementation_agent :
      String → Json → Json → Json → Json → Option ReworkDecision → Result AgentResult
  pub test_agent : String → Json → Result AgentResult
  pub judge_enabled : Bool
  pub empty_judge_input : Result JudgeInputSnapshot
  pub judge_input : EngineeringState → Result JudgeInputSnapshot
  pub rubric : Result Json
  pub judge_agent : Json → JudgeInputSnapshot → EngineeringState → Result AgentResult
  pub read_evaluation : Json → Result JudgeEvaluationArtifact
  pub non_authoritative :
      JudgeInputSnapshot → ℕ → Option String → Option Json → JudgeEvaluationArtifact
