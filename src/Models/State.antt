-- ===== src/Models/State.antt =====
-- app/models/state.py: the state of the workflow graph, a TypedDict whose keys may all be missing.
-- `merge` is how LangGraph applies a node's return value: the keys that it holds are overwritten.
use steh_v1_0_0_rc.Base.{ℕ, String, Bool, Option, List}
use steh_v1_0_0_rc.Json.{Json}
use steh_v1_0_0_rc.Models.Task.{TaskStatus, AgentResult, ReworkDecision}
use steh_v1_0_0_rc.Models.Review.{HumanReviewArtifact}
use steh_v1_0_0_rc.Models.Context.{Text, ContextBundle}
use steh_v1_0_0_rc.Models.Judge.{JudgeEvaluationArtifact}
use steh_v1_0_0_rc.Policy.{PolicyDecision}

pub record EngineeringState : Type 0 where
  pub task_id : Option String
  pub trace_id : Option String
  pub user_request : Option Text
  pub status : Option TaskStatus
  pub context_bundle : Option ContextBundle
  pub requirements : Option Json
  pub requirements_run : Option AgentResult
  pub specification : Option Json
  pub specification_run : Option AgentResult
  pub architecture : Option Json
  pub architecture_run : Option AgentResult
  pub security_review : Option Json
  pub security_run : Option AgentResult
  pub risk_level : Option Json
  pub human_review : Option HumanReviewArtifact
  pub test_plan : Option Json
  pub test_plan_run : Option AgentResult
  pub implementation : Option Json
  pub implementation_run : Option AgentResult
  pub validation : Option Json
  pub test_run : Option AgentResult
  pub judge_evaluation : Option JudgeEvaluationArtifact
  pub judge_run : Option AgentResult
  pub rework_count : Option ℕ
  pub rework_decision : Option ReworkDecision
  pub rework_history : Option (List ReworkDecision)
  pub evidence : Option (List Json)
  pub policy_results : Option (List PolicyDecision)
  pub blocked : Option Bool
