-- ===== src/Models/Judge.antt =====
-- app/models/judge.py: the types that the workflow's judge node handles. A dimension's score and a
-- criterion's evaluation are passed on unread, and are kept as JSON.
use steh_v1_0_0_rc.Base.{ℕ, String, Bool, Option, List}
use steh_v1_0_0_rc.Json.{Json}

pub data JudgeEvaluationStatus : Type 0 where
  completed skipped unavailable : JudgeEvaluationStatus

pub data JudgeVerdict : Type 0 where
  pass concerns fail not_evaluated : JudgeVerdict

pub record JudgeInputSnapshot : Type 0 where
  pub content : List ℕ
  pub input_sha256 : String
  pub artifact_names : List String
  pub truncated : Bool
  pub redacted : Bool
  pub suspicious_instruction : Bool

pub record JudgeEvaluationArtifact : Type 0 where
  pub rubric_version : String
  pub rubric_sha256 : String
  pub status : JudgeEvaluationStatus
  pub verdict : JudgeVerdict
  pub overall_score : Option ℕ
  pub dimension_scores : Json
  pub criteria : Json
  pub summary : String
  pub limitations : List String
  pub provider : String
  pub model : String
  pub input_sha256 : String
  pub input_truncated : Bool
  pub input_redacted : Bool
  pub output_redacted : Bool
  pub suspicious_instruction : Bool
  pub authoritative : Bool
  pub evaluated_at : ℕ
  pub error_type : Option String
