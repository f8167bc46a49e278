-- ===== src/Models/Task.antt =====
-- app/models/contracts.py and app/models/scanning.py: the status of a task, what an agent returns,
-- and the decision of the rework controller.
use steh_v1_0_0_rc.Base.{ℕ, String, Bool, List}
use steh_v1_0_0_rc.Json.{Json}

pub data TaskStatus : Type 0 where
  created queued analyzing_issue analyzing_pull_request contextualizing analyzing : TaskStatus
  specifying architecting security_review test_planning ready_for_implementation : TaskStatus
  implementing validating human_review blocked rework_required rework_exhausted : TaskStatus
  resuming completed failed : TaskStatus

-- `confidence` is a float in [0, 1]; it is kept in hundredths.
pub record AgentResult : Type 0 where
  pub agent : String
  pub status : String
  pub result : Json
  pub findings : List Json
  pub evidence : List Json
  pub confidence : ℕ

pub record ReworkDecision : Type 0 where
  pub required : Bool
  pub attempt : ℕ
  pub max_attempts : ℕ
  pub exhausted : Bool
  pub automatic : Bool
  pub reasons : List String
