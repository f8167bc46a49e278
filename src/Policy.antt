-- ===== src/Policy.antt =====
-- app/policies: the rules of a policy file and the decisions on them. `Engine` evaluates a rule,
-- `QualityGates` is the file that the repository ships; the other children are proofs.
use steh_v1_0_0_rc.Base.{String, Bool, List}
pub mod QualityGates
pub mod Engine
pub mod Decisions
pub mod Meaning

pub record PolicyRule : Type 0 where
  pub id : String
  pub description : String
  pub check : String
  pub action : String

pub record PolicyConfig : Type 0 where
  pub version : String
  pub rules : List PolicyRule

pub record PolicyDecision : Type 0 where
  pub policy_id : String
  pub passed : Bool
  pub action : String
  pub reason : String
