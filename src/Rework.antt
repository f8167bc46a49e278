-- ===== src/Rework.antt =====
-- app/orchestration/rework.py; the policy is the `rework` part of policies/execution.yaml.
use steh_v1_0_0_rc.Base.{
  ℕ, String, Bool, true, ◌&&◌, List, ltb, leb, non_empty, Result, ok, value_error, ◌>>◌, raise_if,
}
use steh_v1_0_0_rc.Models.Task.{ReworkDecision}

pub record ReworkPolicy : Type 0 where
  pub max_attempts : ℕ
  pub automatic : Bool

-- `ReworkController.decide`
unfoldable pub decide : ReworkPolicy → ℕ → List String → Result ReworkDecision
decide policy current_attempt reasons = do
  raise_if (ltb policy.max_attempts 1) value_error
  ok (record {
    required = non_empty reasons;
    attempt = current_attempt;
    max_attempts = policy.max_attempts;
    exhausted = non_empty reasons && leb policy.max_attempts current_attempt;
    automatic = policy.automatic;
    reasons = reasons;
  })

-- policies/execution.yaml
abbrev pub execution_policy : ReworkPolicy
execution_policy = record { max_attempts = 2; automatic = true }
