-- ===== src/Settings.antt =====
-- app/core/config.py: the settings that the modelled services read.
use steh_v1_0_0_rc.Base.{ℕ}

pub record Settings : Type 0 where
  pub context_max_sources : ℕ
  pub context_max_tokens : ℕ
  pub context_max_source_tokens : ℕ
  pub github_issue_max_body_chars : ℕ
  pub github_pr_max_patch_chars : ℕ
