-- ===== src/PullRequest/Findings.antt =====
-- app/agents/pull_request_review.py: the findings that do not come from a model, and their order.
use steh_v1_0_0_rc.Base.{
  ℕ, Bool, true, false, not, ◌&&◌, none, some, List, [], ◌∷◌, ◌++◌, map, ltb, if◌then◌else◌,
  non_empty, select,
}
use steh_v1_0_0_rc.Models.Context.{Text}
use steh_v1_0_0_rc.Models.PullRequest.{
  GitHubPullRequestSnapshot, PullRequestRisk, low, medium, high, critical, quality, security,
  testing, PullRequestFinding,
}
use steh_v1_0_0_rc.External.{Library}
use steh_v1_0_0_rc.Context.Sanitize.{codes}
use steh_v1_0_0_rc.PullRequest.Paths.{is_test_file, is_code_file, is_sensitive_surface}

-- `_RISK_ORDER`
abbrev pub risk_order : PullRequestRisk → ℕ
risk_order low = 0
risk_order medium = 1
risk_order high = 2
risk_order critical = 3

-- `max(a, b, key=...)`: the first of the largest
unfoldable pub max_risk : PullRequestRisk → PullRequestRisk → PullRequestRisk
max_risk a b = if ltb (risk_order a) (risk_order b) then b else a

abbrev pub max_from : PullRequestRisk → List PullRequestFinding → PullRequestRisk
max_from risk [] = risk
max_from risk (finding ∷ findings) = max_from (max_risk risk finding.severity) findings

-- `_highest_risk`
unfoldable pub highest_risk : List PullRequestFinding → PullRequestRisk
unfolding max_risk
highest_risk [] = low
highest_risk (finding ∷ findings) = max_from finding.severity findings

abbrev pub secret_finding : PullRequestFinding
secret_finding = record {
  severity = critical;
  category = security;
  title = codes "Potential secret present in pull request content";
  description =
      "A credential-like value was redacted before the pull request content entered the review workflow.";
  file_path = none;
  line = none;
  recommendation =
      "Revoke the exposed credential, remove it from Git history, and request a security review before proceeding.";
}

abbrev pub instruction_finding : PullRequestFinding
instruction_finding = record {
  severity = high;
  category = security;
  title = codes "Instruction-like content detected in untrusted diff";
  description =
      "The pull request contains text resembling an attempt to alter the reviewer's instructions.";
  file_path = none;
  line = none;
  recommendation =
      "Inspect the affected content manually and treat it strictly as repository data, not as instructions.";
}

abbrev pub coverage_finding : PullRequestFinding
coverage_finding = record {
  severity = high;
  category = quality;
  title = codes "Pull request diff coverage is incomplete";
  description = "The configured file or patch budget did not capture the complete pull request.";
  file_path = none;
  line = none;
  recommendation = "Review the omitted files and patches before relying on this analysis.";
}

abbrev pub untested_finding : Text → PullRequestFinding
untested_finding path = record {
  severity = medium;
  category = testing;
  title = codes "Code changes have no corresponding test changes";
  description =
      "Executable source files changed, but the pull request does not include an identifiable test file.";
  file_path = some path;
  line = none;
  recommendation =
      "Add or identify automated tests covering the changed behavior and relevant negative paths.";
}

abbrev pub sensitive_finding : Text → PullRequestFinding
sensitive_finding path = record {
  severity = medium;
  category = security;
  title = codes "Security-sensitive surface changed";
  description =
      "The pull request modifies authentication, security, policy, migration, container, or CI configuration.";
  file_path = some path;
  line = none;
  recommendation =
      "Require focused human review of permissions, rollback behavior, supply-chain exposure, and fail-closed handling.";
}

-- `_context_truncation_finding`
abbrev pub context_truncation_finding : PullRequestFinding
context_truncation_finding = record {
  severity = high;
  category = quality;
  title = codes "Pull request review context is incomplete";
  description =
      "The Context Engine token budget omitted part of the sanitized pull request before model review.";
  file_path = none;
  line = none;
  recommendation =
      "Inspect the complete diff manually or use an explicitly approved larger context budget before relying on this analysis.";
}

-- `if test: findings.append(finding)`
abbrev pub append_if : Bool → PullRequestFinding → List PullRequestFinding
append_if true finding = finding ∷ []
append_if false finding = []

-- `if paths: findings.append(...)` with the first of the paths
abbrev pub append_first : (Text → PullRequestFinding) → List Text → List PullRequestFinding
append_first finding [] = []
append_first finding (path ∷ paths) = finding path ∷ []

module _ (lib : Library) where
  -- `production_code` and `test_files`
  abbrev pub production_code : List Text → List Text
  production_code paths =
      select (λ path. is_code_file lib path && not (is_test_file lib path)) paths

  abbrev pub test_files : List Text → List Text
  test_files paths = select (is_test_file lib) paths

  abbrev pub untested : List Text → List PullRequestFinding
  untested paths =
      if non_empty (test_files paths)
      then []
      else append_first untested_finding (production_code paths)

  -- `_deterministic_findings`
  unfoldable pub deterministic_findings : GitHubPullRequestSnapshot → List PullRequestFinding
  deterministic_findings pull_request =
      let paths = map (λ item. item.filename) pull_request.files in
      append_if pull_request.redacted secret_finding
      ++ (append_if pull_request.suspicious_instruction instruction_finding
          ++ (append_if pull_request.truncated coverage_finding
              ++ (untested paths
                  ++ append_first sensitive_finding (select (is_sensitive_surface lib) paths))))
