-- ===== src/Issue/Analysis.antt =====
-- app/agents/github_issue_analysis.py: the analysis without a model.
use steh_v1_0_0_rc.Base.{
  Bool, ◌||◌, List, [], ◌∷◌, any, if◌then◌else◌, take, concat, decimal, non_empty, Option, none,
  some, Result, ok, ◌>>=◌,
}
use steh_v1_0_0_rc.Models.Context.{Text}
use steh_v1_0_0_rc.Models.Issue.{
  GitHubIssueSnapshot, IssueKind, IssuePriority, IssueRecommendation, IssueAnalysisArtifact,
}
use steh_v1_0_0_rc.External.{Library}
use steh_v1_0_0_rc.Context.Sanitize.{codes, text_eq, starts_with, contains_text}

module _ (lib : Library) where
  -- `label in labels`
  unfoldable pub has_label : GitHubIssueSnapshot → Text → Bool
  unfolding text_eq
  has_label issue label = any (λ x. text_eq (lib.casefold x) label) issue.labels

  -- The chain of tests: what the issue is, and how urgent.
  unfoldable pub classify : GitHubIssueSnapshot → IssueKind × IssuePriority
  unfolding has_label contains_text starts_with
  classify issue =
      let title = lib.casefold issue.title in
      if has_label issue (codes "security")
        || contains_text (codes "security") title
        || contains_text (codes "vulnerability") title
      then (IssueKind.security, IssuePriority.high)
      else if has_label issue (codes "bug") || starts_with (codes "bug") title
      then (IssueKind.bug, IssuePriority.high)
      else if has_label issue (codes "enhancement") || has_label issue (codes "feature")
      then (IssueKind.feature, IssuePriority.medium)
      else if has_label issue (codes "documentation") || has_label issue (codes "docs")
      then (IssueKind.documentation, IssuePriority.low)
      else if has_label issue (codes "maintenance") || has_label issue (codes "chore")
      then (IssueKind.maintenance, IssuePriority.medium)
      else (IssueKind.unknown, IssuePriority.medium)

  abbrev pub ambiguities_of : GitHubIssueSnapshot → List Text
  ambiguities_of issue =
      if non_empty issue.body then [] else codes "The issue does not provide a description." ∷ []

  abbrev pub risks_of : GitHubIssueSnapshot → List Text
  risks_of issue =
      codes "The issue may omit affected components or operational constraints."
      ∷ (if issue.suspicious_instruction
          then codes "The issue contains instruction-like untrusted content." ∷ []
          else [])

  -- `_run_stub`
  unfoldable pub run_stub : GitHubIssueSnapshot → IssueAnalysisArtifact
  unfolding classify
  run_stub issue = record {
    schema_version = "1.0";
    repository = issue.repository;
    issue_number = issue.issue_number;
    issue_url = issue.issue_url;
    issue_updated_at = issue.updated_at;
    source_content_sha256 = issue.content_sha256;
    summary = issue.title;
    problem_statement = take 5000 (if non_empty issue.body then issue.body else issue.title);
    issue_kind = (classify issue).0;
    priority = (classify issue).1;
    functional_requirements =
        codes (
          concat "Address the behavior described by issue #"
            (concat (decimal issue.issue_number) "."))
        ∷ [];
    non_functional_requirements =
        codes "Preserve security, observability, auditability, and testability." ∷ [];
    acceptance_criteria =
        codes "The reported behavior is reproducibly addressed."
        ∷ codes "Automated tests cover the expected and negative paths."
        ∷ [];
    risks = risks_of issue;
    dependencies = [];
    ambiguities = ambiguities_of issue;
    recommendation =
        if non_empty (ambiguities_of issue) || issue.suspicious_instruction
        then IssueRecommendation.clarify
        else IssueRecommendation.proceed;
  }

  -- `_run_openai` after the model's answer was validated
  abbrev pub complete_analysis : GitHubIssueSnapshot → IssueAnalysisArtifact → IssueAnalysisArtifact
  complete_analysis issue analysis = record analysis {
    repository = issue.repository;
    issue_number = issue.issue_number;
    issue_url = issue.issue_url;
    issue_updated_at = issue.updated_at;
    source_content_sha256 = issue.content_sha256;
  }

  -- The analysis of `run`: in the mode `openai`, `model` is the validated answer, or what was raised.
  unfoldable pub analyse :
      Option (GitHubIssueSnapshot → Result IssueAnalysisArtifact)
      → GitHubIssueSnapshot
      → Result IssueAnalysisArtifact
  unfolding run_stub
  analyse none issue = ok (run_stub issue)
  analyse (some model) issue = do analysis ← model issue; ok (complete_analysis issue analysis)
