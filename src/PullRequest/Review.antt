-- ===== src/PullRequest/Review.antt =====
-- app/agents/pull_request_review.py: `PullRequestReviewAgent.run`, up to the dump of its result.
use steh_v1_0_0_rc.Base.{
  ℕ, Bool, true, false, not, ◌&&◌, ◌||◌, Option, none, some, List, [], ◌∷◌, ◌++◌, map, nat_eq,
  if◌then◌else◌, any, take, Result, ok, ◌>>=◌, non_empty,
}
use steh_v1_0_0_rc.Models.Context.{Text, ContextBundle}
use steh_v1_0_0_rc.Models.PullRequest.{
  GitHubPullRequestSnapshot, PullRequestRecommendation, ready_for_human_review, changes_required,
  block, PullRequestFindingCategory, architecture, contract, documentation, quality, security,
  testing, PullRequestFinding, PullRequestReviewArtifact,
}
use steh_v1_0_0_rc.External.{Library}
use steh_v1_0_0_rc.Context.Sanitize.{text_eq}
use steh_v1_0_0_rc.PullRequest.Paths.{is_test_file, is_code_file, changed_components}
use steh_v1_0_0_rc.PullRequest.Findings.{
  max_risk, highest_risk, append_if, deterministic_findings, context_truncation_finding,
}

abbrev pub category_code : PullRequestFindingCategory → ℕ
category_code architecture = 0
category_code contract = 1
category_code documentation = 2
category_code quality = 3
category_code security = 4
category_code testing = 5

abbrev pub same_category : PullRequestFindingCategory → PullRequestFindingCategory → Bool
same_category a b = nat_eq (category_code a) (category_code b)

unfoldable pub same_path : Option Text → Option Text → Bool
unfolding text_eq
same_path none none = true
same_path (some s) (some t) = text_eq s t
same_path _ _ = false

module _ (lib : Library) where
  -- equality of the identities in `_merge_findings`
  unfoldable pub same_finding : PullRequestFinding → PullRequestFinding → Bool
  unfolding same_path text_eq
  same_finding a b =
      same_category a.category b.category
      && text_eq (lib.casefold a.title) (lib.casefold b.title)
      && same_path a.file_path b.file_path

  -- The loop of `_merge_findings`: `seen` holds findings with the identities in the set.
  unfoldable pub merge_loop :
      List PullRequestFinding → List PullRequestFinding → List PullRequestFinding
  merge_loop seen [] = []
  merge_loop seen (finding ∷ findings) = elim (any (same_finding finding) seen) [
    | true ↦ merge_loop seen findings
    | false ↦ finding ∷ merge_loop (finding ∷ seen) findings
  ]

  -- `_merge_findings`
  unfoldable pub merge_findings :
      List PullRequestFinding → List PullRequestFinding → List PullRequestFinding
  unfolding merge_loop
  merge_findings required proposed = take 100 (merge_loop [] (required ++ proposed))

  -- The findings that `run` and `_run_stub` derive.
  unfoldable pub required_findings :
      GitHubPullRequestSnapshot → ContextBundle → List PullRequestFinding
  unfolding deterministic_findings
  required_findings pull_request context =
      deterministic_findings lib pull_request
      ++ append_if context.truncated context_truncation_finding

  abbrev pub code_changed : GitHubPullRequestSnapshot → Bool
  code_changed pull_request =
      any (is_code_file lib) (map (λ item. item.filename) pull_request.files)

  abbrev pub tests_changed : GitHubPullRequestSnapshot → Bool
  tests_changed pull_request =
      any (is_test_file lib) (map (λ item. item.filename) pull_request.files)

  unfoldable pub stub_recommendation :
      GitHubPullRequestSnapshot → ContextBundle → PullRequestRecommendation
  stub_recommendation pull_request context =
      if pull_request.redacted
      then block
      else if pull_request.suspicious_instruction || pull_request.truncated || context.truncated
      then changes_required
      else if code_changed pull_request && not (tests_changed pull_request)
      then changes_required
      else ready_for_human_review

  -- `_run_stub`
  unfoldable pub run_stub : GitHubPullRequestSnapshot → ContextBundle → PullRequestReviewArtifact
  unfolding required_findings stub_recommendation changed_components highest_risk
  run_stub pull_request context =
      let findings = required_findings pull_request context in
      record {
        repository = pull_request.repository;
        pull_number = pull_request.pull_number;
        pull_request_url = pull_request.pull_request_url;
        pull_request_updated_at = pull_request.updated_at;
        source_content_sha256 = pull_request.content_sha256;
        context_bundle_sha256 = context.bundle_sha256;
        summary = pull_request.title;
        change_intent =
            take 5000
              (if non_empty pull_request.body then pull_request.body else pull_request.title);
        changed_components = changed_components pull_request;
        findings = findings;
        test_coverage_assessment =
            if tests_changed pull_request
            then "Test changes are present in the pull request."
            else "No identifiable test changes are present in the pull request.";
        security_assessment =
            if any (λ item. same_category item.category security) findings
            then "Deterministic security review findings require attention."
            else "No deterministic security signal was identified.";
        architecture_assessment =
            if code_changed pull_request
            then "Changed components require human architectural review."
            else "No executable source-code component was identified.";
        risk_level = highest_risk findings;
        recommendation = stub_recommendation pull_request context;
        requires_human_review = true;
      }

  -- The recommendation of `run`, from the one that was proposed.
  unfoldable pub recommend :
      GitHubPullRequestSnapshot
      → ContextBundle
      → List PullRequestFinding
      → PullRequestRecommendation
      → PullRequestRecommendation
  recommend pull_request context deterministic proposed =
      if pull_request.redacted
      then block
      else if pull_request.suspicious_instruction || pull_request.truncated || context.truncated
      then changes_required
      else if any (λ finding. same_category finding.category testing) deterministic
      then changes_required
      else proposed

  -- The `model_copy` of `run`.
  unfoldable pub complete_review :
      GitHubPullRequestSnapshot
      → ContextBundle
      → PullRequestReviewArtifact
      → PullRequestReviewArtifact
  unfolding required_findings merge_findings recommend max_risk highest_risk
  complete_review pull_request context review =
      let deterministic = required_findings pull_request context in
      let findings = merge_findings deterministic review.findings in
      record review {
        repository = pull_request.repository;
        pull_number = pull_request.pull_number;
        pull_request_url = pull_request.pull_request_url;
        pull_request_updated_at = pull_request.updated_at;
        source_content_sha256 = pull_request.content_sha256;
        context_bundle_sha256 = context.bundle_sha256;
        findings = findings;
        risk_level = max_risk review.risk_level (highest_risk findings);
        recommendation = recommend pull_request context deterministic review.recommendation;
        requires_human_review = true;
      }

  -- `run`: in the mode `openai`, `model` is what `_run_openai` returns or raises.
  unfoldable pub run :
      Option (Result PullRequestReviewArtifact)
      → GitHubPullRequestSnapshot
      → ContextBundle
      → Result PullRequestReviewArtifact
  unfolding complete_review run_stub
  run none pull_request context =
      ok (complete_review pull_request context (run_stub pull_request context))
  run (some model) pull_request context = do
    review ← model
    ok (complete_review pull_request context review)
