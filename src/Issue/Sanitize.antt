-- ===== src/Issue/Sanitize.antt =====
-- app/services/github_issues.py: the sanitised snapshot of a fetched issue, and its receipt.
use steh_v1_0_0_rc.Base.{
  ℕ, Bool, not, ◌||◌, List, any, map, select, ltb, length, take, Result, ok, value_error, ◌>>◌,
  raise_if,
}
use steh_v1_0_0_rc.Models.Context.{Text}
use steh_v1_0_0_rc.Models.Issue.{FetchedGitHubIssue, GitHubIssueSnapshot, GitHubIssueReceipt}
use steh_v1_0_0_rc.External.{Library}
use steh_v1_0_0_rc.Context.Sanitize.{SanitizedContextText, sanitize_context_text}
use steh_v1_0_0_rc.Context.Build.{is_empty}

-- The dict that is dumped to JSON and hashed; `canonical` gives its text.
pub record CanonicalIssue : Type 0 where
  pub title : Text
  pub body : Text
  pub labels : List Text
  pub author : Text

module _ (lib : Library) (canonical : CanonicalIssue → Text) where
  abbrev pub sanitized_labels : FetchedGitHubIssue → List SanitizedContextText
  sanitized_labels issue = map (sanitize_context_text lib) issue.labels

  abbrev pub safe_labels : FetchedGitHubIssue → List Text
  safe_labels issue =
      map (λ label. label.content)
        (select (λ label. not (is_empty label.content)) (sanitized_labels issue))

  -- The flags of the title, the body, the author and the labels, for one of the two flags.
  abbrev pub any_flag : (SanitizedContextText → Bool) → FetchedGitHubIssue → Bool
  any_flag flag issue =
      flag (sanitize_context_text lib issue.title)
      || flag (sanitize_context_text lib issue.body)
      || flag (sanitize_context_text lib issue.author)
      || any flag (sanitized_labels issue)

  -- the snapshot that is validated at the end
  unfoldable pub issue_snapshot : FetchedGitHubIssue → ℕ → GitHubIssueSnapshot
  issue_snapshot issue max_body_characters =
      let title = sanitize_context_text lib issue.title in
      let body = sanitize_context_text lib issue.body in
      let author = sanitize_context_text lib issue.author in
      let safe_body = take max_body_characters body.content in
      record {
        repository = issue.repository;
        issue_number = issue.issue_number;
        title = title.content;
        body = safe_body;
        state = issue.state;
        labels = safe_labels issue;
        author = author.content;
        issue_url = issue.issue_url;
        updated_at = issue.updated_at;
        content_sha256 = lib.sha256 (
            canonical (record {
              title = title.content;
              body = safe_body;
              labels = safe_labels issue;
              author = author.content;
            }));
        redacted = any_flag (λ text. text.redacted) issue;
        suspicious_instruction = any_flag (λ text. text.suspicious_instruction) issue;
        truncated = ltb max_body_characters (length body.content);
      }

  -- `sanitize_github_issue`
  unfoldable pub sanitize_github_issue : FetchedGitHubIssue → ℕ → Result GitHubIssueSnapshot
  unfolding issue_snapshot
  sanitize_github_issue issue max_body_characters = do
    raise_if (ltb max_body_characters 1) value_error
    raise_if (is_empty (sanitize_context_text lib issue.title).content) value_error
    raise_if (is_empty (sanitize_context_text lib issue.author).content) value_error
    ok (issue_snapshot issue max_body_characters)

-- `github_issue_receipt`
unfoldable pub github_issue_receipt : GitHubIssueSnapshot → GitHubIssueReceipt
github_issue_receipt issue = record {
  repository = issue.repository;
  issue_number = issue.issue_number;
  state = issue.state;
  labels = issue.labels;
  issue_url = issue.issue_url;
  updated_at = issue.updated_at;
  content_sha256 = issue.content_sha256;
  redacted = issue.redacted;
  suspicious_instruction = issue.suspicious_instruction;
  truncated = issue.truncated;
}
