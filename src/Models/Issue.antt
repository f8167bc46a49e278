-- ===== src/Models/Issue.antt =====
-- app/models/github_issue.py. Texts are lists of code points; hashes and urls are strings.
use steh_v1_0_0_rc.Base.{ℕ, String, Bool, List}
use steh_v1_0_0_rc.Models.Context.{Text}

pub data IssueState : Type 0 where
  opened closed : IssueState

pub record FetchedGitHubIssue : Type 0 where
  pub repository : String
  pub issue_number : ℕ
  pub title : Text
  pub body : Text
  pub state : IssueState
  pub labels : List Text
  pub author : Text
  pub issue_url : String
  pub updated_at : ℕ

pub record GitHubIssueSnapshot : Type 0 where
  pub repository : String
  pub issue_number : ℕ
  pub title : Text
  pub body : Text
  pub state : IssueState
  pub labels : List Text
  pub author : Text
  pub issue_url : String
  pub updated_at : ℕ
  pub content_sha256 : String
  pub redacted : Bool
  pub suspicious_instruction : Bool
  pub truncated : Bool

pub record GitHubIssueReceipt : Type 0 where
  pub repository : String
  pub issue_number : ℕ
  pub state : IssueState
  pub labels : List Text
  pub issue_url : String
  pub updated_at : ℕ
  pub content_sha256 : String
  pub redacted : Bool
  pub suspicious_instruction : Bool
  pub truncated : Bool

pub data IssueKind : Type 0 where
  bug feature security documentation maintenance unknown : IssueKind

pub data IssuePriority : Type 0 where
  low medium high critical : IssuePriority

pub data IssueRecommendation : Type 0 where
  proceed clarify block : IssueRecommendation

pub record IssueAnalysisArtifact : Type 0 where
  pub schema_version : String
  pub repository : String
  pub issue_number : ℕ
  pub issue_url : String
  pub issue_updated_at : ℕ
  pub source_content_sha256 : String
  pub summary : Text
  pub problem_statement : Text
  pub issue_kind : IssueKind
  pub priority : IssuePriority
  pub functional_requirements : List Text
  pub non_functional_requirements : List Text
  pub acceptance_criteria : List Text
  pub risks : List Text
  pub dependencies : List Text
  pub ambiguities : List Text
  pub recommendation : IssueRecommendation
