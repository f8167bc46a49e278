-- ===== src/Models/PullRequest.antt =====
-- app/models/github_pull_request.py. Texts from GitHub are lists of code points; hashes, urls and fixed
-- texts are strings.
use steh_v1_0_0_rc.Base.{ℕ, String, Bool, Option, List}
use steh_v1_0_0_rc.Models.Context.{Text}

pub data PullRequestFileStatus : Type 0 where
  added changed copied modified removed renamed unchanged : PullRequestFileStatus

pub data PullRequestState : Type 0 where
  opened closed : PullRequestState

pub record FetchedPullRequestFile : Type 0 where
  pub filename : Text
  pub status : PullRequestFileStatus
  pub additions : ℕ
  pub deletions : ℕ
  pub changes : ℕ
  pub patch : Text
  pub previous_filename : Option Text

pub record FetchedGitHubPullRequest : Type 0 where
  pub repository : String
  pub pull_number : ℕ
  pub title : Text
  pub body : Text
  pub state : PullRequestState
  pub author : Text
  pub pull_request_url : String
  pub updated_at : ℕ
  pub base_ref : Text
  pub base_sha : String
  pub head_ref : Text
  pub head_sha : String
  pub draft : Bool
  pub merged : Bool
  pub changed_files : ℕ
  pub additions : ℕ
  pub deletions : ℕ
  pub files : List FetchedPullRequestFile
  pub files_truncated : Bool

pub record PullRequestFileSnapshot : Type 0 where
  pub filename : Text
  pub status : PullRequestFileStatus
  pub additions : ℕ
  pub deletions : ℕ
  pub changes : ℕ
  pub patch : Text
  pub previous_filename : Option Text
  pub patch_sha256 : String
  pub redacted : Bool
  pub suspicious_instruction : Bool
  pub truncated : Bool

pub record GitHubPullRequestSnapshot : Type 0 where
  pub repository : String
  pub pull_number : ℕ
  pub title : Text
  pub body : Text
  pub state : PullRequestState
  pub author : Text
  pub pull_request_url : String
  pub updated_at : ℕ
  pub base_ref : Text
  pub base_sha : String
  pub head_ref : Text
  pub head_sha : String
  pub draft : Bool
  pub merged : Bool
  pub changed_files : ℕ
  pub additions : ℕ
  pub deletions : ℕ
  pub files : List PullRequestFileSnapshot
  pub content_sha256 : String
  pub redacted : Bool
  pub suspicious_instruction : Bool
  pub truncated : Bool

pub record GitHubPullRequestReceipt : Type 0 where
  pub repository : String
  pub pull_number : ℕ
  pub state : PullRequestState
  pub pull_request_url : String
  pub updated_at : ℕ
  pub base_ref : Text
  pub base_sha : String
  pub head_ref : Text
  pub head_sha : String
  pub draft : Bool
  pub merged : Bool
  pub changed_files : ℕ
  pub fetched_files : ℕ
  pub additions : ℕ
  pub deletions : ℕ
  pub content_sha256 : String
  pub redacted : Bool
  pub suspicious_instruction : Bool
  pub truncated : Bool

pub data PullRequestRisk : Type 0 where
  low medium high critical : PullRequestRisk

pub data PullRequestRecommendation : Type 0 where
  ready_for_human_review changes_required block : PullRequestRecommendation

pub data PullRequestFindingCategory : Type 0 where
  architecture contract documentation quality security testing : PullRequestFindingCategory

pub record PullRequestFinding : Type 0 where
  pub severity : PullRequestRisk
  pub category : PullRequestFindingCategory
  pub title : Text
  pub description : String
  pub file_path : Option Text
  pub line : Option ℕ
  pub recommendation : String

pub record PullRequestReviewArtifact : Type 0 where
  pub repository : String
  pub pull_number : ℕ
  pub pull_request_url : String
  pub pull_request_updated_at : ℕ
  pub source_content_sha256 : String
  pub context_bundle_sha256 : String
  pub summary : Text
  pub change_intent : Text
  pub changed_components : List Text
  pub findings : List PullRequestFinding
  pub test_coverage_assessment : String
  pub security_assessment : String
  pub architecture_assessment : String
  pub risk_level : PullRequestRisk
  pub recommendation : PullRequestRecommendation
  pub requires_human_review : Bool
