-- ===== src/GitHub.antt =====
-- The clients of GitHub's API: app/services/github_pull_requests.py (PullRequests) and
-- app/services/github_client.py (Issues), over what they share: requests and replies (Http) and the
-- repositories that the settings allow (Repositories).
pub mod Http
pub mod Repositories
pub mod Payloads
pub mod PullRequests
pub mod Issues
pub mod IssueErrors
pub mod Caught
pub mod Reading
pub mod Replies
pub mod Limits
pub mod Fetching
pub mod Allowed
