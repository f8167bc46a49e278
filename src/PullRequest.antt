-- ===== src/PullRequest.antt =====
-- The review of a pull request: app/services/pull_request_reviews.py sanitises what was fetched
-- (`Sanitize`), app/agents/pull_request_review.py classifies paths (`Paths`), derives findings
-- (`Findings`) and puts the review together (`Review`). The others are
-- proofs.
pub mod Paths
pub mod Findings
pub mod Review
pub mod Risk
pub mod Coverage
pub mod Verdict
pub mod Merging
pub mod Sanitize
pub mod Texts
pub mod Patches
pub mod Payloads
pub mod Service
pub mod Outcome
