-- ===== src/Issue.antt =====
-- A task from an issue: app/services/github_issues.py sanitises what was fetched (`Sanitize`) and runs
-- the analysis and the workflow (`Service`), app/agents/github_issue_analysis.py analyses the issue
-- (`Analysis`). The others are proofs.
pub mod Sanitize
pub mod Analysis
pub mod Payloads
pub mod Service
pub mod Intake
pub mod Outcome
