-- ===== src/Tests.antt =====
-- Concrete runs of app/: `Data` has the artifacts, agents and tables, the others apply the theorems of
-- the part that they are named for.
pub mod Data
pub mod Workflow
pub mod Gates
pub mod Services
pub mod PullRequest
pub mod Reviews
pub mod Issues
pub mod Tools
pub mod GitHub
pub mod Prompts
pub mod Auth
pub mod Context
pub mod Api
