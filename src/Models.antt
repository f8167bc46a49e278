-- ===== src/Models.antt =====
-- The data types that the components exchange (app/models). Instants and durations are numbers in one unit.
pub mod Task
pub mod Review
pub mod Context
pub mod Judge
pub mod State
pub mod PullRequest
pub mod Issue
