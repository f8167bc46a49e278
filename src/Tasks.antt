-- ===== src/Tasks.antt =====
-- app/services/tasks.py: the services that run a task. `Review` claims a human review, `Invoke` starts
-- or recovers a workflow thread, `Records` writes what a run leaves, `Run` puts these together.
pub mod Accept
pub mod Accepting
pub mod Presence
pub mod Lasting
pub mod Review
pub mod Claim
pub mod Invoke
pub mod Records
pub mod Run
