-- ===== src/Lib.antt =====
-- STEH takes an engineering request through a workflow of agents with policy gates between them, a
-- human review where a high risk is open, and an audit trail of every step. This library models the
-- Python code under app/ that decides what such a task may do, and proves what those decisions
-- guarantee.
--
-- The parts and how they meet. The API (app/api/routes/tasks.py) puts a task and a job into the
-- database (app/db/models.py). A worker (app/worker.py) claims a job from the queue
-- (app/services/jobs.py) and calls a service (app/services/tasks.py), which runs or resumes the
-- workflow graph (app/orchestration/graph.py). The nodes run agents under a lifecycle
-- (app/orchestration/lifecycle.py, app/services/audit.py), the gates ask the policy engine
-- (app/policies/engine.py) and the rework controller (app/orchestration/rework.py). The context of a
-- request is built by the Context Engine (app/services/context.py); issues and pull requests come
-- from GitHub through two clients (app/services/github_client.py,
-- app/services/github_pull_requests.py), and each agent is governed by a versioned prompt
-- (app/services/prompts.py).
--
-- Which file models which part:
--   Base, Json        numbers, lists, Python's exceptions as results, JSON values
--   Models            the types of app/models
--   Policy            app/policies and policies/quality-gates.yaml
--   Rework            app/orchestration/rework.py and policies/execution.yaml
--   Db                app/db/models.py; a session holds committed and pending tables
--   Audit             app/services/audit.py and app/orchestration/lifecycle.py
--   Jobs              app/services/jobs.py; Jobs/Reaper what happens to expired leases, Jobs/Lifecycle
--                     what the queue promises its callers
--   Worker            app/worker.py
--   Tools             app/tools/scanners.py (Scanners)
--   Auth              app/core/auth.py (Principal)
--   Context           app/services/context.py: Sanitize, Order, Build
--   Judge             the receipt of app/services/judge.py
--   PullRequest       app/agents/pull_request_review.py (Paths, Findings, Review) and
--                     app/services/pull_request_reviews.py (Sanitize, Payloads, Service)
--   Workflow          app/orchestration/graph.py: Gates, Nodes, Judging, and Run for the edges
--   Tasks             app/services/tasks.py and app/services/security.py
--   Issue             app/agents/github_issue_analysis.py (Analysis) and app/services/github_issues.py
--                     (Sanitize, Payloads, Service)
--   GitHub            app/services/github_pull_requests.py (PullRequests, Payloads) and
--                     app/services/github_client.py (Issues); Http is the network they share
--   Prompts           app/services/prompts.py: Parse, and Lock for the lock file
--   Api               app/api/routes/tasks.py: Responses, Routes, ExternalValidation
--   Settings          app/core/config.py
--   External          what third-party code gives: hashes, JSON text, regular expressions
--   Tests             concrete runs
-- Functions and fields keep their names from the source. A function that raises returns a result, one
-- that uses the database is an action on a session, and what it wrote stays written after it raised.
-- `rollback` drops the pending tables, `commit` publishes them. A key that is missing from the
-- workflow's state is none; an artifact of an agent is an arbitrary JSON value.
--
-- Bounds and fuel. Numbers are unbounded, as in Python; instants and durations are
-- numbers in one unit. A run of the graph has fuel for the nodes that it enters: 19 and 4 for each
-- rework that the policy allows are enough. All other loops run over lists.
--
-- Not modelled: what language models, GitHub and subprocesses return (they are parameters or are
-- left out), logging and metrics, the routes that only read the audit trail and the findings,
-- migrations, the checkpointer's storage, rows that another transaction holds locked, lengths of
-- columns and of model fields, the lease thread of the worker, the capability gateway with the
-- validator over it, the text of a prompt's context, what the judge's input and evaluation hold, the
-- artifacts that the workflow's agents give without a model, and the scripts that check a release.
-- Ids do not repeat. Floats (an agent's confidence) are kept in hundredths.
pub mod Base
pub mod Json
pub mod Models
pub mod Policy
pub mod Db
pub mod Api
pub mod Audit
pub mod Jobs
pub mod External
pub mod Settings
pub mod Context
pub mod Rework
pub mod Judge
pub mod PullRequest
pub mod Issue
pub mod Workflow
pub mod Tasks
pub mod Worker
pub mod Tools
pub mod Prompts
pub mod GitHub
pub mod Auth
pub mod Tests
