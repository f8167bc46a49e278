-- ===== src/Api.antt =====
-- The routes of app/api/routes/tasks.py, over the services that they call. FastAPI gives a route its
-- dependencies as arguments.
pub mod Responses
pub mod Routes
pub mod ExternalValidation
pub mod Clean
pub mod Completing
pub mod Accepting
pub mod Deciding
pub mod Reviewing
