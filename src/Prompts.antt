-- ===== src/Prompts.antt =====
-- The versioned prompts of app/services/prompts.py: reading a prompt file (Parse), and the lock file
-- that pins the hash of each version (Lock).
pub mod Parse
pub mod Lock
pub mod Files
pub mod Checks
pub mod Written
