-- ===== src/Auth.antt =====
-- Who may call the API: app/core/auth.py (Principal), and what a caller who is let in has shown
-- (Guarded).
pub mod Principal
pub mod Guarded
