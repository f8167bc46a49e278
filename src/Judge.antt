-- ===== src/Judge.antt =====
-- app/services/judge.py: the non-authoritative judge.
pub mod Receipt
