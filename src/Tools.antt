-- ===== src/Tools.antt =====
-- The tools of app/tools: `Scanners` reads what the scanner processes report, `Evidence` has the proofs.
pub mod Scanners
pub mod Evidence
