-- ===== src/Tests/Tools.antt =====
-- The evidence of app/tools/scanners.py for a scanner that fails.
use steh_v1_0_0_rc.Base.{
  ◌≡◌, refl, String, false, not, ◌&&◌, Option, none, some, List, [], ◌∷◌, ◌++◌, is_some, ok,
}
use steh_v1_0_0_rc.Json.{Json, num}
use steh_v1_0_0_rc.Models.Context.{Text}
use steh_v1_0_0_rc.Context.Sanitize.{codes, strip, strip_left}
use steh_v1_0_0_rc.Tools.Scanners.{ProcessResult, ScannerEvidence, normalize, run_all}
use steh_v1_0_0_rc.Tools.Evidence.{has_text, is_readable, scan_fails_closed}

-- A process that fails without a word.
abbrev silent : ProcessResult
silent = record {
  success = false;
  exit_code = num 1;
  stdout = [];
  stderr = [];
  duration_ms = num 0;
}

abbrev no_json : Text → Option Json
no_json text = none

abbrev evidence : String → ScannerEvidence
evidence scanner = record {
  scanner = scanner;
  success = false;
  exit_code = num 1;
  duration_ms = num 0;
  findings = [];
  error = some (codes scanner ++ codes " returned non-zero exit code.");
}

normalizes : normalize no_json "trivy" silent ≡ ok (evidence "trivy")
unfolding normalize strip strip_left
normalizes = refl

scan_fails_closed_example :
    ((evidence "trivy").success ≡ (silent.success && is_readable no_json silent.stdout))
    × (has_text (evidence "trivy").error ≡ not (evidence "trivy").success)
    × (is_some (evidence "trivy").error ≡ not (evidence "trivy").success)
scan_fails_closed_example = scan_fails_closed no_json "trivy" silent normalizes

abbrev all_silent : List ScannerEvidence
all_silent = evidence "semgrep" ∷ evidence "gitleaks" ∷ evidence "trivy" ∷ []

runs_all : run_all no_json (λ scanner. ok silent) ≡ ok all_silent
unfolding run_all normalize strip strip_left
runs_all = refl
