-- ===== src/Tools/Scanners.antt =====
-- app/tools/scanners.py: the evidence of a scanner from the output of its process. The runner and the
-- reader of JSON are parameters; an exit code and a duration are passed on unread.
use steh_v1_0_0_rc.Base.{
  ℕ, ◌-◌, String, Bool, true, false, not, ◌&&◌, Option, none, some, List, [], ◌∷◌, ◌++◌, all,
  length, drop, is_some, if◌then◌else◌, ◌==◌, non_empty, Result, ok, err, value_error, ◌>>=◌, ◌>>◌,
  raise_if, traverse,
}
use steh_v1_0_0_rc.Json.{
  Json, str, arr, obj, end, field, get, get_default, iterate, or_default, empty_list, of_list,
  to_list,
}
use steh_v1_0_0_rc.Models.Context.{Text}
use steh_v1_0_0_rc.Context.Sanitize.{codes, strip}

-- app/tools/process_runner.py
pub record ProcessResult : Type 0 where
  pub success : Bool
  pub exit_code : Json
  pub stdout : Text
  pub stderr : Text
  pub duration_ms : Json

-- app/models/scanning.py
pub record ScannerEvidence : Type 0 where
  pub scanner : String
  pub success : Bool
  pub exit_code : Json
  pub duration_ms : Json
  pub findings : List Json
  pub error : Option Text

-- `for item in value.get(key, []) or []`
unfoldable pub each_of : Json → String → Result (List Json)
unfolding get_default or_default iterate
each_of value key = do
  found ← get_default value key empty_list
  iterate (or_default found empty_list)

abbrev pub finding_of : Json → Json → Json → Json → Json
finding_of severity rule_id path message = obj (
    field "severity" severity
      (field "rule_id" rule_id (field "path" path (field "message" message end))))

-- a row of `Vulnerabilities`
unfoldable pub vulnerability : Json → Json → Result Json
unfolding get get_default or_default
vulnerability target vuln = do
  severity ← get_default vuln "Severity" (str "UNKNOWN")
  rule_id ← get_default vuln "VulnerabilityID" (str "TRIVY")
  path ← get_default target "Target" (str "")
  title ← get vuln "Title"
  description ← get_default vuln "Description" (str "")
  ok (finding_of severity rule_id path (or_default title description))

-- a row of `Secrets`
unfoldable pub secret : Json → Json → Result Json
unfolding get_default
secret target found = do
  severity ← get_default found "Severity" (str "HIGH")
  rule_id ← get_default found "RuleID" (str "TRIVY-SECRET")
  path ← get_default target "Target" (str "")
  message ← get_default found "Title" (str "Secret detected")
  ok (finding_of severity rule_id path message)

-- The loop over the targets of a report of trivy.
unfoldable pub trivy_findings : List Json → Result (List Json)
unfolding each_of vulnerability secret
trivy_findings [] = ok []
trivy_findings (target ∷ targets) = do
  vulns ← each_of target "Vulnerabilities"
  first ← traverse (vulnerability target) vulns
  secrets ← each_of target "Secrets"
  second ← traverse (secret target) secrets
  rest ← trivy_findings targets
  ok (first ++ (second ++ rest))

-- What the parsed output says, before the model checks it.
unfoldable pub report_findings : String → Json → Result Json
unfolding trivy_findings
report_findings scanner payload =
    let trivy : Result Json = (do
      targets ← each_of payload "Results"
      findings ← trivy_findings targets
      ok (arr (of_list findings))) in
    if scanner == "semgrep"
    then get_default payload "results" empty_list
    else if scanner == "trivy"
    then trivy
    else ok empty_list

abbrev pub malformed : Text
malformed = codes "Scanner returned malformed JSON."

-- The findings, and the error if the output is not JSON. `loads` is none where `json.loads` raises.
unfoldable pub parse_output : (Text → Option Json) → String → Text → Result (Json × Option Text)
unfolding report_findings
parse_output loads scanner stdout = elim (non_empty (strip stdout)) [
  | false ↦ ok (empty_list, none)
  | true ↦ elim (loads stdout) [
    | none ↦ ok (empty_list, some malformed)
    | some payload ↦ (do findings ← report_findings scanner payload; ok (findings, none))
  ]
]

-- `text[-n:]`
abbrev pub last_chars : ℕ → Text → Text
last_chars n text = drop (length text - n) text

-- `result.stderr[-2000:] or f"..."`
unfoldable pub failure_text : String → Text → Text
failure_text scanner stderr =
    if non_empty (last_chars 2000 stderr)
    then last_chars 2000 stderr
    else codes scanner ++ codes " returned non-zero exit code."

-- The error of the evidence.
unfoldable pub final_error : String → ProcessResult → Option Text → Option Text
unfolding failure_text
final_error scanner result (some error) = some error
final_error scanner result none =
    if result.success then none else some (failure_text scanner result.stderr)

abbrev pub is_dict : Json → Bool
is_dict (obj fields) = true
is_dict _ = false

-- What pydantic does with the field `findings`.
unfoldable pub validate_findings : Json → Result (List Json)
validate_findings (arr items) = do
  raise_if (not (all is_dict (to_list items))) value_error
  ok (to_list items)
validate_findings _ = err value_error

-- `_normalize`
unfoldable pub normalize : (Text → Option Json) → String → ProcessResult → Result ScannerEvidence
unfolding parse_output final_error validate_findings
normalize loads scanner result = do
  parsed ← parse_output loads scanner result.stdout
  findings ← validate_findings parsed.0
  ok (record {
    scanner = scanner;
    success = result.success && not (is_some (final_error scanner result parsed.1));
    exit_code = result.exit_code;
    duration_ms = result.duration_ms;
    findings = findings;
    error = final_error scanner result parsed.1;
  })

-- One round of the loop of `run_all`; `run_scanner` is that of the runner, on the workspace.
unfoldable pub scan :
    (Text → Option Json) → (String → Result ProcessResult) → String → Result ScannerEvidence
scan loads run_scanner scanner = do result ← run_scanner scanner; normalize loads scanner result

-- `run_all`
unfoldable pub run_all :
    (Text → Option Json) → (String → Result ProcessResult) → Result (List ScannerEvidence)
unfolding scan
run_all loads run_scanner =
    traverse (scan loads run_scanner) ("semgrep" ∷ "gitleaks" ∷ "trivy" ∷ [])
