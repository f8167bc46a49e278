-- ===== src/Tools/Evidence.antt =====
-- What the evidence of app/tools/scanners.py says of a scan.
use steh_v1_0_0_rc.Base.{
  String, ◌≡◌, refl, Bool, true, false, not, ◌&&◌, ◌||◌, Option, none, some, List, [], ◌∷◌, ◌++◌,
  map, traverse, is_some, non_empty, Bool-cases, Option-cases, inl, inr, Result, ok, arith,
  >>=-eq-ok,
}
use steh_v1_0_0_rc.Json.{Json, empty_list}
use steh_v1_0_0_rc.Models.Context.{Text}
use steh_v1_0_0_rc.Context.Sanitize.{codes, strip}
use steh_v1_0_0_rc.Tools.Scanners.{
  malformed, report_findings, ProcessResult, ScannerEvidence, parse_output, failure_text,
  final_error, last_chars, validate_findings, normalize, scan, run_all,
}

-- A text is there, and is not empty.
abbrev pub has_text : Option Text → Bool
has_text none = false
has_text (some text) = non_empty text

non_empty-append : (s t : Text) → non_empty t ≡ true → non_empty (s ++ t) ≡ true
non_empty-append [] t h = h
non_empty-append (c ∷ s) t h = refl

failure_text-non_empty :
    (scanner : String) (stderr : Text) → non_empty (failure_text scanner stderr) ≡ true
unfolding failure_text
failure_text-non_empty scanner stderr = elim (Bool-cases (non_empty (last_chars 2000 stderr))) [
  | inl e ↦ rw e e
  | inr e ↦ rw e (non_empty-append (codes scanner) (codes " returned non-zero exit code.") refl)
]

-- The output is blank or JSON.
abbrev pub is_readable : (Text → Option Json) → Text → Bool
is_readable loads stdout = not (non_empty (strip stdout)) || is_some (loads stdout)

-- Parsing has an error exactly if the output is not readable, and its text is not empty.
parsed_error :
    (loads : Text → Option Json) (scanner : String) (stdout : Text) {p : Json × Option Text}
    → parse_output loads scanner stdout ≡ ok p
    → (has_text p.1 ≡ not (is_readable loads stdout))
      × (is_some p.1 ≡ not (is_readable loads stdout))
unfolding parse_output
parsed_error loads scanner stdout {p} h = elim (Bool-cases (non_empty (strip stdout))) [
  | inr e ↦
      let q : ◌≡◌ {A = Result (Json × Option Text)} (ok (empty_list, none)) (ok p) =
        rw (e, parse_output) at h in
      let r : none ≡ p.1 = cc q in rw (e, ← r) (refl, refl)
  | inl e ↦ elim (Option-cases (loads stdout)) [
    | inl n ↦
        let q : ◌≡◌ {A = Result (Json × Option Text)} (ok (empty_list, some malformed)) (ok p) =
          rw (e, n, parse_output) at h in
        let r : some malformed ≡ p.1 = cc q in rw (e, n, ← r) (refl, refl)
    | inr (payload, n) ↦
        let (findings, _, q) =
          >>=-eq-ok (report_findings scanner payload) _ (rw (e, n, parse_output) at h) in
        let r : none ≡ p.1 = cc q in rw (e, n, ← r) (refl, refl)
  ]
]

-- The final error, from the one of parsing.
final_error_lem :
    (scanner : String) (result : ProcessResult) (b : Bool) (o : Option Text)
    → has_text o ≡ not b
    → is_some o ≡ not b
    → ((result.success && not (is_some (final_error scanner result o))) ≡ (result.success && b))
      × (has_text (final_error scanner result o) ≡ not (result.success && b))
      × (is_some (final_error scanner result o) ≡ not (result.success && b))
unfolding final_error
final_error_lem scanner result b (some error) h k = (ground arith, ground arith, ground arith)
final_error_lem scanner result b none h k =
    let t = failure_text-non_empty scanner result.stderr in
    (ground arith, ground arith, ground arith)

-- A scan counts as a success exactly if its process succeeded and its output, if there is any, is JSON;
-- and the evidence has an error, whose text is not empty, exactly if the scan does not count as one.
pub scan_fails_closed :
    (loads : Text → Option Json) (scanner : String) (result : ProcessResult) {e : ScannerEvidence}
    → normalize loads scanner result ≡ ok e
    → (e.success ≡ (result.success && is_readable loads result.stdout))
      × (has_text e.error ≡ not e.success)
      × (is_some e.error ≡ not e.success)
unfolding normalize
scan_fails_closed loads scanner result {e} h =
    let (parsed, p, q) = >>=-eq-ok (parse_output loads scanner result.stdout) _ h in
    let (findings, _, r) = >>=-eq-ok (validate_findings parsed.0) _ q in
    let (text, some_error) = parsed_error loads scanner result.stdout p in
    let (a, b, c) =
      final_error_lem scanner result (is_readable loads result.stdout) parsed.1 text some_error in
    let success : (result.success && not (is_some (final_error scanner result parsed.1)))
        ≡ e.success =
      ground (arith, r) in
    let error : final_error scanner result parsed.1 ≡ e.error = ground (arith, r) in
    rw (← success, ← error, a) (refl, b, c)

-- Evidence names the scanner that it is of.
named :
    (loads : Text → Option Json) (scanner : String) (result : ProcessResult) {e : ScannerEvidence}
    → normalize loads scanner result ≡ ok e
    → e.scanner ≡ scanner
unfolding normalize
named loads scanner result h =
    let (parsed, _, q) = >>=-eq-ok (parse_output loads scanner result.stdout) _ h in
    let (findings, _, r) = >>=-eq-ok (validate_findings parsed.0) _ q in ground (arith, r)

-- The evidence of a list of scanners, each from its own process, is in the order of the list.
each_named :
    (loads : Text → Option Json) (run_scanner : String → Result ProcessResult)
    (scanners : List String) {es : List ScannerEvidence}
    → traverse (scan loads run_scanner) scanners ≡ ok es
    → map (λ e. e.scanner) es ≡ scanners
unfolding scan
each_named loads run_scanner [] {es} h = let e : [] ≡ es = cc h in rw (← e) refl
each_named loads run_scanner (scanner ∷ scanners) {es} h =
    let (first, one, r) = >>=-eq-ok (scan loads run_scanner scanner) _ h in
    let (rest, others, q) = >>=-eq-ok (traverse (scan loads run_scanner) scanners) _ r in
    let (result, _, made) = >>=-eq-ok (run_scanner scanner) _ one in
    let e : first ∷ rest ≡ es = cc q in
    let name = named loads scanner result made in
    let names = each_named loads run_scanner scanners others in rw (← e) (cc (name, names))

-- A run that returns has the evidence of each of the three scanners, in their order, and none else.
run_all_complete :
    (loads : Text → Option Json) (run_scanner : String → Result ProcessResult)
    {es : List ScannerEvidence}
    → run_all loads run_scanner ≡ ok es
    → map (λ e. e.scanner) es ≡ "semgrep" ∷ "gitleaks" ∷ "trivy" ∷ []
unfolding run_all
run_all_complete loads run_scanner h = each_named loads run_scanner _ h
