-- ===== src/PullRequest/Coverage.antt =====
-- Changed code without changed tests, as `run` and `_run_stub` of app/agents/pull_request_review.py see it.
use steh_v1_0_0_rc.Base.{
  ◌≡◌, refl, Bool, true, false, not, ◌&&◌, ◌||◌, List, [], ◌∷◌, ◌++◌, map, any, select, non_empty,
  Bool-cases, inl, inr, arith,
}
use steh_v1_0_0_rc.Models.Context.{Text, ContextBundle}
use steh_v1_0_0_rc.Models.PullRequest.{GitHubPullRequestSnapshot, testing, PullRequestFinding}
use steh_v1_0_0_rc.External.{Library}
use steh_v1_0_0_rc.PullRequest.Paths.{is_test_file, is_code_file, is_sensitive_surface}
use steh_v1_0_0_rc.PullRequest.Findings.{
  append_if, append_first, secret_finding, instruction_finding, coverage_finding, untested_finding,
  sensitive_finding, context_truncation_finding, production_code, test_files, untested,
  deterministic_findings,
}
use steh_v1_0_0_rc.PullRequest.Review.{
  same_category, required_findings, code_changed, tests_changed,
}

any-append :
    (p : PullRequestFinding → Bool) (xs ys : List PullRequestFinding)
    → any p (xs ++ ys) ≡ (any p xs || any p ys)
any-append p [] ys = refl
any-append p (x ∷ xs) ys = ground (arith, any-append p xs ys)

abbrev is_testing : PullRequestFinding → Bool
is_testing finding = same_category finding.category testing

module _ (lib : Library) where
  -- Changed code without changed tests, as `run` and as `_run_stub` test for it.
  tests-select :
      (paths : List Text) → non_empty (test_files lib paths) ≡ any (is_test_file lib) paths
  tests-select [] = refl
  tests-select (p ∷ paths) = ground (arith, tests-select paths)

  code-select :
      (paths : List Text)
      → any (is_test_file lib) paths ≡ false
      → non_empty (production_code lib paths) ≡ any (is_code_file lib) paths
  code-select [] h = refl
  code-select (p ∷ paths) h = ground (arith, code-select paths)

  testing-first :
      (paths : List Text) → any is_testing (append_first untested_finding paths) ≡ non_empty paths
  testing-first [] = refl
  testing-first (p ∷ paths) = refl

  untested-testing :
      (paths : List Text)
      → any is_testing (untested lib paths)
        ≡ (any (is_code_file lib) paths && not (any (is_test_file lib) paths))
  untested-testing paths = elim (Bool-cases (any (is_test_file lib) paths)) [
    | inl t ↦ ground (arith, tests-select paths)
    | inr f ↦
        ground (
          arith,
          tests-select paths,
          code-select paths f,
          testing-first (production_code lib paths),
        )
  ]

  other-testing :
      (b : Bool) (paths : List Text)
      → (any is_testing (append_if b secret_finding) ≡ false)
        × (any is_testing (append_if b instruction_finding) ≡ false)
        × (any is_testing (append_if b coverage_finding) ≡ false)
        × (any is_testing (append_if b context_truncation_finding) ≡ false)
        × (any is_testing (append_first sensitive_finding paths) ≡ false)
  other-testing true [] = (refl, refl, refl, refl, refl)
  other-testing true (p ∷ ps) = (refl, refl, refl, refl, refl)
  other-testing false [] = (refl, refl, refl, refl, refl)
  other-testing false (p ∷ ps) = (refl, refl, refl, refl, refl)

  -- The derived findings ask for tests exactly if code changed and no test did.
  pub required-testing :
      (pr : GitHubPullRequestSnapshot) (context : ContextBundle)
      → any is_testing (required_findings lib pr context)
        ≡ (code_changed lib pr && not (tests_changed lib pr))
  unfolding required_findings deterministic_findings
  required-testing pr context =
      let paths = map (λ item. item.filename) pr.files in
      let sensitive = select (is_sensitive_surface lib) paths in
      let a = append_if pr.redacted secret_finding in
      let b = append_if pr.suspicious_instruction instruction_finding in
      let c = append_if pr.truncated coverage_finding in
      let d = untested lib paths in
      let e = append_first sensitive_finding sensitive in
      let f = append_if context.truncated context_truncation_finding in
      let (x, _, _, _, y) = other-testing pr.redacted sensitive in
      let (_, z, _, _, _) = other-testing pr.suspicious_instruction sensitive in
      let (_, _, t, _, _) = other-testing pr.truncated sensitive in
      let (_, _, _, u, _) = other-testing context.truncated sensitive in
      simp (any-append, x, y, z, t, u, untested-testing paths) (ground arith)
