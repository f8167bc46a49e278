-- ===== src/Policy/Decisions.antt =====
-- What a decision of the policy engine says of the state that it was made on.
use steh_v1_0_0_rc.Base.{
  String, ◌≡◌, refl, Bool, false, some, ok, arith, >>=-eq-ok, find?, ◌==◌, or_raise-eq-ok, ◌⊎◌,
  or_raise, key_error,
}
use steh_v1_0_0_rc.Models.State.{EngineeringState}
use steh_v1_0_0_rc.Policy.{PolicyConfig, PolicyDecision, PolicyRule}
use steh_v1_0_0_rc.Policy.QualityGates.{quality_gates, sec_001, sec_002, test_001, scan_001}
use steh_v1_0_0_rc.Json.{Json, get, truthy}
use steh_v1_0_0_rc.Policy.Engine.{
  Facts, gather, checks, find_check, severity_count, evaluate, check, or_empty, decide,
}

module _ (s : EngineeringState) {f : Facts} (h : gather s ≡ ok f) where
  pub critical-gather : severity_count s "CRITICAL" ≡ ok f.critical
  unfolding gather
  critical-gather = ground arith

  pub high-gather : severity_count s "HIGH" ≡ ok f.high
  unfolding gather
  high-gather = ground arith

  pub test_passed-gather : get (or_empty s.validation) "test_passed" ≡ ok f.test_passed
  unfolding gather
  test_passed-gather = ground arith

  pub scanners_passed-gather : get (or_empty s.validation) "scanners_passed" ≡ ok f.scanners_passed
  unfolding gather
  scanners_passed-gather = ground arith

-- What `evaluate` did when it returned: it gathered the facts, and the rule's own check decided.
pub record Applied (rule : PolicyRule) (s : EngineeringState) (d : PolicyDecision) : Type 0 where
  pub facts : Facts
  pub passed : Bool
  pub gathered : gather s ≡ ok facts
  pub checked : find_check rule.check (checks s facts) ≡ some passed
  pub decided : d ≡ decide rule passed

pub evaluate-Applied :
    (config : PolicyConfig) (id : String) (rule : PolicyRule) (s : EngineeringState)
    {d : PolicyDecision}
    → find? (λ item. item.id == id) config.rules ≡ some rule
    → evaluate config id s ≡ ok d
    → Applied rule s d
unfolding evaluate check
evaluate-Applied config id rule s found h =
    let (r, e, rest) =
      >>=-eq-ok (or_raise (find? (λ item. item.id == id) config.rules) key_error) _ h in
    let same : r ≡ rule = cc (or_raise-eq-ok _ _ e, found) in
    let (passed, c, last) = >>=-eq-ok (check r s) _ rest in
    let (facts, g, t) = >>=-eq-ok (gather s) _ c in
    record {
      facts = facts;
      passed = passed;
      gathered = g;
      checked = rw (← same) (or_raise-eq-ok _ _ t);
      decided = rw (← same) (cc);
    }

module _ (s : EngineeringState) {d : PolicyDecision} where
  -- SEC-001 passes only without an open critical finding, and its failure asks for a block.
  pub sec_001_decision :
      evaluate quality_gates "SEC-001" s ≡ ok d
      → (severity_count s "CRITICAL" ≡ ok 0) ⊎ ((d.passed ≡ false) × (d.action ≡ "BLOCK"))
  unfolding checks decide
  sec_001_decision h =
      let a = evaluate-Applied quality_gates "SEC-001" sec_001 s refl h in
      ground (arith, a, critical-gather s a.gathered)

  -- SEC-002 passes only without an open high finding, and its failure asks for a human review.
  pub sec_002_decision :
      evaluate quality_gates "SEC-002" s ≡ ok d
      → (severity_count s "HIGH" ≡ ok 0) ⊎ ((d.passed ≡ false) × (d.action ≡ "HUMAN_REVIEW"))
  unfolding checks decide
  sec_002_decision h =
      let a = evaluate-Applied quality_gates "SEC-002" sec_002 s refl h in
      ground (arith, a, high-gather s a.gathered)

  -- TEST-001 passes exactly when the validation artifact says that the tests passed.
  pub test_001_decision :
      evaluate quality_gates "TEST-001" s ≡ ok d
      → (v : Json) × (get (or_empty s.validation) "test_passed" ≡ ok v) × (d.passed ≡ truthy v)
  unfolding checks decide
  test_001_decision h =
      let a = evaluate-Applied quality_gates "TEST-001" test_001 s refl h in
      (a.facts.test_passed, test_passed-gather s a.gathered, ground (arith, a))

  -- SCAN-001 passes exactly when it says that the scanners passed.
  pub scan_001_decision :
      evaluate quality_gates "SCAN-001" s ≡ ok d
      → (v : Json) × (get (or_empty s.validation) "scanners_passed" ≡ ok v) × (d.passed ≡ truthy v)
  unfolding checks decide
  scan_001_decision h =
      let a = evaluate-Applied quality_gates "SCAN-001" scan_001 s refl h in
      (a.facts.scanners_passed, scanners_passed-gather s a.gathered, ground (arith, a))
