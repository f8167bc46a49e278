-- ===== src/Workflow/Traceability.antt =====
-- What the specification gate and the test plan gate of app/orchestration/graph.py establish under the
-- shipped policies: requirements are identified, and scenarios and test cases refer to all of them.
use steh_v1_0_0_rc.Base.{
  String, ◌≡◌, refl, true, false, Option, some, List, [], ◌∷◌, length, All, ok, arith, >>=-eq-ok,
  traverse, traverse-Each, non_empty, any,
}
use steh_v1_0_0_rc.Json.{Json}
use steh_v1_0_0_rc.Models.State.{EngineeringState}
use steh_v1_0_0_rc.Policy.{PolicyDecision}
use steh_v1_0_0_rc.Policy.QualityGates.{quality_gates, spec_002, trace_001, testplan_002}
use steh_v1_0_0_rc.Policy.Engine.{
  Facts, gather, checks, evaluate, or_empty, decide, rows_of, identifiers, references, contains,
  subset,
}
use steh_v1_0_0_rc.Policy.Decisions.{evaluate-Applied}
use steh_v1_0_0_rc.Policy.Meaning.{Named, Distinct, identifiers-Named, subset-contains}
use steh_v1_0_0_rc.Workflow.Gates.{failed, specification_gate, test_plan_gate}

-- `ids` lists the identifiers of the specification's requirements, one for each requirement, and no
-- two requirements have the same.
pub record IsIdentified (s : EngineeringState) (ids : List Json) : Type 0 where
  pub rows : List Json
  pub read : rows_of (or_empty s.specification) "requirements" ≡ ok rows
  pub collected : identifiers rows ≡ ok ids
  pub named : Named rows ids
  pub distinct : Distinct ids

-- The rows under `key` of an artifact refer to every identifier, and there is one.
pub record Covers (artifact : Option Json) (key : String) (ids : List Json) : Type 0 where
  pub rows : List Json
  pub read : rows_of (or_empty artifact) key ≡ ok rows
  pub refs : List Json
  pub collected : references rows ≡ ok refs
  pub some_id : non_empty ids ≡ true
  pub covered : All (λ id. contains id refs ≡ true) ids

module _ (s : EngineeringState) {f : Facts} (h : gather s ≡ ok f) where
  requirements-gather :
      (rows_of (or_empty s.specification) "requirements" ≡ ok f.specification_requirements)
      × (identifiers f.specification_requirements ≡ ok f.requirement_ids)
  unfolding gather
  requirements-gather = ground arith

  scenarios-gather :
      (rows_of (or_empty s.specification) "acceptance_scenarios" ≡ ok f.scenarios)
      × (references f.scenarios ≡ ok f.scenario_requirement_ids)
  unfolding gather
  scenarios-gather = ground arith

  test_cases-gather :
      (rows_of (or_empty s.test_plan) "test_cases" ≡ ok f.test_cases)
      × (references f.test_cases ≡ ok f.tested_requirement_ids)
  unfolding gather
  test_cases-gather = ground arith

module _ (s : EngineeringState) {d : PolicyDecision} where
  spec_002_decision :
      (f : Facts)
      → gather s ≡ ok f
      → evaluate quality_gates "SPEC-002" s ≡ ok d
      → d.passed ≡ true
      → length f.requirement_ids ≡ length f.specification_requirements
  unfolding checks decide
  spec_002_decision f g h p =
      let a = evaluate-Applied quality_gates "SPEC-002" spec_002 s refl h in
      let same : a.facts ≡ f = cc (a.gathered, g) in rw (← same) (ground (arith, a))

  trace_001_decision :
      (f : Facts)
      → gather s ≡ ok f
      → evaluate quality_gates "TRACE-001" s ≡ ok d
      → d.passed ≡ true
      → (non_empty f.requirement_ids ≡ true)
        × (subset f.requirement_ids f.scenario_requirement_ids ≡ true)
  unfolding checks decide
  trace_001_decision f g h p =
      let a = evaluate-Applied quality_gates "TRACE-001" trace_001 s refl h in
      let same : a.facts ≡ f = cc (a.gathered, g) in rw (← same) (ground (arith, a))

  testplan_002_decision :
      (f : Facts)
      → gather s ≡ ok f
      → evaluate quality_gates "TESTPLAN-002" s ≡ ok d
      → d.passed ≡ true
      → (non_empty f.requirement_ids ≡ true)
        × (subset f.requirement_ids f.tested_requirement_ids ≡ true)
  unfolding checks decide
  testplan_002_decision f g h p =
      let a = evaluate-Applied quality_gates "TESTPLAN-002" testplan_002 s refl h in
      let same : a.facts ≡ f = cc (a.gathered, g) in rw (← same) (ground (arith, a))

-- No decision of an unblocked gate failed.
none_failed :
    (a b c : PolicyDecision) (ds : List PolicyDecision)
    → any failed (a ∷ b ∷ c ∷ ds) ≡ false
    → (a.passed ≡ true) × (b.passed ≡ true) × (c.passed ≡ true) × (any failed ds ≡ false)
none_failed a b c ds h = (ground arith, ground arith, ground arith, ground arith)

-- Under the shipped policies the specification gate lets a state pass only if every requirement of its
-- specification has an identifier, no two requirements the same, there is at least one, and the
-- acceptance scenarios refer to all of them.
pub specification_gate_lem :
    (s : EngineeringState) {t : EngineeringState}
    → specification_gate quality_gates s ≡ ok t
    → t.blocked ≡ some false
    → (ids : List Json) × IsIdentified s ids × Covers s.specification "acceptance_scenarios" ids
unfolding specification_gate
specification_gate_lem s {t} h n =
    let f = λ (id : String). evaluate quality_gates id s in
    let names : List String = "SPEC-001" ∷ "SPEC-002" ∷ "SPEC-003" ∷ "TRACE-001" ∷ [] in
    let (ds, e, r) = >>=-eq-ok (traverse f names) _ h in
    let (a, ds1, ea, la, more) = traverse-Each f names e in
    let (b, ds2, eb, lb, more2) = more in
    let (c, ds3, ec, lc, more3) = more2 in
    let (d, ds4, ed, ld, last) = more3 in
    let q : any failed (a ∷ b ∷ c ∷ d ∷ ds4) ≡ false = ground arith in
    let (pa, pb, pc, rest) = none_failed a b c (d ∷ ds4) q in
    let pd : d.passed ≡ true = ground arith in
    let ap = evaluate-Applied quality_gates "SPEC-002" spec_002 s refl eb in
    let (facts, g) : (x : Facts) × (gather s ≡ ok x) = (ap.facts, ap.gathered) in
    let (rows, ids) = requirements-gather s g in
    let (scenarios, refs) = scenarios-gather s g in
    let (named, distinct) = identifiers-Named _ _ ids (spec_002_decision s facts g eb pb) in
    let (one, sub) = trace_001_decision s facts g ed pd in
    (
      facts.requirement_ids,
      record { rows = _; read = rows; collected = ids; named = named; distinct = distinct },
      record {
        rows = _;
        read = scenarios;
        refs = _;
        collected = refs;
        some_id = one;
        covered = subset-contains _ _ sub;
      },
    )

-- Under the shipped policies the test plan gate lets a state pass only if the specification has
-- identifiers and the test cases refer to all of them.
pub test_plan_gate_lem :
    (s : EngineeringState) {t : EngineeringState}
    → test_plan_gate quality_gates s ≡ ok t
    → t.blocked ≡ some false
    → (ids : List Json) × (rows : List Json) × (rows_of (or_empty s.specification) "requirements"
        ≡ ok rows)
      × (identifiers rows ≡ ok ids)
      × Covers s.test_plan "test_cases" ids
unfolding test_plan_gate
test_plan_gate_lem s {t} h n =
    let f = λ (id : String). evaluate quality_gates id s in
    let names : List String = "TESTPLAN-001" ∷ "TESTPLAN-002" ∷ "TESTPLAN-003" ∷ [] in
    let (ds, e, r) = >>=-eq-ok (traverse f names) _ h in
    let (a, ds1, ea, la, more) = traverse-Each f names e in
    let (b, ds2, eb, lb, more2) = more in
    let (c, ds3, ec, lc, last) = more2 in
    let q : any failed (a ∷ b ∷ c ∷ ds3) ≡ false = ground arith in
    let (pa, pb, pc, rest) = none_failed a b c ds3 q in
    let ap = evaluate-Applied quality_gates "TESTPLAN-002" testplan_002 s refl eb in
    let (rows, ids) = requirements-gather s ap.gathered in
    let (cases, refs) = test_cases-gather s ap.gathered in
    let (one, sub) = testplan_002_decision s ap.facts ap.gathered eb pb in
    (
      ap.facts.requirement_ids,
      ap.facts.specification_requirements,
      rows,
      ids,
      record {
        rows = _;
        read = cases;
        refs = _;
        collected = refs;
        some_id = one;
        covered = subset-contains _ _ sub;
      },
    )
