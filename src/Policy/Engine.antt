-- ===== src/Policy/Engine.antt =====
-- app/policies/engine.py. Every check is computed before the rule's own is looked up, so an artifact
-- of the wrong shape raises whatever the rule asks for.
use steh_v1_0_0_rc.Base.{
  ℕ, suc, String, Bool, true, false, ◌&&◌, ◌||◌, Option, none, some, List, [], ◌∷◌, ◌==◌, nat_eq,
  if◌then◌else◌, length, any, all, find?, non_empty, Result, ok, err, value_error, key_error,
  type_error, ◌>>=◌, or_raise, traverse, concat,
}
use mathlib.Core.List.{flatten}
use steh_v1_0_0_rc.Json.{
  Json, null, bool, num, str, uuid, instant, arr, obj, truthy, get, get_default, iterate,
  or_default, empty_dict, empty_list,
}
use steh_v1_0_0_rc.Models.State.{EngineeringState}
use steh_v1_0_0_rc.Policy.{PolicyRule, PolicyConfig, PolicyDecision}

-- `context.get(key) or {}`
unfoldable pub or_empty : Option Json → Json
or_empty none = empty_dict
or_empty (some v) = or_default v empty_dict

-- `v == s` for a text `s`
unfoldable pub equals_text : Json → String → Bool
equals_text (str t) s = t == s
equals_text _ s = false

-- `v == w` for two hashable values; Python's True and False equal 1 and 0.
unfoldable pub same : Json → Json → Bool
same null null = true
same (bool true) (bool true) = true
same (bool false) (bool false) = true
same (bool true) (num n) = nat_eq n 1
same (bool false) (num n) = nat_eq n 0
same (num n) (bool true) = nat_eq n 1
same (num n) (bool false) = nat_eq n 0
same (num n) (num m) = nat_eq n m
same (str s) (str t) = s == t
same (uuid n) (uuid m) = nat_eq n m
same (instant n) (instant m) = nat_eq n m
same _ _ = false

-- What may be put into a set: a list or a dict cannot be hashed.
unfoldable pub hashable : Json → Result Json
hashable (arr xs) = err type_error
hashable (obj fs) = err type_error
hashable v = ok v

unfoldable pub contains : Json → List Json → Bool
contains v [] = false
contains v (w ∷ ws) = same v w || contains v ws

-- the members of a set, each once
unfoldable pub to_set : List Json → List Json
to_set [] = []
to_set (v ∷ vs) = let rest = to_set vs in if contains v rest then rest else v ∷ rest

-- `xs <= ys` on sets
unfoldable pub subset : List Json → List Json → Bool
subset [] ys = true
subset (x ∷ xs) ys = contains x ys && subset xs ys

-- `v.get(key) or []`, iterated over
unfoldable pub rows_of : Json → String → Result (List Json)
rows_of v key = do found ← get v key; iterate (or_default found empty_list)

-- one round of the sum in `_severity_count`
unfoldable pub counts : String → Json → Result Bool
counts severity finding = do
  found ← get finding "severity"
  status ← get_default finding "status" (str "OPEN")
  ok (equals_text found severity && equals_text status "OPEN")

abbrev pub count_true : List Bool → ℕ
count_true [] = 0
count_true (true ∷ bs) = suc (count_true bs)
count_true (false ∷ bs) = count_true bs

-- The sum in `_severity_count`, over the findings of a review.
unfoldable pub open_count : Option Json → String → Result ℕ
open_count review severity = do
  rows ← rows_of (or_empty review) "findings"
  hits ← traverse (counts severity) rows
  ok (count_true hits)

-- `_severity_count`
abbrev pub severity_count : EngineeringState → String → Result ℕ
severity_count context severity = open_count context.security_review severity

-- `{item.get("id") for item in rows if item.get("id")}`, one row
unfoldable pub identifier : Json → Result (List Json)
identifier item = do
  id ← get item "id"
  if truthy id then (do key ← hashable id; ok (key ∷ [])) else ok []

unfoldable pub identifiers : List Json → Result (List Json)
identifiers rows = do found ← traverse identifier rows; ok (to_set (flatten found))

-- `row.get("requirement_ids", [])`, each put into a set
unfoldable pub row_references : Json → Result (List Json)
row_references row = do
  ids ← get_default row "requirement_ids" empty_list
  members ← iterate ids
  traverse hashable members

unfoldable pub references : List Json → Result (List Json)
references rows = do found ← traverse row_references rows; ok (flatten found)

unfoldable pub structured : Json → Result Bool
structured scenario = do
  id ← get scenario "id"
  ids ← get scenario "requirement_ids"
  given ← get scenario "given"
  step ← get scenario "when"
  outcome ← get scenario "then"
  ok (truthy id && truthy ids && truthy given && truthy step && truthy outcome)

unfoldable pub negative_security : Json → Result Bool
negative_security test_case = do
  negative ← get test_case "negative"
  test_type ← get test_case "test_type"
  ok (truthy negative && equals_text test_type "SECURITY")

abbrev pub id_bool : Bool → Bool
id_bool b = b

-- What `_check` computes before and within its `checks` dict: the values that may raise.
pub record Facts : Type 0 where
  pub threat_model : Json
  pub specification_requirements : List Json
  pub requirement_ids : List Json
  pub scenarios : List Json
  pub scenario_requirement_ids : List Json
  pub test_cases : List Json
  pub tested_requirement_ids : List Json
  pub structured_scenarios : List Bool
  pub critical : ℕ
  pub high : ℕ
  pub security_requirements : Json
  pub negative_tests : List Bool
  pub test_passed : Json
  pub scanners_passed : Json

unfoldable pub gather : EngineeringState → Result Facts
gather context = do
  threat_model ← get (or_empty context.security_review) "threat_model"
  specification_requirements ← rows_of (or_empty context.specification) "requirements"
  scenarios ← rows_of (or_empty context.specification) "acceptance_scenarios"
  requirement_ids ← identifiers specification_requirements
  scenario_requirement_ids ← references scenarios
  test_cases ← rows_of (or_empty context.test_plan) "test_cases"
  tested_requirement_ids ← references test_cases
  structured_scenarios ← traverse structured scenarios
  critical ← severity_count context "CRITICAL"
  high ← severity_count context "HIGH"
  security_requirements ← get (or_default threat_model empty_dict) "security_requirements"
  negative_tests ← traverse negative_security test_cases
  test_passed ← get (or_empty context.validation) "test_passed"
  scanners_passed ← get (or_empty context.validation) "scanners_passed"
  ok (record {
    threat_model = or_default threat_model empty_dict;
    specification_requirements = specification_requirements;
    requirement_ids = requirement_ids;
    scenarios = scenarios;
    scenario_requirement_ids = scenario_requirement_ids;
    test_cases = test_cases;
    tested_requirement_ids = tested_requirement_ids;
    structured_scenarios = structured_scenarios;
    critical = critical;
    high = high;
    security_requirements = security_requirements;
    negative_tests = negative_tests;
    test_passed = test_passed;
    scanners_passed = scanners_passed;
  })

-- the `checks` dict of `_check`
unfoldable pub checks : EngineeringState → Facts → List (String × Bool)
checks context f =
    ("requirements_present", truthy (or_empty context.requirements))
    ∷ ("evidence_present", elim context.evidence [ none ↦ false | some es ↦ non_empty es ])
    ∷ ("architecture_present", truthy (or_empty context.architecture))
    ∷ ("specification_present", truthy (or_empty context.specification))
    ∷ (
      "specification_requirements_identified",
      non_empty f.requirement_ids
          && nat_eq (length f.requirement_ids) (length f.specification_requirements),
    )
    ∷ (
      "acceptance_scenarios_structured",
      non_empty f.scenarios && all id_bool f.structured_scenarios,
    )
    ∷ (
      "requirements_traceable",
      non_empty f.requirement_ids && subset f.requirement_ids f.scenario_requirement_ids,
    )
    ∷ ("no_critical_security_findings", nat_eq f.critical 0)
    ∷ ("no_high_security_findings", nat_eq f.high 0)
    ∷ ("threat_model_present", truthy f.threat_model)
    ∷ ("security_requirements_present", truthy f.security_requirements)
    ∷ ("implementation_present", truthy (or_empty context.implementation))
    ∷ ("test_plan_present", truthy (or_empty context.test_plan))
    ∷ (
      "test_plan_covers_requirements",
      non_empty f.requirement_ids && subset f.requirement_ids f.tested_requirement_ids,
    )
    ∷ ("negative_security_tests_present", any id_bool f.negative_tests)
    ∷ ("tests_passed", truthy f.test_passed)
    ∷ ("scanners_passed", truthy f.scanners_passed)
    ∷ []

abbrev pub find_check : String → List (String × Bool) → Option Bool
find_check name [] = none
find_check name ((key, value) ∷ rest) =
    let later = find_check name rest in if key == name then some value else later

-- `_check`
unfoldable pub check : PolicyRule → EngineeringState → Result Bool
check rule context = do
  facts ← gather context
  or_raise (find_check rule.check (checks context facts)) value_error

unfoldable pub decide : PolicyRule → Bool → PolicyDecision
decide rule true = record {
  policy_id = rule.id;
  passed = true;
  action = "ALLOW";
  reason = concat rule.description ": passed";
}
decide rule false = record {
  policy_id = rule.id;
  passed = false;
  action = rule.action;
  reason = concat rule.description ": failed";
}

-- `PolicyEngine.evaluate`
unfoldable pub evaluate : PolicyConfig → String → EngineeringState → Result PolicyDecision
evaluate config policy_id context = do
  rule ← or_raise (find? (λ item. item.id == policy_id) config.rules) key_error
  passed ← check rule context
  ok (decide rule passed)
