-- ===== src/Policy/QualityGates.antt =====
-- policies/quality-gates.yaml: the rules that the workflow's gates evaluate by default.
use steh_v1_0_0_rc.Base.{[], ◌∷◌}
use steh_v1_0_0_rc.Policy.{PolicyRule, PolicyConfig}

abbrev pub audit_001 : PolicyRule
audit_001 = record {
  id = "AUDIT-001";
  description = "Every workflow execution must produce evidence";
  check = "evidence_present";
  action = "BLOCK";
}

abbrev pub req_001 : PolicyRule
req_001 = record {
  id = "REQ-001";
  description = "Requirements artifact must exist";
  check = "requirements_present";
  action = "BLOCK";
}

abbrev pub arch_001 : PolicyRule
arch_001 = record {
  id = "ARCH-001";
  description = "Architecture artifact must exist before security review";
  check = "architecture_present";
  action = "BLOCK";
}

abbrev pub spec_001 : PolicyRule
spec_001 = record {
  id = "SPEC-001";
  description = "Software specification must exist before architecture";
  check = "specification_present";
  action = "BLOCK";
}

abbrev pub spec_002 : PolicyRule
spec_002 = record {
  id = "SPEC-002";
  description = "Specification requirements must have unique stable identifiers";
  check = "specification_requirements_identified";
  action = "BLOCK";
}

abbrev pub spec_003 : PolicyRule
spec_003 = record {
  id = "SPEC-003";
  description = "Acceptance scenarios must use Given, When and Then";
  check = "acceptance_scenarios_structured";
  action = "BLOCK";
}

abbrev pub trace_001 : PolicyRule
trace_001 = record {
  id = "TRACE-001";
  description = "Every specified requirement must map to acceptance scenarios";
  check = "requirements_traceable";
  action = "BLOCK";
}

abbrev pub sec_001 : PolicyRule
sec_001 = record {
  id = "SEC-001";
  description = "Critical security findings are prohibited";
  check = "no_critical_security_findings";
  action = "BLOCK";
}

abbrev pub sec_002 : PolicyRule
sec_002 = record {
  id = "SEC-002";
  description = "High security findings require review";
  check = "no_high_security_findings";
  action = "HUMAN_REVIEW";
}

abbrev pub sec_003 : PolicyRule
sec_003 = record {
  id = "SEC-003";
  description = "Threat model must exist";
  check = "threat_model_present";
  action = "BLOCK";
}

abbrev pub sec_004 : PolicyRule
sec_004 = record {
  id = "SEC-004";
  description = "Security requirements must exist";
  check = "security_requirements_present";
  action = "BLOCK";
}

abbrev pub impl_001 : PolicyRule
impl_001 = record {
  id = "IMPL-001";
  description = "Implementation artifact must exist after implementation";
  check = "implementation_present";
  action = "BLOCK";
}

abbrev pub testplan_001 : PolicyRule
testplan_001 = record {
  id = "TESTPLAN-001";
  description = "Test plan must exist before implementation";
  check = "test_plan_present";
  action = "BLOCK";
}

abbrev pub testplan_002 : PolicyRule
testplan_002 = record {
  id = "TESTPLAN-002";
  description = "Test plan must cover every specified requirement";
  check = "test_plan_covers_requirements";
  action = "BLOCK";
}

abbrev pub testplan_003 : PolicyRule
testplan_003 = record {
  id = "TESTPLAN-003";
  description = "Test plan must include negative security coverage";
  check = "negative_security_tests_present";
  action = "BLOCK";
}

abbrev pub test_001 : PolicyRule
test_001 = record {
  id = "TEST-001";
  description = "Generated implementation must pass controlled tests";
  check = "tests_passed";
  action = "REWORK";
}

abbrev pub scan_001 : PolicyRule
scan_001 = record {
  id = "SCAN-001";
  description = "Generated implementation must have no high or critical scanner findings";
  check = "scanners_passed";
  action = "REWORK";
}

abbrev pub quality_gates : PolicyConfig
quality_gates = record {
  version = "0.4";
  rules =
      audit_001 ∷ req_001 ∷ arch_001 ∷ spec_001 ∷ spec_002 ∷ spec_003 ∷ trace_001 ∷ sec_001
      ∷ sec_002 ∷ sec_003 ∷ sec_004 ∷ impl_001 ∷ testplan_001 ∷ testplan_002 ∷ testplan_003
      ∷ test_001 ∷ scan_001 ∷ [];
}
