-- ===== src/PullRequest/Risk.antt =====
-- The order of risks in app/agents/pull_request_review.py.
use steh_v1_0_0_rc.Base.{◌≤◌, ◌≡◌, List, [], ◌∷◌, All, arith}
use steh_v1_0_0_rc.Models.PullRequest.{PullRequestRisk, PullRequestFinding}
use steh_v1_0_0_rc.PullRequest.Findings.{risk_order, max_risk, max_from, highest_risk}

-- The risk is at least that of every finding.
abbrev pub AtLeast : PullRequestRisk → PullRequestFinding → Type 0
AtLeast risk finding = risk_order finding.severity ≤ risk_order risk

pub max_risk_bounds :
    (a b : PullRequestRisk)
    → (risk_order a ≤ risk_order (max_risk a b)) × (risk_order b ≤ risk_order (max_risk a b))
unfolding max_risk
max_risk_bounds a b = ground arith

max_from_bounds :
    (risk : PullRequestRisk) (fs : List PullRequestFinding)
    → (risk_order risk ≤ risk_order (max_from risk fs)) × All (AtLeast (max_from risk fs)) fs
max_from_bounds risk [] = (omega arith, tt)
max_from_bounds risk (f ∷ fs) =
    let (a, b) = max_risk_bounds risk f.severity in
    let (c, rest) = max_from_bounds (max_risk risk f.severity) fs in
    (omega (arith, a, c), (omega (arith, b, c), rest))

pub highest_risk_bounds : (fs : List PullRequestFinding) → All (AtLeast (highest_risk fs)) fs
unfolding highest_risk
highest_risk_bounds [] = tt
highest_risk_bounds (f ∷ fs) = max_from_bounds f.severity fs

pub AtLeast-le :
    (a b : PullRequestRisk) (fs : List PullRequestFinding)
    → risk_order a ≤ risk_order b
    → All (AtLeast a) fs
    → All (AtLeast b) fs
AtLeast-le a b [] l h = tt
AtLeast-le a b (f ∷ fs) l h = (omega (arith, l, h.0), AtLeast-le a b fs l h.1)

pub critical_lem : (risk : PullRequestRisk) → 3 ≤ risk_order risk → risk ≡ PullRequestRisk.critical
critical_lem risk h = ground arith
