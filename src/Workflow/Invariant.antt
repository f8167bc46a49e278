-- ===== src/Workflow/Invariant.antt =====
-- What holds of the state whenever the workflow is about to enter a node, under the shipped policies.
use steh_v1_0_0_rc.Base.{
  Bool-cases, if◌then◌else◌, String, ◌≡◌, ◌≢◌, refl, Bool, true, false, ◌⊎◌, inl, inr, Option, none,
  some, ok, arith,
}
use steh_v1_0_0_rc.Models.Task.{TaskStatus}
use steh_v1_0_0_rc.Models.Review.{HumanReviewArtifact, HumanReviewResume, HumanReviewStatus}
use steh_v1_0_0_rc.Json.{Json}
use steh_v1_0_0_rc.Models.State.{EngineeringState}
use steh_v1_0_0_rc.Policy.QualityGates.{quality_gates}
use steh_v1_0_0_rc.Policy.Engine.{open_count}
use steh_v1_0_0_rc.Db.{Session}
use steh_v1_0_0_rc.Workflow.{Environment}
use steh_v1_0_0_rc.Workflow.Gates
use steh_v1_0_0_rc.Workflow.Nodes
use steh_v1_0_0_rc.Workflow.Judging
use steh_v1_0_0_rc.Workflow.Security.{Holds, security_gate_lem, validation_gate_lem}
use steh_v1_0_0_rc.Workflow.Run.{
  Node, went, enter, next, is_blocked, route_after_security, route_after_human_review,
  route_after_validation,
}

-- The review has no open finding of the severity.
abbrev pub NoOpen : Option Json → String → Type 0
NoOpen review severity = open_count review severity ≡ ok 0

abbrev pub Approved : Option HumanReviewArtifact → Type 0
Approved none = ⊥
Approved (some review) = review.status ≡ HumanReviewStatus.approved

-- No critical finding is open, and no high one unless a human approved the task.
abbrev pub Authorized : EngineeringState → Type 0
Authorized s =
    NoOpen s.security_review "CRITICAL"
    × (NoOpen s.security_review "HIGH" ⊎ Approved s.human_review)

abbrev pub Validated : EngineeringState → Type 0
Validated s = Holds s.validation "test_passed" × Holds s.validation "scanners_passed"

abbrev pub Inv : Node → EngineeringState → Type 0
Inv Node.prepare_human_review s = NoOpen s.security_review "CRITICAL"
Inv Node.human_review s = NoOpen s.security_review "CRITICAL"
Inv Node.test_planning s = Authorized s
Inv Node.test_plan_gate s = Authorized s
Inv Node.implementation s = Authorized s
Inv Node.implementation_gate s = Authorized s
Inv Node.validation s = Authorized s
Inv Node.validation_gate s = Authorized s
Inv Node.judge s = Authorized s × Validated s
Inv Node.end s = s.status ≡ some TaskStatus.completed → Authorized s × Validated s
Inv _ s = Unit {0}

-- A node that writes neither the security review nor the human review.
abbrev KeepsReviews : EngineeringState → EngineeringState → Type 0
KeepsReviews s t = (t.security_review ≡ s.security_review) × (t.human_review ≡ s.human_review)

keeps-Authorized : (s t : EngineeringState) → KeepsReviews s t → Authorized s → Authorized t
keeps-Authorized s t k a = (rw k.0 a.0, rw (k.0, k.1) a.1)

-- The nodes between the security gate and the end write neither review.
abbrev leaves_reviews : Node → Bool
leaves_reviews Node.test_planning = true
leaves_reviews Node.test_plan_gate = true
leaves_reviews Node.implementation = true
leaves_reviews Node.implementation_gate = true
leaves_reviews Node.validation = true
leaves_reviews Node.validation_gate = true
leaves_reviews Node.judge = true
leaves_reviews _ = false

module _ (env : Environment) (resume : Option HumanReviewResume) (s : EngineeringState)
    {t : EngineeringState} (w : Session) {w' : Session} where
  enter-KeepsReviews :
      (n : Node)
      → leaves_reviews n ≡ true
      → enter env n resume s w ≡ (ok (went t), w')
      → KeepsReviews s t
  unfolding enter Nodes.test_planning Gates.test_plan_gate Nodes.implementation
      Gates.implementation_gate Nodes.validation Gates.validation_gate Judging.judge
  enter-KeepsReviews Node.test_planning l h = ground arith
  enter-KeepsReviews Node.test_plan_gate l h = ground arith
  enter-KeepsReviews Node.implementation l h = ground arith
  enter-KeepsReviews Node.implementation_gate l h = ground arith
  enter-KeepsReviews Node.validation l h = ground arith
  enter-KeepsReviews Node.validation_gate l h = ground arith
  enter-KeepsReviews Node.judge l h = ground arith
  enter-KeepsReviews _ l h = absurd (cc l)

  judge_keeps : enter env Node.judge resume s w ≡ (ok (went t), w') → t.validation ≡ s.validation
  unfolding enter Judging.judge
  judge_keeps h = ground arith

  human_review-Approved :
      enter env Node.human_review resume s w ≡ (ok (went t), w')
      → (t.security_review ≡ s.security_review)
        × (t.status ≡ some TaskStatus.ready_for_implementation → Approved t.human_review)
  unfolding enter Nodes.human_review
  human_review-Approved h = ground arith

-- The route of a gate that either blocks or goes on to `n`.
Inv-gate :
    (n : Node) (t : EngineeringState) → Inv n t → Inv (if is_blocked t then Node.blocked else n) t
Inv-gate n t h = elim (Bool-cases (is_blocked t)) [ inl e ↦ rw e tt | inr e ↦ rw e h ]

Inv-after_validation :
    (t : EngineeringState) (o : Option TaskStatus)
    → t.status ≡ o
    → Authorized t
    → (t.status ≡ some TaskStatus.completed → Validated t)
    → Inv (route_after_validation o) t
unfolding route_after_validation
Inv-after_validation t none e a v = λ c. cc
Inv-after_validation t (some TaskStatus.rework_required) e a v = a
Inv-after_validation t (some TaskStatus.completed) e a v = (a, v e)
Inv-after_validation t (some x) e a v = λ c. cc

Inv-after_security :
    (t : EngineeringState) (o : Option TaskStatus)
    → t.status ≡ o
    → (t.status ≡ some TaskStatus.ready_for_implementation
        → NoOpen t.security_review "CRITICAL" × NoOpen t.security_review "HIGH")
    → (t.status ≡ some TaskStatus.human_review → NoOpen t.security_review "CRITICAL")
    → t.status ≢ some TaskStatus.completed
    → Inv (route_after_security o) t
unfolding route_after_security
Inv-after_security t none e r h c = λ f. cc
Inv-after_security t (some TaskStatus.ready_for_implementation) e r h c = ((r e).0, inl (r e).1)
Inv-after_security t (some TaskStatus.human_review) e r h c = h e
Inv-after_security t (some x) e r h c = λ f. absurd (c f)

Inv-after_human_review :
    (t : EngineeringState) (o : Option TaskStatus)
    → t.status ≡ o
    → NoOpen t.security_review "CRITICAL"
    → (t.status ≡ some TaskStatus.ready_for_implementation → Approved t.human_review)
    → Inv (route_after_human_review o) t
unfolding route_after_human_review
Inv-after_human_review t none e n a = tt
Inv-after_human_review t (some TaskStatus.ready_for_implementation) e n a = (n, inr (a e))
Inv-after_human_review t (some x) e n a = tt

module _ (env : Environment) (shipped : env.config ≡ quality_gates)
    (resume : Option HumanReviewResume) (s : EngineeringState) {t : EngineeringState} (w : Session)
    {w' : Session} where
  prepare_human_review_keeps :
      enter env Node.prepare_human_review resume s w ≡ (ok (went t), w')
      → t.security_review ≡ s.security_review
  unfolding enter Nodes.prepare_human_review
  prepare_human_review_keeps h = ground arith

  blocked_status :
      enter env Node.blocked resume s w ≡ (ok (went t), w') → t.status ≡ some TaskStatus.blocked
  unfolding enter
  blocked_status h = ground arith

  end_done : enter env Node.end resume s w ≡ (ok (went t), w') → ⊥
  unfolding enter
  end_done h = ground arith

  security_gate_run :
      enter env Node.security_gate resume s w ≡ (ok (went t), w')
      → Gates.security_gate quality_gates s ≡ ok t
  unfolding enter
  security_gate_run h = rw (← shipped) (ground arith)

  validation_gate_run :
      enter env Node.validation_gate resume s w ≡ (ok (went t), w')
      → Gates.validation_gate quality_gates env.rework (w.clock w.readings) s ≡ ok t
  unfolding enter
  validation_gate_run h = rw (← shipped) (ground arith)

  -- A node that returns leaves a state of which the invariant of the next node holds.
  pub enter-Inv :
      (n : Node) → Inv n s → enter env n resume s w ≡ (ok (went t), w') → Inv (next n t) t
  unfolding next
  enter-Inv Node.context i h = tt
  enter-Inv Node.requirements i h = tt
  enter-Inv Node.requirements_gate i h = Inv-gate Node.specification t tt
  enter-Inv Node.specification i h = tt
  enter-Inv Node.specification_gate i h = Inv-gate Node.architecture t tt
  enter-Inv Node.architecture i h = tt
  enter-Inv Node.architecture_gate i h = Inv-gate Node.security t tt
  enter-Inv Node.security i h = tt
  enter-Inv Node.security_gate i h =
      let (k, r, q, c) = security_gate_lem s (security_gate_run h) in
      Inv-after_security t t.status refl (rw k r) (rw k q) c
  enter-Inv Node.prepare_human_review i h = rw (prepare_human_review_keeps h) i
  enter-Inv Node.human_review i h =
      let k = human_review-Approved env resume s w h in
      Inv-after_human_review t t.status refl (rw k.0 i) k.1
  enter-Inv Node.test_planning i h =
      keeps-Authorized s t (enter-KeepsReviews env resume s w Node.test_planning refl h) i
  enter-Inv Node.test_plan_gate i h =
      Inv-gate Node.implementation t
        (keeps-Authorized s t (enter-KeepsReviews env resume s w Node.test_plan_gate refl h) i)
  enter-Inv Node.implementation i h =
      keeps-Authorized s t (enter-KeepsReviews env resume s w Node.implementation refl h) i
  enter-Inv Node.implementation_gate i h =
      Inv-gate Node.validation t
        (keeps-Authorized s t (enter-KeepsReviews env resume s w Node.implementation_gate refl h) i)
  enter-Inv Node.validation i h =
      keeps-Authorized s t (enter-KeepsReviews env resume s w Node.validation refl h) i
  enter-Inv Node.validation_gate i h =
      let (k, v) = validation_gate_lem s env.rework (w.clock w.readings) (validation_gate_run h) in
      Inv-after_validation t t.status refl
        (keeps-Authorized s t (enter-KeepsReviews env resume s w Node.validation_gate refl h) i)
        (rw k v)
  enter-Inv Node.judge i h = λ c. (
    keeps-Authorized s t (enter-KeepsReviews env resume s w Node.judge refl h) i.0,
    rw (judge_keeps env resume s w h) i.1,
  )
  enter-Inv Node.blocked i h = λ c. cc (blocked_status h)
  enter-Inv Node.end i h = absurd (end_done h)
