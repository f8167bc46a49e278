-- ===== src/Workflow/Termination.antt =====
-- Every run of the graph ends: the nodes that it can still enter are bounded by the node that it is at
-- and by the rework attempts that are left.
use steh_v1_0_0_rc.Base.{ℕ, zero, suc, ◌+◌, ◌*◌, ◌-◌, ◌≤◌, ◌<◌, ◌≡◌, ◌≢◌, Option, ok, arith, get_or}
use steh_v1_0_0_rc.Models.Review.{HumanReviewResume}
use steh_v1_0_0_rc.Models.State.{EngineeringState}
use steh_v1_0_0_rc.Db.{Session, >>=-eq-ok}
use steh_v1_0_0_rc.Rework
use steh_v1_0_0_rc.Workflow.{Environment}
use steh_v1_0_0_rc.Workflow.Gates
use steh_v1_0_0_rc.Workflow.Nodes
use steh_v1_0_0_rc.Workflow.Judging
use steh_v1_0_0_rc.Workflow.Run.{
  Node, Entered, done, paused, went, enter, next, out_of_fuel, run, settle,
}

-- The nodes on the longest way from a node to the end that enters no node twice.
abbrev weight : Node → ℕ
weight Node.context = 19
weight Node.requirements = 18
weight Node.requirements_gate = 17
weight Node.specification = 16
weight Node.specification_gate = 15
weight Node.architecture = 14
weight Node.architecture_gate = 13
weight Node.security = 12
weight Node.security_gate = 11
weight Node.prepare_human_review = 10
weight Node.human_review = 9
weight Node.test_planning = 8
weight Node.test_plan_gate = 7
weight Node.implementation = 6
weight Node.implementation_gate = 5
weight Node.validation = 4
weight Node.validation_gate = 3
weight Node.judge = 2
weight Node.blocked = 2
weight Node.end = 1

weight-pos : (n : Node) → 0 < weight n
weight-pos Node.context = omega arith
weight-pos _ = omega arith

-- The reworks that the policy still allows.
abbrev reworks_left : Environment → EngineeringState → ℕ
reworks_left env s = env.rework.max_attempts - 1 - get_or s.rework_count 0

abbrev pub measure : Environment → Node → EngineeringState → ℕ
measure env n s = weight n + 4 * reworks_left env s

module _ (env : Environment) (resume : Option HumanReviewResume) (s : EngineeringState)
    {t : EngineeringState} (w : Session) {w' : Session} where
  enter-measure :
      (n : Node)
      → enter env n resume s w ≡ (ok (went t), w')
      → measure env (next n t) t < measure env n s
  unfolding enter next
  enter-measure Node.context h = unfold Nodes.contextualize Nodes.bundle_for in ground arith
  enter-measure Node.requirements h = unfold Nodes.requirements in ground arith
  enter-measure Node.requirements_gate h = unfold Gates.requirements_gate in ground arith
  enter-measure Node.specification h = unfold Nodes.specification in ground arith
  enter-measure Node.specification_gate h = unfold Gates.specification_gate in ground arith
  enter-measure Node.architecture h = unfold Nodes.architecture in ground arith
  enter-measure Node.architecture_gate h = unfold Gates.architecture_gate in ground arith
  enter-measure Node.security h = unfold Nodes.security in ground arith
  enter-measure Node.security_gate h = unfold Gates.security_gate in ground arith
  enter-measure Node.prepare_human_review h = unfold Nodes.prepare_human_review in ground arith
  enter-measure Node.human_review h = unfold Nodes.human_review in ground arith
  enter-measure Node.test_planning h = unfold Nodes.test_planning in ground arith
  enter-measure Node.test_plan_gate h = unfold Gates.test_plan_gate in ground arith
  enter-measure Node.implementation h = unfold Nodes.implementation in ground arith
  enter-measure Node.implementation_gate h = unfold Gates.implementation_gate in ground arith
  enter-measure Node.validation h = unfold Nodes.validation in ground arith
  enter-measure Node.validation_gate h = unfold Gates.validation_gate Rework.decide in ground arith
  enter-measure Node.judge h = unfold Judging.judge in ground arith
  enter-measure Node.blocked h = ground arith
  enter-measure Node.end h = ground arith

module _ (env : Environment) (resume : Option HumanReviewResume) where
  settle-ends :
      (fuel : ℕ) (n : Node) (s u : EngineeringState) (w : Session) {w' : Session} (e : Entered)
      (v : Session)
      → measure env n s ≤ suc fuel
      → enter env n resume s w ≡ (ok e, v)
      → settle (λ t. run env fuel (next n t) resume t) s e v ≡ (ok (out_of_fuel u), w')
      → (t : EngineeringState) × (measure env (next n t) t ≤ fuel)
        × (run env fuel (next n t) resume t v ≡ (ok (out_of_fuel u), w'))
  settle-ends fuel n s u w done v m entered rest = absurd (cc rest)
  settle-ends fuel n s u w paused v m entered rest = absurd (cc rest)
  settle-ends fuel n s u w (went t) v m entered rest =
      (t, omega (arith, enter-measure env resume s w n entered), rest)

  run-ends :
      (fuel : ℕ) (n : Node) (s u : EngineeringState) (w : Session) {w' : Session}
      → measure env n s ≤ fuel
      → run env fuel n resume s w ≢ (ok (out_of_fuel u), w')
  unfolding run
  run-ends zero n s u w m h = absurd (omega (arith, weight-pos n))
  run-ends (suc fuel) n s u w m h =
      let go = λ (t : EngineeringState). run env fuel (next n t) resume t in
      let (e, v, entered, rest) = >>=-eq-ok (enter env n resume s) (settle go s) w h in
      let (t, m', r) = settle-ends fuel n s u w e v m entered rest in
      run-ends fuel (next n t) t u v m' r

  -- A run from the entry of the graph ends within 19 nodes and 4 more for each rework that the policy
  -- allows: given fuel for those it never runs out.
  pub run_terminates :
      (fuel : ℕ) (s u : EngineeringState) (w : Session) {w' : Session}
      → 19 + 4 * (env.rework.max_attempts - 1) ≤ fuel
      → run env fuel Node.context resume s w ≢ (ok (out_of_fuel u), w')
  run_terminates fuel s u w m h = run-ends fuel Node.context s u w (omega arith) h
