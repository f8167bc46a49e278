-- ===== src/Workflow/Run.antt =====
-- app/orchestration/graph.py: the edges of the graph, and its execution: one node after the other, from
-- the entry until the end, an interrupt or an exception. `fuel` bounds the number of nodes entered.
use steh_v1_0_0_rc.Base.{ℕ, zero, suc, Bool, false, Option, none, some, if◌then◌else◌, get_or}
use steh_v1_0_0_rc.Models.Task.{TaskStatus}
use steh_v1_0_0_rc.Models.Review.{HumanReviewResume}
use steh_v1_0_0_rc.Models.State.{EngineeringState}
use steh_v1_0_0_rc.Db.{Exec, ◌>>=◌, pure, lift, utc_now}
use steh_v1_0_0_rc.Workflow.{Environment}
use steh_v1_0_0_rc.Workflow.Gates
use steh_v1_0_0_rc.Workflow.Nodes
use steh_v1_0_0_rc.Workflow.Judging

pub data Node : Type 0 where
  context requirements requirements_gate specification specification_gate : Node
  architecture architecture_gate security security_gate : Node
  prepare_human_review human_review test_planning test_plan_gate : Node
  implementation implementation_gate validation validation_gate judge blocked end : Node

-- `state.get("blocked")` as a test
abbrev pub is_blocked : EngineeringState → Bool
is_blocked s = get_or s.blocked false

-- `route_after_security`, with the targets of its edges
unfoldable pub route_after_security : Option TaskStatus → Node
route_after_security (some TaskStatus.ready_for_implementation) = test_planning
route_after_security (some TaskStatus.human_review) = prepare_human_review
route_after_security _ = end

unfoldable pub route_after_human_review : Option TaskStatus → Node
route_after_human_review (some TaskStatus.ready_for_implementation) = test_planning
route_after_human_review _ = blocked

unfoldable pub route_after_validation : Option TaskStatus → Node
route_after_validation (some TaskStatus.rework_required) = implementation
route_after_validation (some TaskStatus.completed) = judge
route_after_validation _ = end

-- `add_edge` and `add_conditional_edges`: the node that follows, in the state that a node left.
unfoldable pub next : Node → EngineeringState → Node
unfolding route_after_security route_after_human_review route_after_validation
next context s = requirements
next requirements s = requirements_gate
next requirements_gate s = if is_blocked s then blocked else specification
next specification s = specification_gate
next specification_gate s = if is_blocked s then blocked else architecture
next architecture s = architecture_gate
next architecture_gate s = if is_blocked s then blocked else security
next security s = security_gate
next security_gate s = route_after_security s.status
next prepare_human_review s = human_review
next human_review s = route_after_human_review s.status
next test_planning s = test_plan_gate
next test_plan_gate s = if is_blocked s then blocked else implementation
next implementation s = implementation_gate
next implementation_gate s = if is_blocked s then blocked else validation
next validation s = validation_gate
next validation_gate s = route_after_validation s.status
next judge s = end
next blocked s = end
next end s = end

-- What entering a node comes to: the end of the graph, an interrupt, or the state that it left.
pub data Entered : Type 0 where
  done paused : Entered
  went : EngineeringState → Entered

-- How an execution of the graph ends, if it does not raise.
pub data Outcome : Type 0 where
  finished interrupted out_of_fuel : EngineeringState → Outcome

-- What follows the entry of a node in the state `s`.
abbrev pub settle : (EngineeringState → Exec Outcome) → EngineeringState → Entered → Exec Outcome
settle go s done = pure (finished s)
settle go s paused = pure (interrupted s)
settle go s (went t) = go t

module _ (env : Environment) where
  abbrev pub went_to : Exec EngineeringState → Exec Entered
  went_to m = m >>= λ t. pure (went t)

  unfoldable pub enter : Node → Option HumanReviewResume → EngineeringState → Exec Entered
  enter context resume s = went_to (Nodes.contextualize env s)
  enter requirements resume s = went_to (Nodes.requirements env s)
  enter requirements_gate resume s = went_to (lift (Gates.requirements_gate env.config s))
  enter specification resume s = went_to (Nodes.specification env s)
  enter specification_gate resume s = went_to (lift (Gates.specification_gate env.config s))
  enter architecture resume s = went_to (Nodes.architecture env s)
  enter architecture_gate resume s = went_to (lift (Gates.architecture_gate env.config s))
  enter security resume s = went_to (Nodes.security env s)
  enter security_gate resume s = went_to (lift (Gates.security_gate env.config s))
  enter prepare_human_review resume s = went_to (Nodes.prepare_human_review env s)
  enter human_review none s = pure paused
  enter human_review (some resume) s = went_to (Nodes.human_review env resume s)
  enter test_planning resume s = went_to (Nodes.test_planning env s)
  enter test_plan_gate resume s = went_to (lift (Gates.test_plan_gate env.config s))
  enter implementation resume s = went_to (Nodes.implementation env s)
  enter implementation_gate resume s = went_to (lift (Gates.implementation_gate env.config s))
  enter validation resume s = went_to (Nodes.validation env s)
  enter validation_gate resume s =
      utc_now >>= λ now. went_to (lift (Gates.validation_gate env.config env.rework now s))
  enter judge resume s = went_to (Judging.judge env s)
  enter blocked resume s = pure (went (record s { status = some TaskStatus.blocked }))
  enter end resume s = pure done

  unfoldable pub run : ℕ → Node → Option HumanReviewResume → EngineeringState → Exec Outcome
  run zero node resume s = pure (out_of_fuel s)
  run (suc fuel) node resume s =
      enter node resume s >>= settle (λ t. run fuel (next node t) resume t) s
