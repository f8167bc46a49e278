-- ===== src/Tasks/Invoke.antt =====
-- app/services/tasks.py: `invoke_workflow` starts a workflow thread or recovers it from its checkpoint.
use steh_v1_0_0_rc.Base.{Bool, true, false, Option, none, some, if◌then◌else◌}
use steh_v1_0_0_rc.Models.Review.{HumanReviewResume}
use steh_v1_0_0_rc.Models.State.{EngineeringState}
use steh_v1_0_0_rc.Db.{Exec, ◌>>=◌, pure}

-- `graph.get_state`: the checkpoint of the thread. `values` is none for a thread without one.
pub record Snapshot : Type 0 where
  pub values : Option EngineeringState
  pub has_interrupts : Bool
  pub has_next : Bool

-- What a thread is started with: the input of a new workflow, or the command that resumes it.
pub data Start : Type 0 where
  input : EngineeringState → Start
  resume : HumanReviewResume → Start

-- The compiled graph on the thread of one task; `invoke none` continues from the checkpoint.
pub record Graph : Type 0 where
  pub get_state : Exec Snapshot
  pub invoke : Option Start → Exec EngineeringState

-- For a checkpoint with values.
unfoldable pub recover_from :
    Graph → Start → Bool → Snapshot → EngineeringState → Exec EngineeringState
recover_from graph start resume_interrupt snapshot values =
    if snapshot.has_interrupts
    then (if resume_interrupt then graph.invoke (some start) else pure values)
    else if snapshot.has_next
    then graph.invoke none
    else pure values

unfoldable pub invoke_workflow : Graph → Start → Bool → Bool → Exec EngineeringState
unfolding recover_from
invoke_workflow graph start false resume_interrupt = graph.invoke (some start)
invoke_workflow graph start true resume_interrupt = do
  snapshot ← graph.get_state
  elim snapshot.values [
    | none ↦ graph.invoke (some start)
    | some values ↦ recover_from graph start resume_interrupt snapshot values
  ]
