-- ===== src/Workflow/Safety.antt =====
-- What a run of the workflow graph can and cannot end in, under the shipped policies.
use steh_v1_0_0_rc.Base.{ℕ, zero, suc, ◌≡◌, ◌≢◌, refl, false, Option, none, some, ok, arith}
use mathlib.Core.Path.{subst}
use steh_v1_0_0_rc.Models.Task.{TaskStatus}
use steh_v1_0_0_rc.Models.Review.{HumanReviewArtifact, HumanReviewResume, HumanReviewStatus}
use steh_v1_0_0_rc.Models.State.{EngineeringState}
use steh_v1_0_0_rc.Policy.QualityGates.{quality_gates}
use steh_v1_0_0_rc.Db.{Session, >>=-eq-ok, pure}
use steh_v1_0_0_rc.Workflow.{Environment}
use steh_v1_0_0_rc.Workflow.Nodes
use steh_v1_0_0_rc.Workflow.Run.{
  Node, Entered, done, paused, went, enter, next, Outcome, finished, interrupted, out_of_fuel, run,
  settle, route_after_human_review,
}
use steh_v1_0_0_rc.Workflow.Invariant.{Inv, Authorized, Validated, enter-Inv}

-- What the invariant says of an outcome.
abbrev pub InvOutcome : Outcome → Type 0
InvOutcome (finished s) = Inv Node.end s
InvOutcome (interrupted s) = Inv Node.human_review s
InvOutcome (out_of_fuel s) = Unit

module _ (env : Environment) (resume : Option HumanReviewResume) (s : EngineeringState)
    (w : Session) {w' : Session} where
  -- Only the end is entered with nothing left to do, and only the human review waits.
  enter-done : (n : Node) → enter env n resume s w ≡ (ok done, w') → n ≡ Node.end
  unfolding enter
  enter-done Node.end h = refl
  enter-done Node.human_review h = ground arith
  enter-done n h = ground arith

  enter-paused : (n : Node) → enter env n resume s w ≡ (ok paused, w') → n ≡ Node.human_review
  unfolding enter
  enter-paused Node.human_review h = refl
  enter-paused n h = ground arith

outcome-Inv :
    {o : Outcome} (p : Outcome) {v w : Session} → InvOutcome p → pure p v ≡ (ok o, w) → InvOutcome o
outcome-Inv p i h = subst InvOutcome (cc h) i

module _ (env : Environment) (shipped : env.config ≡ quality_gates)
    (resume : Option HumanReviewResume) where
  settle-Inv :
      (fuel : ℕ) (n : Node) (s : EngineeringState) (w : Session) {o : Outcome} {w' : Session}
      → Inv n s
      → (e : Entered) (v : Session) → enter env n resume s w ≡ (ok e, v)
      → settle (λ t. run env fuel (next n t) resume t) s e v ≡ (ok o, w')
      → ((t : EngineeringState)
          → Inv (next n t) t
          → run env fuel (next n t) resume t v ≡ (ok o, w')
          → InvOutcome o)
      → InvOutcome o
  settle-Inv fuel n s w i done v entered rest again =
      outcome-Inv (finished s) (subst (λ m. Inv m s) (enter-done env resume s w n entered) i) rest
  settle-Inv fuel n s w i paused v entered rest again =
      outcome-Inv (interrupted s) (subst (λ m. Inv m s) (enter-paused env resume s w n entered) i)
        rest
  settle-Inv fuel n s w i (went t) v entered rest again =
      again t (enter-Inv env shipped resume s w n i entered) rest

  -- The invariant holds of whatever a run returns.
  pub run-Inv :
      (fuel : ℕ) (n : Node) (s : EngineeringState) (w : Session) {o : Outcome} {w' : Session}
      → Inv n s
      → run env fuel n resume s w ≡ (ok o, w')
      → InvOutcome o
  unfolding run
  run-Inv zero n s w i h = ground arith
  run-Inv (suc fuel) n s w i h =
      let go = λ (t : EngineeringState). run env fuel (next n t) resume t in
      let (e, v, entered, rest) = >>=-eq-ok (enter env n resume s) (settle go s) w h in
      settle-Inv fuel n s w i e v entered rest (λ t j r. run-Inv fuel (next n t) t v j r)

  -- With the shipped policies, a run of the graph from its entry, with any agents, that finishes with
  -- the status COMPLETED has a validation artifact whose tests and scanners passed, no open critical
  -- finding in its security review, and no open high one unless its human review was approved.
  pub completed_is_safe :
      (fuel : ℕ) (s : EngineeringState) (w : Session) {t : EngineeringState} {w' : Session}
      → run env fuel Node.context resume s w ≡ (ok (finished t), w')
      → t.status ≡ some TaskStatus.completed
      → Authorized t × Validated t
  completed_is_safe fuel s w h c = run-Inv fuel Node.context s w tt h c

-- With the shipped policies, if a run from the entry stops for a human review and a second run takes
-- the workflow up from there with any decision, then the second run finishes with the status
-- COMPLETED only if tests and scanners passed, no critical finding is open, and no high one is unless
-- the human review was approved.
pub resumed_is_safe :
    (env : Environment) (shipped : env.config ≡ quality_gates) (resume : HumanReviewResume)
    (fuel fuel' : ℕ) (s : EngineeringState) (w v : Session) {t u : EngineeringState}
    {w' v' : Session}
    → run env fuel Node.context none s w ≡ (ok (interrupted t), w')
    → run env fuel' Node.human_review (some resume) t v ≡ (ok (finished u), v')
    → u.status ≡ some TaskStatus.completed
    → Authorized u × Validated u
resumed_is_safe env shipped resume fuel fuel' s w v {t} h k c =
    run-Inv env shipped (some resume) fuel' Node.human_review t v
      (run-Inv env shipped none fuel Node.context s w tt h) k c

not_approved :
    (x : HumanReviewStatus) → x ≢ HumanReviewStatus.approved → Nodes.is_approved x ≡ false
not_approved HumanReviewStatus.approved n = absurd (n refl)
not_approved _ n = refl

reviewed-status :
    (resume : HumanReviewResume) (review : HumanReviewArtifact) (s : EngineeringState)
    → resume.status ≢ HumanReviewStatus.approved
    → (Nodes.reviewed resume review s).status ≡ some TaskStatus.blocked
unfolding Nodes.reviewed
reviewed-status resume review s n = rw (not_approved resume.status n)

-- A decision other than an approval ends a waiting workflow, with any policies and agents: three more
-- entries suffice, no agent runs, the status is BLOCKED, and nothing has been implemented since.
pub rejected_is_blocked :
    (env : Environment) (resume : HumanReviewResume) (review : HumanReviewArtifact) (fuel : ℕ)
    (s : EngineeringState) (w : Session)
    → resume.status ≢ HumanReviewStatus.approved
    → s.human_review ≡ some review
    → (t : EngineeringState) × (run env (suc (suc (suc fuel))) Node.human_review (some resume) s w
        ≡ (ok (finished t), w))
      × (t.status ≡ some TaskStatus.blocked)
      × (t.human_review ≡ some (Nodes.decided review resume))
      × (t.implementation ≡ s.implementation)
unfolding run enter next route_after_human_review Nodes.human_review
rejected_is_blocked env resume review fuel s w n e = (
  record (Nodes.reviewed resume review s) { status = some TaskStatus.blocked },
  ground (arith, reviewed-status resume review s n),
  refl,
  (unfold Nodes.reviewed in refl),
  (unfold Nodes.reviewed in refl),
)
