-- ===== src/Workflow/Judging.antt =====
-- app/orchestration/graph.py: the node that calls the judge.
use steh_v1_0_0_rc.Base.{
  Option, none, some, [], ◌∷◌, if◌then◌else◌, get_or, ok, err, Error, error_name,
}
use steh_v1_0_0_rc.Json.{Json}
use steh_v1_0_0_rc.Models.Task.{TaskStatus, AgentResult}
use steh_v1_0_0_rc.Models.Judge.{JudgeInputSnapshot, JudgeEvaluationArtifact}
use steh_v1_0_0_rc.Models.State.{EngineeringState}
use steh_v1_0_0_rc.Judge.Receipt.{receipt_json}
use steh_v1_0_0_rc.Db.{Exec, ◌>>=◌, pure, lift, catch, utc_now}
use steh_v1_0_0_rc.Workflow.{Environment}
use steh_v1_0_0_rc.Workflow.Gates.{add_evidence}
use steh_v1_0_0_rc.Workflow.Nodes.{perform}

module _ (env : Environment) where
  -- The body of the judge's `try`, once the input is built and the rubric loaded.
  unfoldable pub evaluate_judge :
      Json
      → JudgeInputSnapshot
      → EngineeringState
      → Exec (JudgeEvaluationArtifact × Option AgentResult)
  evaluate_judge rubric judge_input s =
      if env.judge_enabled
      then (do
        result ← perform env.lifecycle "llm_judge_agent" (env.judge_agent rubric judge_input s)
        evaluation ← lift (env.read_evaluation result.result)
        pure (evaluation, some result))
      else (do now ← utc_now; pure (env.non_authoritative judge_input now none (some rubric), none))

  -- the handler
  unfoldable pub judge_unavailable :
      JudgeInputSnapshot → Option Json → Error → Exec (JudgeEvaluationArtifact × Option AgentResult)
  unfolding error_name
  judge_unavailable judge_input rubric exc = do
    now ← utc_now
    pure (env.non_authoritative judge_input now (some (error_name exc)) rubric, none)

  -- The `try` statement: an exception leaves the input and the rubric that were bound before it.
  unfoldable pub assess :
      JudgeInputSnapshot → EngineeringState → Exec (JudgeEvaluationArtifact × Option AgentResult)
  assess empty_input s = elim (env.judge_input s) [
    | err exc ↦ judge_unavailable empty_input none exc
    | ok judge_input ↦ elim env.rubric [
      | err exc ↦ judge_unavailable judge_input none exc
      | ok rubric ↦
          catch (evaluate_judge rubric judge_input s) (judge_unavailable judge_input (some rubric))
    ]
  ]

  unfoldable pub judge : EngineeringState → Exec EngineeringState
  judge s = do
    empty_input ← lift env.empty_judge_input
    (evaluation, run) ← assess empty_input s
    pure (record s {
      judge_evaluation = some evaluation;
      judge_run = run;
      evidence = add_evidence s (receipt_json evaluation ∷ []);
      status = some (get_or s.status TaskStatus.completed);
    })
