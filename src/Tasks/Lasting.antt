-- ===== src/Tasks/Lasting.antt =====
-- The row of a task stays in its table through `run_task_workflow` of app/services/tasks.py, if the
-- compiled graph leaves it there.
use steh_v1_0_0_rc.Base.{
  ℕ, Bool, true, false, Option, none, some, List, [], ◌∷◌, ltb, get_or, if◌then◌else◌, Result, refl,
  or_raise, value_error,
}
use steh_v1_0_0_rc.Json.{
  Json, null, str, obj, end, field, item, truthy, get_default, iterate, empty_list,
}
use steh_v1_0_0_rc.Models.Task.{TaskStatus, ReworkDecision}
use steh_v1_0_0_rc.Models.Review.{HumanReviewArtifact}
use steh_v1_0_0_rc.Models.Judge.{JudgeEvaluationArtifact}
use steh_v1_0_0_rc.Models.State.{EngineeringState}
use steh_v1_0_0_rc.Policy.{PolicyDecision}
use steh_v1_0_0_rc.Db.{TaskRecord, Exec, ◌>>=◌, lift, modify, commit, gets, find_task, utc_now}
use steh_v1_0_0_rc.Db.Keeps.{
  Keeps, pure-Keeps, lift-Keeps, raise-Keeps, gets-Keeps, bind-Keeps, if-Keeps,
}
use steh_v1_0_0_rc.Audit.{record_event}
use steh_v1_0_0_rc.Tasks.Invoke.{Snapshot, Start, Graph, recover_from, invoke_workflow}
use steh_v1_0_0_rc.Tasks.Records.{
  Ids, finding_row, add_findings, persist_security_findings, record_policies, record_reworks,
  apply_workflow_result, workflow_event, status_text,
}
use steh_v1_0_0_rc.Tasks.Run.{
  or_value_error, persist_review, record_review, record_judge, set_status, apply_result, conclude,
  started_payload, workflow_input, run_task_workflow,
}
use steh_v1_0_0_rc.Tasks.Presence.{
  Present, record_event-Present, update-Present, commit-Present, utc_now-Present,
}

-- The graph leaves the row of the task in both tables.
pub record Leaves (id : ℕ) (graph : Graph) : Type 0 where
  pub reading : Keeps (Present id) graph.get_state
  pub running : (start : Option Start) → Keeps (Present id) (graph.invoke start)

module _ (id : ℕ) where
  pub or_value_error-Present : {A : Type 0} (o : Option A) → Keeps (Present id) (or_value_error o)
  or_value_error-Present none = raise-Keeps _
  or_value_error-Present (some a) = pure-Keeps a

  pub lifted :
      {A B : Type 0} (r : Result A) (f : A → Exec B)
      → ((a : A) → Keeps (Present id) (f a))
      → Keeps (Present id) (lift r >>= f)
  lifted r f k = bind-Keeps (lift r) f (lift-Keeps r) k

  finding_row-Present :
      (ids : Ids) (task_id trace_id : ℕ) (finding : Json)
      → Keeps (Present id) (finding_row ids task_id trace_id finding)
  unfolding finding_row
  finding_row-Present ids task_id trace_id finding = lifted (item finding "finding_id") _ (λ given.
      lifted (or_raise (ids.read given) value_error) _ (λ _. lifted (item finding "title") _ (λ _.
        lifted (item finding "description") _ (λ _. lifted (item finding "severity") _ (λ _.
          lifted (item finding "category") _ (λ _.
            lifted (item finding "affected_component") _ (λ _.
              lifted (item finding "threat") _ (λ _. lifted (item finding "recommendation") _ (λ _.
                lifted (get_default finding "evidence" empty_list) _ (λ _.
                  lifted (get_default finding "status" (str "OPEN")) _ (λ _. pure-Keeps _)))))))))))

  add_findings-Present :
      (ids : Ids) (task_id trace_id : ℕ) (fs : List Json)
      → Keeps (Present id) (add_findings ids task_id trace_id fs)
  unfolding add_findings
  add_findings-Present ids task_id trace_id [] = pure-Keeps tt
  add_findings-Present ids task_id trace_id (f ∷ fs) =
      bind-Keeps (finding_row ids task_id trace_id f) _ (finding_row-Present ids task_id trace_id f)
        (λ row.
          bind-Keeps (modify _) _ (record { after = λ s h. h })
            (λ u. add_findings-Present ids task_id trace_id fs))

  persist_review-Present :
      (ids : Ids) (task : TaskRecord) (review : Option Json)
      → Keeps (Present id) (persist_review ids task review)
  unfolding persist_review persist_security_findings
  persist_review-Present ids task none = pure-Keeps tt
  persist_review-Present ids task (some review) =
      if-Keeps (truthy review) _ _
        (bind-Keeps (lift (get_default review "findings" empty_list)) _ (lift-Keeps _) (λ found.
          bind-Keeps (lift (iterate found)) _ (lift-Keeps _) (λ fs.
            bind-Keeps (add_findings ids task.task_id task.trace_id fs) _
              (add_findings-Present ids task.task_id task.trace_id fs) (λ u. commit-Present id))))
        (pure-Keeps tt)

  record_policies-Present :
      (task : TaskRecord) (ds : List PolicyDecision) → Keeps (Present id) (record_policies task ds)
  unfolding record_policies
  record_policies-Present task [] = pure-Keeps tt
  record_policies-Present task (d ∷ ds) =
      bind-Keeps (record_event task.task_id task.trace_id _ _ _) _
        (record_event-Present id _ _ _ _ _) (λ u. record_policies-Present task ds)

  record_reworks-Present :
      (task : TaskRecord) (ds : List ReworkDecision) → Keeps (Present id) (record_reworks task ds)
  unfolding record_reworks
  record_reworks-Present task [] = pure-Keeps tt
  record_reworks-Present task (d ∷ ds) =
      bind-Keeps (record_event task.task_id task.trace_id _ _ _) _
        (record_event-Present id _ _ _ _ _) (λ u. record_reworks-Present task ds)

  record_review-Present :
      (task : TaskRecord) (review : Option HumanReviewArtifact)
      → Keeps (Present id) (record_review task review)
  unfolding record_review
  record_review-Present task none = pure-Keeps tt
  record_review-Present task (some review) = record_event-Present id _ _ _ _ _

  record_judge-Present :
      (task : TaskRecord) (e : Option JudgeEvaluationArtifact)
      → Keeps (Present id) (record_judge task e)
  unfolding record_judge
  record_judge-Present task none = pure-Keeps tt
  record_judge-Present task (some e) = record_event-Present id _ _ _ _ _

  apply_result-Present :
      (task_id : ℕ) (result : EngineeringState) → Keeps (Present id) (apply_result task_id result)
  unfolding apply_result apply_workflow_result
  apply_result-Present task_id result =
      bind-Keeps utc_now _ (utc_now-Present id)
        (λ now. update-Present id task_id (apply_workflow_result result now) (λ t. refl))

  conclude-Present :
      (ids : Ids) (task : TaskRecord) (result : EngineeringState)
      → Keeps (Present id) (conclude ids task result)
  unfolding conclude
  conclude-Present ids task result =
      bind-Keeps (apply_result task.task_id result) _ (apply_result-Present task.task_id result)
        (λ _.
          bind-Keeps (persist_review ids task result.security_review) _
            (persist_review-Present ids task result.security_review)
            (λ _.
              bind-Keeps (record_policies task (get_or result.policy_results [])) _
                (record_policies-Present task (get_or result.policy_results []))
                (λ _.
                  bind-Keeps (record_review task result.human_review) _
                    (record_review-Present task _)
                    (λ _.
                      bind-Keeps (record_judge task result.judge_evaluation) _
                        (record_judge-Present task _)
                        (λ _.
                          bind-Keeps
                            (record_event task.task_id task.trace_id
                              (workflow_event (get_or result.status TaskStatus.failed))
                              "orchestrator"
                              (obj (
                                field "status"
                                  (str (status_text (get_or result.status TaskStatus.failed)))
                                  (field "risk_level" (get_or result.risk_level null) end))))
                            _ (record_event-Present id _ _ _ _ _)
                            (λ _.
                              bind-Keeps (record_reworks task (get_or result.rework_history [])) _
                                (record_reworks-Present task (get_or result.rework_history []))
                                (λ _. commit-Present id)))))))

  module _ (graph : Graph) (leaves : Leaves id graph) where
    invoke-Present :
        (start : Start) (recover resume_interrupt : Bool)
        → Keeps (Present id) (invoke_workflow graph start recover resume_interrupt)
    unfolding invoke_workflow
    invoke-Present start false resume_interrupt = leaves.running (some start)
    invoke-Present start true resume_interrupt =
        bind-Keeps graph.get_state _ leaves.reading
          (λ snapshot. recovered-Present snapshot snapshot.values)
      where
        values-Present :
            (snapshot : Snapshot) (values : EngineeringState)
            → Keeps (Present id) (recover_from graph start resume_interrupt snapshot values)
        values-Present snapshot values =
            if-Keeps snapshot.has_interrupts _ _
              (if-Keeps resume_interrupt _ _ (leaves.running (some start)) (pure-Keeps values))
              (if-Keeps snapshot.has_next _ _ (leaves.running none) (pure-Keeps values))

        recovered-Present :
            (snapshot : Snapshot) (o : Option EngineeringState)
            → Keeps (Present id) (elim o [
              | none ↦ graph.invoke (some start)
              | some values ↦ recover_from graph start resume_interrupt snapshot values
            ])
        recovered-Present snapshot none = leaves.running (some start)
        recovered-Present snapshot (some values) = values-Present snapshot values

    pub run_task_workflow-Present :
        (ids : Ids) (task_id attempt : ℕ)
        → Keeps (Present id) (run_task_workflow ids graph task_id attempt)
    unfolding run_task_workflow
    run_task_workflow-Present ids task_id attempt =
        bind-Keeps (gets (find_task task_id)) _ (gets-Keeps _) (λ found.
          bind-Keeps (or_value_error found) _ (or_value_error-Present found) (λ task.
            bind-Keeps (or_value_error task.context_bundle) _
              (or_value_error-Present task.context_bundle)
              (λ bundle.
                bind-Keeps (set_status task_id TaskStatus.analyzing) _
                  (update-Present id task_id _ (λ t. refl))
                  (λ _. bind-Keeps commit _ (commit-Present id) (λ _.
                    bind-Keeps
                      (record_event task_id task.trace_id
                        (if ltb 1 attempt then "TASK_RECOVERED" else "TASK_STARTED") "orchestrator"
                        (started_payload task attempt (ltb 1 attempt)))
                      _ (record_event-Present id _ _ _ _ _)
                      (λ _.
                        bind-Keeps
                          (invoke_workflow graph
                            (Start.input (
                              workflow_input (ids.text task_id) (ids.text task.trace_id) task
                                bundle))
                            (ltb 1 attempt) false)
                          _
                          (invoke-Present
                            (Start.input (
                              workflow_input (ids.text task_id) (ids.text task.trace_id) task
                                bundle))
                            (ltb 1 attempt) false)
                          (λ result. conclude-Present ids task result)))))))
