-- ===== src/Issue/Outcome.antt =====
-- How `run_github_issue_analysis` of app/services/github_issues.py ends when it raises.
use steh_v1_0_0_rc.Base.{
  ℕ, String, ◌≡◌, ◌∙◌, refl, sym, ap, true, false, ◌&&◌, Option, some, ltb, is_some, nat_eq, Result,
  ok, err, Error,
}
use mathlib.Core.Path.{subst}
use steh_v1_0_0_rc.Json.{Json}
use steh_v1_0_0_rc.Models.Task.{TaskStatus}
use steh_v1_0_0_rc.Models.Context.{ContextBundle}
use steh_v1_0_0_rc.Models.Issue.{GitHubIssueSnapshot, IssueAnalysisArtifact}
use steh_v1_0_0_rc.Settings.{Settings}
use steh_v1_0_0_rc.External.{Library}
use steh_v1_0_0_rc.Db.{
  TaskRecord, Session, or_else, ◌>>=◌, ◌>>◌, lift, modify, commit, find_task, update_task, utc_now,
}
use steh_v1_0_0_rc.Db.Keeps.{Keeps, bind-Keeps, lift-Keeps}
use steh_v1_0_0_rc.Db.Rows.{find-update, find-key, is_some-update}
use steh_v1_0_0_rc.Audit.{AgentLifecycle, record_event, execute}
use steh_v1_0_0_rc.Tasks.Accept.{build_context_bundle, persist_context_bundle}
use steh_v1_0_0_rc.Tasks.Invoke.{Graph}
use steh_v1_0_0_rc.Tasks.Presence.{
  Present, record_event-Present, update-Present, commit-Present, utc_now-Present, execute-Present,
  row_of, build-Present, record_context-Present,
}
use steh_v1_0_0_rc.Tasks.Records.{Ids}
use steh_v1_0_0_rc.Tasks.Lasting.{Leaves, run_task_workflow-Present}
use steh_v1_0_0_rc.Issue.Payloads.{analysed_payload, task_request}
use steh_v1_0_0_rc.Issue.Service.{
  Codec, fail_task, context_sources, agent_run, analyse_task, start_analysis,
  run_github_issue_analysis,
}

persist-Present :
    (id : ℕ) (task : TaskRecord) (bundle : ContextBundle)
    → Keeps (Present id) (persist_context_bundle task bundle)
unfolding persist_context_bundle
persist-Present id task bundle = bind-Keeps utc_now _ (utc_now-Present id) (λ now.
    bind-Keeps
      (modify (
        update_task task.task_id
          (λ t. record t { context_bundle = some bundle; updated_at = now })))
      _ (update-Present id task.task_id _ (λ t. refl))
      (λ _.
        bind-Keeps commit _ (commit-Present id)
          (λ _. record_context-Present id task.task_id task.trace_id bundle)))

module _ (lib : Library) (codec : Codec) (settings : Settings)
    (model : Option (GitHubIssueSnapshot → Result IssueAnalysisArtifact))
    (prompt_receipt : String → Result (Option Json)) (ids : Ids) (graph : Graph) where
  analyse_task-Present :
      (id : ℕ)
      → Leaves id graph
      → (task : TaskRecord) (issue : GitHubIssueSnapshot) (attempt : ℕ)
      → Keeps
          (Present id)
          (analyse_task lib codec settings model prompt_receipt ids graph task issue attempt)
  unfolding analyse_task
  analyse_task-Present id leaves task issue attempt =
      bind-Keeps utc_now _ (utc_now-Present id) (λ now.
        let lifecycle : AgentLifecycle = record {
          task_id = task.task_id;
          trace_id = task.trace_id;
          prompt_receipt = prompt_receipt;
        } in
        let fn = agent_run lib codec settings model prompt_receipt ids graph issue now in
        bind-Keeps (execute lifecycle "github_issue_analysis_agent" fn) _
          (execute-Present id lifecycle "github_issue_analysis_agent" fn)
          (λ result.
            bind-Keeps (lift (codec.validate_analysis result.result)) _ (lift-Keeps _) (λ analysis.
              bind-Keeps
                (modify (
                  update_task task.task_id (λ t. record t {
                    issue_analysis = some analysis;
                    request = task_request analysis;
                  })))
                _ (update-Present id task.task_id _ (λ t. refl))
                (λ _. bind-Keeps commit _ (commit-Present id) (λ _.
                  bind-Keeps
                    (record_event task.task_id task.trace_id "GITHUB_ISSUE_ANALYZED"
                      "github_issue_analysis_agent" (analysed_payload analysis))
                    _ (record_event-Present id _ _ _ _ _)
                    (λ _.
                      bind-Keeps
                        (build_context_bundle lib settings (task_request analysis)
                          (context_sources lib codec settings issue analysis))
                        _ (build-Present lib settings id _ _)
                        (λ bundle.
                          bind-Keeps (persist_context_bundle task bundle) _
                            (persist-Present id task bundle)
                            (λ _.
                              run_task_workflow-Present id graph leaves ids task.task_id
                                attempt))))))))

  -- The handler marks the row that is committed.
  handled :
      (task : TaskRecord) (r : Result (Unit {0}) × Session) {e : Error} {t : Session}
      → Present task.task_id r.1
      → or_else (fail_task task) r ≡ (err e, t)
      → (row : TaskRecord) × (find_task task.task_id t.committed ≡ some row)
        × (row.status ≡ TaskStatus.failed)
  unfolding fail_task record_event
  handled task (ok done, v) p h = cc
  handled task (err raised, v) {t = t} p h =
      let (row, there) = row_of (find_task task.task_id v.committed) p.1 in
      let f : TaskRecord → TaskRecord = λ x. record x { status = TaskStatus.failed } in
      (
        f row,
        rw (← (ap (λ x. x.1.committed) h))
            (find-update (λ x. x.task_id) task.task_id f (λ x. refl) v.committed.tasks there),
        refl,
      )

  started :
      (task : TaskRecord) (issue : GitHubIssueSnapshot) (attempt : ℕ) (s : Session) {e : Error}
      {t : Session}
      → Leaves task.task_id graph
      → find_task task.task_id s.pending ≡ some task
      → start_analysis lib codec settings model prompt_receipt ids graph task issue attempt s
        ≡ (err e, t)
      → (row : TaskRecord) × (find_task task.task_id t.committed ≡ some row)
        × (row.status ≡ TaskStatus.failed)
  unfolding start_analysis
  started task issue attempt s leaves h r =
      let f : TaskRecord → TaskRecord =
        λ x. record x { status = TaskStatus.analyzing_issue; updated_at = s.clock s.readings } in
      let w : Session = ((do now ← utc_now; modify (update_task task.task_id f); commit) s).1 in
      let there : is_some (find_task task.task_id w.pending) ≡ true =
        is_some-update (λ x. x.task_id) task.task_id (λ x. nat_eq x.task_id task.task_id) f
          (λ x. refl) s.pending.tasks
        ∙ ap is_some h in
      handled task
        (analyse_task lib codec settings model prompt_receipt ids graph task issue attempt w)
        ((analyse_task-Present task.task_id leaves task issue attempt).after w (there, there)) r

  -- If the compiled graph leaves the task's row in its table, the task has an issue, and the call is not
  -- the recovery of a task whose analysis and context are stored, then whatever raises, the agent, the
  -- reading of its answer, the context or the workflow, the committed row of the task ends as FAILED.
  pub failed_analysis_is_recorded :
      (task_id attempt : ℕ) (s : Session) {task : TaskRecord} {issue : GitHubIssueSnapshot}
      {e : Error} {t : Session}
      → Leaves task_id graph
      → find_task task_id s.pending ≡ some task
      → task.source_issue ≡ some issue
      → (ltb 1 attempt && is_some task.issue_analysis && is_some task.context_bundle) ≡ false
      → run_github_issue_analysis lib codec settings model prompt_receipt ids graph task_id attempt
          s
        ≡ (err e, t)
      → (row : TaskRecord) × (find_task task_id t.committed ≡ some row)
        × (row.status ≡ TaskStatus.failed)
  unfolding run_github_issue_analysis persist_context_bundle
  failed_analysis_is_recorded task_id attempt s {task} {issue} {e} {t} leaves h q fresh r =
      let key : task.task_id ≡ task_id = find-key (λ x. x.task_id) task_id s.pending.tasks h in
      let run : start_analysis lib codec settings model prompt_receipt ids graph task issue attempt
            s
          ≡ (err e, t) =
        rw (h, q, fresh) at r in
      subst
        (λ i.
          (row : TaskRecord) × (find_task i t.committed ≡ some row)
          × (row.status ≡ TaskStatus.failed))
        key
        (started task issue attempt s (subst (λ i. Leaves i graph) (sym key) leaves)
          (subst (λ i. find_task i s.pending ≡ some task) (sym key) h) run)
