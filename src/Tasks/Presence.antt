-- ===== src/Tasks/Presence.antt =====
-- Through the actions of app/services/tasks.py, audit.py and app/orchestration/lifecycle.py the row of a
-- task stays in its table.
use steh_v1_0_0_rc.Base.{
  ℕ, String, ◌≡◌, ◌∙◌, refl, true, Option, none, some, List, is_some, nat_eq, Result, ok, err,
  arith,
}
use steh_v1_0_0_rc.Json.{Json}
use steh_v1_0_0_rc.Models.Task.{AgentResult}
use steh_v1_0_0_rc.Models.Context.{Text, ContextSourceInput, ContextBundle}
use steh_v1_0_0_rc.Context.Build.{new_engine, build}
use steh_v1_0_0_rc.Settings.{Settings}
use steh_v1_0_0_rc.External.{Library}
use steh_v1_0_0_rc.Db.{TaskRecord, Session, lift, modify, commit, find_task, update_task, utc_now}
use steh_v1_0_0_rc.Db.Keeps.{Keeps, bind-Keeps, lift-Keeps}
use steh_v1_0_0_rc.Db.Rows.{is_some-update}
use steh_v1_0_0_rc.Audit.{
  AgentLifecycle, record_event, start_agent_run, complete_agent_run, fail_agent_run, supervise,
  record_failure, execute,
}
use steh_v1_0_0_rc.Audit.Proofs.{expected}
use steh_v1_0_0_rc.Tasks.Accept.{build_context_bundle, record_context_event}

-- The task's row is in the pending and in the committed tables.
abbrev pub Present : ℕ → Session → Type 0
Present id s =
    (is_some (find_task id s.pending) ≡ true) × (is_some (find_task id s.committed) ≡ true)

module _ (id : ℕ) where
  pub record_event-Present :
      (task_id trace_id : ℕ) (kind actor : String) (payload : Json)
      → Keeps (Present id) (record_event task_id trace_id kind actor payload)
  unfolding record_event
  record_event-Present task_id trace_id kind actor payload = record { after = λ s h. (h.0, h.0) }

  pub update-Present :
      (task_id : ℕ) (f : TaskRecord → TaskRecord)
      → ((t : TaskRecord) → (f t).task_id ≡ t.task_id)
      → Keeps (Present id) (modify (update_task task_id f))
  update-Present task_id f same = record {
    after = λ s h. (
      is_some-update (λ r. r.task_id) id (λ r. nat_eq r.task_id task_id) f same s.pending.tasks
          ∙ h.0,
      h.1,
    );
  }

  pub commit-Present : Keeps (Present id) commit
  commit-Present = record { after = λ s h. (h.0, h.0) }

  pub utc_now-Present : Keeps (Present id) utc_now
  utc_now-Present = record { after = λ s h. h }

  pub execute-Present :
      (lifecycle : AgentLifecycle) (name : String) (fn : Result AgentResult)
      → Keeps (Present id) (execute lifecycle name fn)
  unfolding execute start_agent_run supervise record_failure complete_agent_run fail_agent_run
      record_event
  execute-Present lifecycle name (err e) = record { after = λ s h. (h.0, h.0) }
  execute-Present lifecycle name (ok result) = record { after = λ s h. ground arith }

pub expected-ok :
    (lifecycle : AgentLifecycle) (name : String) (fn : Result AgentResult) {result : AgentResult}
    → expected lifecycle name fn ≡ ok result
    → fn ≡ ok result
expected-ok lifecycle name (err e) h = h
expected-ok lifecycle name (ok made) h = ground arith

-- A row that is there, by its presence.
pub row_of : (o : Option TaskRecord) → is_some o ≡ true → (t : TaskRecord) × (o ≡ some t)
row_of none h = cc
row_of (some t) h = (t, refl)

module _ (lib : Library) (settings : Settings) where
  pub build-Present :
      (id : ℕ) (request : Text) (sources : List ContextSourceInput)
      → Keeps (Present id) (build_context_bundle lib settings request sources)
  unfolding build_context_bundle
  build-Present id request sources =
      bind-Keeps
        (lift (
          new_engine settings.context_max_sources settings.context_max_tokens
            settings.context_max_source_tokens))
        _ (lift-Keeps _)
        (λ engine.
          bind-Keeps utc_now (λ now. lift (build lib engine request sources now))
            (utc_now-Present id) (λ now. lift-Keeps _))

pub record_context-Present :
    (id task_id trace_id : ℕ) (bundle : ContextBundle)
    → Keeps (Present id) (record_context_event task_id trace_id bundle)
unfolding record_context_event
record_context-Present id task_id trace_id bundle = record_event-Present id task_id trace_id _ _ _
