-- ===== src/Tasks/Accept.antt =====
-- app/services/tasks.py: `accept_task`, and the context that it builds and records.
use steh_v1_0_0_rc.Base.{ℕ, none, some, List}
use steh_v1_0_0_rc.Json.{obj, end}
use steh_v1_0_0_rc.Models.Context.{Text, ContextSourceInput, ContextBundle}
use steh_v1_0_0_rc.Settings.{Settings}
use steh_v1_0_0_rc.External.{Library}
use steh_v1_0_0_rc.Context.Build.{new_engine, build, context_receipt, receipt_fields}
use steh_v1_0_0_rc.Db.{
  TaskRecord, JobKind, Exec, ◌>>=◌, ◌>>◌, pure, lift, modify, commit, utc_now, uuid4, update_task,
}
use steh_v1_0_0_rc.Db.Insert.{new_task, insert_task}
use steh_v1_0_0_rc.Audit.{record_event}
use steh_v1_0_0_rc.Jobs.{new_job, record_job_queued}

-- the fields of `TaskCreate` that `accept_task` reads
pub record TaskCreate : Type 0 where
  pub request : Text
  pub context_sources : List ContextSourceInput

-- `_record_context_event`
unfoldable pub record_context_event : ℕ → ℕ → ContextBundle → Exec (Unit {0})
unfolding record_event
record_context_event task_id trace_id bundle =
    record_event task_id trace_id "CONTEXT_BUNDLE_CREATED" "context_engine"
      (obj (receipt_fields (context_receipt bundle)))

-- `persist_context_bundle`
unfoldable pub persist_context_bundle : TaskRecord → ContextBundle → Exec (Unit {0})
unfolding record_context_event
persist_context_bundle task bundle = do
  now ← utc_now
  modify
      (update_task task.task_id (λ t. record t { context_bundle = some bundle; updated_at = now }))
  commit
  record_context_event task.task_id task.trace_id bundle

module _ (lib : Library) (settings : Settings) where
  unfoldable pub build_context_bundle : Text → List ContextSourceInput → Exec ContextBundle
  build_context_bundle request sources = do
    engine ← lift (
        new_engine settings.context_max_sources settings.context_max_tokens
          settings.context_max_source_tokens)
    now ← utc_now
    lift (build lib engine request sources now)

  unfoldable pub accept_task : TaskCreate → Exec TaskRecord
  unfolding build_context_bundle new_job insert_task record_context_event record_job_queued
  accept_task payload = do
    bundle ← build_context_bundle payload.request payload.context_sources
    task_id ← uuid4
    trace_id ← uuid4
    job ← new_job task_id JobKind.execute_task none
    created_at ← utc_now
    updated_at ← utc_now
    let task : TaskRecord =
        record (new_task task_id trace_id payload.request created_at updated_at) {
          context_bundle = some bundle;
        }
    insert_task task job
    record_event task_id trace_id "TASK_CREATED" "api" (obj end)
    record_context_event task_id trace_id bundle
    record_job_queued task job
    pure task
