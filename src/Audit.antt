-- ===== src/Audit.antt =====
-- app/services/audit.py and app/orchestration/lifecycle.py: audit events, the records of agent runs,
-- and the lifecycle that wraps each run.
pub mod Proofs
use steh_v1_0_0_rc.Base.{
  ℕ, String, Option, none, some, List, [], ◌∷◌, ◌++◌, nat_eq, if◌then◌else◌, Result, Error,
  error_name,
}
use steh_v1_0_0_rc.Json.{Json, null, num, str, uuid, obj, end, field}
use steh_v1_0_0_rc.Models.Task.{AgentResult}
use steh_v1_0_0_rc.Db.{
  AgentRunRecord, RunStatus, AuditEventRecord, Tables, Exec, ◌>>=◌, ◌>>◌, pure, lift, raise, catch,
  modify, commit, utc_now, uuid4, update_where,
}

abbrev pub add_event : AuditEventRecord → Tables → Tables
add_event e t = record t { audit_events = t.audit_events ++ (e ∷ []) }

unfoldable pub record_event : ℕ → ℕ → String → String → Json → Exec (Unit {0})
record_event task_id trace_id event_type actor payload = do
  event_id ← uuid4
  created_at ← utc_now
  modify (
      add_event (record {
        event_id = event_id;
        task_id = task_id;
        trace_id = trace_id;
        event_type = event_type;
        actor = actor;
        payload = payload;
        created_at = created_at;
      }))
  commit

abbrev pub add_run : AgentRunRecord → Tables → Tables
add_run r t = record t { agent_runs = t.agent_runs ++ (r ∷ []) }

abbrev pub update_run : ℕ → (AgentRunRecord → AgentRunRecord) → Tables → Tables
update_run id f t = record t { agent_runs = update_where (λ r. nat_eq r.run_id id) f t.agent_runs }

abbrev pub run_payload : AgentRunRecord → Json
run_payload run = obj (field "run_id" (uuid run.run_id) end)

unfoldable pub start_agent_run : ℕ → ℕ → String → Exec AgentRunRecord
unfolding record_event
start_agent_run task_id trace_id agent_name = do
  run_id ← uuid4
  started_at ← utc_now
  let run : AgentRunRecord = record {
    run_id = run_id;
    task_id = task_id;
    trace_id = trace_id;
    agent_name = agent_name;
    status = RunStatus.started;
    result = none;
    findings = [];
    evidence = [];
    confidence = 0;
    started_at = started_at;
    completed_at = none;
  }
  modify (add_run run)
  commit
  record_event task_id trace_id "AGENT_STARTED" agent_name (run_payload run)
  pure run

unfoldable pub complete_agent_run :
    AgentRunRecord → Json → List Json → List Json → ℕ → Exec (Unit {0})
unfolding record_event
complete_agent_run run result findings evidence confidence = do
  completed_at ← utc_now
  modify (
      update_run run.run_id (λ r. record r {
        status = RunStatus.succeeded;
        result = some result;
        findings = findings;
        evidence = evidence;
        confidence = confidence;
        completed_at = some completed_at;
      }))
  commit
  record_event run.task_id run.trace_id "AGENT_SUCCEEDED" run.agent_name (run_payload run)

unfoldable pub fail_agent_run : AgentRunRecord → String → Exec (Unit {0})
unfolding record_event
fail_agent_run run error_type = do
  completed_at ← utc_now
  modify (
      update_run run.run_id
        (λ r. record r { status = RunStatus.failed; completed_at = some completed_at }))
  commit
  record_event run.task_id run.trace_id "AGENT_FAILED" run.agent_name
      (obj (field "run_id" (uuid run.run_id) (field "error_type" (str error_type) end)))

-- `AgentLifecycle`; `prompt_receipt` is that of app/services/prompts.py, which reads a file.
pub record AgentLifecycle : Type 0 where
  pub task_id : ℕ
  pub trace_id : ℕ
  pub prompt_receipt : String → Result (Option Json)

-- `[*result.evidence, receipt] if receipt else result.evidence`
abbrev pub with_receipt : List Json → Option Json → List Json
with_receipt evidence none = evidence
with_receipt evidence (some receipt) = evidence ++ (receipt ∷ [])

-- The body of the `try`.
unfoldable pub supervise :
    AgentLifecycle → String → AgentRunRecord → Result AgentResult → Exec AgentResult
unfolding complete_agent_run
supervise lifecycle agent_name run fn = do
  result ← lift fn
  receipt ← lift (lifecycle.prompt_receipt agent_name)
  complete_agent_run run result.result result.findings (with_receipt result.evidence receipt)
      result.confidence
  pure result

unfoldable pub record_failure : AgentRunRecord → Error → Exec AgentResult
unfolding fail_agent_run error_name
record_failure run exc = do fail_agent_run run (error_name exc); raise exc

-- `AgentLifecycle.execute`; `fn` is what the agent returns or raises.
unfoldable pub execute : AgentLifecycle → String → Result AgentResult → Exec AgentResult
unfolding start_agent_run supervise record_failure
execute lifecycle agent_name fn = do
  run ← start_agent_run lifecycle.task_id lifecycle.trace_id agent_name
  catch (supervise lifecycle agent_name run fn) (record_failure run)
