-- ===== src/Audit/Proofs.antt =====
-- app/orchestration/lifecycle.py: the lifecycle around an agent, what it passes on and what it records.
use steh_v1_0_0_rc.Base.{
  ℕ, suc, String, ◌≡◌, refl, sym, true, false, Option, none, some, is_some, List, [], ◌∷◌, ◌++◌, ok,
  err, Error, Result, arith, nat_eq, All,
}
use mathlib.Core.Path.{subst}
use steh_v1_0_0_rc.Json.{Json}
use steh_v1_0_0_rc.Models.Task.{AgentResult}
use steh_v1_0_0_rc.Db.{AgentRunRecord, RunStatus, Session, update_where}
use steh_v1_0_0_rc.Audit.{
  AgentLifecycle, record_event, start_agent_run, complete_agent_run, fail_agent_run, supervise,
  record_failure, execute, with_receipt,
}

-- The agent's outcome, or what reading its prompt raised once the agent has returned.
abbrev pub expected : AgentLifecycle → String → Result AgentResult → Result AgentResult
expected lifecycle agent_name (err e) = err e
expected lifecycle agent_name (ok result) = elim (lifecycle.prompt_receipt agent_name) [
  | err e ↦ err e
  | ok receipt ↦ ok result
]

-- With a lifecycle an agent returns what it returns alone, and raises what it raises alone, unless the
-- receipt of its prompt cannot be read: then that exception is raised.
pub execute-expected :
    (lifecycle : AgentLifecycle) (agent_name : String) (fn : Result AgentResult) (s : Session)
    → (execute lifecycle agent_name fn s).0 ≡ expected lifecycle agent_name fn
unfolding execute start_agent_run supervise record_failure complete_agent_run fail_agent_run
    record_event
execute-expected lifecycle agent_name fn s = ground arith

-- No agent run of the list has the id.
abbrev pub Unused : ℕ → List AgentRunRecord → Type 0
Unused id = All (λ r. nat_eq r.run_id id ≡ false)

-- How the record of a run stands, given what the lifecycle returned or raised.
abbrev pub Closed : AgentLifecycle → Result AgentResult → AgentRunRecord → Type 0
Closed lifecycle (err e) run = (run.status ≡ RunStatus.failed) × (run.result ≡ none)
Closed lifecycle (ok result) run =
    (run.status ≡ RunStatus.succeeded)
    × (run.result ≡ some result.result)
    × (run.findings ≡ result.findings)
    × (run.confidence ≡ result.confidence)
    × ((receipt : Option Json) × (lifecycle.prompt_receipt run.agent_name ≡ ok receipt)
        × (run.evidence ≡ with_receipt result.evidence receipt))

-- The session `t` has the agent runs of `s` and one more, which is closed according to the outcome.
pub record Recorded (lifecycle : AgentLifecycle) (agent_name : String) (s : Session)
    (outcome : Result AgentResult) (t : Session) : Type 0 where
  pub run : AgentRunRecord
  pub pending : t.pending.agent_runs ≡ s.pending.agent_runs ++ run ∷ []
  pub committed : t.committed.agent_runs ≡ s.pending.agent_runs ++ run ∷ []
  pub id : run.run_id ≡ s.fresh
  pub task : run.task_id ≡ lifecycle.task_id
  pub trace : run.trace_id ≡ lifecycle.trace_id
  pub name : run.agent_name ≡ agent_name
  pub completed : is_some run.completed_at ≡ true
  pub closed : Closed lifecycle outcome run

-- An update by an id that only the last run has changes that run alone.
update_last :
    (id : ℕ) (f : AgentRunRecord → AgentRunRecord) (run : AgentRunRecord) (rs : List AgentRunRecord)
    → run.run_id ≡ id
    → Unused id rs
    → update_where (λ r. nat_eq r.run_id id) f (rs ++ run ∷ []) ≡ rs ++ f run ∷ []
update_last id f run [] e h = ground arith
update_last id f run (r ∷ rs) e h = rw h.0 (λ i. r ∷ update_last id f run rs e h.1 i)

-- What a run that was just started comes to: it is closed as failed by the handler, or as succeeded.
module _ (lifecycle : AgentLifecycle) (agent_name : String) (s : Session)
    (h : Unused s.fresh s.pending.agent_runs) where
  abbrev started : AgentRunRecord
  started = record {
    run_id = s.fresh;
    task_id = lifecycle.task_id;
    trace_id = lifecycle.trace_id;
    agent_name = agent_name;
    status = RunStatus.started;
    result = none;
    findings = [];
    evidence = [];
    confidence = 0;
    started_at = s.clock s.readings;
    completed_at = none;
  }

  abbrev as_failed : AgentRunRecord → AgentRunRecord
  as_failed r = record r {
    status = RunStatus.failed;
    completed_at = some (s.clock (suc (suc s.readings)));
  }

  abbrev as_succeeded : AgentResult → Option Json → AgentRunRecord → AgentRunRecord
  as_succeeded result receipt r = record r {
    status = RunStatus.succeeded;
    result = some result.result;
    findings = result.findings;
    evidence = with_receipt result.evidence receipt;
    confidence = result.confidence;
    completed_at = some (s.clock (suc (suc s.readings)));
  }

  raised-Recorded :
      (e : Error)
      → Recorded lifecycle agent_name s (err e) (execute lifecycle agent_name (err e) s).1
  unfolding execute start_agent_run supervise record_failure fail_agent_run record_event
  raised-Recorded e =
      let c = update_last s.fresh as_failed started s.pending.agent_runs refl h in
      record {
        run = as_failed started;
        pending = c;
        committed = c;
        id = refl;
        task = refl;
        trace = refl;
        name = refl;
        completed = refl;
        closed = (refl, refl);
      }

  returned-Recorded :
      (result : AgentResult) (receipt : Result (Option Json))
      → lifecycle.prompt_receipt agent_name ≡ receipt
      → Recorded lifecycle agent_name s
          (execute lifecycle agent_name (ok result) s).0
          (execute lifecycle agent_name (ok result) s).1
  unfolding execute start_agent_run supervise record_failure complete_agent_run fail_agent_run
      record_event
  returned-Recorded result (err e) q =
      let c = update_last s.fresh as_failed started s.pending.agent_runs refl h in
      rw q (record {
        run = as_failed started;
        pending = c;
        committed = c;
        id = refl;
        task = refl;
        trace = refl;
        name = refl;
        completed = refl;
        closed = (refl, refl);
      })
  returned-Recorded result (ok receipt) q =
      let c =
        update_last s.fresh (as_succeeded result receipt) started s.pending.agent_runs refl h in
      rw q (record {
        run = as_succeeded result receipt started;
        pending = c;
        committed = c;
        id = refl;
        task = refl;
        trace = refl;
        name = refl;
        completed = refl;
        closed = (refl, refl, refl, refl, (receipt, q, refl));
      })

-- If no agent run has the id that the new one is given, then running an agent under the lifecycle adds
-- one run to the pending and the committed tables and leaves the others as they are. The new run is for
-- the lifecycle's task and the agent, is completed, and is SUCCEEDED with the agent's result, findings
-- and confidence and its evidence with the prompt's receipt if the lifecycle returns, and FAILED without
-- a result if it raises.
pub execute-Recorded :
    (lifecycle : AgentLifecycle) (agent_name : String) (fn : Result AgentResult) (s : Session)
    → Unused s.fresh s.pending.agent_runs
    → Recorded lifecycle agent_name s
        (execute lifecycle agent_name fn s).0
        (execute lifecycle agent_name fn s).1
execute-Recorded lifecycle agent_name (err e) s h =
    subst (λ r. Recorded lifecycle agent_name s r (execute lifecycle agent_name (err e) s).1)
      (sym (execute-expected lifecycle agent_name (err e) s))
      (raised-Recorded lifecycle agent_name s h e)
execute-Recorded lifecycle agent_name (ok result) s h =
    returned-Recorded lifecycle agent_name s h result (lifecycle.prompt_receipt agent_name) refl
