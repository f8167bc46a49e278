-- ===== src/Db/Insert.antt =====
-- New rows of a task and of its job, with the defaults of app/db/models.py.
use steh_v1_0_0_rc.Base.{ℕ, none, [], ◌∷◌, ◌++◌}
use steh_v1_0_0_rc.Models.Task.{TaskStatus}
use steh_v1_0_0_rc.Models.Context.{Text}
use steh_v1_0_0_rc.Db.{TaskRecord, TaskJobRecord, Tables, Exec, ◌>>◌, modify, commit}

-- `TaskRecord(task_id=..., trace_id=..., request=..., status=TaskStatus.QUEUED)`, as it is inserted
abbrev pub new_task : ℕ → ℕ → Text → ℕ → ℕ → TaskRecord
new_task task_id trace_id request created_at updated_at = record {
  task_id = task_id;
  trace_id = trace_id;
  request = request;
  status = TaskStatus.queued;
  context_bundle = none;
  source_issue = none;
  issue_analysis = none;
  source_pull_request = none;
  pull_request_review = none;
  requirements = none;
  specification = none;
  architecture = none;
  security_review = none;
  risk_level = none;
  implementation = none;
  test_plan = none;
  validation = none;
  rework_count = 0;
  external_scan = none;
  rework_decision = none;
  human_review = none;
  judge_evaluation = none;
  created_at = created_at;
  updated_at = updated_at;
}

abbrev pub add_task : TaskRecord → Tables → Tables
add_task task t = record t { tasks = t.tasks ++ (task ∷ []) }

-- `db.add(record); db.flush(); db.add(job); db.commit()`
unfoldable pub insert_task : TaskRecord → TaskJobRecord → Exec (Unit {0})
insert_task task job = do
  modify (add_task task)
  modify (λ t. record t { jobs = t.jobs ++ (job ∷ []) })
  commit
