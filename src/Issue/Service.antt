-- ===== src/Issue/Service.antt =====
-- app/services/github_issues.py: `accept_github_issue` and `run_github_issue_analysis`.
use steh_v1_0_0_rc.Base.{
  ℕ, String, ◌&&◌, Option, none, some, List, [], ◌∷◌, ltb, is_some, if◌then◌else◌, concat,
  first_chars, decimal, Result, Error, error_name, ◌>>=◌ as then_result, ok,
}
use steh_v1_0_0_rc.Json.{Json, num, str, instant, obj, end, field}
use steh_v1_0_0_rc.Models.Task.{TaskStatus, AgentResult}
use steh_v1_0_0_rc.Models.Context.{Text, ContextKind, ContextSourceInput}
use steh_v1_0_0_rc.Models.Issue.{
  IssueState, FetchedGitHubIssue, GitHubIssueSnapshot, IssueAnalysisArtifact,
}
use steh_v1_0_0_rc.Settings.{Settings}
use steh_v1_0_0_rc.External.{Library}
use steh_v1_0_0_rc.Context.Sanitize.{codes}
use steh_v1_0_0_rc.Db.{
  TaskRecord, JobKind, Exec, ◌>>=◌, ◌>>◌, pure, lift, raise, catch, modify, gets, commit, rollback,
  utc_now, uuid4, find_task, update_task,
}
use steh_v1_0_0_rc.Db.Insert.{new_task, insert_task}
use steh_v1_0_0_rc.Audit.{record_event, execute}
use steh_v1_0_0_rc.Jobs.{new_job, record_job_queued}
use steh_v1_0_0_rc.Tasks.Accept.{build_context_bundle, persist_context_bundle}
use steh_v1_0_0_rc.Tasks.Invoke.{Graph}
use steh_v1_0_0_rc.Tasks.Records.{Ids}
use steh_v1_0_0_rc.Tasks.Run.{or_value_error, run_task_workflow}
use steh_v1_0_0_rc.Issue.Sanitize.{CanonicalIssue, sanitize_github_issue, github_issue_receipt}
use steh_v1_0_0_rc.Issue.Analysis.{analyse}
use steh_v1_0_0_rc.Issue.Payloads.{dump_receipt, analysed_payload, task_request}

-- the dict that `_context_sources` dumps
pub record IssueContext : Type 0 where
  pub title : Text
  pub body : Text
  pub state : IssueState
  pub labels : List Text
  pub author : Text

-- What pydantic and the standard library make of the values: the texts of `json.dumps` for the two
-- dicts, of `isoformat` and of `model_dump_json`, and `model_dump` and `model_validate`.
pub record Codec : Type 0 where
  pub content : CanonicalIssue → Text
  pub context : IssueContext → Text
  pub isoformat : ℕ → String
  pub analysis : IssueAnalysisArtifact → Text
  pub dump_analysis : IssueAnalysisArtifact → Json
  pub validate_analysis : Json → Result IssueAnalysisArtifact

-- `_fail_task`
unfoldable pub fail_task : TaskRecord → Error → Exec (Unit {0})
unfolding record_event error_name
fail_task task error = do
  rollback
  modify (update_task task.task_id (λ t. record t { status = TaskStatus.failed }))
  commit
  record_event task.task_id task.trace_id "TASK_FAILED" "github_issue_analysis"
      (obj (field "error_type" (str (error_name error)) end))
  raise error

module _ (lib : Library) (codec : Codec) (settings : Settings) where
  -- `_context_sources`
  unfoldable pub context_sources :
      GitHubIssueSnapshot → IssueAnalysisArtifact → List ContextSourceInput
  context_sources issue analysis =
      let repository_id = first_chars 16 (lib.sha256 (lib.casefold (codes issue.repository))) in
      let source_prefix =
        concat "github/issues/" (concat repository_id (concat "/" (decimal issue.issue_number))) in
      (record {
        source_id = source_prefix;
        kind = ContextKind.requirements;
        version = codec.isoformat issue.updated_at;
        content = codec.context (record {
          title = issue.title;
          body = issue.body;
          state = issue.state;
          labels = issue.labels;
          author = issue.author;
        });
        priority = 100;
        metadata =
            ("repository", issue.repository) ∷ ("issue_number", decimal issue.issue_number) ∷ [];
      })
      ∷ (record {
        source_id = concat source_prefix "/analysis";
        kind = ContextKind.requirements;
        version = analysis.schema_version;
        content = codec.analysis analysis;
        priority = 90;
        metadata = ("agent", "github_issue_analysis_agent") ∷ [];
      })
      ∷ []

  -- `accept_github_issue`; `fetched` is what `reader.fetch` returns or raises.
  unfoldable pub accept_github_issue : Result FetchedGitHubIssue → Exec TaskRecord
  unfolding dump_receipt new_job insert_task record_job_queued record_event
  accept_github_issue fetched = do
    issue ← lift fetched
    snapshot ←
        lift (sanitize_github_issue lib codec.content issue settings.github_issue_max_body_chars)
    task_id ← uuid4
    trace_id ← uuid4
    job ← new_job task_id JobKind.analyze_github_issue none
    created_at ← utc_now
    updated_at ← utc_now
    let task : TaskRecord =
        record (new_task task_id trace_id snapshot.title created_at updated_at) {
          source_issue = some snapshot;
        }
    insert_task task job
    record_event task_id trace_id "TASK_CREATED" "github_issue_api"
        (obj (field "source" (str "github_issue") end))
    record_event task_id trace_id "GITHUB_ISSUE_INGESTED" "github_issue_client"
        (dump_receipt (github_issue_receipt snapshot))
    record_job_queued task job
    pure task

  module _ (model : Option (GitHubIssueSnapshot → Result IssueAnalysisArtifact))
      (prompt_receipt : String → Result (Option Json)) (ids : Ids) (graph : Graph) where
    -- `GitHubIssueAnalysisAgent.run`, at the instant `now`
    unfoldable pub agent_run : GitHubIssueSnapshot → ℕ → Result AgentResult
    agent_run issue now = then_result (analyse lib model issue) (λ analysis. ok (record {
      agent = "github_issue_analysis_agent";
      status = "SUCCESS";
      result = codec.dump_analysis analysis;
      findings = [];
      evidence =
          obj (
            field "type" (str "github_issue_analysis") (
              field "timestamp" (instant now) (
                field "repository" (str issue.repository) (
                  field "issue_number" (num issue.issue_number)
                    (field "source_content_sha256" (str issue.content_sha256) end)))))
          ∷ [];
      confidence = elim model [ none ↦ 72 | some f ↦ 88 ];
    }))

    -- the body of the `try`
    unfoldable pub analyse_task : TaskRecord → GitHubIssueSnapshot → ℕ → Exec (Unit {0})
    unfolding agent_run analysed_payload
    analyse_task task issue attempt = do
      now ← utc_now
      result ←
          execute
            (record {
              task_id = task.task_id;
              trace_id = task.trace_id;
              prompt_receipt = prompt_receipt;
            })
            "github_issue_analysis_agent" (agent_run issue now)
      analysis ← lift (codec.validate_analysis result.result)
      modify (
          update_task task.task_id
            (λ t. record t { issue_analysis = some analysis; request = task_request analysis }))
      commit
      record_event task.task_id task.trace_id "GITHUB_ISSUE_ANALYZED" "github_issue_analysis_agent"
          (analysed_payload analysis)
      bundle ←
          build_context_bundle lib settings (task_request analysis) (context_sources issue analysis)
      persist_context_bundle task bundle
      run_task_workflow ids graph task.task_id attempt

    -- What follows the guard: the analysis, under the handler.
    unfoldable pub start_analysis : TaskRecord → GitHubIssueSnapshot → ℕ → Exec (Unit {0})
    unfolding analyse_task fail_task
    start_analysis task issue attempt = do
      now ← utc_now
      modify (
          update_task task.task_id
            (λ t. record t { status = TaskStatus.analyzing_issue; updated_at = now }))
      commit
      catch (analyse_task task issue attempt) (fail_task task)

    -- `run_github_issue_analysis`
    unfoldable pub run_github_issue_analysis : ℕ → ℕ → Exec (Unit {0})
    unfolding start_analysis
    run_github_issue_analysis task_id attempt = do
      found ← gets (find_task task_id)
      task ← or_value_error found
      issue ← or_value_error task.source_issue
      if ltb 1 attempt && is_some task.issue_analysis && is_some task.context_bundle
          then run_task_workflow ids graph task_id attempt
          else start_analysis task issue attempt
