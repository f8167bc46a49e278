-- ===== src/PullRequest/Service.antt =====
-- app/services/pull_request_reviews.py: `accept_pull_request_review` and `run_pull_request_review`.
use steh_v1_0_0_rc.Base.{
  ℕ, String, Option, none, some, [], ◌∷◌, concat, first_chars, text_of, decimal, Result, Error,
  error_name, ◌>>=◌ as then_result, ok, map,
}
use steh_v1_0_0_rc.Json.{Json, num, str, instant, obj, end, field}
use steh_v1_0_0_rc.Models.Task.{TaskStatus, AgentResult}
use steh_v1_0_0_rc.Models.Context.{Text, ContextKind, ContextSourceInput, ContextBundle}
use steh_v1_0_0_rc.Models.PullRequest.{
  FetchedGitHubPullRequest, GitHubPullRequestSnapshot, PullRequestFinding,
  PullRequestReviewArtifact,
}
use steh_v1_0_0_rc.Settings.{Settings}
use steh_v1_0_0_rc.External.{Library}
use steh_v1_0_0_rc.Context.Sanitize.{codes}
use steh_v1_0_0_rc.Db.{
  TaskRecord, JobKind, Exec, ◌>>=◌, ◌>>◌, pure, lift, raise, catch, modify, gets, commit, rollback,
  utc_now, uuid4, find_task, update_task,
}
use steh_v1_0_0_rc.Db.Insert.{new_task, insert_task}
use steh_v1_0_0_rc.Audit.{record_event, execute}
use steh_v1_0_0_rc.Jobs.{new_job, record_job_queued}
use steh_v1_0_0_rc.Tasks.Accept.{build_context_bundle, record_context_event}
use steh_v1_0_0_rc.Tasks.Run.{or_value_error}
use steh_v1_0_0_rc.PullRequest.Review.{run}
use steh_v1_0_0_rc.PullRequest.Sanitize.{
  CanonicalContent, sanitize_github_pull_request, github_pull_request_receipt,
}
use steh_v1_0_0_rc.PullRequest.Payloads.{dump_receipt, request_text, reviewed_payload}

-- What pydantic and the JSON library make of the values: `content` and `snapshot` are the texts of
-- `json.dumps` and of `model_dump_json`, the others `model_dump` and `model_validate`.
pub record Codec : Type 0 where
  pub content : CanonicalContent → Text
  pub snapshot : GitHubPullRequestSnapshot → Text
  pub dump_review : PullRequestReviewArtifact → Json
  pub dump_finding : PullRequestFinding → Json
  pub validate_review : Json → Result PullRequestReviewArtifact

-- `_fail_task`
unfoldable pub fail_task : TaskRecord → Error → Exec (Unit {0})
unfolding record_event error_name
fail_task task error = do
  rollback
  now ← utc_now
  modify (update_task task.task_id (λ t. record t { status = TaskStatus.failed; updated_at = now }))
  commit
  record_event task.task_id task.trace_id "TASK_FAILED" "pull_request_review"
      (obj (field "error_type" (str (error_name error)) end))
  raise error

-- `_run_openai` on its arguments, where the settings choose that mode
abbrev pub proposal :
    Option (GitHubPullRequestSnapshot → ContextBundle → Result PullRequestReviewArtifact)
    → GitHubPullRequestSnapshot
    → ContextBundle
    → Option (Result PullRequestReviewArtifact)
proposal none pr context = none
proposal (some model) pr context = some (model pr context)

module _ (lib : Library) (codec : Codec) (settings : Settings) where
  -- `_context_source`
  unfoldable pub context_source : GitHubPullRequestSnapshot → ContextSourceInput
  context_source pr =
      let repository_id = first_chars 16 (lib.sha256 (lib.casefold (codes pr.repository))) in
      record {
        source_id =
            concat "github/pulls/" (concat repository_id (concat "/" (decimal pr.pull_number)));
        kind = ContextKind.repository;
        version = pr.head_sha;
        content = codec.snapshot pr;
        priority = 100;
        metadata =
            ("repository", pr.repository)
            ∷ ("pull_number", decimal pr.pull_number)
            ∷ ("base_ref", text_of pr.base_ref)
            ∷ ("head_ref", text_of pr.head_ref)
            ∷ [];
      }

  -- `accept_pull_request_review`; `fetched` is what `reader.fetch` returns or raises.
  unfoldable pub accept_pull_request_review : Result FetchedGitHubPullRequest → Exec TaskRecord
  unfolding request_text dump_receipt new_job insert_task record_job_queued record_event
  accept_pull_request_review fetched = do
    pull_request ← lift fetched
    snapshot ← lift (
        sanitize_github_pull_request lib codec.content pull_request
          settings.github_pr_max_patch_chars)
    task_id ← uuid4
    trace_id ← uuid4
    job ← new_job task_id JobKind.review_pull_request none
    created_at ← utc_now
    updated_at ← utc_now
    let task : TaskRecord =
        record (new_task task_id trace_id (request_text snapshot) created_at updated_at) {
          source_pull_request = some snapshot;
        }
    insert_task task job
    record_event task_id trace_id "TASK_CREATED" "github_pull_request_api"
        (obj (field "source" (str "github_pull_request") end))
    record_event task_id trace_id "GITHUB_PULL_REQUEST_INGESTED" "github_pull_request_client"
        (dump_receipt (github_pull_request_receipt snapshot))
    record_job_queued task job
    pure task

  module _
      (model : Option
        (GitHubPullRequestSnapshot → ContextBundle → Result PullRequestReviewArtifact))
      (prompt_receipt : String → Result (Option Json)) where
    -- `PullRequestReviewAgent.run`, with the dump of its review, at the instant `now`
    unfoldable pub agent_run : GitHubPullRequestSnapshot → ContextBundle → ℕ → Result AgentResult
    agent_run pr context now =
        then_result (run lib (proposal model pr context) pr context) (λ review. ok (record {
          agent = "pull_request_review_agent";
          status = "SUCCESS";
          result = codec.dump_review review;
          findings = map codec.dump_finding review.findings;
          evidence =
              obj (
                field "type" (str "github_pull_request_review") (
                  field "timestamp" (instant now) (
                    field "repository" (str pr.repository) (
                      field "pull_number" (num pr.pull_number) (
                        field "source_content_sha256" (str pr.content_sha256)
                          (field "context_bundle_sha256" (str context.bundle_sha256) end))))))
              ∷ [];
          confidence = elim model [ none ↦ 74 | some f ↦ 86 ];
        }))

    -- what the `try` writes once the agent has returned
    unfoldable pub store_review : TaskRecord → PullRequestReviewArtifact → Exec (Unit {0})
    unfolding record_event reviewed_payload
    store_review task review = do
      now ← utc_now
      modify (
          update_task task.task_id (λ t. record t {
            pull_request_review = some review;
            status = TaskStatus.completed;
            updated_at = now;
          }))
      commit
      record_event task.task_id task.trace_id "GITHUB_PULL_REQUEST_REVIEWED"
          "pull_request_review_agent" (reviewed_payload review)
      record_event task.task_id task.trace_id "TASK_COMPLETED" "pull_request_review"
          (obj (field "status" (str "COMPLETED") end))

    -- the body of the `try`
    unfoldable pub review_task : TaskRecord → GitHubPullRequestSnapshot → Exec (Unit {0})
    unfolding build_context_bundle record_context_event agent_run store_review
    review_task task pr = do
      context ← build_context_bundle lib settings task.request (context_source pr ∷ [])
      modify (update_task task.task_id (λ t. record t { context_bundle = some context }))
      commit
      record_context_event task.task_id task.trace_id context
      now ← utc_now
      result ←
          execute
            (record {
              task_id = task.task_id;
              trace_id = task.trace_id;
              prompt_receipt = prompt_receipt;
            })
            "pull_request_review_agent" (agent_run pr context now)
      review ← lift (codec.validate_review result.result)
      store_review task review

    -- `run_pull_request_review`
    unfoldable pub run_pull_request_review : ℕ → Exec (Unit {0})
    unfolding review_task fail_task
    run_pull_request_review task_id = do
      found ← gets (find_task task_id)
      task ← or_value_error found
      pr ← or_value_error task.source_pull_request
      now ← utc_now
      modify (
          update_task task_id
            (λ t. record t { status = TaskStatus.analyzing_pull_request; updated_at = now }))
      commit
      catch (review_task task pr) (fail_task task)
