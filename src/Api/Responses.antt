-- ===== src/Api/Responses.antt =====
-- app/api/routes/tasks.py: how a route answers, and `_response` with the `TaskResponse` of
-- app/models/contracts.py. What pydantic makes of a stored value is a parameter, and so is the text of
-- an id.
use steh_v1_0_0_rc.Base.{
  ℕ, String, Option, none, some, concat, Result, ok, or_raise, value_error, ◌>>=◌,
}
use steh_v1_0_0_rc.Json.{Json}
use steh_v1_0_0_rc.Models.Task.{TaskStatus, ReworkDecision}
use steh_v1_0_0_rc.Models.Review.{HumanReviewArtifact}
use steh_v1_0_0_rc.Models.Context.{ContextReceipt}
use steh_v1_0_0_rc.Models.Issue.{GitHubIssueReceipt, IssueAnalysisArtifact}
use steh_v1_0_0_rc.Models.PullRequest.{GitHubPullRequestReceipt, PullRequestReviewArtifact}
use steh_v1_0_0_rc.Models.Judge.{JudgeEvaluationArtifact}
use steh_v1_0_0_rc.Context.Build.{context_receipt}
use steh_v1_0_0_rc.Issue.Sanitize.{github_issue_receipt}
use steh_v1_0_0_rc.PullRequest.Sanitize.{github_pull_request_receipt}
use steh_v1_0_0_rc.Db.{TaskRecord}

-- A route answers with a value, or refuses with the status code of an `HTTPException`.
pub data Answer (A : Type 0) : Type 0 where
  refused : ℕ → Answer A
  answered : A → Answer A

pub record TaskResponse : Type 0 where
  pub task_id : ℕ
  pub trace_id : ℕ
  pub status : TaskStatus
  pub requirements : Option Json
  pub specification : Option Json
  pub architecture : Option Json
  pub security_review : Option Json
  pub risk_level : Option Json
  pub implementation : Option Json
  pub test_plan : Option Json
  pub validation : Option Json
  pub rework_count : ℕ
  pub external_scan : Option Json
  pub rework_decision : Option ReworkDecision
  pub human_review : Option HumanReviewArtifact
  pub context : Option ContextReceipt
  pub source_issue : Option GitHubIssueReceipt
  pub issue_analysis : Option IssueAnalysisArtifact
  pub source_pull_request : Option GitHubPullRequestReceipt
  pub pull_request_review : Option PullRequestReviewArtifact
  pub judge_evaluation : Option JudgeEvaluationArtifact
  pub created_at : ℕ

-- What pydantic is given: its values of a field by name, none for a `ValidationError`; and `str` of an
-- id.
pub record Rendering : Type 0 where
  pub validate : String → Json → Option Json
  pub show_id : ℕ → String

-- `f(value) if value is not None else None`
abbrev pub each {ℓ} : {A B : Type ℓ} → (A → B) → Option A → Option B
each f none = none
each f (some a) = some (f a)

abbrev pub validated : Rendering → String → Option Json → Result (Option Json)
validated rendering name none = ok none
validated rendering name (some value) = do
  v ← or_raise (rendering.validate name value) value_error
  ok (some v)

-- `_response`
unfoldable pub response_of : Rendering → TaskRecord → Result TaskResponse
response_of rendering task = do
  requirements ← validated rendering "requirements" task.requirements
  specification ← validated rendering "specification" task.specification
  architecture ← validated rendering "architecture" task.architecture
  test_plan ← validated rendering "test_plan" task.test_plan
  security_review ← validated rendering "security_review" task.security_review
  risk_level ← validated rendering "risk_level" task.risk_level
  implementation ← validated rendering "implementation" task.implementation
  validation ← validated rendering "validation" task.validation
  external_scan ← validated rendering "external_scan" task.external_scan
  ok (record {
    task_id = task.task_id;
    trace_id = task.trace_id;
    status = task.status;
    requirements = requirements;
    specification = specification;
    architecture = architecture;
    security_review = security_review;
    risk_level = risk_level;
    implementation = implementation;
    test_plan = test_plan;
    validation = validation;
    rework_count = task.rework_count;
    external_scan = external_scan;
    rework_decision = task.rework_decision;
    human_review = task.human_review;
    context = each context_receipt task.context_bundle;
    source_issue = each github_issue_receipt task.source_issue;
    issue_analysis = task.issue_analysis;
    source_pull_request = each github_pull_request_receipt task.source_pull_request;
    pull_request_review = task.pull_request_review;
    judge_evaluation = task.judge_evaluation;
    created_at = task.created_at;
  })

-- A response with the headers that tell where, and after how many seconds, to ask for the task again.
pub record Accepted : Type 0 where
  pub location : String
  pub retry_after : ℕ
  pub body : TaskResponse

abbrev pub poll_after_seconds : ℕ
poll_after_seconds = 2

-- `_accepted`
unfoldable pub accepted : Rendering → TaskRecord → Result Accepted
unfolding response_of
accepted rendering task = do
  body ← response_of rendering task
  ok (record {
    location = concat "/api/v1/tasks/" (rendering.show_id task.task_id);
    retry_after = poll_after_seconds;
    body = body;
  })
