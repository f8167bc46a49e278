-- ===== src/Api/Routes.antt =====
-- app/api/routes/tasks.py: the routes that accept a task, that show one, and that take a human's
-- decision. A reader of GitHub is given by what it returns or raises for the reference of the payload.
use steh_v1_0_0_rc.Base.{
  ℕ, Bool, true, false, ◌||◌, Option, none, some, if◌then◌else◌, ◌==◌, Result, ok, err, Error,
  value_error, json_decode_error, human_review_conflict, error_name,
}
use steh_v1_0_0_rc.Models.Review.{HumanReviewDecision}
use steh_v1_0_0_rc.Models.Issue.{FetchedGitHubIssue}
use steh_v1_0_0_rc.Models.PullRequest.{FetchedGitHubPullRequest}
use steh_v1_0_0_rc.Settings.{Settings}
use steh_v1_0_0_rc.External.{Library}
use steh_v1_0_0_rc.Db.{TaskRecord, Exec, ◌>>=◌, pure, lift, raise, catch, attempt, gets, find_task}
use steh_v1_0_0_rc.Auth.Principal.{Access, Principal, http_exception, raised, granted}
use steh_v1_0_0_rc.Tasks.Accept.{TaskCreate, accept_task}
use steh_v1_0_0_rc.Tasks.Review.{claim_human_review}
use steh_v1_0_0_rc.Issue.Service as Issues
use steh_v1_0_0_rc.PullRequest.Service as Reviews
use steh_v1_0_0_rc.Api.Responses.{
  Answer, refused, answered, TaskResponse, Rendering, response_of, Accepted, accepted,
}

-- `except ValueError`: an error of the JSON decoder is one.
abbrev pub is_value_error : Error → Bool
is_value_error value_error = true
is_value_error json_decode_error = true
is_value_error _ = false

abbrev pub is_conflict : Error → Bool
is_conflict human_review_conflict = true
is_conflict _ = false

-- `return _accepted(record, response)`
abbrev pub answer : Rendering → TaskRecord → Exec (Answer Accepted)
answer rendering task = do response ← lift (accepted rendering task); pure (answered response)

module _ (lib : Library) (settings : Settings) (rendering : Rendering) where
  abbrev pub created : Result TaskRecord → Exec (Answer Accepted)
  created (ok task) = answer rendering task
  created (err e) = if is_value_error e then pure (refused 422) else raise e

  -- `create_task`
  unfoldable pub create_task : TaskCreate → Exec (Answer Accepted)
  create_task payload = do result ← attempt (accept_task lib settings payload); created result

  -- the `except` clauses of `create_task_from_issue`
  abbrev pub issue_refusal : Error → ℕ
  issue_refusal e =
      if error_name e == "GitHubRepositoryNotAllowedError"
      then 403
      else if error_name e == "GitHubIssueNotFoundError"
      then 404
      else if error_name e == "GitHubPullRequestUnsupportedError"
      then 422
      else if error_name e == "GitHubUpstreamError" || is_value_error e
      then 502
      else 500

  -- `create_task_from_issue`
  unfoldable pub create_task_from_issue :
      Issues.Codec → Result FetchedGitHubIssue → Exec (Answer Accepted)
  unfolding accepted error_name
  create_task_from_issue codec fetched =
      catch (do task ← Issues.accept_github_issue lib codec settings fetched; answer rendering task)
        (λ e. pure (refused (issue_refusal e)))

  -- the `except` clauses of `review_github_pull_request`
  abbrev pub review_refusal : Error → ℕ
  review_refusal e =
      if error_name e == "GitHubPullRequestRepositoryNotAllowedError"
      then 403
      else if error_name e == "GitHubPullRequestNotFoundError"
      then 404
      else if error_name e == "GitHubPullRequestUpstreamError" || is_value_error e
      then 502
      else 500

  -- `review_github_pull_request`
  unfoldable pub review_github_pull_request :
      Reviews.Codec → Result FetchedGitHubPullRequest → Exec (Answer Accepted)
  unfolding accepted error_name
  review_github_pull_request codec fetched =
      catch
        (do
          task ← Reviews.accept_pull_request_review lib codec settings fetched
          answer rendering task)
        (λ e. pure (refused (review_refusal e)))

module _ (rendering : Rendering) where
  abbrev pub shown : Option TaskRecord → Exec (Answer TaskResponse)
  shown none = pure (refused 404)
  shown (some task) = do response ← lift (response_of rendering task); pure (answered response)

  -- `get_task`
  unfoldable pub get_task : ℕ → Exec (Answer TaskResponse)
  get_task task_id = do task ← gets (find_task task_id); shown task

  abbrev pub decided : Result TaskRecord → Exec (Answer Accepted)
  decided (ok task) = answer rendering task
  decided (err e) = if is_conflict e then pure (refused 409) else raise e

  -- `decide_human_review`, with what `require_reviewer` makes of the caller
  unfoldable pub decide_human_review :
      Access Principal → ℕ → HumanReviewDecision → Exec (Answer Accepted)
  decide_human_review (http_exception code) task_id payload = pure (refused code)
  decide_human_review (raised e) task_id payload = raise e
  decide_human_review (granted principal) task_id payload = do
    result ← attempt (claim_human_review task_id principal.subject payload)
    decided result
