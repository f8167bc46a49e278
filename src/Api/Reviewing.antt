-- ===== src/Api/Reviewing.antt =====
-- The route of app/api/routes/tasks.py that takes a pull request, with the client that reads it.
use steh_v1_0_0_rc.Base.{
  ℕ, List, ltb, length, ◌-◌, ◌||◌, ◌>>=◌, Bool, true, false, raise_if, ◌>>◌, ◌≡◌, refl, inl, inr,
  [], ◌∷◌, Result, ok, err, Error, value_error, error_name,
}
use steh_v1_0_0_rc.Models.PullRequest.{
  FetchedPullRequestFile, FetchedGitHubPullRequest, GitHubPullRequestSnapshot,
}
use steh_v1_0_0_rc.Models.Context.{Text}
use steh_v1_0_0_rc.Context.Sanitize.{sanitize_context_text}
use steh_v1_0_0_rc.Context.Build.{is_empty}
use steh_v1_0_0_rc.Settings.{Settings}
use steh_v1_0_0_rc.External.{Library}
use steh_v1_0_0_rc.Jobs.{record_job_queued}
use steh_v1_0_0_rc.Audit.{record_event}
use steh_v1_0_0_rc.Db.{JobKind, Session}
use steh_v1_0_0_rc.Db.Insert.{insert_task}
use steh_v1_0_0_rc.GitHub.Repositories.{Reference}
use steh_v1_0_0_rc.GitHub.PullRequests as Client
use steh_v1_0_0_rc.GitHub.Fetching.{fetch_raises_known}
use steh_v1_0_0_rc.PullRequest.Sanitize.{
  CanonicalContent, snapshot_file, scan_files, snapshot_of, sanitize_github_pull_request,
}
use steh_v1_0_0_rc.PullRequest.Service as Reviews
use steh_v1_0_0_rc.Api.Responses.{Rendering, response_of, accepted}
use steh_v1_0_0_rc.Api.Routes.{review_github_pull_request}
use steh_v1_0_0_rc.Api.Accepting.{Replies}

-- What raises is a `ValueError`.
record RaisesValueError {A : Type 0} (r : Result A) : Type 0 where
  only : (e : Error) → r ≡ err e → e ≡ value_error

checked-RaisesValueError :
    {A : Type 0} (test : Bool) (r : Result A)
    → RaisesValueError r
    → RaisesValueError (raise_if test value_error >> r)
checked-RaisesValueError true r only = record { only = λ e h. cc h }
checked-RaisesValueError false r only = only

bound-RaisesValueError :
    {A B : Type 0} (r : Result A) (f : A → B)
    → RaisesValueError r
    → RaisesValueError (r >>= λ a. ok (f a))
bound-RaisesValueError (err x) f raises = record { only = λ e h. raises.only e (cc h) }
bound-RaisesValueError (ok a) f raises = record { only = λ e h. absurd (cc h) }

module _ (lib : Library) (content : CanonicalContent → Text) where
  scan_files-RaisesValueError :
      (items : List FetchedPullRequestFile) (remaining : ℕ) (redacted suspicious truncated : Bool)
      → RaisesValueError (scan_files lib content items remaining redacted suspicious truncated)
  unfolding scan_files
  scan_files-RaisesValueError [] remaining redacted suspicious truncated = record {
    only = λ e h. absurd (cc h);
  }
  scan_files-RaisesValueError (item ∷ items) remaining redacted suspicious truncated =
      let file = snapshot_file lib content item remaining in
      checked-RaisesValueError (is_empty file.filename) _ (
        bound-RaisesValueError
          (scan_files lib content items (remaining - length file.patch) (redacted || file.redacted)
            (suspicious || file.suspicious_instruction) (truncated || file.truncated))
          (λ scan. record scan { files = file ∷ scan.files })
          (scan_files-RaisesValueError items (remaining - length file.patch)
            (redacted || file.redacted) (suspicious || file.suspicious_instruction)
            (truncated || file.truncated)))

  sanitize_raises :
      (pull_request : FetchedGitHubPullRequest) (limit : ℕ)
      → RaisesValueError (sanitize_github_pull_request lib content pull_request limit)
  unfolding sanitize_github_pull_request
  sanitize_raises pull_request limit =
      let title = sanitize_context_text lib pull_request.title in
      let body = sanitize_context_text lib pull_request.body in
      let author = sanitize_context_text lib pull_request.author in
      let base_ref = sanitize_context_text lib pull_request.base_ref in
      let head_ref = sanitize_context_text lib pull_request.head_ref in
      let redacted = title.redacted || body.redacted || author.redacted in
      let suspicious =
        title.suspicious_instruction || body.suspicious_instruction
        || author.suspicious_instruction in
      checked-RaisesValueError (ltb limit 1) _ (
        checked-RaisesValueError (is_empty title.content || is_empty author.content) _ (
          checked-RaisesValueError (is_empty base_ref.content || is_empty head_ref.content) _ (
            bound-RaisesValueError
              (scan_files lib content pull_request.files limit redacted suspicious
                pull_request.files_truncated)
              (λ scan. snapshot_of lib content pull_request scan)
              (scan_files-RaisesValueError pull_request.files limit redacted suspicious
                pull_request.files_truncated))))

module _ (lib : Library) (codec : Reviews.Codec) (settings : Settings) (rendering : Rendering)
    (s : Session) where
  queued :
      (pull_request : FetchedGitHubPullRequest) (r : Result GitHubPullRequestSnapshot)
      → sanitize_github_pull_request lib codec.content pull_request
          settings.github_pr_max_patch_chars
        ≡ r
      → Replies JobKind.review_pull_request s
          (review_github_pull_request lib settings rendering codec (ok pull_request) s)
  unfolding review_github_pull_request accepted response_of Reviews.accept_pull_request_review
      insert_task record_job_queued record_event error_name
  queued pull_request (err e) h =
      rw
        (
          h,
          (sanitize_raises lib codec.content pull_request settings.github_pr_max_patch_chars).only e
              h,
        )
        ((refl, refl), inr (inr (inr refl)))
  queued pull_request (ok snapshot) h = rw h (_, _, refl, refl, refl, refl, refl, refl, refl, refl)

  -- Whatever GitHub replies, the route that takes a pull request commits one queued task with a queued job
  -- that reviews it and answers with it, or writes nothing and refuses with 403, 404, 422 or 502.
  pub review_route_replies :
      (world : Client.World) (client : Client.Client) (reference : Reference)
      → Replies JobKind.review_pull_request s (
          review_github_pull_request lib settings rendering codec
            (Client.fetch lib world client reference []).0
            s)
  unfolding review_github_pull_request Reviews.accept_pull_request_review error_name
  review_route_replies world client reference =
      go (Client.fetch lib world client reference []).0 refl
    where
      go :
          (r : Result FetchedGitHubPullRequest)
          → (Client.fetch lib world client reference []).0 ≡ r
          → Replies JobKind.review_pull_request s (
              review_github_pull_request lib settings rendering codec
                (Client.fetch lib world client reference []).0
                s)
      go (ok pull_request) h = rw h (
          queued pull_request
            (sanitize_github_pull_request lib codec.content pull_request
              settings.github_pr_max_patch_chars)
            refl)
      go (err e) h = elim (fetch_raises_known lib world client reference [] h) [
        | inl k ↦ rw (h, k) ((refl, refl), inl refl)
        | inr (inl k) ↦ rw (h, k) ((refl, refl), inr (inl refl))
        | inr (inr k) ↦ rw (h, k) ((refl, refl), inr (inr (inr refl)))
      ]
