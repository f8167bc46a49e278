-- ===== src/Api/Accepting.antt =====
-- The routes of app/api/routes/tasks.py that take work from GitHub, with the clients that read it.
use steh_v1_0_0_rc.Base.{
  ℕ, ◌≡◌, refl, ◌⊎◌, inl, inr, [], ◌∷◌, ◌++◌, Result, ok, err, Error, value_error, error_name,
  arith,
}
use steh_v1_0_0_rc.Models.Task.{TaskStatus}
use steh_v1_0_0_rc.Models.Issue.{FetchedGitHubIssue, GitHubIssueSnapshot}
use steh_v1_0_0_rc.Models.Context.{Text}
use steh_v1_0_0_rc.Settings.{Settings}
use steh_v1_0_0_rc.External.{Library}
use steh_v1_0_0_rc.Jobs.{record_job_queued}
use steh_v1_0_0_rc.Audit.{record_event}
use steh_v1_0_0_rc.Db.{TaskRecord, TaskJobRecord, JobKind, JobStatus, Session}
use steh_v1_0_0_rc.Db.Insert.{insert_task}
use steh_v1_0_0_rc.GitHub.Repositories.{Reference}
use steh_v1_0_0_rc.GitHub.Issues as Client
use steh_v1_0_0_rc.GitHub.IssueErrors.{fetch_issue_raises_known}
use steh_v1_0_0_rc.Issue.Sanitize.{CanonicalIssue, sanitize_github_issue}
use steh_v1_0_0_rc.Issue.Service as Issues
use steh_v1_0_0_rc.Tasks.Accepting.{Untouched}
use steh_v1_0_0_rc.Api.Responses.{
  Answer, refused, answered, Rendering, response_of, Accepted, accepted,
}
use steh_v1_0_0_rc.Api.Routes.{create_task_from_issue}

-- One task and its job are queued, and the answer is about the task.
abbrev pub Queues : JobKind → Session → Session → Accepted → Type 0
Queues kind s t a =
    (task : TaskRecord) × (job : TaskJobRecord) × (t.committed.tasks ≡ s.pending.tasks ++ task ∷ [])
    × (t.committed.jobs ≡ s.pending.jobs ++ job ∷ [])
    × (task.status ≡ TaskStatus.queued)
    × (job.status ≡ JobStatus.queued)
    × (job.kind ≡ kind)
    × (job.task_id ≡ task.task_id)
    × (a.body.task_id ≡ task.task_id)
    × (a.body.status ≡ TaskStatus.queued)

-- A route answers with queued work, or refuses with a code that it documents and writes nothing.
abbrev pub Replies : JobKind → Session → Result (Answer Accepted) × Session → Type 0
Replies kind s (ok (answered a), t) = Queues kind s t a
Replies kind s (ok (refused code), t) =
    Untouched s t × ((code ≡ 403) ⊎ (code ≡ 404) ⊎ (code ≡ 422) ⊎ (code ≡ 502))
Replies kind s (err e, t) = ⊥

sanitize_raises :
    (lib : Library) (content : CanonicalIssue → Text) (issue : FetchedGitHubIssue) (limit : ℕ)
    {e : Error}
    → sanitize_github_issue lib content issue limit ≡ err e
    → e ≡ value_error
unfolding sanitize_github_issue
sanitize_raises lib content issue limit h = ground arith

module _ (lib : Library) (codec : Issues.Codec) (settings : Settings) (rendering : Rendering)
    (s : Session) where
  queued :
      (issue : FetchedGitHubIssue) (r : Result GitHubIssueSnapshot)
      → sanitize_github_issue lib codec.content issue settings.github_issue_max_body_chars ≡ r
      → Replies JobKind.analyze_github_issue s
          (create_task_from_issue lib settings rendering codec (ok issue) s)
  unfolding create_task_from_issue accepted response_of Issues.accept_github_issue insert_task
      record_job_queued record_event error_name
  queued issue (err e) h =
      rw (h, sanitize_raises lib codec.content issue settings.github_issue_max_body_chars h)
        ((refl, refl), inr (inr (inr refl)))
  queued issue (ok snapshot) h = rw h (_, _, refl, refl, refl, refl, refl, refl, refl, refl)

  -- Whatever GitHub replies, the route that takes an issue commits one queued task with a queued job
  -- that analyses it and answers with it, or writes nothing and refuses with 403, 404, 422 or 502.
  pub issue_route_replies :
      (world : Client.IssueWorld) (client : Client.IssueClient) (reference : Reference)
      → Replies JobKind.analyze_github_issue s (
          create_task_from_issue lib settings rendering codec
            (Client.fetch_issue lib world client reference []).0
            s)
  unfolding create_task_from_issue Issues.accept_github_issue error_name
  issue_route_replies world client reference =
      go (Client.fetch_issue lib world client reference []).0 refl
    where
      go :
          (r : Result FetchedGitHubIssue)
          → (Client.fetch_issue lib world client reference []).0 ≡ r
          → Replies JobKind.analyze_github_issue s (
              create_task_from_issue lib settings rendering codec
                (Client.fetch_issue lib world client reference []).0
                s)
      go (ok issue) h = rw h (
          queued issue
            (sanitize_github_issue lib codec.content issue settings.github_issue_max_body_chars)
            refl)
      go (err e) h = elim (fetch_issue_raises_known lib world client reference [] h) [
        | inl k ↦ rw (h, k) ((refl, refl), inl refl)
        | inr (inl k) ↦ rw (h, k) ((refl, refl), inr (inl refl))
        | inr (inr (inl k)) ↦ rw (h, k) ((refl, refl), inr (inr (inl refl)))
        | inr (inr (inr k)) ↦ rw (h, k) ((refl, refl), inr (inr (inr refl)))
      ]
