-- ===== src/Tasks/Accepting.antt =====
-- Accepting a task, in app/services/tasks.py and app/services/pull_request_reviews.py: both a
-- task and its job are committed, or nothing is written.
use steh_v1_0_0_rc.Base.{suc, ◌≡◌, refl, ap, none, some, List, [], ◌∷◌, ◌++◌, Result, ok, err}
use steh_v1_0_0_rc.Models.Task.{TaskStatus}
use steh_v1_0_0_rc.Models.Context.{Text, ContextSourceInput, ContextBundle}
use steh_v1_0_0_rc.Models.PullRequest.{FetchedGitHubPullRequest, GitHubPullRequestSnapshot}
use steh_v1_0_0_rc.Settings.{Settings}
use steh_v1_0_0_rc.External.{Library}
use steh_v1_0_0_rc.Context.Build.{new_engine, build}
use steh_v1_0_0_rc.Db.{
  Tables, TaskRecord, TaskJobRecord, JobKind, JobStatus, Session, lift, utc_now,
}
use steh_v1_0_0_rc.Db.Keeps.{Keeps, bind-Keeps, lift-Keeps}
use steh_v1_0_0_rc.Db.Insert.{new_task, insert_task}
use steh_v1_0_0_rc.Tasks.Accept.{TaskCreate, build_context_bundle, accept_task}
use steh_v1_0_0_rc.PullRequest.Sanitize.{sanitize_github_pull_request}
use steh_v1_0_0_rc.PullRequest.Service.{Codec, accept_pull_request_review}

-- The tables are as they were.
abbrev pub Untouched : Session → Session → Type 0
Untouched s t = (t.pending ≡ s.pending) × (t.committed ≡ s.committed)

-- What an acceptance leaves: one queued task with one queued job of the kind, which has not been tried,
-- at the end of the committed tables; or, if it raised, the tables that were there.
abbrev pub Accepts : JobKind → Session → Result TaskRecord × Session → Type 0
Accepts kind s (ok task, t) =
    (job : TaskJobRecord) × (t.committed.tasks ≡ s.pending.tasks ++ (task ∷ []))
    × (t.committed.jobs ≡ s.pending.jobs ++ (job ∷ []))
    × (task.status ≡ TaskStatus.queued)
    × (job.status ≡ JobStatus.queued)
    × (job.kind ≡ kind)
    × (job.attempts ≡ 0)
    × (job.task_id ≡ task.task_id)
Accepts kind s (err e, t) = Untouched s t

module _ (lib : Library) (settings : Settings) where
  build-Untouched :
      (s : Session) (request : Text) (sources : List ContextSourceInput)
      → Keeps (Untouched s) (build_context_bundle lib settings request sources)
  unfolding build_context_bundle
  build-Untouched s request sources =
      bind-Keeps
        (lift (
          new_engine settings.context_max_sources settings.context_max_tokens
            settings.context_max_source_tokens))
        _ (lift-Keeps _)
        (λ engine.
          bind-Keeps utc_now (λ now. lift (build lib engine request sources now))
            (record { after = λ t h. h }) (λ now. lift-Keeps _))

  -- Accepting a task adds to the committed tasks one that is QUEUED and to the committed jobs a queued
  -- one that runs it, and no other; if the context cannot be built it raises and changes no table.
  pub accept_queues_job :
      (payload : TaskCreate) (s : Session)
      → Accepts JobKind.execute_task s (accept_task lib settings payload s)
  unfolding accept_task insert_task
  accept_queues_job payload s =
      bundle-Accepts (build_context_bundle lib settings payload.request payload.context_sources s)
        refl ((build-Untouched s payload.request payload.context_sources).after s (refl, refl))
    where
      bundle-Accepts :
          (p : Result ContextBundle × Session)
          → build_context_bundle lib settings payload.request payload.context_sources s ≡ p
          → Untouched s p.1
          → Accepts JobKind.execute_task s (accept_task lib settings payload s)
      bundle-Accepts (err e, t) h u = rw h u
      bundle-Accepts (ok bundle, t) h u =
          let job : TaskJobRecord = record {
            job_id = suc (suc t.fresh);
            task_id = t.fresh;
            kind = JobKind.execute_task;
            payload = none;
            status = JobStatus.queued;
            attempts = 0;
            locked_by = none;
            lease_expires_at = none;
            last_error = none;
            created_at = t.clock t.readings;
            started_at = none;
            finished_at = none;
          } in
          let task : TaskRecord =
            record (new_task t.fresh (suc t.fresh) payload.request (t.clock (suc t.readings))
              (t.clock (suc (suc t.readings)))) { context_bundle = some bundle } in
          rw h (
            job,
            ap (λ (x : Tables). x.tasks ++ task ∷ []) u.0,
            ap (λ (x : Tables). x.jobs ++ job ∷ []) u.0,
            refl,
            refl,
            refl,
            refl,
            refl,
          )

  -- Accepting a review adds to the committed tasks one that is QUEUED and to the committed jobs a queued
  -- one that reviews it, and no other; if the pull request cannot be fetched or sanitised it raises and
  -- changes no table.
  pub accept_review_queues_job :
      (codec : Codec) (fetched : Result FetchedGitHubPullRequest) (s : Session)
      → Accepts JobKind.review_pull_request s
          (accept_pull_request_review lib codec settings fetched s)
  unfolding accept_pull_request_review insert_task
  accept_review_queues_job codec (err e) s = (refl, refl)
  accept_review_queues_job codec (ok pr) s =
      snapshot-Accepts
        (sanitize_github_pull_request lib codec.content pr settings.github_pr_max_patch_chars) refl
    where
      snapshot-Accepts :
          (r : Result GitHubPullRequestSnapshot)
          → sanitize_github_pull_request lib codec.content pr settings.github_pr_max_patch_chars ≡ r
          → Accepts JobKind.review_pull_request s
              (accept_pull_request_review lib codec settings (ok pr) s)
      snapshot-Accepts (err e) h = rw h (refl, refl)
      snapshot-Accepts (ok snapshot) h = rw h (_, refl, refl, refl, refl, refl, refl, refl)
