-- ===== src/PullRequest/Outcome.antt =====
-- How `run_pull_request_review` of app/services/pull_request_reviews.py ends.
use steh_v1_0_0_rc.Base.{
  ℕ, String, ◌≡◌, ◌∙◌, refl, sym, ap, true, Option, some, [], ◌∷◌, any, is_some, nat_eq, Result, ok,
  err, >>=-eq-ok,
}
use mathlib.Core.Path.{subst}
use steh_v1_0_0_rc.Json.{Json}
use steh_v1_0_0_rc.Models.Task.{TaskStatus, AgentResult}
use steh_v1_0_0_rc.Models.Context.{ContextBundle}
use steh_v1_0_0_rc.Models.PullRequest.{
  PullRequestRisk, block, FetchedGitHubPullRequest, GitHubPullRequestSnapshot,
  PullRequestReviewArtifact,
}
use steh_v1_0_0_rc.Settings.{Settings}
use steh_v1_0_0_rc.External.{Library}
use steh_v1_0_0_rc.Db.{
  TaskRecord, Session, ◌>>=◌, ◌>>◌, lift, modify, or_else, commit, find_task, update_task, utc_now,
}
use steh_v1_0_0_rc.Db.Keeps.{lift-Keeps}
use steh_v1_0_0_rc.Db.Reaches.{Post, Reaches, bind-Reaches}
use steh_v1_0_0_rc.Db.Rows.{find-update, find-key, is_some-update}
use steh_v1_0_0_rc.Audit.{AgentLifecycle, record_event, execute}
use steh_v1_0_0_rc.Audit.Proofs.{execute-expected}
use steh_v1_0_0_rc.Tasks.Accept.{build_context_bundle, record_context_event}
use steh_v1_0_0_rc.PullRequest.Review.{run}
use steh_v1_0_0_rc.PullRequest.Sanitize.{sanitize_github_pull_request}
use steh_v1_0_0_rc.PullRequest.Texts.{redacts, counted_texts}
use steh_v1_0_0_rc.PullRequest.Verdict.{redacted_is_blocked}
use steh_v1_0_0_rc.PullRequest.Service.{
  Codec, proposal, context_source, agent_run, fail_task, store_review, review_task,
  run_pull_request_review,
}
use steh_v1_0_0_rc.Tasks.Presence.{
  Present, update-Present, commit-Present, utc_now-Present, execute-Present, expected-ok, row_of,
  build-Present, record_context-Present,
}

-- What the verdict of a review is made of.
abbrev pub KeepsVerdict : PullRequestReviewArtifact → PullRequestReviewArtifact → Type 0
KeepsVerdict made review =
    (review.recommendation ≡ made.recommendation)
    × (review.risk_level ≡ made.risk_level)
    × (review.requires_human_review ≡ made.requires_human_review)

module _ (lib : Library) (codec : Codec) (settings : Settings)
    (model : Option (GitHubPullRequestSnapshot → ContextBundle → Result PullRequestReviewArtifact))
    (prompt_receipt : String → Result (Option Json)) where
  -- The review is what reading the dump of the agent's review gives.
  abbrev pub Reviewed : GitHubPullRequestSnapshot → PullRequestReviewArtifact → Type 0
  Reviewed pr review =
      (context : ContextBundle) × (made : PullRequestReviewArtifact) × (run lib
          (proposal model pr context) pr context
        ≡ ok made)
      × (codec.validate_review (codec.dump_review made) ≡ ok review)

  -- The task's committed row is completed, with such a review.
  abbrev Stored : GitHubPullRequestSnapshot → TaskRecord → Type 0
  Stored pr t =
      (t.status ≡ TaskStatus.completed)
      × ((review : PullRequestReviewArtifact) × (t.pull_request_review ≡ some review)
          × Reviewed pr review)

  abbrev Completed : ℕ → GitHubPullRequestSnapshot → Session → Type 0
  Completed id pr s = (t : TaskRecord) × (find_task id s.committed ≡ some t) × Stored pr t

  -- How the task stands when the service returned or raised.
  abbrev pub Ended : GitHubPullRequestSnapshot → Result (Unit {0}) → TaskRecord → Type 0
  Ended pr (ok done) t = Stored pr t
  Ended pr (err e) t = t.status ≡ TaskStatus.failed

  store_review-Reaches :
      (task : TaskRecord) (pr : GitHubPullRequestSnapshot) (review : PullRequestReviewArtifact)
      → Reviewed pr review
      → Reaches
          (Present task.task_id)
          (Completed task.task_id pr)
          (store_review lib codec settings model prompt_receipt task review)
  unfolding store_review record_event
  store_review-Reaches task pr review r = record {
    after = λ s h.
        let (row, e) = row_of (find_task task.task_id s.pending) h.0 in
        let f : TaskRecord → TaskRecord = λ t. record t {
          pull_request_review = some review;
          status = TaskStatus.completed;
          updated_at = s.clock s.readings;
        } in
        (
          f row,
          find-update (λ t. t.task_id) task.task_id f (λ t. refl) s.pending.tasks e,
          (refl, (review, refl, r)),
        );
  }

  agent_run-result :
      (pr : GitHubPullRequestSnapshot) (context : ContextBundle) (now : ℕ) {result : AgentResult}
      → agent_run lib codec settings model prompt_receipt pr context now ≡ ok result
      → (made : PullRequestReviewArtifact) × (run lib (proposal model pr context) pr context
          ≡ ok made)
        × (result.result ≡ codec.dump_review made)
  unfolding agent_run
  agent_run-result pr context now h =
      let (made, e, r) = >>=-eq-ok (run lib (proposal model pr context) pr context) _ h in
      (made, e, cc r)

  read-Reviewed :
      (pr : GitHubPullRequestSnapshot) (context : ContextBundle) (now : ℕ)
      (lifecycle : AgentLifecycle) (name : String) (s t : Session) {result : AgentResult}
      {review : PullRequestReviewArtifact}
      → execute lifecycle name (agent_run lib codec settings model prompt_receipt pr context now) s
        ≡ (ok result, t)
      → codec.validate_review result.result ≡ ok review
      → Reviewed pr review
  read-Reviewed pr context now lifecycle name s t {result} e v =
      let fn = agent_run lib codec settings model prompt_receipt pr context now in
      let same = execute-expected lifecycle name fn s in
      let returned : fn ≡ ok result = expected-ok lifecycle name fn (cc (same, e)) in
      let (made, r, d) = agent_run-result pr context now returned in (context, made, r, rw (← d) v)

  review_task-Reaches :
      (task : TaskRecord) (pr : GitHubPullRequestSnapshot)
      → Reaches
          (Present task.task_id)
          (Completed task.task_id pr)
          (review_task lib codec settings model prompt_receipt task pr)
  unfolding review_task
  review_task-Reaches task pr =
      let id = task.task_id in
      bind-Reaches
        (build_context_bundle lib settings task.request (context_source lib codec settings pr ∷ []))
        _ (build-Present lib settings id _ _)
        (λ context _ _ _.
          bind-Reaches (modify (update_task id (λ t. record t { context_bundle = some context }))) _
            (update-Present id id (λ t. record t { context_bundle = some context }) (λ t. refl))
            (λ _ _ _ _. bind-Reaches commit _ (commit-Present id) (λ _ _ _ _.
              bind-Reaches (record_context_event id task.trace_id context) _
                (record_context-Present id id task.trace_id context)
                (λ _ _ _ _. bind-Reaches utc_now _ (utc_now-Present id) (λ now _ _ _.
                  let lifecycle : AgentLifecycle = record {
                    task_id = id;
                    trace_id = task.trace_id;
                    prompt_receipt = prompt_receipt;
                  } in
                  let fn = agent_run lib codec settings model prompt_receipt pr context now in
                  bind-Reaches (execute lifecycle "pull_request_review_agent" fn) _
                    (execute-Present id lifecycle "pull_request_review_agent" fn)
                    (λ result s t e.
                      bind-Reaches (lift (codec.validate_review result.result)) _ (lift-Keeps _)
                        (λ review u v f. store_review-Reaches task pr review (
                          read-Reviewed pr context now lifecycle "pull_request_review_agent" s t e
                            (ap (λ p. p.0) f)))))))))

  ended :
      (task : TaskRecord) (pr : GitHubPullRequestSnapshot) (r : Result (Unit {0}) × Session)
      → Post (Present task.task_id) (Completed task.task_id pr) r
      → (t : TaskRecord) × (find_task task.task_id (or_else (fail_task task) r).1.committed
          ≡ some t)
        × Ended pr (or_else (fail_task task) r).0 t
  unfolding fail_task record_event
  ended task pr (ok done, v) h = h
  ended task pr (err e, v) h =
      let (row, there) = row_of (find_task task.task_id v.committed) h.1 in
      let f : TaskRecord → TaskRecord =
        λ t. record t { status = TaskStatus.failed; updated_at = v.clock v.readings } in
      (f row, find-update (λ t. t.task_id) task.task_id f (λ t. refl) v.committed.tasks there, refl)

  task_ends :
      (task : TaskRecord) (s : Session) {pr : GitHubPullRequestSnapshot}
      → find_task task.task_id s.pending ≡ some task
      → task.source_pull_request ≡ some pr
      → (t : TaskRecord) × (find_task task.task_id
            (run_pull_request_review lib codec settings model prompt_receipt task.task_id
              s).1.committed
          ≡ some t)
        × Ended pr
            (run_pull_request_review lib codec settings model prompt_receipt task.task_id s).0
            t
  unfolding run_pull_request_review
  task_ends task s {pr} h p =
      let f : TaskRecord → TaskRecord = λ t. record t {
        status = TaskStatus.analyzing_pull_request;
        updated_at = s.clock s.readings;
      } in
      let w : Session = ((do now ← utc_now; modify (update_task task.task_id f); commit) s).1 in
      let there : is_some (find_task task.task_id w.pending) ≡ true =
        is_some-update (λ r. r.task_id) task.task_id (λ r. nat_eq r.task_id task.task_id) f
          (λ t. refl) s.pending.tasks
        ∙ ap is_some h in
      let body = (review_task-Reaches task pr).after w (there, there) in
      rw (h, p) (ended task pr (review_task lib codec settings model prompt_receipt task pr w) body)

  -- If the task has a snapshot, then however the model, the reading of the prompt and the validation
  -- behave, the task's committed row ends as COMPLETED with a review that is the dump of the agent's,
  -- read back, if the service returns, and as FAILED if it raises.
  pub review_ends :
      (task_id : ℕ) (s : Session) {task : TaskRecord} {pr : GitHubPullRequestSnapshot}
      → find_task task_id s.pending ≡ some task
      → task.source_pull_request ≡ some pr
      → (t : TaskRecord) × (find_task task_id
            (run_pull_request_review lib codec settings model prompt_receipt task_id s).1.committed
          ≡ some t)
        × Ended pr (run_pull_request_review lib codec settings model prompt_receipt task_id s).0 t
  review_ends task_id s {task} h p =
      let key : task.task_id ≡ task_id = find-key (λ r. r.task_id) task_id s.pending.tasks h in
      rw (← key) (task_ends task s (subst (λ i. find_task i s.pending ≡ some task) (sym key) h) p)

  -- If sanitising a fetched pull request redacts something in its title, its body, its author, or the
  -- name, the former name or the patch of a file, and the task has the snapshot of it, then a review that
  -- the service stores for the task is a block with a critical risk that asks for a human, whatever a
  -- model proposed, if reading a dumped review keeps its recommendation, its risk and whether it asks for
  -- a human.
  pub secret_is_stored_as_block :
      (fetched : FetchedGitHubPullRequest) (limit task_id : ℕ) (s : Session) {task : TaskRecord}
      {pr : GitHubPullRequestSnapshot}
      → ((made review : PullRequestReviewArtifact)
          → codec.validate_review (codec.dump_review made) ≡ ok review
          → KeepsVerdict made review)
      → sanitize_github_pull_request lib codec.content fetched limit ≡ ok pr
      → any (redacts lib) (counted_texts fetched) ≡ true
      → find_task task_id s.pending ≡ some task
      → task.source_pull_request ≡ some pr
      → (run_pull_request_review lib codec settings model prompt_receipt task_id s).0 ≡ ok tt
      → (t : TaskRecord) × (review : PullRequestReviewArtifact) × (find_task task_id
            (run_pull_request_review lib codec settings model prompt_receipt task_id s).1.committed
          ≡ some t)
        × (t.pull_request_review ≡ some review)
        × (review.recommendation ≡ block)
        × (review.risk_level ≡ PullRequestRisk.critical)
        × (review.requires_human_review ≡ true)
  secret_is_stored_as_block fetched limit task_id s {task} {pr} round_trip z secret h p returned =
      let (t, there, how) = review_ends task_id s h p in
      let stored : Stored pr t = subst (λ r. Ended pr r t) returned how in
      let (_, (review, kept, (context, made, run_ok, back))) = stored in
      let (blocked, critical, human, _) =
        redacted_is_blocked lib codec.content fetched limit z (proposal model pr context) context
          run_ok secret in
      let same = round_trip made review back in
      (t, review, there, kept, same.0 ∙ blocked, same.1 ∙ critical, same.2 ∙ human)
