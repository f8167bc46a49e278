-- ===== src/Tests/Reviews.antt =====
-- Accepting tasks and reviews, and a review from its queue to its end, in app/services/tasks.py and
-- app/services/pull_request_reviews.py.
use steh_v1_0_0_rc.Base.{
  ℕ, zero, suc, ◌≡◌, refl, String, Bool, true, false, Option, none, some, [], ◌∷◌, Result, ok, err,
  value_error,
}
use steh_v1_0_0_rc.Json.{Json, num, bool, arr, nil, cons}
use steh_v1_0_0_rc.Models.Task.{TaskStatus}
use steh_v1_0_0_rc.Models.Context.{ContextBundle}
use steh_v1_0_0_rc.Models.PullRequest.{
  GitHubPullRequestSnapshot, PullRequestRisk, PullRequestRecommendation, ready_for_human_review,
  changes_required, block, PullRequestReviewArtifact,
}
use steh_v1_0_0_rc.Settings.{Settings}
use steh_v1_0_0_rc.Db.{TaskRecord, JobKind, Session, find_task}
use steh_v1_0_0_rc.Audit.{execute}
use steh_v1_0_0_rc.Context.Build.{new_engine, build}
use steh_v1_0_0_rc.Context.Order.{unique_identities, sorted}
use steh_v1_0_0_rc.PullRequest.Review.{run}
use steh_v1_0_0_rc.Context.Sanitize.{codes, sanitize_context_text, normalize}
use steh_v1_0_0_rc.Tasks.Accept.{TaskCreate, accept_task}
use steh_v1_0_0_rc.Tasks.Accepting.{Accepts, accept_queues_job}
use steh_v1_0_0_rc.PullRequest.Findings.{risk_order}
use steh_v1_0_0_rc.PullRequest.Service.{Codec, context_source, run_pull_request_review}
use steh_v1_0_0_rc.PullRequest.Outcome.{KeepsVerdict, Ended, review_ends, secret_is_stored_as_block}
use steh_v1_0_0_rc.Tests.Data.{no_tables, new_session}
use steh_v1_0_0_rc.Tests.Context.{plain}
use steh_v1_0_0_rc.Tests.Services.{waiting_task}
use steh_v1_0_0_rc.Tests.PullRequest.{masking, fetched_leak, leaking, leaks}

abbrev pub settings : Settings
settings = record {
  context_max_sources = 2;
  context_max_tokens = 200;
  context_max_source_tokens = 100;
  github_issue_max_body_chars = 100;
  github_pr_max_patch_chars = 100;
}

abbrev recommendation_code : PullRequestRecommendation → ℕ
recommendation_code block = 0
recommendation_code changes_required = 1
recommendation_code ready_for_human_review = 2

abbrev risk_at : ℕ → PullRequestRisk
risk_at zero = PullRequestRisk.low
risk_at (suc zero) = PullRequestRisk.medium
risk_at (suc (suc zero)) = PullRequestRisk.high
risk_at (suc (suc (suc n))) = PullRequestRisk.critical

abbrev recommendation_at : ℕ → PullRequestRecommendation
recommendation_at zero = block
recommendation_at (suc zero) = changes_required
recommendation_at (suc (suc n)) = ready_for_human_review

abbrev review_with : PullRequestRisk → PullRequestRecommendation → Bool → PullRequestReviewArtifact
review_with risk recommendation human = record {
  repository = "";
  pull_number = 0;
  pull_request_url = "";
  pull_request_updated_at = 0;
  source_content_sha256 = "";
  context_bundle_sha256 = "";
  summary = [];
  change_intent = [];
  changed_components = [];
  findings = [];
  test_coverage_assessment = "";
  security_assessment = "";
  architecture_assessment = "";
  risk_level = risk;
  recommendation = recommendation;
  requires_human_review = human;
}

abbrev read_review : Json → Result PullRequestReviewArtifact
read_review (arr (cons (num risk) (cons (num recommendation) (cons (bool human) nil)))) =
    ok (review_with (risk_at risk) (recommendation_at recommendation) human)
read_review json = err value_error

-- A codec that keeps the verdict of a review alone.
abbrev pub codec : Codec
codec = record {
  content = λ c. c.title;
  snapshot = λ s. codes "snapshot";
  dump_review = λ r. arr (
      cons (num (risk_order r.risk_level)) (
        cons (num (recommendation_code r.recommendation))
          (cons (bool r.requires_human_review) nil)));
  dump_finding = λ f. num 0;
  validate_review = read_review;
}

risk_read : (risk : PullRequestRisk) → risk_at (risk_order risk) ≡ risk
risk_read PullRequestRisk.low = refl
risk_read PullRequestRisk.medium = refl
risk_read PullRequestRisk.high = refl
risk_read PullRequestRisk.critical = refl

recommendation_read :
    (r : PullRequestRecommendation) → recommendation_at (recommendation_code r) ≡ r
recommendation_read block = refl
recommendation_read changes_required = refl
recommendation_read ready_for_human_review = refl

codec_keeps :
    (made review : PullRequestReviewArtifact)
    → codec.validate_review (codec.dump_review made) ≡ ok review
    → KeepsVerdict made review
codec_keeps made review h =
    let same : review_with (risk_at (risk_order made.risk_level))
          (recommendation_at (recommendation_code made.recommendation)) made.requires_human_review
        ≡ review =
      cc h in
    rw (← same) (recommendation_read made.recommendation, risk_read made.risk_level, refl)

abbrev model : Option (GitHubPullRequestSnapshot → ContextBundle → Result PullRequestReviewArtifact)
model = some (λ pr context. ok (review_with PullRequestRisk.low ready_for_human_review false))

abbrev pub no_receipt : String → Result (Option Json)
no_receipt name = ok none

abbrev review_task : TaskRecord
review_task = record waiting_task { status = TaskStatus.queued; source_pull_request = some leaking }

abbrev with_review : Session
with_review = record new_session {
  committed = record no_tables { tasks = review_task ∷ [] };
  pending = record no_tables { tasks = review_task ∷ [] };
}

review_ends_example :
    (t : TaskRecord) × (find_task 1
        (run_pull_request_review masking codec settings model no_receipt 1 with_review).1.committed
      ≡ some t)
    × Ended masking codec settings model no_receipt leaking
        (run_pull_request_review masking codec settings model no_receipt 1 with_review).0
        t
review_ends_example = review_ends masking codec settings model no_receipt 1 with_review refl refl

review_returns :
    (run_pull_request_review masking codec settings model no_receipt 1 with_review).0 ≡ ok tt
unfolding run_pull_request_review new_engine build unique_identities sorted sanitize_context_text
    normalize context_source execute run
review_returns = refl

secret_is_stored_as_block_example :
    (t : TaskRecord) × (review : PullRequestReviewArtifact) × (find_task 1
        (run_pull_request_review masking codec settings model no_receipt 1 with_review).1.committed
      ≡ some t)
    × (t.pull_request_review ≡ some review)
    × (review.recommendation ≡ block)
    × (review.risk_level ≡ PullRequestRisk.critical)
    × (review.requires_human_review ≡ true)
secret_is_stored_as_block_example =
    secret_is_stored_as_block masking codec settings model no_receipt fetched_leak 50 1 with_review
      codec_keeps leaks.0 leaks.1 refl refl review_returns

abbrev pub payload : TaskCreate
payload = record { request = codes "Add a field"; context_sources = [] }

accept_queues_job_example :
    Accepts JobKind.execute_task new_session (accept_task plain settings payload new_session)
accept_queues_job_example = accept_queues_job plain settings payload new_session
