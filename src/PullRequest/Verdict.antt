-- ===== src/PullRequest/Verdict.antt =====
-- What the review of app/agents/pull_request_review.py guarantees whatever the model proposes.
use steh_v1_0_0_rc.Base.{
  ℕ, ◌≡◌, ◌∙◌, refl, sym, true, false, not, ◌&&◌, ◌||◌, Option, none, some, List, [], ◌∷◌, ◌++◌,
  All, Result, ok, any, arith, take, >>=-eq-ok,
}
use mathlib.Core.Path.{subst}
use steh_v1_0_0_rc.Models.Context.{Text, ContextBundle}
use steh_v1_0_0_rc.Models.PullRequest.{
  FetchedGitHubPullRequest, GitHubPullRequestSnapshot, PullRequestRisk, PullRequestRecommendation,
  ready_for_human_review, block, PullRequestFinding, PullRequestReviewArtifact,
}
use steh_v1_0_0_rc.External.{Library}
use steh_v1_0_0_rc.PullRequest.Findings.{highest_risk, secret_finding, deterministic_findings}
use steh_v1_0_0_rc.PullRequest.Review.{
  merge_loop, merge_findings, required_findings, code_changed, tests_changed, stub_recommendation,
  run_stub, recommend, complete_review, run,
}
use steh_v1_0_0_rc.PullRequest.Risk.{
  AtLeast, max_risk_bounds, highest_risk_bounds, AtLeast-le, critical_lem,
}
use steh_v1_0_0_rc.PullRequest.Coverage.{required-testing}
use steh_v1_0_0_rc.PullRequest.Sanitize.{CanonicalContent, sanitize_github_pull_request}
use steh_v1_0_0_rc.PullRequest.Texts.{redacts, suspects, counted_texts}
use steh_v1_0_0_rc.PullRequest.Patches.{counted_flags, snapshot_flags}

module _ (lib : Library) where
  -- A review that `run` returns is the completion of a proposed one.
  run_complete :
      (model : Option (Result PullRequestReviewArtifact)) (pr : GitHubPullRequestSnapshot)
      (context : ContextBundle) {review : PullRequestReviewArtifact}
      → run lib model pr context ≡ ok review
      → (proposed : PullRequestReviewArtifact) × (complete_review lib pr context proposed ≡ review)
  unfolding run
  run_complete none pr context h = (run_stub lib pr context, cc h)
  run_complete (some model) pr context h =
      let (proposed, e, r) = >>=-eq-ok model _ h in (proposed, cc r)

  -- The risk that a review reports is at least the severity of each of its findings.
  pub risk_covers_findings :
      (model : Option (Result PullRequestReviewArtifact)) (pr : GitHubPullRequestSnapshot)
      (context : ContextBundle) {review : PullRequestReviewArtifact}
      → run lib model pr context ≡ ok review
      → All (AtLeast review.risk_level) review.findings
  unfolding complete_review
  risk_covers_findings model pr context h =
      let (proposed, e) = run_complete model pr context h in
      let findings = merge_findings lib (required_findings lib pr context) proposed.findings in
      let (a, b) = max_risk_bounds proposed.risk_level (highest_risk findings) in
      rw (← e) (AtLeast-le (highest_risk findings) _ findings b (highest_risk_bounds findings))

  secret-first :
      (pr : GitHubPullRequestSnapshot) (context : ContextBundle)
      → pr.redacted ≡ true
      → (rest : List PullRequestFinding) × (required_findings lib pr context
          ≡ secret_finding ∷ rest)
  unfolding required_findings deterministic_findings
  secret-first pr context r = rw r (_, refl)

  merge-first :
      (f : PullRequestFinding) (required proposed : List PullRequestFinding)
      → (rest : List PullRequestFinding) × (merge_findings lib (f ∷ required) proposed ≡ f ∷ rest)
  unfolding merge_findings merge_loop
  merge-first f required proposed = (take 99 (merge_loop lib (f ∷ []) (required ++ proposed)), refl)

  pub flagged_is_blocked :
      (model : Option (Result PullRequestReviewArtifact)) (pr : GitHubPullRequestSnapshot)
      (context : ContextBundle) {review : PullRequestReviewArtifact}
      → run lib model pr context ≡ ok review
      → pr.redacted ≡ true
      → (review.recommendation ≡ block)
        × (review.risk_level ≡ PullRequestRisk.critical)
        × (review.requires_human_review ≡ true)
        × ((rest : List PullRequestFinding) × (review.findings ≡ secret_finding ∷ rest))
  unfolding complete_review recommend
  flagged_is_blocked model pr context h r =
      let (proposed, e) = run_complete model pr context h in
      let (others, q) = secret-first pr context r in
      let (rest, m) = merge-first secret_finding others proposed.findings in
      let found : merge_findings lib (required_findings lib pr context) proposed.findings
          ≡ secret_finding ∷ rest =
        rw q m in
      let findings = merge_findings lib (required_findings lib pr context) proposed.findings in
      let high =
        (let x : All (AtLeast (highest_risk findings)) (secret_finding ∷ rest) =
            subst (All (AtLeast (highest_risk findings))) found (highest_risk_bounds findings) in
          x.0) in
      let (a, b) = max_risk_bounds proposed.risk_level (highest_risk findings) in
      rw (← e) (rw r refl, critical_lem _ (omega (arith, high, b)), refl, (rest, found))

  recommend-ready :
      (pr : GitHubPullRequestSnapshot) (context : ContextBundle)
      (proposed : PullRequestRecommendation)
      → recommend lib pr context (required_findings lib pr context) proposed
        ≡ ready_for_human_review
      → (pr.redacted ≡ false)
        × (pr.suspicious_instruction ≡ false)
        × (pr.truncated ≡ false)
        × (context.truncated ≡ false)
        × ((code_changed lib pr && not (tests_changed lib pr)) ≡ false)
  unfolding recommend
  recommend-ready pr context proposed f = ground (arith, required-testing lib pr context)

  ready_is_unflagged :
      (model : Option (Result PullRequestReviewArtifact)) (pr : GitHubPullRequestSnapshot)
      (context : ContextBundle) {review : PullRequestReviewArtifact}
      → run lib model pr context ≡ ok review
      → review.recommendation ≡ ready_for_human_review
      → (pr.redacted ≡ false)
        × (pr.suspicious_instruction ≡ false)
        × (pr.truncated ≡ false)
        × (context.truncated ≡ false)
        × ((code_changed lib pr && not (tests_changed lib pr)) ≡ false)
  unfolding complete_review
  ready_is_unflagged model pr context h r =
      let (proposed, e) = run_complete model pr context h in
      recommend-ready pr context proposed.recommendation
        (subst (λ x. x.recommendation ≡ ready_for_human_review) (sym e) r)

  -- Without a model, the recommendation that `_run_stub` makes on its own is the one of the review.
  stub_recommendation_is_final :
      (pr : GitHubPullRequestSnapshot) (context : ContextBundle)
      {review : PullRequestReviewArtifact}
      → run lib none pr context ≡ ok review
      → review.recommendation ≡ stub_recommendation lib pr context
  unfolding run complete_review recommend run_stub stub_recommendation
  stub_recommendation_is_final pr context h = ground (arith, required-testing lib pr context)

  -- The pull request that is reviewed is the snapshot of a fetched one.
  module _ (canonical : CanonicalContent → Text) (fetched : FetchedGitHubPullRequest) (limit : ℕ)
      {pr : GitHubPullRequestSnapshot}
      (sanitized : sanitize_github_pull_request lib canonical fetched limit ≡ ok pr) where
    -- If sanitising a fetched pull request redacts something in its title, its body, its author, or the
    -- name, the former name or the patch of a file, then whatever a model proposes a review of the
    -- snapshot blocks it, its risk is critical, it asks for a human, and its first finding is the secret.
    pub redacted_is_blocked :
        (model : Option (Result PullRequestReviewArtifact)) (context : ContextBundle)
        {review : PullRequestReviewArtifact}
        → run lib model pr context ≡ ok review
        → any (redacts lib) (counted_texts fetched) ≡ true
        → (review.recommendation ≡ block)
          × (review.risk_level ≡ PullRequestRisk.critical)
          × (review.requires_human_review ≡ true)
          × ((rest : List PullRequestFinding) × (review.findings ≡ secret_finding ∷ rest))
    redacted_is_blocked model context h secret =
        flagged_is_blocked model pr context h
          ((counted_flags lib canonical fetched limit sanitized).0 ∙ secret)

    -- A review of a snapshot recommends to go on to a human only if sanitising redacted nothing and found
    -- no instruction-like text in the fetched title, body, author, or the name, former name or patch of a
    -- file, neither the list of files, nor a file, nor the context was truncated, and changed code comes
    -- with changed tests.
    pub ready_is_clean :
        (model : Option (Result PullRequestReviewArtifact)) (context : ContextBundle)
        {review : PullRequestReviewArtifact}
        → run lib model pr context ≡ ok review
        → review.recommendation ≡ ready_for_human_review
        → (any (redacts lib) (counted_texts fetched) ≡ false)
          × (any (suspects lib) (counted_texts fetched) ≡ false)
          × (fetched.files_truncated ≡ false)
          × (any (λ f. f.truncated) pr.files ≡ false)
          × (context.truncated ≡ false)
          × ((code_changed lib pr && not (tests_changed lib pr)) ≡ false)
    ready_is_clean model context h r =
        let (redacted, suspicious, truncated, cut, tests) =
          ready_is_unflagged model pr context h r in
        let (redactions, suspicions) = counted_flags lib canonical fetched limit sanitized in
        let flags = snapshot_flags lib canonical fetched limit sanitized in
        let whole : (fetched.files_truncated || any (λ f. f.truncated) pr.files) ≡ false =
          sym flags.2 ∙ truncated in
        (
          sym redactions ∙ redacted,
          sym suspicions ∙ suspicious,
          ground arith,
          ground arith,
          cut,
          tests,
        )
