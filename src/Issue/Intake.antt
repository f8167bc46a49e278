-- ===== src/Issue/Intake.antt =====
-- What a task from an issue starts with: the snapshot and the analysis, and how
-- `accept_github_issue` of app/services/github_issues.py ends.
use steh_v1_0_0_rc.Base.{
  ℕ, ◌≡◌, ◌≤◌, refl, false, not, Option, none, some, List, [], ◌∷◌, map, select, ltb, length, take,
  take-le, length-take, Bool-cases, inl, inr, All, Result, ok, err, arith, >>=-eq-ok,
}
use steh_v1_0_0_rc.Models.Context.{Text}
use steh_v1_0_0_rc.Models.Issue.{FetchedGitHubIssue, GitHubIssueSnapshot, IssueAnalysisArtifact}
use steh_v1_0_0_rc.Settings.{Settings}
use steh_v1_0_0_rc.External.{Library}
use steh_v1_0_0_rc.Context.Sanitize.{SanitizedContextText, sanitize_context_text}
use steh_v1_0_0_rc.Context.Build.{is_empty}
use steh_v1_0_0_rc.Db.{JobKind, Session}
use steh_v1_0_0_rc.Db.Insert.{insert_task}
use steh_v1_0_0_rc.Tasks.Accepting.{Accepts}
use steh_v1_0_0_rc.Issue.Sanitize.{CanonicalIssue, issue_snapshot, sanitize_github_issue}
use steh_v1_0_0_rc.Issue.Analysis.{run_stub, analyse}
use steh_v1_0_0_rc.Issue.Service.{Codec, accept_github_issue}

-- The contents that are kept are not empty.
kept-All :
    (texts : List SanitizedContextText)
    → All
        (λ label. is_empty label ≡ false)
        (map (λ t. t.content) (select (λ t. not (is_empty t.content)) texts))
kept-All [] = tt
kept-All (t ∷ texts) = elim (Bool-cases (is_empty t.content)) [
  | inl e ↦ rw e (kept-All texts)
  | inr e ↦ rw e (e, kept-All texts)
]

module _ (lib : Library) (canonical : CanonicalIssue → Text) where
  sanitized :
      (issue : FetchedGitHubIssue) (limit : ℕ) {s : GitHubIssueSnapshot}
      → sanitize_github_issue lib canonical issue limit ≡ ok s
      → (is_empty (sanitize_context_text lib issue.title).content ≡ false)
        × (is_empty (sanitize_context_text lib issue.author).content ≡ false)
        × (issue_snapshot lib canonical issue limit ≡ s)
  unfolding sanitize_github_issue
  sanitized issue limit h = (ground arith, ground arith, ground arith)

  -- A snapshot has a title, an author and no empty label, its body is a prefix of the sanitised body
  -- within the limit, and it is marked truncated exactly if the body is not all of it.
  issue_is_bounded :
      (issue : FetchedGitHubIssue) (limit : ℕ) {s : GitHubIssueSnapshot}
      → sanitize_github_issue lib canonical issue limit ≡ ok s
      → (is_empty s.title ≡ false)
        × (is_empty s.author ≡ false)
        × All (λ label. is_empty label ≡ false) s.labels
        × (s.body ≡ take limit (sanitize_context_text lib issue.body).content)
        × (length s.body ≤ limit)
        × (s.truncated
            ≡ ltb (length s.body) (length (sanitize_context_text lib issue.body).content))
  unfolding issue_snapshot
  issue_is_bounded issue limit h =
      let (titled, authored, e) = sanitized issue limit h in
      let body = (sanitize_context_text lib issue.body).content in
      rw (← e) (
        titled,
        authored,
        kept-All (map (sanitize_context_text lib) issue.labels),
        refl,
        take-le limit body,
        ground (arith, length-take limit body),
      )

-- Whatever a model answers, the analysis that the agent returns names the issue that was analysed.
analysis_names_issue :
    (lib : Library) (model : Option (GitHubIssueSnapshot → Result IssueAnalysisArtifact))
    (issue : GitHubIssueSnapshot) {a : IssueAnalysisArtifact}
    → analyse lib model issue ≡ ok a
    → (a.repository ≡ issue.repository)
      × (a.issue_number ≡ issue.issue_number)
      × (a.issue_url ≡ issue.issue_url)
      × (a.issue_updated_at ≡ issue.updated_at)
      × (a.source_content_sha256 ≡ issue.content_sha256)
unfolding analyse run_stub
analysis_names_issue lib none issue h =
    (ground arith, ground arith, ground arith, ground arith, ground arith)
analysis_names_issue lib (some model) issue h =
    let (answer, _, e) = >>=-eq-ok (model issue) _ h in
    (ground arith, ground arith, ground arith, ground arith, ground arith)

-- Accepting an issue adds to the committed tasks one that is QUEUED and to the committed jobs a queued
-- one that analyses it, and no other; if the issue cannot be fetched or sanitised it raises and changes
-- no table.
pub accept_issue_queues_job :
    (lib : Library) (codec : Codec) (settings : Settings) (fetched : Result FetchedGitHubIssue)
    (s : Session)
    → Accepts JobKind.analyze_github_issue s (accept_github_issue lib codec settings fetched s)
unfolding accept_github_issue insert_task
accept_issue_queues_job lib codec settings (err e) s = (refl, refl)
accept_issue_queues_job lib codec settings (ok issue) s =
    snapshot-Accepts
      (sanitize_github_issue lib codec.content issue settings.github_issue_max_body_chars) refl
  where
    snapshot-Accepts :
        (r : Result GitHubIssueSnapshot)
        → sanitize_github_issue lib codec.content issue settings.github_issue_max_body_chars ≡ r
        → Accepts JobKind.analyze_github_issue s
            (accept_github_issue lib codec settings (ok issue) s)
    snapshot-Accepts (err e) h = rw h (refl, refl)
    snapshot-Accepts (ok snapshot) h = rw h (_, refl, refl, refl, refl, refl, refl, refl)
