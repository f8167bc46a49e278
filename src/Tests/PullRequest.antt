-- ===== src/Tests/PullRequest.antt =====
-- The review of app/agents/pull_request_review.py and the snapshot of
-- app/services/pull_request_reviews.py on a pull request of two files.
use steh_v1_0_0_rc.Base.{
  ℕ, ◌≤◌, String, ◌≡◌, refl, true, false, not, ◌&&◌, ◌||◌, none, List, [], ◌∷◌, ◌++◌, length, any,
  All, Result, ok, err, if◌then◌else◌, arith,
}
use steh_v1_0_0_rc.External.{Library}
use steh_v1_0_0_rc.Models.PullRequest.{
  FetchedPullRequestFile, FetchedGitHubPullRequest, GitHubPullRequestSnapshot,
  PullRequestFileStatus, PullRequestState, PullRequestRisk, PullRequestFinding,
  PullRequestReviewArtifact, ready_for_human_review, block,
}
use steh_v1_0_0_rc.Context.Sanitize.{
  codes, sanitize_context_text, normalize, redact, text_eq, starts_with, contains_text, strip,
  strip_left, is_space, replace_cr, replace_crlf,
}
use steh_v1_0_0_rc.PullRequest.Paths.{is_test_file, is_sensitive_surface, is_code_file}
use steh_v1_0_0_rc.PullRequest.Findings.{secret_finding, untested_finding}
use steh_v1_0_0_rc.PullRequest.Review.{
  merge_loop, merge_findings, same_finding, code_changed, tests_changed, run_stub, complete_review,
  run,
}
use steh_v1_0_0_rc.PullRequest.Risk.{AtLeast}
use steh_v1_0_0_rc.PullRequest.Verdict.{risk_covers_findings, redacted_is_blocked, ready_is_clean}
use steh_v1_0_0_rc.PullRequest.Merging.{merge_findings_complete}
use steh_v1_0_0_rc.PullRequest.Sanitize.{
  sanitize_github_pull_request, scan_files, snapshot_file, snapshot_of,
}
use steh_v1_0_0_rc.PullRequest.Texts.{redacts, suspects, counted_texts}
use steh_v1_0_0_rc.PullRequest.Patches.{patch_characters, patches_within_limit, snapshot_flags}
use steh_v1_0_0_rc.Tests.Data.{empty_bundle}
use steh_v1_0_0_rc.Tests.Context.{plain}

abbrev changed_file : String → String → FetchedPullRequestFile
changed_file name patch = record {
  filename = codes name;
  status = PullRequestFileStatus.modified;
  additions = 1;
  deletions = 0;
  changes = 1;
  patch = codes patch;
  previous_filename = none;
}

abbrev pub fetched : FetchedGitHubPullRequest
fetched = record {
  repository = "o/r";
  pull_number = 3;
  title = codes "Fix";
  body = [];
  state = PullRequestState.opened;
  author = codes "ana";
  pull_request_url = "u";
  updated_at = 4;
  base_ref = codes "main";
  base_sha = "b";
  head_ref = codes "fix";
  head_sha = "h";
  draft = false;
  merged = false;
  changed_files = 2;
  additions = 2;
  deletions = 0;
  files = changed_file "app/a.py" "+one" ∷ changed_file "tests/test_a.py" "+two" ∷ [];
  files_truncated = false;
}

abbrev sanitized : ℕ → Result GitHubPullRequestSnapshot
sanitized limit = sanitize_github_pull_request plain (λ c. c.title) fetched limit

-- what stands for a snapshot where none was returned
abbrev nothing : GitHubPullRequestSnapshot
nothing = record {
  repository = "";
  pull_number = 0;
  title = [];
  body = [];
  state = PullRequestState.closed;
  author = [];
  pull_request_url = "";
  updated_at = 0;
  base_ref = [];
  base_sha = "";
  head_ref = [];
  head_sha = "";
  draft = false;
  merged = false;
  changed_files = 0;
  additions = 0;
  deletions = 0;
  files = [];
  content_sha256 = "";
  redacted = false;
  suspicious_instruction = false;
  truncated = false;
}

abbrev taken : Result GitHubPullRequestSnapshot → GitHubPullRequestSnapshot
taken (ok s) = s
taken (err e) = nothing

sanitizes :
    (sanitized 5 ≡ ok (taken (sanitized 5)))
    × (length (taken (sanitized 5)).files ≡ 2)
    × ((taken (sanitized 5)).truncated ≡ true)
unfolding sanitize_github_pull_request scan_files snapshot_file snapshot_of sanitize_context_text
    normalize redact text_eq starts_with contains_text strip strip_left is_space replace_cr
    replace_crlf
sanitizes = (refl, refl, refl)

patches_within_limit_example :
    (patch_characters (taken (sanitized 5)).files ≤ 5) × (length (taken (sanitized 5)).files ≡ 2)
patches_within_limit_example = patches_within_limit plain (λ c. c.title) fetched 5 sanitizes.0

snapshot_flags_example :
    let title = sanitize_context_text plain (codes "Fix") in
    let body = sanitize_context_text plain [] in
    let author = sanitize_context_text plain (codes "ana") in
    let s = taken (sanitized 5) in
    (s.redacted
      ≡ (title.redacted || body.redacted || author.redacted || any (λ f. f.redacted) s.files))
    × (s.suspicious_instruction ≡ (
        title.suspicious_instruction
        || body.suspicious_instruction
        || author.suspicious_instruction
        || any (λ f. f.suspicious_instruction) s.files))
    × (s.truncated ≡ (false || any (λ f. f.truncated) s.files))
snapshot_flags_example = snapshot_flags plain (λ c. c.title) fetched 5 sanitizes.0

-- a library whose `sub_secret` replaces one secret
abbrev pub masking : Library
masking = record plain {
  sub_secret = λ t. if text_eq t (codes "token=abc") then codes "token=[REDACTED]" else t;
}

-- a pull request with the secret in a patch
abbrev pub fetched_leak : FetchedGitHubPullRequest
fetched_leak = record fetched { files = changed_file "app/a.py" "token=abc" ∷ [] }

abbrev pub leaking : GitHubPullRequestSnapshot
leaking = taken (sanitize_github_pull_request masking (λ c. c.title) fetched_leak 50)

pub leaks :
    (sanitize_github_pull_request masking (λ c. c.title) fetched_leak 50 ≡ ok leaking)
    × (any (redacts masking) (counted_texts fetched_leak) ≡ true)
    × (any (redacts masking) (counted_texts fetched) ≡ false)
unfolding sanitize_github_pull_request scan_files snapshot_file snapshot_of sanitize_context_text
    normalize redact text_eq starts_with contains_text strip strip_left is_space replace_cr
    replace_crlf
leaks = (refl, refl, refl)

abbrev reviewed : Library → GitHubPullRequestSnapshot → Result PullRequestReviewArtifact
reviewed lib pr = run lib none pr empty_bundle

abbrev review_of : Library → GitHubPullRequestSnapshot → PullRequestReviewArtifact
review_of lib pr = complete_review lib pr empty_bundle (run_stub lib pr empty_bundle)

reviews : (lib : Library) (pr : GitHubPullRequestSnapshot) → reviewed lib pr ≡ ok (review_of lib pr)
unfolding run
reviews lib pr = refl

-- the snapshot of a pull request that nothing is wrong with
abbrev clean : GitHubPullRequestSnapshot
clean = taken (sanitized 50)

is_clean :
    (sanitized 50 ≡ ok clean) × ((review_of plain clean).recommendation ≡ ready_for_human_review)
unfolding complete_review run_stub sanitize_github_pull_request scan_files snapshot_file snapshot_of
    sanitize_context_text normalize redact text_eq starts_with contains_text strip strip_left
    is_space replace_cr replace_crlf is_test_file is_sensitive_surface is_code_file
is_clean = (refl, refl)

risk_covers_findings_example :
    All (AtLeast (review_of masking leaking).risk_level) (review_of masking leaking).findings
risk_covers_findings_example =
    risk_covers_findings masking none leaking empty_bundle (reviews masking leaking)

redacted_is_blocked_example :
    ((review_of masking leaking).recommendation ≡ block)
    × ((review_of masking leaking).risk_level ≡ PullRequestRisk.critical)
    × ((review_of masking leaking).requires_human_review ≡ true)
    × ((rest : List PullRequestFinding) × ((review_of masking leaking).findings
          ≡ secret_finding ∷ rest))
redacted_is_blocked_example =
    redacted_is_blocked masking (λ c. c.title) fetched_leak 50 leaks.0 none empty_bundle
      (reviews masking leaking) leaks.1

ready_is_clean_example :
    (any (redacts plain) (counted_texts fetched) ≡ false)
    × (any (suspects plain) (counted_texts fetched) ≡ false)
    × (false ≡ false)
    × (any (λ f. f.truncated) clean.files ≡ false)
    × (false ≡ false)
    × ((code_changed plain clean && not (tests_changed plain clean)) ≡ false)
ready_is_clean_example =
    ready_is_clean plain (λ c. c.title) fetched 50 is_clean.0 none empty_bundle
      (reviews plain clean) is_clean.1

abbrev twice : List PullRequestFinding
twice = secret_finding ∷ untested_finding (codes "a.py") ∷ secret_finding ∷ []

short : length (merge_loop plain [] (twice ++ twice)) ≡ 2
unfolding merge_loop same_finding
short = refl

merge_findings_complete_example :
    All (λ f. any (same_finding plain f) (merge_findings plain twice twice) ≡ true) (twice ++ twice)
merge_findings_complete_example = merge_findings_complete plain twice twice (omega (arith, short))
