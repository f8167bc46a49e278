-- ===== src/PullRequest/Sanitize.antt =====
-- app/services/pull_request_reviews.py: the sanitised snapshot of a fetched pull request, and its receipt.
use steh_v1_0_0_rc.Base.{
  ℕ, ◌-◌, String, Bool, false, ◌&&◌, ◌||◌, Option, none, some, List, [], ◌∷◌, ltb, length, take,
  Result, ok, value_error, ◌>>=◌, ◌>>◌, raise_if,
}
use steh_v1_0_0_rc.Models.Context.{Text}
use steh_v1_0_0_rc.Models.PullRequest.{
  FetchedPullRequestFile, FetchedGitHubPullRequest, PullRequestFileSnapshot,
  GitHubPullRequestSnapshot, GitHubPullRequestReceipt,
}
use steh_v1_0_0_rc.External.{Library}
use steh_v1_0_0_rc.Context.Sanitize.{SanitizedContextText, sanitize_context_text}
use steh_v1_0_0_rc.Context.Build.{is_empty}

-- The dict that is dumped to JSON and hashed; `canonical` gives its text.
pub record CanonicalContent : Type 0 where
  pub repository : String
  pub pull_number : ℕ
  pub title : Text
  pub body : Text
  pub author : Text
  pub base_ref : Text
  pub base_sha : String
  pub head_ref : Text
  pub head_sha : String
  pub files : List PullRequestFileSnapshot

-- The variables that the loop over the files changes.
pub record Scan : Type 0 where
  pub files : List PullRequestFileSnapshot
  pub any_redacted : Bool
  pub any_suspicious : Bool
  pub any_truncated : Bool

-- `previous.redacted if previous is not None else False`
abbrev pub flag_of : (SanitizedContextText → Bool) → Option SanitizedContextText → Bool
flag_of flag none = false
flag_of flag (some text) = flag text

abbrev pub content_of : Option SanitizedContextText → Option Text
content_of none = none
content_of (some text) = some text.content

abbrev pub sanitize_previous : Library → Option Text → Option SanitizedContextText
sanitize_previous lib none = none
sanitize_previous lib (some name) = some (sanitize_context_text lib name)

module _ (lib : Library) (canonical : CanonicalContent → Text) where
  -- One round of the loop: a file, and the characters that are left for patches.
  unfoldable pub snapshot_file : FetchedPullRequestFile → ℕ → PullRequestFileSnapshot
  snapshot_file item remaining =
      let filename = sanitize_context_text lib item.filename in
      let previous = sanitize_previous lib item.previous_filename in
      let patch = sanitize_context_text lib item.patch in
      let safe_patch = take remaining patch.content in
      record {
        filename = filename.content;
        status = item.status;
        additions = item.additions;
        deletions = item.deletions;
        changes = item.changes;
        patch = safe_patch;
        previous_filename = content_of previous;
        patch_sha256 = lib.sha256 safe_patch;
        redacted = filename.redacted || patch.redacted || flag_of (λ t. t.redacted) previous;
        suspicious_instruction =
            filename.suspicious_instruction
            || patch.suspicious_instruction
            || flag_of (λ t. t.suspicious_instruction) previous;
        truncated =
            ltb remaining (length patch.content) || (is_empty patch.content && ltb 0 item.changes);
      }

  -- The loop over the files.
  unfoldable pub scan_files : List FetchedPullRequestFile → ℕ → Bool → Bool → Bool → Result Scan
  unfolding snapshot_file
  scan_files [] remaining redacted suspicious truncated = ok (record {
    files = [];
    any_redacted = redacted;
    any_suspicious = suspicious;
    any_truncated = truncated;
  })
  scan_files (item ∷ items) remaining redacted suspicious truncated =
      let file = snapshot_file item remaining in
      do
        raise_if (is_empty file.filename) value_error
        scan ←
            scan_files items (remaining - length file.patch) (redacted || file.redacted)
              (suspicious || file.suspicious_instruction) (truncated || file.truncated)
        ok (record scan { files = file ∷ scan.files })

  -- the fields of the snapshot
  unfoldable pub snapshot_of : FetchedGitHubPullRequest → Scan → GitHubPullRequestSnapshot
  snapshot_of pull_request scan =
      let title = sanitize_context_text lib pull_request.title in
      let body = sanitize_context_text lib pull_request.body in
      let author = sanitize_context_text lib pull_request.author in
      let base_ref = sanitize_context_text lib pull_request.base_ref in
      let head_ref = sanitize_context_text lib pull_request.head_ref in
      record {
        repository = pull_request.repository;
        pull_number = pull_request.pull_number;
        title = title.content;
        body = body.content;
        state = pull_request.state;
        author = author.content;
        pull_request_url = pull_request.pull_request_url;
        updated_at = pull_request.updated_at;
        base_ref = base_ref.content;
        base_sha = pull_request.base_sha;
        head_ref = head_ref.content;
        head_sha = pull_request.head_sha;
        draft = pull_request.draft;
        merged = pull_request.merged;
        changed_files = pull_request.changed_files;
        additions = pull_request.additions;
        deletions = pull_request.deletions;
        files = scan.files;
        content_sha256 = lib.sha256 (
            canonical (record {
              repository = pull_request.repository;
              pull_number = pull_request.pull_number;
              title = title.content;
              body = body.content;
              author = author.content;
              base_ref = base_ref.content;
              base_sha = pull_request.base_sha;
              head_ref = head_ref.content;
              head_sha = pull_request.head_sha;
              files = scan.files;
            }));
        redacted = scan.any_redacted;
        suspicious_instruction = scan.any_suspicious;
        truncated = scan.any_truncated;
      }

  -- `sanitize_github_pull_request`
  unfoldable pub sanitize_github_pull_request :
      FetchedGitHubPullRequest → ℕ → Result GitHubPullRequestSnapshot
  unfolding scan_files snapshot_of
  sanitize_github_pull_request pull_request max_patch_characters =
      let title = sanitize_context_text lib pull_request.title in
      let body = sanitize_context_text lib pull_request.body in
      let author = sanitize_context_text lib pull_request.author in
      let base_ref = sanitize_context_text lib pull_request.base_ref in
      let head_ref = sanitize_context_text lib pull_request.head_ref in
      do
        raise_if (ltb max_patch_characters 1) value_error
        raise_if (is_empty title.content || is_empty author.content) value_error
        raise_if (is_empty base_ref.content || is_empty head_ref.content) value_error
        scan ←
            scan_files pull_request.files max_patch_characters
              (title.redacted || body.redacted || author.redacted)
              (title.suspicious_instruction || body.suspicious_instruction
                || author.suspicious_instruction)
              pull_request.files_truncated
        ok (snapshot_of pull_request scan)

-- `github_pull_request_receipt`
unfoldable pub github_pull_request_receipt : GitHubPullRequestSnapshot → GitHubPullRequestReceipt
github_pull_request_receipt pull_request = record {
  repository = pull_request.repository;
  pull_number = pull_request.pull_number;
  state = pull_request.state;
  pull_request_url = pull_request.pull_request_url;
  updated_at = pull_request.updated_at;
  base_ref = pull_request.base_ref;
  base_sha = pull_request.base_sha;
  head_ref = pull_request.head_ref;
  head_sha = pull_request.head_sha;
  draft = pull_request.draft;
  merged = pull_request.merged;
  changed_files = pull_request.changed_files;
  fetched_files = length pull_request.files;
  additions = pull_request.additions;
  deletions = pull_request.deletions;
  content_sha256 = pull_request.content_sha256;
  redacted = pull_request.redacted;
  suspicious_instruction = pull_request.suspicious_instruction;
  truncated = pull_request.truncated;
}
