-- ===== src/PullRequest/Patches.antt =====
-- What a snapshot of app/services/pull_request_reviews.py keeps of the patches, and what it reports.
use steh_v1_0_0_rc.Base.{
  ℕ, ◌-◌, ◌≤◌, ◌≡◌, Bool, ◌||◌, ◌++◌, List, [], ◌∷◌, any, ltb, length, take-le, sum_of, ok, arith,
  >>=-eq-ok, raise_if, value_error,
}
use mathlib.Core.Path.{subst}
use steh_v1_0_0_rc.Models.Context.{Text}
use steh_v1_0_0_rc.Models.PullRequest.{
  FetchedPullRequestFile, FetchedGitHubPullRequest, PullRequestFileSnapshot,
  GitHubPullRequestSnapshot,
}
use steh_v1_0_0_rc.External.{Library}
use steh_v1_0_0_rc.Context.Sanitize.{sanitize_context_text}
use steh_v1_0_0_rc.Context.Build.{is_empty}
use steh_v1_0_0_rc.PullRequest.Texts.{
  redacts, suspects, item_texts, file_texts, counted_texts, snapshot_file-texts,
}
use steh_v1_0_0_rc.PullRequest.Sanitize.{
  CanonicalContent, Scan, snapshot_file, scan_files, snapshot_of, sanitize_github_pull_request,
}

-- The characters of all patches.
abbrev pub patch_characters : List PullRequestFileSnapshot → ℕ
patch_characters = sum_of (λ f. length f.patch)

module _ (lib : Library) (canonical : CanonicalContent → Text) where
  -- What the loop did when it returned: the budget, and how its flags come from those of the files.
  record Scanned (items : List FetchedPullRequestFile) (remaining : ℕ)
      (redacted suspicious truncated : Bool) (scan : Scan) : Type 0 where
    pub budget : patch_characters scan.files ≤ remaining
    pub every : length scan.files ≡ length items
    pub redactions : scan.any_redacted ≡ (redacted || any (λ f. f.redacted) scan.files)
    pub suspicions :
        scan.any_suspicious ≡ (suspicious || any (λ f. f.suspicious_instruction) scan.files)
    pub truncations : scan.any_truncated ≡ (truncated || any (λ f. f.truncated) scan.files)
    pub redacted_texts : any (λ f. f.redacted) scan.files ≡ any (redacts lib) (file_texts items)
    pub suspicious_texts :
        any (λ f. f.suspicious_instruction) scan.files ≡ any (suspects lib) (file_texts items)

  snapshot_file-patch :
      (item : FetchedPullRequestFile) (remaining : ℕ)
      → length (snapshot_file lib canonical item remaining).patch ≤ remaining
  unfolding snapshot_file
  snapshot_file-patch item remaining = take-le remaining _

  Scanned-cons :
      (item : FetchedPullRequestFile) (items : List FetchedPullRequestFile) (remaining : ℕ)
      (redacted suspicious truncated : Bool) (scan : Scan) (file : PullRequestFileSnapshot)
      {out : Scan}
      → length file.patch ≤ remaining
      → ((ts : List Text)
          → ((file.redacted || any (redacts lib) ts) ≡ any (redacts lib) (item_texts item ++ ts))
            × ((file.suspicious_instruction || any (suspects lib) ts)
                ≡ any (suspects lib) (item_texts item ++ ts)))
      → Scanned items
          (remaining - length file.patch)
          (redacted || file.redacted)
          (suspicious || file.suspicious_instruction)
          (truncated || file.truncated)
          scan
      → ok (record scan { files = file ∷ scan.files }) ≡ ok out
      → Scanned (item ∷ items) remaining redacted suspicious truncated out
  Scanned-cons item items remaining redacted suspicious truncated scan file {out} fits texts rest
        l =
      let same : record scan { files = file ∷ scan.files } ≡ out = cc l in
      subst (Scanned (item ∷ items) remaining redacted suspicious truncated) same (record {
        budget = omega (arith, rest.budget);
        every = omega (arith, rest.every);
        redactions = ground (arith, rest.redactions);
        suspicions = ground (arith, rest.suspicions);
        truncations = ground (arith, rest.truncations);
        redacted_texts = rw rest.redacted_texts (texts (file_texts items)).0;
        suspicious_texts = rw rest.suspicious_texts (texts (file_texts items)).1;
      })

  scan_files-Scanned :
      (items : List FetchedPullRequestFile) (remaining : ℕ) (redacted suspicious truncated : Bool)
      {scan : Scan}
      → scan_files lib canonical items remaining redacted suspicious truncated ≡ ok scan
      → Scanned items remaining redacted suspicious truncated scan
  unfolding scan_files
  scan_files-Scanned [] remaining redacted suspicious truncated h = ground arith
  scan_files-Scanned (item ∷ items) remaining redacted suspicious truncated h =
      let file = snapshot_file lib canonical item remaining in
      let (u, e, r) = >>=-eq-ok (raise_if (is_empty file.filename) value_error) _ h in
      let (scan, q, l) =
        >>=-eq-ok
          (scan_files lib canonical items (remaining - length file.patch)
            (redacted || file.redacted) (suspicious || file.suspicious_instruction)
            (truncated || file.truncated))
          _ r in
      let rest = scan_files-Scanned items _ _ _ _ q in
      let fits = snapshot_file-patch item remaining in
      Scanned-cons item items remaining redacted suspicious truncated scan file fits
        (snapshot_file-texts lib canonical item remaining) rest l

  -- What `sanitize_github_pull_request` did when it returned.
  record Sanitized (pr : FetchedGitHubPullRequest) (limit : ℕ) (s : GitHubPullRequestSnapshot)
      : Type 0 where
    pub scan : Scan
    pub scanned :
        let title = sanitize_context_text lib pr.title in
        let body = sanitize_context_text lib pr.body in
        let author = sanitize_context_text lib pr.author in
        Scanned pr.files limit
          (title.redacted || body.redacted || author.redacted)
          (title.suspicious_instruction || body.suspicious_instruction
            || author.suspicious_instruction)
          pr.files_truncated
          scan
    pub made : snapshot_of lib canonical pr scan ≡ s

  sanitize-Sanitized :
      (pr : FetchedGitHubPullRequest) (limit : ℕ) {s : GitHubPullRequestSnapshot}
      → sanitize_github_pull_request lib canonical pr limit ≡ ok s
      → Sanitized pr limit s
  unfolding sanitize_github_pull_request
  sanitize-Sanitized pr limit h =
      let (u, e, r) = >>=-eq-ok (raise_if (ltb limit 1) value_error) _ h in
      let (u', e', r') =
        >>=-eq-ok
          (raise_if
            (is_empty (sanitize_context_text lib pr.title).content
              || is_empty (sanitize_context_text lib pr.author).content)
            value_error)
          _ r in
      let (u'', e'', r'') =
        >>=-eq-ok
          (raise_if
            (is_empty (sanitize_context_text lib pr.base_ref).content
              || is_empty (sanitize_context_text lib pr.head_ref).content)
            value_error)
          _ r' in
      let (scan, q, l) =
        >>=-eq-ok (scan_files lib canonical pr.files limit _ _ pr.files_truncated) _ r'' in
      record { scan = scan; scanned = scan_files-Scanned pr.files limit _ _ _ q; made = cc l }

  -- If a pull request is sanitised with a limit, the snapshot has every file, and the patches that it
  -- keeps have no more characters together than the limit.
  pub patches_within_limit :
      (pr : FetchedGitHubPullRequest) (limit : ℕ) {s : GitHubPullRequestSnapshot}
      → sanitize_github_pull_request lib canonical pr limit ≡ ok s
      → (patch_characters s.files ≤ limit) × (length s.files ≡ length pr.files)
  unfolding snapshot_of
  patches_within_limit pr limit h =
      let z = sanitize-Sanitized pr limit h in rw (← z.made) (z.scanned.budget, z.scanned.every)

  -- The flags of a snapshot: redacted and suspicious exactly if the title, the body, the author or a
  -- file is, truncated exactly if the list of files or a file is. The refs do not count.
  pub snapshot_flags :
      (pr : FetchedGitHubPullRequest) (limit : ℕ) {s : GitHubPullRequestSnapshot}
      → sanitize_github_pull_request lib canonical pr limit ≡ ok s
      → let title = sanitize_context_text lib pr.title in
        let body = sanitize_context_text lib pr.body in
        let author = sanitize_context_text lib pr.author in
        (s.redacted
          ≡ (title.redacted || body.redacted || author.redacted || any (λ f. f.redacted) s.files))
        × (s.suspicious_instruction ≡ (
            title.suspicious_instruction
            || body.suspicious_instruction
            || author.suspicious_instruction
            || any (λ f. f.suspicious_instruction) s.files))
        × (s.truncated ≡ (pr.files_truncated || any (λ f. f.truncated) s.files))
  unfolding snapshot_of
  snapshot_flags pr limit h =
      let z = sanitize-Sanitized pr limit h in
      rw (← z.made) (
        ground (arith, z.scanned.redactions),
        ground (arith, z.scanned.suspicions),
        z.scanned.truncations,
      )

  -- The flags of a snapshot in terms of the fetched texts.
  pub counted_flags :
      (pr : FetchedGitHubPullRequest) (limit : ℕ) {s : GitHubPullRequestSnapshot}
      → sanitize_github_pull_request lib canonical pr limit ≡ ok s
      → (s.redacted ≡ any (redacts lib) (counted_texts pr))
        × (s.suspicious_instruction ≡ any (suspects lib) (counted_texts pr))
  unfolding snapshot_of
  counted_flags pr limit h =
      let z = sanitize-Sanitized pr limit h in
      rw (← z.made) (
        ground (arith, z.scanned.redactions, z.scanned.redacted_texts),
        ground (arith, z.scanned.suspicions, z.scanned.suspicious_texts),
      )
