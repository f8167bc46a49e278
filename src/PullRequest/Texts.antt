-- ===== src/PullRequest/Texts.antt =====
-- The texts of a fetched pull request from which app/services/pull_request_reviews.py sets the flags of a
-- snapshot, and the flags of one file.
use steh_v1_0_0_rc.Base.{
  ℕ, ◌≡◌, refl, Bool, ◌||◌, Option, none, some, List, [], ◌∷◌, ◌++◌, any, arith,
}
use steh_v1_0_0_rc.Models.Context.{Text}
use steh_v1_0_0_rc.Models.PullRequest.{FetchedPullRequestFile, FetchedGitHubPullRequest}
use steh_v1_0_0_rc.External.{Library}
use steh_v1_0_0_rc.Context.Sanitize.{SanitizedContextText, sanitize_context_text}
use steh_v1_0_0_rc.PullRequest.Sanitize.{
  CanonicalContent, snapshot_file, flag_of, sanitize_previous,
}

-- The texts of a file: its name, its patch, and its former name if there is one.
abbrev previous_texts : Option Text → List Text
previous_texts none = []
previous_texts (some name) = name ∷ []

abbrev pub item_texts : FetchedPullRequestFile → List Text
item_texts item = item.filename ∷ item.patch ∷ previous_texts item.previous_filename

abbrev pub file_texts : List FetchedPullRequestFile → List Text
file_texts [] = []
file_texts (item ∷ items) = item_texts item ++ file_texts items

-- The texts of a pull request but for the names of its branches.
abbrev pub counted_texts : FetchedGitHubPullRequest → List Text
counted_texts pr = pr.title ∷ pr.body ∷ pr.author ∷ file_texts pr.files

-- Sanitising the text redacts something, or finds an instruction in it.
abbrev pub redacts : Library → Text → Bool
redacts lib t = (sanitize_context_text lib t).redacted

abbrev pub suspects : Library → Text → Bool
suspects lib t = (sanitize_context_text lib t).suspicious_instruction

module _ (lib : Library) (canonical : CanonicalContent → Text) where
  any-previous :
      (p : SanitizedContextText → Bool) (name : Option Text) (ts : List Text)
      → any (λ t. p (sanitize_context_text lib t)) (previous_texts name ++ ts)
        ≡ (flag_of p (sanitize_previous lib name) || any (λ t. p (sanitize_context_text lib t)) ts)
  any-previous p none ts = refl
  any-previous p (some name) ts = refl

  -- The flags of a file are those of its texts.
  pub snapshot_file-texts :
      (item : FetchedPullRequestFile) (remaining : ℕ) (ts : List Text)
      → (((snapshot_file lib canonical item remaining).redacted || any (redacts lib) ts)
          ≡ any (redacts lib) (item_texts item ++ ts))
        × (((snapshot_file lib canonical item remaining).suspicious_instruction
              || any (suspects lib) ts)
            ≡ any (suspects lib) (item_texts item ++ ts))
  unfolding snapshot_file
  snapshot_file-texts item remaining ts =
      let a = any-previous (λ t. t.redacted) item.previous_filename ts in
      let b = any-previous (λ t. t.suspicious_instruction) item.previous_filename ts in
      (rw a (ground arith), rw b (ground arith))
