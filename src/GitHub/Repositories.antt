-- ===== src/GitHub/Repositories.antt =====
-- Which repositories the clients of GitHub's API may read: `_allowed_repositories`, and the `full_name`
-- of a reference in app/models/github_issue.py and app/models/github_pull_request.py.
use steh_v1_0_0_rc.Base.{
  ℕ, String, Bool, List, [], ◌∷◌, any, map, select, nat_eq, if◌then◌else◌, concat, non_empty,
}
use steh_v1_0_0_rc.Models.Context.{Text}
use steh_v1_0_0_rc.Context.Sanitize.{codes, text_eq, strip}
use steh_v1_0_0_rc.External.{Library}

-- A reference to an issue or to a pull request.
pub record Reference : Type 0 where
  pub owner : String
  pub repository : String
  pub number : ℕ

abbrev pub full_name : Reference → String
full_name reference = concat reference.owner (concat "/" reference.repository)

abbrev pub add_char : ℕ → List Text → List Text
add_char c [] = (c ∷ []) ∷ []
add_char c (part ∷ parts) = (c ∷ part) ∷ parts

-- `value.split(",")`
unfoldable pub split_comma : Text → List Text
split_comma [] = [] ∷ []
split_comma (c ∷ t) =
    let parts = split_comma t in if nat_eq c 44 then [] ∷ parts else add_char c parts

-- `_allowed_repositories`
unfoldable pub allowed_repositories : Text → List Text
unfolding split_comma strip
allowed_repositories value = select non_empty (map strip (split_comma value))

-- `reference.full_name.casefold() in self.allowed_repositories`
unfoldable pub is_allowed : Library → List Text → Reference → Bool
unfolding text_eq
is_allowed lib allowed reference =
    any (text_eq (lib.casefold (codes (full_name reference)))) allowed
