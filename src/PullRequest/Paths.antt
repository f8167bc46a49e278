-- ===== src/PullRequest/Paths.antt =====
-- app/agents/pull_request_review.py: what a path says of a changed file.
use steh_v1_0_0_rc.Base.{ℕ, Bool, ◌||◌, List, [], ◌∷◌, ◌++◌, map, nat_eq, if◌then◌else◌, any}
use mathlib.Core.List.{reverse}
use steh_v1_0_0_rc.Models.Context.{Text}
use steh_v1_0_0_rc.Models.PullRequest.{GitHubPullRequestSnapshot}
use steh_v1_0_0_rc.External.{Library}
use steh_v1_0_0_rc.Context.Sanitize.{codes, text_eq, starts_with, contains_text}
use steh_v1_0_0_rc.Context.Order.{text_le}

abbrev pub slash : ℕ
slash = 47

-- `path.replace("\\", "/")`
unfoldable pub forward_slashes : Text → Text
forward_slashes [] = []
forward_slashes (c ∷ t) = (if nat_eq c 92 then slash else c) ∷ forward_slashes t

-- `t.endswith(part)`
unfoldable pub ends_with : Text → Text → Bool
unfolding starts_with
ends_with part t = starts_with (reverse part) (reverse t)

abbrev pub add_char : ℕ → List Text → List Text
add_char c [] = (c ∷ []) ∷ []
add_char c (part ∷ parts) = (c ∷ part) ∷ parts

-- `t.split("/")`, which has at least one part
unfoldable pub split_slash : Text → List Text
split_slash [] = [] ∷ []
split_slash (c ∷ t) =
    let parts = split_slash t in if nat_eq c slash then [] ∷ parts else add_char c parts

abbrev pub last_part : List Text → Text
last_part [] = []
last_part (part ∷ []) = part
last_part (part ∷ next ∷ parts) = last_part (next ∷ parts)

-- `"/".join(parts[:2]) if len(parts) > 1 else parts[0]`
unfoldable pub component : List Text → Text
component [] = []
component (part ∷ []) = part
component (part ∷ next ∷ parts) = part ++ (slash ∷ next)

-- Into a sorted list without repetitions.
unfoldable pub add_component : Text → List Text → List Text
unfolding text_eq text_le
add_component t [] = t ∷ []
add_component t (u ∷ us) =
    let rest = add_component t us in
    if text_eq t u then u ∷ us else if text_le t u then t ∷ u ∷ us else u ∷ rest

abbrev pub add_components : List Text → List Text
add_components [] = []
add_components (path ∷ paths) =
    add_component (component (split_slash (forward_slashes path))) (add_components paths)

-- `_changed_components`
unfoldable pub changed_components : GitHubPullRequestSnapshot → List Text
unfolding add_component component split_slash forward_slashes
changed_components pull_request = add_components (map (λ item. item.filename) pull_request.files)

abbrev pub code_suffixes : List Text
code_suffixes =
    codes ".c"
    ∷ codes ".cpp"
    ∷ codes ".cs"
    ∷ codes ".go"
    ∷ codes ".java"
    ∷ codes ".js"
    ∷ codes ".kt"
    ∷ codes ".php"
    ∷ codes ".py"
    ∷ codes ".rb"
    ∷ codes ".rs"
    ∷ codes ".ts"
    ∷ codes ".tsx"
    ∷ []

module _ (lib : Library) where
  -- `_is_test_file`
  unfoldable pub is_test_file : Text → Bool
  unfolding forward_slashes split_slash starts_with contains_text
  is_test_file path =
      let normalized = forward_slashes (lib.casefold path) in
      let name = last_part (split_slash normalized) in
      starts_with (codes "tests/") normalized
      || contains_text (codes "/tests/") normalized
      || starts_with (codes "test_") name
      || contains_text (codes ".test.") name
      || contains_text (codes ".spec.") name

  -- `_is_code_file`
  unfoldable pub is_code_file : Text → Bool
  unfolding ends_with
  is_code_file path = any (λ suffix. ends_with suffix (lib.casefold path)) code_suffixes

  -- `_is_sensitive_surface`
  unfoldable pub is_sensitive_surface : Text → Bool
  unfolding forward_slashes starts_with contains_text text_eq
  is_sensitive_surface path =
      let normalized = forward_slashes (lib.casefold path) in
      starts_with (codes ".github/workflows/") normalized
      || starts_with (codes "migrations/") normalized
      || starts_with (codes "policies/") normalized
      || (text_eq normalized (codes "dockerfile")
          || text_eq normalized (codes "scanner.dockerfile"))
      || contains_text (codes "/auth") normalized
      || contains_text (codes "/security") normalized
