-- ===== src/Tests/Context.antt =====
-- The Context Engine of app/services/context.py on two sources, with texts that need no redaction.
use steh_v1_0_0_rc.Base.{
  ℕ, ◌≤◌, String, ◌≡◌, refl, true, false, List, [], ◌∷◌, length, All, Result, ok, err,
}
use steh_v1_0_0_rc.Models.Context.{ContextKind, ContextSourceInput, ContextBundle}
use steh_v1_0_0_rc.External.{Library}
use steh_v1_0_0_rc.Context.Sanitize.{
  codes, sanitize_context_text, normalize, redact, text_eq, starts_with, contains_text, strip,
  strip_left, is_space, replace_cr, replace_crlf, estimate_tokens,
}
use steh_v1_0_0_rc.Context.Order.{
  text_le, key_le, insert_source, sorted, same_identity, unique_identities,
}
use steh_v1_0_0_rc.Context.Build.{snapshot, collect, bundle_of, build}
use steh_v1_0_0_rc.Context.Budget.{WithinSource, build_within_budget, complete_bundle}
use steh_v1_0_0_rc.Context.Whole.{AllWhole}
use mathlib.Core.List.{Perm}
use steh_v1_0_0_rc.Tests.Data.{empty_bundle}

-- Hashing that forgets its argument, and texts in which no secret is found.
abbrev pub plain : Library
plain = record {
  sha256 = λ t. "0123456789abcdef";
  dumps = λ j. [];
  casefold = λ t. t;
  sub_private_key = λ t. t;
  sub_bearer = λ t. t;
  sub_known_token = λ t. t;
  sub_secret = λ t. t;
}

abbrev source_of : String → ℕ → String → ContextSourceInput
source_of id priority content = record {
  source_id = id;
  kind = ContextKind.policy;
  version = "1";
  content = codes content;
  priority = priority;
  metadata = [];
}

abbrev sources : List ContextSourceInput
sources = source_of "b" 10 "second source" ∷ source_of "a" 90 "first" ∷ []

abbrev bundle : ℕ → Result ContextBundle
bundle tokens =
    build plain (record { max_sources = 2; max_tokens = tokens; max_source_tokens = tokens })
      (codes "go") sources 5

abbrev made : Result ContextBundle → ContextBundle
made (ok b) = b
made (err e) = empty_bundle

builds :
    (bundle 3 ≡ ok (made (bundle 3)))
    × ((made (bundle 3)).truncated ≡ true)
    × (bundle 9 ≡ ok (made (bundle 9)))
    × ((made (bundle 9)).truncated ≡ false)
unfolding build collect bundle_of snapshot sanitize_context_text normalize redact text_eq
    starts_with contains_text strip strip_left is_space replace_cr replace_crlf estimate_tokens
    sorted insert_source key_le text_le same_identity unique_identities
builds = (refl, refl, refl, refl)

build_within_budget_example :
    ((made (bundle 3)).token_estimate ≤ 3)
    × All
        (WithinSource plain (record { max_sources = 2; max_tokens = 3; max_source_tokens = 3 }))
        (made (bundle 3)).sources
    × (length (made (bundle 3)).sources ≤ 2)
build_within_budget_example =
    build_within_budget plain (record { max_sources = 2; max_tokens = 3; max_source_tokens = 3 })
      (codes "go") sources 5 builds.0

complete_bundle_example :
    (length (made (bundle 9)).sources ≡ 2)
    × Perm (sorted sources) sources
    × AllWhole plain (sorted sources) (made (bundle 9)).sources
complete_bundle_example =
    complete_bundle plain (record { max_sources = 2; max_tokens = 9; max_source_tokens = 9 })
      (codes "go") sources 5 builds.2 builds.3
