-- ===== src/Context/Budget.antt =====
-- The token budget of the Context Engine: what the loop of `build` spends, keeps and reports.
use steh_v1_0_0_rc.Base.{
  ℕ, ◌+◌, ◌-◌, ◌*◌, ◌≤◌, ◌≡◌, refl, sym, ◌⊎◌, Bool, true, false, not, ◌||◌, List, [], ◌∷◌, ltb,
  length, take, take-le, take-all, length-take, sum_of, All, Bool-cases, inl, inr, ok, arith,
  nat_eq, >>=-eq-ok, raise_if, value_error,
}
use mathlib.Core.Path.{subst}
use mathlib.Core.List.{Perm}
use steh_v1_0_0_rc.Models.Context.{Text, ContextSourceInput, ContextSourceSnapshot, ContextBundle}
use steh_v1_0_0_rc.External.{Library}
use steh_v1_0_0_rc.Context.Sanitize.{SanitizedContextText, sanitize_context_text, estimate_tokens}
use steh_v1_0_0_rc.Context.Order.{sorted, unique_identities}
use steh_v1_0_0_rc.Context.Sorting.{length-sorted, sorted-perm}
use steh_v1_0_0_rc.Context.Whole.{AllWhole, snapshot-IsWhole}
use steh_v1_0_0_rc.Context.Build.{
  ContextEngine, Progress, snapshot, allowed_tokens, is_empty, collect, selected, build, bundle_of,
}

-- A text of at most 4 n characters is estimated at n tokens or fewer.
pub estimate_tokens-le : (n : ℕ) (t : Text) → length t ≤ n * 4 → estimate_tokens t ≤ n
unfolding estimate_tokens
estimate_tokens-le n [] h = omega arith
estimate_tokens-le n (c ∷ t) h = omega arith

abbrev pub total_tokens : List ContextSourceSnapshot → ℕ
total_tokens = sum_of (λ s. s.token_estimate)

module _ (lib : Library) (engine : ContextEngine) where
  abbrev pub WithinSource : ContextSourceSnapshot → Type 0
  WithinSource s = s.token_estimate ≤ engine.max_source_tokens

  pub snapshot-tokens :
      (source : ContextSourceInput) (t : SanitizedContextText) (n : ℕ)
      → (snapshot lib engine source t (n * 4)).token_estimate ≤ n
  unfolding snapshot
  snapshot-tokens source t n =
      estimate_tokens-le n (take (n * 4) t.content) (take-le (n * 4) t.content)

  -- What the loop has done when it ends.
  pub record Spent (sources : List ContextSourceInput) (remaining : ℕ) (truncated : Bool)
      (p : Progress) : Type 0 where
    pub balance : total_tokens p.snapshots + p.remaining_tokens ≡ remaining
    pub within : All WithinSource p.snapshots
    pub fewer : length p.snapshots ≤ length sources
    pub reported :
        p.bundle_truncated ≡ false
        → (truncated ≡ false)
          × (length p.snapshots ≡ length sources)
          × AllWhole lib sources p.snapshots

  -- What one round of the loop takes from a source.
  abbrev taken_from : ContextSourceInput → ℕ → ContextSourceSnapshot
  taken_from source remaining =
      snapshot lib engine source (sanitize_context_text lib source.content)
        (allowed_tokens lib engine remaining * 4)

  abbrev after : ContextSourceSnapshot → Progress → Progress
  after taken q = record q { snapshots = taken ∷ q.snapshots }

  collect-cons :
      (source : ContextSourceInput) (sources : List ContextSourceInput) (remaining : ℕ)
      (truncated : Bool) {p : Progress}
      → collect lib engine (source ∷ sources) remaining truncated ≡ ok p
      → (p ≡ record { snapshots = []; remaining_tokens = remaining; bundle_truncated = true })
        ⊎ ((q : Progress) × (collect lib engine sources
                (remaining - (taken_from source remaining).token_estimate)
                (truncated || (taken_from source remaining).truncated)
              ≡ ok q)
            × (p ≡ after (taken_from source remaining) q))
  unfolding collect
  collect-cons source sources remaining truncated h = elim (Bool-cases (nat_eq remaining 0)) [
    | inl e ↦ inl (ground arith)
    | inr e ↦ elim (Bool-cases (is_empty (sanitize_context_text lib source.content).content)) [
      | inl d ↦ absurd (ground arith)
      | inr d ↦
          let rest =
            collect lib engine sources (remaining - (taken_from source remaining).token_estimate)
              (truncated || (taken_from source remaining).truncated) in
          let (q, c, r) =
            >>=-eq-ok rest (λ q. ok (after (taken_from source remaining) q)) (rw (e, d) at h) in
          inr (q, c, cc)
    ]
  ]

  Spent-stop :
      (sources : List ContextSourceInput) (remaining : ℕ) (truncated : Bool)
      → Spent sources remaining truncated
          (record { snapshots = []; remaining_tokens = remaining; bundle_truncated = true })
  Spent-stop sources remaining truncated = record {
    balance = omega arith;
    within = tt;
    fewer = omega arith;
    reported = λ e. cc;
  }

  Spent-after :
      (source : ContextSourceInput) (sources : List ContextSourceInput) (remaining : ℕ)
      (truncated : Bool) (q : Progress)
      → Spent sources
          (remaining - (taken_from source remaining).token_estimate)
          (truncated || (taken_from source remaining).truncated)
          q
      → Spent (source ∷ sources) remaining truncated (after (taken_from source remaining) q)
  Spent-after source sources remaining truncated q r =
      let bound =
        snapshot-tokens source (sanitize_context_text lib source.content)
          (allowed_tokens lib engine remaining) in
      record {
        balance = omega (arith, r.balance);
        within = (omega arith, r.within);
        fewer = omega (arith, r.fewer);
        reported = λ e.
            let (c, n, u) = r.reported e in
            let whole : (taken_from source remaining).truncated ≡ false = ground arith in
            (ground arith, omega arith, (snapshot-IsWhole lib engine source _ whole, u));
      }

  pub collect-Spent :
      (sources : List ContextSourceInput) (remaining : ℕ) (truncated : Bool) {p : Progress}
      → collect lib engine sources remaining truncated ≡ ok p
      → Spent sources remaining truncated p
  unfolding collect
  collect-Spent [] remaining truncated {p} h =
      let e : record { snapshots = []; remaining_tokens = remaining; bundle_truncated = truncated }
          ≡ p =
        cc h in
      subst (Spent [] remaining truncated) e (record {
        balance = omega arith;
        within = tt;
        fewer = omega arith;
        reported = λ e. (e, refl, tt);
      })
  collect-Spent (source ∷ sources) remaining truncated h =
      elim (collect-cons source sources remaining truncated h) [
        | inl e ↦
            subst (Spent (source ∷ sources) remaining truncated) (sym e)
              (Spent-stop (source ∷ sources) remaining truncated)
        | inr (q, c, e) ↦
            subst (Spent (source ∷ sources) remaining truncated) (sym e)
              (Spent-after source sources remaining truncated q (collect-Spent sources _ _ c))
      ]

  -- What `build` did when it returned: the loop's end, and the bundle made of it.
  record Built (request : Text) (inputs : List ContextSourceInput) (now : ℕ) (b : ContextBundle)
      : Type 0 where
    pub progress : Progress
    pub spent :
        Spent
          (selected lib engine inputs)
          engine.max_tokens
          (ltb (length (selected lib engine inputs)) (length (sorted inputs)))
          progress
    pub made : bundle_of lib engine request now progress ≡ b

  build-Built :
      (request : Text) (inputs : List ContextSourceInput) (now : ℕ) {b : ContextBundle}
      → build lib engine request inputs now ≡ ok b
      → Built request inputs now b
  unfolding build
  build-Built request inputs now h =
      let (u, e, r) = >>=-eq-ok (raise_if (not (unique_identities inputs)) value_error) _ h in
      let left = ltb (length (selected lib engine inputs)) (length (sorted inputs)) in
      let (p, c, l) =
        >>=-eq-ok (collect lib engine (selected lib engine inputs) engine.max_tokens left)
          (λ p. ok (bundle_of lib engine request now p)) r in
      record {
        progress = p;
        spent = collect-Spent (selected lib engine inputs) engine.max_tokens left c;
        made = cc l;
      }

  -- If `build` returns, the bundle's tokens are within the budget and each source's within the limit
  -- for a source, and no more sources are kept than the limit.
  pub build_within_budget :
      (request : Text) (inputs : List ContextSourceInput) (now : ℕ) {b : ContextBundle}
      → build lib engine request inputs now ≡ ok b
      → (b.token_estimate ≤ engine.max_tokens)
        × All WithinSource b.sources
        × (length b.sources ≤ engine.max_sources)
  unfolding bundle_of
  build_within_budget request inputs now {b} h =
      let built = build-Built request inputs now h in
      let spent = built.spent in
      let count = length-take engine.max_sources (sorted inputs) in
      rw (← built.made)
        (omega (arith, spent.balance), spent.within, omega (arith, spent.fewer, count))

  -- If `build` returns a bundle that does not report a truncation, then the bundle has as many sources
  -- as were given: for each given source, in the order of `sorted`, one that has the source's id and
  -- version, the whole of its sanitised content, and no mark of a truncation.
  pub complete_bundle :
      (request : Text) (inputs : List ContextSourceInput) (now : ℕ) {b : ContextBundle}
      → build lib engine request inputs now ≡ ok b
      → b.truncated ≡ false
      → (length b.sources ≡ length inputs)
        × Perm (sorted inputs) inputs
        × AllWhole lib (sorted inputs) b.sources
  unfolding bundle_of
  complete_bundle request inputs now {b} h t =
      let built = build-Built request inputs now h in
      let count = length-take engine.max_sources (sorted inputs) in
      let unreported : built.progress.bundle_truncated ≡ false = cc (built.made, t) in
      let (f, n, whole) = built.spent.reported unreported in
      let fits : length (sorted inputs) ≤ engine.max_sources = ground (arith, f, count) in
      let every = take-all engine.max_sources (sorted inputs) fits in
      rw (← built.made) (
        ground (arith, f, n, count, length-sorted inputs),
        sorted-perm inputs,
        subst (λ sources. AllWhole lib sources built.progress.snapshots) every whole,
      )
