-- ===== src/Context/Whole.antt =====
-- app/services/context.py: snapshots that have the whole of what a source holds.
use steh_v1_0_0_rc.Base.{ℕ, ◌≡◌, refl, false, List, [], ◌∷◌, take-all, arith}
use steh_v1_0_0_rc.Models.Context.{ContextSourceInput, ContextSourceSnapshot}
use steh_v1_0_0_rc.External.{Library}
use steh_v1_0_0_rc.Context.Sanitize.{sanitize_context_text}
use steh_v1_0_0_rc.Context.Build.{ContextEngine, snapshot}

module _ (lib : Library) where
  -- The snapshot names the source and has the whole of its sanitised content, and says so.
  pub record IsWhole (source : ContextSourceInput) (s : ContextSourceSnapshot) : Type 0 where
    pub id : s.source_id ≡ source.source_id
    pub version : s.version ≡ source.version
    pub content : s.content ≡ (sanitize_context_text lib source.content).content
    pub untruncated : s.truncated ≡ false

  -- There is one snapshot for each source, in the order of the sources, and each is whole.
  abbrev pub AllWhole : List ContextSourceInput → List ContextSourceSnapshot → Type 0
  AllWhole [] [] = Unit
  AllWhole [] (s ∷ snapshots) = ⊥
  AllWhole (source ∷ sources) [] = ⊥
  AllWhole (source ∷ sources) (s ∷ snapshots) = IsWhole source s × AllWhole sources snapshots

  pub snapshot-IsWhole :
      (engine : ContextEngine) (source : ContextSourceInput) (n : ℕ)
      → (snapshot lib engine source (sanitize_context_text lib source.content) n).truncated ≡ false
      → IsWhole source (snapshot lib engine source (sanitize_context_text lib source.content) n)
  unfolding snapshot
  snapshot-IsWhole engine source n h =
      let content = (sanitize_context_text lib source.content).content in
      record {
        id = refl;
        version = refl;
        content = take-all n content (ground arith);
        untruncated = h;
      }
