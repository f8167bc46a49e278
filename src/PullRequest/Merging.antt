-- ===== src/PullRequest/Merging.antt =====
-- `_merge_findings` of app/agents/pull_request_review.py keeps one finding for each identity.
use steh_v1_0_0_rc.Base.{
  ℕ, zero, suc, ◌≤◌, ◌≡◌, refl, sym, Option, none, some, true, false, ◌||◌, List, [], ◌∷◌, ◌++◌,
  any, All, All-take, length, take, take-le, take-all, Bool-cases, inl, inr, arith,
}
use mathlib.Core.Path.{subst}
use steh_v1_0_0_rc.Models.Context.{Text}
use steh_v1_0_0_rc.Models.PullRequest.{PullRequestFinding}
use steh_v1_0_0_rc.External.{Library}
use steh_v1_0_0_rc.Context.Sanitize.{text_eq}
use steh_v1_0_0_rc.PullRequest.Review.{same_finding, same_path, merge_loop, merge_findings}

text_eq_refl : (t : Text) → text_eq t t ≡ true
unfolding text_eq
text_eq_refl [] = refl
text_eq_refl (c ∷ t) = ground (arith, text_eq_refl t)

same_path_refl : (p : Option Text) → same_path p p ≡ true
unfolding same_path
same_path_refl none = refl
same_path_refl (some t) = text_eq_refl t

module _ (lib : Library) where
  same_finding_refl : (f : PullRequestFinding) → same_finding lib f f ≡ true
  unfolding same_finding
  same_finding_refl f =
      ground (arith, text_eq_refl (lib.casefold f.title), same_path_refl f.file_path)

  -- No finding has the identity of an earlier one.
  abbrev pub Apart : List PullRequestFinding → Type 0
  Apart [] = Unit
  Apart (f ∷ fs) = All (λ g. same_finding lib g f ≡ false) fs × Apart fs

  abbrev Unseen : List PullRequestFinding → PullRequestFinding → Type 0
  Unseen seen f = any (same_finding lib f) seen ≡ false

  Unseen-both :
      (f : PullRequestFinding) (seen fs : List PullRequestFinding)
      → All (Unseen (f ∷ seen)) fs
      → All (Unseen seen) fs × All (λ g. same_finding lib g f ≡ false) fs
  Unseen-both f seen [] h = (tt, tt)
  Unseen-both f seen (g ∷ gs) h =
      let (a, b) = Unseen-both f seen gs h.1 in ((ground arith, a), (ground arith, b))

  merge_loop-seen :
      (seen : List PullRequestFinding) (f : PullRequestFinding) (fs : List PullRequestFinding)
      → any (same_finding lib f) seen ≡ true
      → merge_loop lib seen (f ∷ fs) ≡ merge_loop lib seen fs
  unfolding merge_loop
  merge_loop-seen seen f fs e = ground arith

  merge_loop-new :
      (seen : List PullRequestFinding) (f : PullRequestFinding) (fs : List PullRequestFinding)
      → any (same_finding lib f) seen ≡ false
      → merge_loop lib seen (f ∷ fs) ≡ f ∷ merge_loop lib (f ∷ seen) fs
  unfolding merge_loop
  merge_loop-new seen f fs e = ground arith

  merge_loop-Apart :
      (seen fs : List PullRequestFinding)
      → All (Unseen seen) (merge_loop lib seen fs) × Apart (merge_loop lib seen fs)
  merge_loop-Apart seen [] = (unfold merge_loop in (tt, tt))
  merge_loop-Apart seen (f ∷ fs) = elim (Bool-cases (any (same_finding lib f) seen)) [
    | inl e ↦ rw (merge_loop-seen seen f fs e) (merge_loop-Apart seen fs)
    | inr e ↦
        let (a, b) = merge_loop-Apart (f ∷ seen) fs in
        let (c, d) = Unseen-both f seen (merge_loop lib (f ∷ seen) fs) a in
        rw (merge_loop-new seen f fs e) ((e, c), (d, b))
  ]

  Apart-take : (n : ℕ) (fs : List PullRequestFinding) → Apart fs → Apart (take n fs)
  Apart-take zero fs h = tt
  Apart-take (suc n) [] h = tt
  Apart-take (suc n) (f ∷ fs) h =
      (All-take (λ g. same_finding lib g f ≡ false) n fs h.0, Apart-take n fs h.1)

  -- The merged findings have pairwise different identities, and there are at most 100.
  merge_findings-Apart :
      (required proposed : List PullRequestFinding)
      → Apart (merge_findings lib required proposed)
        × (length (merge_findings lib required proposed) ≤ 100)
  unfolding merge_findings
  merge_findings-Apart required proposed =
      let all = merge_loop lib [] (required ++ proposed) in
      (Apart-take 100 all (merge_loop-Apart [] (required ++ proposed)).1, take-le 100 all)

  -- The identity is that of a finding of either list.
  abbrev Known : List PullRequestFinding → List PullRequestFinding → PullRequestFinding → Type 0
  Known out seen f = (any (same_finding lib f) out || any (same_finding lib f) seen) ≡ true

  Known-move :
      (f : PullRequestFinding) (out seen fs : List PullRequestFinding)
      → All (Known out (f ∷ seen)) fs
      → All (Known (f ∷ out) seen) fs
  Known-move f out seen [] h = tt
  Known-move f out seen (g ∷ gs) h = (ground arith, Known-move f out seen gs h.1)

  -- An identity that is in the list is among the merged ones or was seen before.
  merge_loop-Known :
      (seen fs : List PullRequestFinding) → All (Known (merge_loop lib seen fs) seen) fs
  merge_loop-Known seen [] = tt
  merge_loop-Known seen (f ∷ fs) = elim (Bool-cases (any (same_finding lib f) seen)) [
    | inl e ↦
        subst (λ out. All (Known out seen) (f ∷ fs)) (sym (merge_loop-seen seen f fs e))
          (ground arith, merge_loop-Known seen fs)
    | inr e ↦
        subst (λ out. All (Known out seen) (f ∷ fs)) (sym (merge_loop-new seen f fs e))
          (
            ground (arith, same_finding_refl f),
            Known-move f (merge_loop lib (f ∷ seen) fs) seen fs (merge_loop-Known (f ∷ seen) fs),
          )
  ]

  Known-nil :
      (out fs : List PullRequestFinding)
      → All (Known out []) fs
      → All (λ f. any (same_finding lib f) out ≡ true) fs
  Known-nil out [] h = tt
  Known-nil out (f ∷ fs) h = (ground arith, Known-nil out fs h.1)

  -- Unless more than 100 findings would be kept, every required and every proposed finding has its
  -- identity among the merged ones.
  pub merge_findings_complete :
      (required proposed : List PullRequestFinding)
      → length (merge_loop lib [] (required ++ proposed)) ≤ 100
      → All
          (λ f. any (same_finding lib f) (merge_findings lib required proposed) ≡ true)
          (required ++ proposed)
  unfolding merge_findings
  merge_findings_complete required proposed n =
      rw (take-all 100 (merge_loop lib [] (required ++ proposed)) n)
        (Known-nil _ (required ++ proposed) (merge_loop-Known [] (required ++ proposed)))
