-- ===== src/Prompts/Written.antt =====
-- A lock file that app/services/prompts.py has written passes its own check.
use mathlib.Core.Path.{subst}
use steh_v1_0_0_rc.Base.{
  ◌≡◌, refl, ◌∙◌, String, Bool, true, false, not, ◌&&◌, some, List, [], ◌∷◌, ◌++◌, all, ◌==◌,
  eq_refl, All, and-true, arith, ok, >>=-eq-ok, traverse,
}
use steh_v1_0_0_rc.Models.Context.{Text}
use steh_v1_0_0_rc.Context.Sanitize.{codes}
use steh_v1_0_0_rc.External.{Library}
use steh_v1_0_0_rc.Prompts.Parse.{Source, load_prompt}
use steh_v1_0_0_rc.Prompts.Lock.{
  Entry, LockFile, LockText, lookup, locked_entry, prompt_ids, lock_item, current_lock,
  pinned_violation, violation, sorted_items, lock_violations, main,
}
use steh_v1_0_0_rc.Prompts.Checks.{sorted_items-All, All-violations_of, pinned_violation_self}

-- No key stands twice in the list.
abbrev distinct : List String → Bool
distinct [] = true
distinct (k ∷ ks) = all (λ j. not (k == j)) ks && distinct ks

distinct_ids : distinct prompt_ids ≡ true
distinct_ids = refl

-- The keys are looked up alike in both lists.
abbrev Alike : LockFile → LockFile → List String → Type 0
Alike locked items = All (λ k. lookup k locked ≡ lookup k items)

Alike-refl : (locked : LockFile) (ks : List String) → Alike locked locked ks
Alike-refl locked [] = tt
Alike-refl locked (k ∷ ks) = (refl, Alike-refl locked ks)

lookup-skip :
    (k j : String) (v : Entry) (items : LockFile)
    → (k == j) ≡ false
    → lookup j ((k, v) ∷ items) ≡ lookup j items
unfolding lookup
lookup-skip k j v items h = rw h refl

lookup-first : (k : String) (v : Entry) (items : LockFile) → lookup k ((k, v) ∷ items) ≡ some v
unfolding lookup
lookup-first k v items = rw (eq_refl k) refl

Alike-rest :
    (locked items : LockFile) (k : String) (v : Entry) (ks : List String)
    → all (λ j. not (k == j)) ks ≡ true
    → Alike locked ((k, v) ∷ items) ks
    → Alike locked items ks
Alike-rest locked items k v [] d h = tt
Alike-rest locked items k v (j ∷ ks) d h =
    let (other, later) = and-true (not (k == j)) (all (λ i. not (k == i)) ks) d in
    (
      h.0 ∙ lookup-skip k j v items (ground (arith, other)),
      Alike-rest locked items k v ks later h.1,
    )

violation-found :
    (locked : LockFile) (prompt_id : String) (entry : Entry)
    → lookup prompt_id locked ≡ some entry
    → pinned_violation prompt_id entry entry ≡ ok []
    → violation locked (prompt_id, entry) ≡ ok []
unfolding violation
violation-found locked prompt_id entry found same = rw (found, violation) same

-- What is written for a prompt is found under its id, and raises no objection.
items-none :
    (lib : Library) (source : Source) (locked : LockFile) (ids : List String) {items : LockFile}
    → traverse (lock_item lib source) ids ≡ ok items
    → distinct ids ≡ true
    → Alike locked items ids
    → All (λ item. violation locked item ≡ ok []) items
unfolding lock_item
items-none lib source locked [] {items} e d h = let same : [] ≡ items = cc e in rw (← same) tt
items-none lib source locked (prompt_id ∷ ids) {items} e d h =
    let (item, one, q) = >>=-eq-ok (lock_item lib source prompt_id) _ e in
    let (rest, others, r) = >>=-eq-ok (traverse (lock_item lib source) ids) _ q in
    let (prompt, _, s) = >>=-eq-ok (load_prompt source prompt_id) _ one in
    let is : items ≡ (prompt_id, locked_entry lib prompt) ∷ rest = cc (r, s) in
    let (fresh, later) = and-true (all (λ j. not (prompt_id == j)) ids) (distinct ids) d in
    let alike : Alike locked ((prompt_id, locked_entry lib prompt) ∷ rest) (prompt_id ∷ ids) =
      subst (λ l. Alike locked l (prompt_id ∷ ids)) is h in
    let found = alike.0 ∙ lookup-first prompt_id (locked_entry lib prompt) rest in
    rw is (
      violation-found locked prompt_id (locked_entry lib prompt) found
          (pinned_violation_self lib prompt_id prompt),
      items-none lib source locked ids others later
          (Alike-rest locked rest prompt_id (locked_entry lib prompt) ids fresh alike.1),
    )

-- If the current lock is read back from the text that is written for it, then after `--write-lock` the check of
-- the same prompts succeeds and leaves the file as it is.
pub check_after_write :
    (lib : Library) (source : Source) (text : LockText) (file : Text) {written : Text}
    → ((lock : LockFile)
        → current_lock lib source ≡ ok lock
        → text.loads (text.dumps lock ++ codes "\n") ≡ ok lock)
    → main lib source text ("--write-lock" ∷ []) file ≡ ok (0, written)
    → main lib source text ("--check" ∷ []) written ≡ ok (0, written)
unfolding main current_lock lock_violations
check_after_write lib source text file {written} read_back h =
    let (current, e, q) = >>=-eq-ok (traverse (lock_item lib source) prompt_ids) _ h in
    let is : text.dumps current ++ codes "\n" ≡ written = cc q in
    let clean = All-violations_of current (sorted_items current) (
      sorted_items-All (λ item. violation current item ≡ ok []) current
        (items-none lib source current prompt_ids e distinct_ids
          (Alike-refl current prompt_ids))) in
    rw (← is, e, read_back current e, clean) refl
