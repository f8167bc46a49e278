-- ===== src/Prompts/Checks.antt =====
-- What a check of the lock file by app/services/prompts.py finds.
use mathlib.Core.Path.{subst}
use steh_v1_0_0_rc.Base.{
  ℕ, ◌≡◌, refl, String, Bool, true, false, not, some, List, [], ◌∷◌, ◌++◌, if◌then◌else◌, ◌==◌,
  eq_refl, All, Bool-cases, Option-cases, inl, inr, arith, Result, ok, >>=-eq-ok, traverse,
}
use steh_v1_0_0_rc.Models.Context.{Text}
use steh_v1_0_0_rc.Context.Sanitize.{codes}
use steh_v1_0_0_rc.Context.Order.{text_le}
use steh_v1_0_0_rc.External.{Library}
use steh_v1_0_0_rc.Prompts.Parse.{AgentPrompt, Source, load_prompt, sha256}
use steh_v1_0_0_rc.Prompts.Lock.{
  Entry, LockFile, LockText, lookup, locked_entry, at, changed_message, outdated_message,
  prompt_ids, lock_item, current_lock, same_entry, changed_text, pinned_violation, violation,
  insert_item, sorted_items, violations_of, lock_violations, exit_code, main,
}

-- The lock has the prompt that is read from its file, with its version and its hash, and nothing else.
abbrev pub Pinned : Library → Source → LockFile → String → Type 0
Pinned lib source locked prompt_id =
    (prompt : AgentPrompt) × (load_prompt source prompt_id ≡ ok prompt)
    × ((pinned : Entry) × (lookup prompt_id locked ≡ some pinned)
        × (same_entry pinned (locked_entry lib prompt) ≡ true))

insert_item-All :
    (P : String × Entry → Type 0) (x : String × Entry) (xs : LockFile)
    → P x
    → All P xs
    → All P (insert_item x xs)
unfolding insert_item
insert_item-All P x [] p h = (p, h)
insert_item-All P x (y ∷ ys) p h = elim (Bool-cases (text_le (codes x.0) (codes y.0))) [
  | inl e ↦ rw e (p, h)
  | inr e ↦ rw e (h.0, insert_item-All P x ys p h.1)
]

pub sorted_items-All :
    (P : String × Entry → Type 0) (xs : LockFile) → All P xs → All P (sorted_items xs)
unfolding sorted_items
sorted_items-All P [] h = tt
sorted_items-All P (x ∷ xs) h =
    insert_item-All P x (sorted_items xs) h.0 (sorted_items-All P xs h.1)

insert_item-All_inv :
    (P : String × Entry → Type 0) (x : String × Entry) (xs : LockFile)
    → All P (insert_item x xs)
    → P x × All P xs
unfolding insert_item
insert_item-All_inv P x [] h = h
insert_item-All_inv P x (y ∷ ys) h = elim (Bool-cases (text_le (codes x.0) (codes y.0))) [
  | inl e ↦ rw e at h
  | inr e ↦ let (p, rest) = insert_item-All_inv P x ys (rw e at h).1 in (p, ((rw e at h).0, rest))
]

sorted_items-All_inv :
    (P : String × Entry → Type 0) (xs : LockFile) → All P (sorted_items xs) → All P xs
unfolding sorted_items
sorted_items-All_inv P [] h = tt
sorted_items-All_inv P (x ∷ xs) h =
    let (p, rest) = insert_item-All_inv P x (sorted_items xs) h in
    (p, sorted_items-All_inv P xs rest)

append-empty {ℓ} : {A : Type ℓ} (xs ys : List A) → xs ++ ys ≡ [] → (xs ≡ []) × (ys ≡ [])
append-empty [] ys h = (refl, h)
append-empty (x ∷ xs) ys h = absurd (ground arith)

-- The loop over the items finds nothing exactly if it finds nothing for each.
violations_of-All :
    (locked : LockFile) (items : LockFile)
    → violations_of locked items ≡ ok []
    → All (λ item. violation locked item ≡ ok []) items
unfolding violations_of
violations_of-All locked [] h = tt
violations_of-All locked (item ∷ items) h =
    let (first, one, q) = >>=-eq-ok (violation locked item) _ h in
    let (rest, others, r) = >>=-eq-ok (violations_of locked items) _ q in
    let (e, f) = append-empty first rest (cc r) in
    (rw e at one, violations_of-All locked items (rw f at others))

pub All-violations_of :
    (locked : LockFile) (items : LockFile)
    → All (λ item. violation locked item ≡ ok []) items
    → violations_of locked items ≡ ok []
unfolding violations_of
All-violations_of locked [] h = refl
All-violations_of locked (item ∷ items) h = rw (h.0, All-violations_of locked items h.1) refl

same_entry_self :
    (lib : Library) (prompt : AgentPrompt)
    → same_entry (locked_entry lib prompt) (locked_entry lib prompt) ≡ true
unfolding same_entry locked_entry
same_entry_self lib prompt = rw (eq_refl prompt.version, eq_refl (sha256 lib prompt)) refl

changed_text_self :
    (lib : Library) (prompt : AgentPrompt)
    → changed_text (locked_entry lib prompt) (locked_entry lib prompt) ≡ ok false
unfolding changed_text locked_entry
changed_text_self lib prompt = rw (eq_refl (sha256 lib prompt)) refl

at-version :
    (lib : Library) (prompt : AgentPrompt)
    → at (locked_entry lib prompt) "version" ≡ ok prompt.version
unfolding locked_entry lookup
at-version lib prompt = refl

pub pinned_violation_self :
    (lib : Library) (prompt_id : String) (prompt : AgentPrompt)
    → pinned_violation prompt_id (locked_entry lib prompt) (locked_entry lib prompt) ≡ ok []
unfolding pinned_violation
pinned_violation_self lib prompt_id prompt =
    rw
      (
        at-version lib prompt,
        eq_refl prompt.version,
        changed_text_self lib prompt,
        same_entry_self lib prompt,
      )
      refl

silent :
    (changed same : Bool) (a b : String)
    → (if changed then a ∷ [] else if not same then b ∷ [] else []) ≡ []
    → same ≡ true
silent changed same a b h = ground arith

pinned_violation-none :
    (prompt_id : String) (entry pinned : Entry)
    → pinned_violation prompt_id entry pinned ≡ ok []
    → same_entry pinned entry ≡ true
unfolding pinned_violation
pinned_violation-none prompt_id entry pinned h =
    let (pinned_version, _, q) = >>=-eq-ok (at pinned "version") _ h in
    let (version, _, r) = >>=-eq-ok (at entry "version") _ q in
    let (changed, _, t) =
      >>=-eq-ok (if pinned_version == version then changed_text entry pinned else ok false) _ r in
    silent changed (same_entry pinned entry) (changed_message prompt_id version)
      (outdated_message prompt_id) (cc t)

violation-none :
    (locked : LockFile) (prompt_id : String) (entry : Entry)
    → violation locked (prompt_id, entry) ≡ ok []
    → (pinned : Entry) × (lookup prompt_id locked ≡ some pinned) × (same_entry pinned entry ≡ true)
unfolding violation
violation-none locked prompt_id entry h = elim (Option-cases (lookup prompt_id locked)) [
  | inl n ↦ absurd (cc (rw (n, violation) at h))
  | inr (pinned, n) ↦
      (pinned, n, pinned_violation-none prompt_id entry pinned (rw (n, violation) at h))
]

-- The items of the current lock, and the prompts that they stand for.
items-Pinned :
    (lib : Library) (source : Source) (locked : LockFile) (ids : List String) {items : LockFile}
    → traverse (lock_item lib source) ids ≡ ok items
    → All (λ item. violation locked item ≡ ok []) items
    → All (Pinned lib source locked) ids
unfolding lock_item
items-Pinned lib source locked [] e h = tt
items-Pinned lib source locked (prompt_id ∷ ids) {items} e h =
    let (item, one, q) = >>=-eq-ok (lock_item lib source prompt_id) _ e in
    let (rest, others, r) = >>=-eq-ok (traverse (lock_item lib source) ids) _ q in
    let (prompt, loaded, s) = >>=-eq-ok (load_prompt source prompt_id) _ one in
    let is : items ≡ (prompt_id, locked_entry lib prompt) ∷ rest = cc (r, s) in
    let checked : All (λ i. violation locked i ≡ ok [])
        ((prompt_id, locked_entry lib prompt) ∷ rest) =
      subst (λ l. All (λ i. violation locked i ≡ ok []) l) is h in
    let (pinned, found, same) =
      violation-none locked prompt_id (locked_entry lib prompt) checked.0 in
    ((prompt, loaded, (pinned, found, same)), items-Pinned lib source locked ids others checked.1)

exit_zero :
    (violations : List String) {file after : Text}
    → ◌≡◌ {A = Result (ℕ × Text)} (ok (exit_code violations, file)) (ok (0, after))
    → violations ≡ []
exit_zero [] h = refl
exit_zero (v ∷ violations) h = absurd (ground arith)

-- A check of the lock file succeeds only if the file can be read, and has each of the nine prompts with
-- the version and the hash that its own file gives.
pub check_pins_prompts :
    (lib : Library) (source : Source) (text : LockText) (file : Text) {after : Text}
    → main lib source text ("--check" ∷ []) file ≡ ok (0, after)
    → (locked : LockFile) × (text.loads file ≡ ok locked)
      × All (Pinned lib source locked) prompt_ids
unfolding main current_lock lock_violations
check_pins_prompts lib source text file h =
    let (current, e, q) = >>=-eq-ok (current_lock lib source) _ h in
    let (locked, read, r) = >>=-eq-ok (text.loads file) _ q in
    let (violations, found, t) = >>=-eq-ok (lock_violations current locked) _ r in
    let empty : violations ≡ [] = exit_zero violations t in
    (
      locked,
      read,
      items-Pinned lib source locked prompt_ids e (
          sorted_items-All_inv (λ item. violation locked item ≡ ok []) current
            (violations_of-All locked (sorted_items current) (cc (found, empty)))),
    )
