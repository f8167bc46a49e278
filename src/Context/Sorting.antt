-- ===== src/Context/Sorting.antt =====
-- The sources are taken in an order that loses none and never prefers a lower priority.
use steh_v1_0_0_rc.Base.{
  ℕ, suc, ◌≤◌, ◌≡◌, refl, true, false, List, [], ◌∷◌, map, length, All, arith, Bool-cases, inl, inr,
}
use mathlib.Core.List.{Perm}
use mathlib.Core.List.Perm
use steh_v1_0_0_rc.Models.Context.{ContextSourceInput}
use steh_v1_0_0_rc.Context.Order.{key_le, insert_source, sorted}

length-insert_source :
    (x : ContextSourceInput) (ys : List ContextSourceInput)
    → length (insert_source x ys) ≡ suc (length ys)
unfolding insert_source
length-insert_source x [] = refl
length-insert_source x (y ∷ ys) = ground (arith, length-insert_source x ys)

pub length-sorted : (xs : List ContextSourceInput) → length (sorted xs) ≡ length xs
unfolding sorted
length-sorted [] = refl
length-sorted (x ∷ xs) = omega (arith, length-insert_source x (sorted xs), length-sorted xs)

insert_source-perm :
    (x : ContextSourceInput) (ys : List ContextSourceInput) → Perm (insert_source x ys) (x ∷ ys)
unfolding insert_source
insert_source-perm x [] = Perm.refl (x ∷ [])
insert_source-perm x (y ∷ ys) = elim (Bool-cases (key_le x y)) [
  | inl e ↦ rw e (Perm.refl (x ∷ y ∷ ys))
  | inr e ↦ rw e (Perm.trans (Perm.cons y (insert_source-perm x ys)) (Perm.swap x y ys))
]

pub sorted-perm : (xs : List ContextSourceInput) → Perm (sorted xs) xs
unfolding sorted
sorted-perm [] = Perm.refl []
sorted-perm (x ∷ xs) = Perm.trans (insert_source-perm x (sorted xs)) (Perm.cons x (sorted-perm xs))

abbrev pub priorities : List ContextSourceInput → List ℕ
priorities = map (λ x. x.priority)

abbrev pub AtMost : ℕ → List ℕ → Type 0
AtMost n = All (λ m. m ≤ n)

-- No number of the list is below a later one.
abbrev pub IsDescending : List ℕ → Type 0
IsDescending [] = Unit
IsDescending (n ∷ ns) = AtMost n ns × IsDescending ns

AtMost-le : (n m : ℕ) (ns : List ℕ) → n ≤ m → AtMost n ns → AtMost m ns
AtMost-le n m [] l h = tt
AtMost-le n m (k ∷ ns) l h = (omega (arith, h.0), AtMost-le n m ns l h.1)

-- A source that comes first has no lower priority, and one that does not has no higher one.
key_le-priority : (a b : ContextSourceInput) → key_le a b ≡ true → b.priority ≤ a.priority
unfolding key_le
key_le-priority a b h = ground arith

key_le-total : (a b : ContextSourceInput) → key_le a b ≡ false → a.priority ≤ b.priority
unfolding key_le
key_le-total a b h = ground arith

insert_source-AtMost :
    (n : ℕ) (x : ContextSourceInput) (ys : List ContextSourceInput)
    → x.priority ≤ n
    → AtMost n (priorities ys)
    → AtMost n (priorities (insert_source x ys))
unfolding insert_source
insert_source-AtMost n x [] l h = (l, tt)
insert_source-AtMost n x (y ∷ ys) l h = elim (Bool-cases (key_le x y)) [
  | inl e ↦ rw e (l, h)
  | inr e ↦ rw e (h.0, insert_source-AtMost n x ys l h.1)
]

insert_source-IsDescending :
    (x : ContextSourceInput) (ys : List ContextSourceInput)
    → IsDescending (priorities ys)
    → IsDescending (priorities (insert_source x ys))
unfolding insert_source
insert_source-IsDescending x [] h = (tt, tt)
insert_source-IsDescending x (y ∷ ys) h = elim (Bool-cases (key_le x y)) [
  | inl e ↦
      let l = key_le-priority x y e in
      rw e ((l, AtMost-le y.priority x.priority (priorities ys) l h.0), h)
  | inr e ↦ rw e (
    insert_source-AtMost y.priority x ys (key_le-total x y e) h.0,
    insert_source-IsDescending x ys h.1,
  )
]

-- Sorting keeps every source, as often as it was given, and puts no source before one of a higher
-- priority.
sorted_by_priority :
    (xs : List ContextSourceInput) → Perm (sorted xs) xs × IsDescending (priorities (sorted xs))
unfolding sorted
sorted_by_priority [] = (Perm.refl [], tt)
sorted_by_priority (x ∷ xs) =
    (sorted-perm (x ∷ xs), insert_source-IsDescending x (sorted xs) (sorted_by_priority xs).1)
