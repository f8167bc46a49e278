-- ===== src/Db/Rows.antt =====
-- The row that a query by its primary key returns, before and after an update of the rows with that key.
use steh_v1_0_0_rc.Base.{
  Bool, ℕ, ◌≡◌, inl, inr, some, List, [], ◌∷◌, arith, Bool-cases, nat_eq, find?, is_some, refl,
}
use steh_v1_0_0_rc.Db.{update_where}

module _ {A : Type 0} (key : A → ℕ) (id : ℕ) (f : A → A) (same : (x : A) → key (f x) ≡ key x) where
  pub find-update :
      (xs : List A) {x : A}
      → find? (λ r. nat_eq (key r) id) xs ≡ some x
      → find? (λ r. nat_eq (key r) id) (update_where (λ r. nat_eq (key r) id) f xs) ≡ some (f x)
  find-update [] h = cc
  find-update (y ∷ ys) {x} h = elim (Bool-cases (nat_eq (key y) id)) [
    | inl e ↦ ground (arith, same y)
    | inr e ↦ ground (arith, find-update ys {x = x} (ground arith))
  ]

module _ {A : Type 0} (key : A → ℕ) (id : ℕ) where
  pub find-key : (xs : List A) {x : A} → find? (λ r. nat_eq (key r) id) xs ≡ some x → key x ≡ id
  find-key [] h = cc
  find-key (y ∷ ys) {x} h = elim (Bool-cases (nat_eq (key y) id)) [
    | inl e ↦ ground arith
    | inr e ↦ find-key ys {x = x} (ground arith)
  ]

module _ {A : Type 0} (key : A → ℕ) (id : ℕ) (p : A → Bool) (f : A → A)
    (same : (x : A) → key (f x) ≡ key x) where
  -- An update that keeps the keys, of any rows, neither adds nor removes one.
  pub is_some-update :
      (xs : List A)
      → is_some (find? (λ r. nat_eq (key r) id) (update_where p f xs))
        ≡ is_some (find? (λ r. nat_eq (key r) id) xs)
  is_some-update [] = refl
  is_some-update (y ∷ ys) = ground (arith, same y, is_some-update ys)
