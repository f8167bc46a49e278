-- ===== src/Policy/Meaning.antt =====
-- What the counts and sets that the checks of app/policies/engine.py compute say of the artifacts.
use mathlib.Core.List.{flatten}
use steh_v1_0_0_rc.Base.{
  ◌≤◌, String, ◌≡◌, refl, Bool, true, false, inl, inr, List, [], ◌∷◌, length, All, Bool-cases, ok,
  arith, >>=-eq-ok, traverse, traverse-Each, Each, Option, length-append, sym, ◌++◌,
}
use mathlib.Core.Path.{subst}
use steh_v1_0_0_rc.Json.{Json}
use steh_v1_0_0_rc.Policy.Engine.{
  or_empty, rows_of, counts, count_true, open_count, contains, to_set, subset, identifier,
  identifiers, hashable,
}

-- The finding is not an open one of the severity.
abbrev pub Settled : String → Json → Type 0
Settled severity finding = counts severity finding ≡ ok false

Settled-Each :
    (severity : String) (rows : List Json) (hits : List Bool)
    → Each (counts severity) rows hits
    → count_true hits ≡ 0
    → All (Settled severity) rows
Settled-Each severity [] hits e z = tt
Settled-Each severity (row ∷ rows) hits e z =
    let (y, rest, c, q, more) = e in
    elim (Bool-cases y) [
      | inl t ↦ absurd (ground arith)
      | inr f ↦ (cc, Settled-Each severity rows rest more (ground arith))
    ]

-- If the count of a severity's open findings is 0, the review holds a list of findings, and none of
-- them is an open one of that severity.
pub open_count-Settled :
    (review : Option Json) (severity : String)
    → open_count review severity ≡ ok 0
    → (rows : List Json) × (rows_of (or_empty review) "findings" ≡ ok rows)
      × All (Settled severity) rows
unfolding open_count
open_count-Settled review severity h =
    let (rows, e, r) = >>=-eq-ok (rows_of (or_empty review) "findings") _ h in
    let (hits, t, l) = >>=-eq-ok (traverse (counts severity) rows) _ r in
    (rows, e, Settled-Each severity rows hits (traverse-Each (counts severity) rows t) (cc))

-- A list without repetitions, by the equality that Python's sets use.
abbrev pub Distinct : List Json → Type 0
Distinct [] = Unit
Distinct (x ∷ xs) = (contains x xs ≡ false) × Distinct xs

to_set-le : (xs : List Json) → length (to_set xs) ≤ length xs
unfolding to_set
to_set-le [] = omega arith
to_set-le (x ∷ xs) = elim (Bool-cases (contains x (to_set xs))) [
  | inl e ↦ rw e (omega (arith, to_set-le xs))
  | inr e ↦ rw e (omega (arith, to_set-le xs))
]

-- A set as large as the list that it was made of: the list is without repetitions.
to_set-full : (xs : List Json) → length (to_set xs) ≡ length xs → (to_set xs ≡ xs) × Distinct xs
unfolding to_set
to_set-full [] h = (refl, tt)
to_set-full (x ∷ xs) h = elim (Bool-cases (contains x (to_set xs))) [
  | inl e ↦ absurd (ground (arith, to_set-le xs))
  | inr e ↦
      let (s, d) = to_set-full xs (ground arith) in
      ((rw (e, s) refl), ((let g : contains x xs ≡ false = cc in g), d))
]

-- The row names an identifier.
abbrev Identified : Json → Type 0
Identified row = (k : Json) × (identifier row ≡ ok (k ∷ []))

-- Each row names an identifier, and `ids` lists these, one for each row in the order of the rows.
abbrev pub Named : List Json → List Json → Type 0
Named [] [] = Unit
Named [] (k ∷ ks) = ⊥
Named (row ∷ rows) [] = ⊥
Named (row ∷ rows) (k ∷ ks) = (identifier row ≡ ok (k ∷ [])) × Named rows ks

identifier-le :
    (row : Json) {ks : List Json}
    → identifier row ≡ ok ks
    → (length ks ≤ 1) × (length ks ≡ 1 → Identified row)
unfolding identifier hashable
identifier-le row h = ground arith

Named-Each :
    (rows : List Json) (found : List (List Json))
    → Each identifier rows found
    → (length (flatten found) ≤ length rows)
      × (length (flatten found) ≡ length rows → Named rows (flatten found))
unfolding flatten
Named-Each [] found e = rw e (omega arith, λ q. tt)
Named-Each (row ∷ rows) found e =
    let (ks, rest, i, q, more) = e in
    let (le, full) = identifier-le row i in
    let (les, fulls) = Named-Each rows rest more in
    let l = length-append ks (flatten rest) in
    rw q (
      omega (arith, le, les, l),
      λ n.
          let (k, g) = full (omega (arith, n, le, les, l)) in
          let one : ks ≡ k ∷ [] = cc (i, g) in
          subst (λ xs. Named (row ∷ rows) (xs ++ flatten rest)) (sym one)
            (g, fulls (omega (arith, n, le, les, l))),
    )

-- If as many identifiers are collected as there are rows, they are those of the rows, one for each,
-- and no two rows have the same.
pub identifiers-Named :
    (rows ids : List Json)
    → identifiers rows ≡ ok ids
    → length ids ≡ length rows
    → Named rows ids × Distinct ids
unfolding identifiers
identifiers-Named rows ids h n =
    let (found, t, l) = >>=-eq-ok (traverse identifier rows) _ h in
    let same : to_set (flatten found) ≡ ids = cc l in
    let (le, full) = Named-Each rows found (traverse-Each identifier rows t) in
    let m : length (to_set (flatten found)) ≡ length rows = cc (same, n) in
    let size = to_set-le (flatten found) in
    let (s, d) = to_set-full (flatten found) (omega (arith, le, m, size)) in
    let whole : flatten found ≡ ids = cc (s, same) in
    subst (λ xs. Named rows xs × Distinct xs) whole (full (omega (arith, le, m, size)), d)

-- Every member of a subset is contained in the other list.
pub subset-contains : (xs ys : List Json) → subset xs ys ≡ true → All (λ x. contains x ys ≡ true) xs
unfolding subset
subset-contains [] ys h = tt
subset-contains (x ∷ xs) ys h = (ground arith, subset-contains xs ys (ground arith))
