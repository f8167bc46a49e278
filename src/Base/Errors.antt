-- ===== src/Base/Errors.antt =====
-- Python's exceptions as values: a result, or the type of the exception that was raised.
use Prim.Native.String.{String}
use mathlib.Core.Path.{◌≡◌, refl}
use mathlib.Core.Bool.{Bool, true, false}
use mathlib.Core.Option.{Option, none, some}
use mathlib.Core.List.{List, [], ◌∷◌}

-- The exception types that the code raises or catches by name; `other` has any other type's name.
pub data Error : Type 0 where
  value_error key_error type_error attribute_error runtime_error : Error
  capability_violation human_review_conflict json_decode_error : Error
  other : String → Error

-- `type(exc).__name__`
unfoldable pub error_name : Error → String
error_name value_error = "ValueError"
error_name key_error = "KeyError"
error_name type_error = "TypeError"
error_name attribute_error = "AttributeError"
error_name runtime_error = "RuntimeError"
error_name capability_violation = "CapabilityViolation"
error_name human_review_conflict = "HumanReviewConflictError"
error_name json_decode_error = "JSONDecodeError"
error_name (other name) = name

pub data Result {ℓ} (A : Type ℓ) : Type ℓ where
  err : Error → Result A
  ok : A → Result A

-- `if test: raise e`
abbrev pub raise_if : Bool → Error → Result (Unit {0})
raise_if true e = err e
raise_if false e = ok tt

-- A statement that raises skips what follows it.
infixl 5 ◌>>=◌ ◌>>◌
abbrev pub ◌>>=◌ {ℓ κ} : {X : Type ℓ} {Y : Type κ} → Result X → (X → Result Y) → Result Y
err raised >>= rest = err raised
ok x >>= rest = rest x

-- `d[k]` where the dictionary holds `o` under `k`
abbrev pub or_raise {ℓ} : {A : Type ℓ} → Option A → Error → Result A
or_raise none e = err e
or_raise (some a) e = ok a

abbrev pub ◌>>◌ {ℓ} : {Y : Type ℓ} → Result (Unit {0}) → Result Y → Result Y
check >> rest = check >>= λ _. rest

-- `[f(x) for x in xs]`
abbrev pub traverse {ℓ κ} : {A : Type ℓ} {B : Type κ} → (A → Result B) → List A → Result (List B)
traverse f [] = ok []
traverse f (x ∷ xs) = do y ← f x; ys ← traverse f xs; ok (y ∷ ys)

-- What a statement and the rest of its block did when the block returned.
pub >>=-eq-ok {ℓ κ} :
    {X : Type ℓ} {Y : Type κ} (first : Result X) (rest : X → Result Y) {y : Y}
    → (first >>= rest) ≡ ok y
    → (x : X) × (first ≡ ok x) × (rest x ≡ ok y)
>>=-eq-ok (err raised) rest returned = cc
>>=-eq-ok (ok x) rest returned = (x, refl, returned)

pub or_raise-eq-ok {ℓ} :
    {A : Type ℓ} (o : Option A) (e : Error) {a : A} → or_raise o e ≡ ok a → o ≡ some a
or_raise-eq-ok none e h = cc
or_raise-eq-ok (some a) e h = cc

-- What a `traverse` that returned has done, element by element.
abbrev pub Each {ℓ κ} : {A : Type ℓ} {B : Type κ} → (A → Result B) → List A → List B → Type κ
Each f [] ys = ys ≡ []
Each {B} f (x ∷ xs) ys = (y : B) × (zs : List B) × (f x ≡ ok y) × (ys ≡ y ∷ zs) × Each f xs zs

pub traverse-Each {ℓ κ} :
    {A : Type ℓ} {B : Type κ} (f : A → Result B) (xs : List A) {ys : List B}
    → traverse f xs ≡ ok ys
    → Each f xs ys
traverse-Each f [] h = cc
traverse-Each f (x ∷ xs) h =
    let (y, e, r) = >>=-eq-ok (f x) _ h in
    let (zs, t, l) = >>=-eq-ok (traverse f xs) _ r in (y, zs, e, cc, traverse-Each f xs t)
