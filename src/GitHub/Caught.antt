-- ===== src/GitHub/Caught.antt =====
-- Errors that `fetch` of app/services/github_pull_requests.py catches, statement by statement.
use steh_v1_0_0_rc.Base.{
  String, ◌≡◌, refl, Bool, true, false, not, Option, none, some, List, [], ◌∷◌, Option-cases, inl,
  inr, arith, Result, ok, err, Error, value_error, type_error, key_error, raise_if, traverse,
  or_raise, ◌>>=◌, ◌>>◌,
}
use steh_v1_0_0_rc.Json.{Json, lookup, get, item}
use steh_v1_0_0_rc.GitHub.Payloads.{is_mapping, required, validated, is_caught}

-- The error that it raises, if any, is one that `fetch` catches.
pub record Caught {ℓ} {A : Type ℓ} (r : Result A) : Type ℓ where
  pub raised : (e : Error) → r ≡ err e → is_caught e ≡ true

pub ok-Caught {ℓ} : {A : Type ℓ} (a : A) → Caught (ok a)
ok-Caught a = record { raised = λ e h. cc }

pub bind-Caught {ℓ κ} :
    {A : Type ℓ} {B : Type κ} (m : Result A) (f : A → Result B)
    → Caught m
    → ((a : A) → Caught (f a))
    → Caught (m >>= f)
bind-Caught (ok a) f h k = k a
bind-Caught (err e) f h k = record { raised = λ x q. h.raised x (cc q) }

pub or_raise-Caught {ℓ} :
    {A : Type ℓ} (o : Option A) (e : Error) → is_caught e ≡ true → Caught (or_raise o e)
or_raise-Caught none e h = record { raised = λ x q. ground (arith, q) }
or_raise-Caught (some a) e h = ok-Caught a

pub raise_if-Caught : (b : Bool) (e : Error) → is_caught e ≡ true → Caught (raise_if b e)
raise_if-Caught true e h = record { raised = λ x q. ground (arith, q) }
raise_if-Caught false e h = ok-Caught tt

-- What follows a check may use that it passed.
pub check-Caught {ℓ} :
    {A : Type ℓ} (b : Bool) (rest : Result A) (e : Error)
    → is_caught e ≡ true
    → (b ≡ false → Caught rest)
    → Caught (raise_if b e >> rest)
check-Caught true rest e h k = record { raised = λ x q. ground (arith, q) }
check-Caught false rest e h k = k refl

pub get-Caught : (v : Json) (key : String) → not (is_mapping v) ≡ false → Caught (get v key)
unfolding get
get-Caught (Json.obj fields) key m = elim (Option-cases (lookup key fields)) [
  | inl n ↦ rw (n, get) (ok-Caught Json.null)
  | inr (v, n) ↦ rw (n, get) (ok-Caught v)
]
get-Caught Json.null key m = absurd (cc m)
get-Caught (Json.bool b) key m = absurd (cc m)
get-Caught (Json.num n) key m = absurd (cc m)
get-Caught (Json.str s) key m = absurd (cc m)
get-Caught (Json.uuid n) key m = absurd (cc m)
get-Caught (Json.instant n) key m = absurd (cc m)
get-Caught (Json.arr xs) key m = absurd (cc m)

pub item-Caught : (v : Json) (key : String) → Caught (item v key)
unfolding item
item-Caught (Json.obj fields) key = elim (Option-cases (lookup key fields)) [
  | inl n ↦ rw (n, item) (or_raise-Caught none key_error refl)
  | inr (v, n) ↦ rw (n, item) (ok-Caught v)
]
item-Caught Json.null key = or_raise-Caught none type_error refl
item-Caught (Json.bool b) key = or_raise-Caught none type_error refl
item-Caught (Json.num n) key = or_raise-Caught none type_error refl
item-Caught (Json.str s) key = or_raise-Caught none type_error refl
item-Caught (Json.uuid n) key = or_raise-Caught none type_error refl
item-Caught (Json.instant n) key = or_raise-Caught none type_error refl
item-Caught (Json.arr xs) key = or_raise-Caught none type_error refl

pub required-Caught {ℓ} :
    {A : Type ℓ} (field : Json → Option A) (payload : Json) (key : String)
    → Caught (required field payload key)
unfolding required
required-Caught field payload key =
    bind-Caught (item payload key) _ (item-Caught payload key)
      (λ v. or_raise-Caught (field v) value_error refl)

-- What follows a required field.
pub field-Caught {ℓ κ} :
    {A : Type ℓ} {B : Type κ} (field : Json → Option A) (payload : Json) (key : String)
    (rest : A → Result B)
    → ((a : A) → Caught (rest a))
    → Caught (required field payload key >>= rest)
field-Caught field payload key rest h =
    bind-Caught (required field payload key) rest (required-Caught field payload key) h

pub valid-Caught {ℓ κ} :
    {A : Type ℓ} {B : Type κ} (field : Json → Option A) (v : Json) (rest : A → Result B)
    → ((a : A) → Caught (rest a))
    → Caught (validated field v >>= rest)
unfolding validated
valid-Caught field v rest h =
    bind-Caught (or_raise (field v) value_error) rest (or_raise-Caught (field v) value_error refl) h

-- What follows a value that is validated, and one that is looked up in a mapping.
pub value-Caught {ℓ κ} :
    {A : Type ℓ} {B : Type κ} (o : Option A) (e : Error) (rest : A → Result B)
    → is_caught e ≡ true
    → ((a : A) → Caught (rest a))
    → Caught (or_raise o e >>= rest)
value-Caught o e rest c h = bind-Caught (or_raise o e) rest (or_raise-Caught o e c) h

pub lookup-Caught {ℓ} :
    {B : Type ℓ} (v : Json) (key : String) (rest : Json → Result B)
    → not (is_mapping v) ≡ false
    → ((a : Json) → Caught (rest a))
    → Caught (get v key >>= rest)
lookup-Caught v key rest m h = bind-Caught (get v key) rest (get-Caught v key m) h

pub traverse-Caught {ℓ κ} :
    {A : Type ℓ} {B : Type κ} (f : A → Result B) (xs : List A)
    → ((a : A) → Caught (f a))
    → Caught (traverse f xs)
traverse-Caught f [] h = ok-Caught []
traverse-Caught f (x ∷ xs) h =
    bind-Caught (f x) _ (h x)
      (λ y. bind-Caught (traverse f xs) _ (traverse-Caught f xs h) (λ ys. ok-Caught (y ∷ ys)))

pub limit-Caught {ℓ} :
    {A : Type ℓ} (b : Bool) (rest : Result A)
    → Caught rest
    → Caught (raise_if b value_error >> rest)
limit-Caught b rest h = check-Caught b rest value_error refl (λ _. h)
