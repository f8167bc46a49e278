-- ===== src/Json.antt =====
-- The JSON values that the artifacts, evidence and payloads of app/ are made of, with the parts of
-- Python's `dict` and `list` that the code applies to them. `num` holds the natural numbers, `uuid`
-- and `instant` the texts that `str` makes of an id and `isoformat` of an instant, which are never
-- empty and never iterated over.
use steh_v1_0_0_rc.Base.{
  ℕ, String, Bool, true, false, Option, none, some, List, [], ◌∷◌, ◌==◌, nat_eq, if◌then◌else◌,
  Result, ok, err, key_error, type_error, attribute_error,
}

mutual
  pub data Json : Type 0 where
    null : Json
    bool : Bool → Json
    num : ℕ → Json
    str : String → Json
    uuid : ℕ → Json
    instant : ℕ → Json
    arr : Items → Json
    obj : Fields → Json

  pub data Items : Type 0 where
    nil : Items
    cons : Json → Items → Items

  pub data Fields : Type 0 where
    end : Fields
    field : String → Json → Fields → Fields

-- `bool(v)`
unfoldable pub truthy : Json → Bool
truthy null = false
truthy (bool b) = b
truthy (num n) = if nat_eq n 0 then false else true
truthy (str s) = if s == "" then false else true
truthy (uuid n) = true
truthy (instant n) = true
truthy (arr nil) = false
truthy (arr (cons x xs)) = true
truthy (obj end) = false
truthy (obj (field k v fs)) = true

abbrev pub to_list : Items → List Json
to_list nil = []
to_list (cons x xs) = x ∷ to_list xs

abbrev pub of_list : List Json → Items
of_list [] = nil
of_list (x ∷ xs) = cons x (of_list xs)

-- the keys of a dict, which iterating over it yields
abbrev pub keys : Fields → List Json
keys end = []
keys (field k v fs) = str k ∷ keys fs

abbrev pub letters : String → List Json
letters String.[] = []
letters (String.◌∷◌ c s) = str (String.◌∷◌ c String.[]) ∷ letters s

abbrev pub lookup : String → Fields → Option Json
lookup k end = none
lookup k (field j v fs) = let rest = lookup k fs in if j == k then some v else rest

-- `v.get(k)`: only a dict has the method
unfoldable pub get : Json → String → Result Json
get (obj fs) k = elim (lookup k fs) [ none ↦ ok null | some v ↦ ok v ]
get _ k = err attribute_error

-- `v.get(k, d)`
unfoldable pub get_default : Json → String → Json → Result Json
get_default (obj fs) k d = elim (lookup k fs) [ none ↦ ok d | some v ↦ ok v ]
get_default _ k d = err attribute_error

-- `v[k]`
unfoldable pub item : Json → String → Result Json
item (obj fs) k = elim (lookup k fs) [ none ↦ err key_error | some v ↦ ok v ]
item _ k = err type_error

-- `for x in v`
unfoldable pub iterate : Json → Result (List Json)
iterate (arr xs) = ok (to_list xs)
iterate (obj fs) = ok (keys fs)
iterate (str s) = ok (letters s)
iterate _ = err type_error

-- `v or d`
unfoldable pub or_default : Json → Json → Json
unfolding truthy
or_default v d = if truthy v then v else d

abbrev pub empty_dict : Json
empty_dict = obj end

abbrev pub empty_list : Json
empty_list = arr nil
