-- ===== src/Base/Texts.antt =====
-- Texts as lists of code points and as strings. A code point that is no character of Unicode, such as
-- a lone surrogate, becomes U+0000.
use Prim.Native.Nat.{ℕ, zero, suc, ◌+◌, ◌/◌, ◌%◌}
use Prim.Native.Char.{Char, char, nul, IsScalar}
use Prim.Native.String.{String}
use mathlib.Core.Path.{◌≡◌}
use mathlib.Core.Logic.{inl, inr}
use mathlib.Core.Bool.{Bool, true, false, ◌&&◌, ◌||◌}
use mathlib.Core.List.{List, [], ◌∷◌}
use native.Mathlib.Omega.{arith}
use steh_v1_0_0_rc.Base.Tests.{ltb, concat, Bool-cases}

abbrev is_scalar : ℕ → Bool
is_scalar n = ltb n 55296 || (ltb 57343 n && ltb n 1114112)

pub IsScalar-test : (n : ℕ) → is_scalar n ≡ true → IsScalar n
IsScalar-test n h = ground arith

-- `chr(n)`
unfoldable pub chr : ℕ → Char
chr n = elim (Bool-cases (is_scalar n)) [ inl e ↦ char n (IsScalar-test n e) | inr e ↦ nul ]

unfoldable pub text_of : List ℕ → String
unfolding chr
text_of [] = ""
text_of (c ∷ t) = String.◌∷◌ (chr c) (text_of t)

-- The decimal digits of a number that has at most as many as the fuel.
unfoldable pub digits : ℕ → ℕ → String
unfolding chr
digits zero n = ""
digits (suc fuel) n =
    let last = String.◌∷◌ (chr (48 + n % 10)) "" in
    let first = digits fuel (n / 10) in elim (ltb n 10) [ true ↦ last | false ↦ concat first last ]

-- `str(n)`: a number has at most one digit more than its value.
unfoldable pub decimal : ℕ → String
unfolding digits
decimal n = digits (suc n) n
