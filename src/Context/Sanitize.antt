-- ===== src/Context/Sanitize.antt =====
-- app/services/context.py: normalisation, redaction and the search for instruction-like text.
use Prim.Native.Char.{code}
use steh_v1_0_0_rc.Base.{
  ℕ, ◌+◌, ◌/◌, String, Bool, true, false, not, ◌&&◌, ◌||◌, List, [], ◌∷◌, nat_eq, leb,
  if◌then◌else◌, length, select, any,
}
use mathlib.Core.List.{reverse}
use steh_v1_0_0_rc.Models.Context.{Text}
use steh_v1_0_0_rc.External.{Library}

-- the code points of a text literal
abbrev pub codes : String → Text
codes String.[] = []
codes (String.◌∷◌ c s) = code c ∷ codes s

-- `s == t` on texts
unfoldable pub text_eq : Text → Text → Bool
text_eq [] [] = true
text_eq (a ∷ s) (b ∷ t) = nat_eq a b && text_eq s t
text_eq _ _ = false

unfoldable pub starts_with : Text → Text → Bool
starts_with [] t = true
starts_with (a ∷ s) [] = false
starts_with (a ∷ s) (b ∷ t) = nat_eq a b && starts_with s t

-- `part in t`
unfoldable pub contains_text : Text → Text → Bool
unfolding starts_with
contains_text part [] = starts_with part []
contains_text part (c ∷ t) = starts_with part (c ∷ t) || contains_text part t

-- `_estimate_tokens`
unfoldable pub estimate_tokens : Text → ℕ
estimate_tokens [] = 0
estimate_tokens (c ∷ t) = (length (c ∷ t) + 3) / 4

-- `value.replace("\r\n", "\n")`
unfoldable pub replace_crlf : Text → Text
replace_crlf [] = []
replace_crlf (c ∷ []) = c ∷ []
replace_crlf (c ∷ d ∷ t) =
    let joined = 10 ∷ replace_crlf t in
    let kept = c ∷ replace_crlf (d ∷ t) in if nat_eq c 13 && nat_eq d 10 then joined else kept

-- `.replace("\r", "\n")`
unfoldable pub replace_cr : Text → Text
replace_cr [] = []
replace_cr (c ∷ t) = (if nat_eq c 13 then 10 else c) ∷ replace_cr t

abbrev pub is_kept : ℕ → Bool
is_kept c = nat_eq c 10 || nat_eq c 9 || leb 32 c

-- the characters that `str.strip` removes
unfoldable pub is_space : ℕ → Bool
is_space c =
    (leb 9 c && leb c 13)
    || (leb 28 c && leb c 32)
    || nat_eq c 133
    || nat_eq c 160
    || nat_eq c 5760
    || (leb 8192 c && leb c 8202)
    || nat_eq c 8232
    || nat_eq c 8233
    || nat_eq c 8239
    || nat_eq c 8287
    || nat_eq c 12288

unfoldable pub strip_left : Text → Text
unfolding is_space
strip_left [] = []
strip_left (c ∷ t) = let rest = strip_left t in if is_space c then rest else c ∷ t

unfoldable pub strip : Text → Text
unfolding strip_left
strip t = reverse (strip_left (reverse (strip_left t)))

-- `_normalize`
unfoldable pub normalize : Text → Text
unfolding strip replace_cr replace_crlf
normalize value = strip (select is_kept (replace_cr (replace_crlf value)))

abbrev pub instruction_markers : List Text
instruction_markers =
    codes "ignore previous"
    ∷ codes "ignore all previous"
    ∷ codes "system prompt"
    ∷ codes "developer message"
    ∷ codes "override instructions"
    ∷ codes "disregard instructions"
    ∷ []

pub record SanitizedContextText : Type 0 where
  pub content : Text
  pub redacted : Bool
  pub suspicious_instruction : Bool

module _ (lib : Library) where
  -- the text that `_redact` returns
  unfoldable pub redact : Text → Text
  redact value = lib.sub_secret (lib.sub_known_token (lib.sub_bearer (lib.sub_private_key value)))

  unfoldable pub sanitize_context_text : Text → SanitizedContextText
  unfolding text_eq contains_text redact
  sanitize_context_text value =
      let normalized = normalize value in
      let redacted_content = redact normalized in
      record {
        content = redacted_content;
        redacted = not (text_eq redacted_content normalized);
        suspicious_instruction =
            any (λ marker. contains_text marker (lib.casefold redacted_content))
              instruction_markers;
      }
