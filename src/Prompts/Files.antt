-- ===== src/Prompts/Files.antt =====
-- Which files app/services/prompts.py reads as which prompts: the line ends of a checkout do not matter,
-- and a file with a header is read back.
use steh_v1_0_0_rc.Base.{
  ℕ, ◌≤◌, ◌≡◌, refl, ◌∙◌, String, Bool, true, false, not, [], ◌∷◌, ◌++◌, all, length, nat_eq,
  non_empty, length-append, if◌then◌else◌, ◌==◌, eq_refl, Bool-cases, inl, inr, arith, ok,
}
use steh_v1_0_0_rc.Json.{or_default, truthy, get_default, str, obj, end, field}
use steh_v1_0_0_rc.Models.Context.{Text}
use steh_v1_0_0_rc.Context.Sanitize.{codes, starts_with, contains_text, strip, replace_crlf}
use steh_v1_0_0_rc.Prompts.Parse.{
  AgentPrompt, Source, partition, opening, closing, is_id, agent_prompt, parse_prompt,
}

-- A text as a checkout with Windows line ends has it.
abbrev pub with_crlf : Text → Text
with_crlf [] = []
with_crlf (c ∷ t) = let rest = with_crlf t in if nat_eq c 10 then 13 ∷ 10 ∷ rest else c ∷ rest

-- No carriage return is in the text.
abbrev pub no_cr : Text → Bool
no_cr = all (λ c. not (nat_eq c 13))

abbrev starts_line_feed : Text → Bool
starts_line_feed [] = false
starts_line_feed (c ∷ t) = nat_eq c 10

replace_crlf-cons :
    (c : ℕ) (t : Text) → starts_line_feed t ≡ false → replace_crlf (c ∷ t) ≡ c ∷ replace_crlf t
unfolding replace_crlf
replace_crlf-cons c [] h = refl
replace_crlf-cons c (d ∷ t) h = ground arith

with_crlf-start : (t : Text) → starts_line_feed (with_crlf t) ≡ false
with_crlf-start [] = refl
with_crlf-start (c ∷ t) = ground arith

replace_crlf-with_crlf : (t : Text) → replace_crlf (with_crlf t) ≡ t
unfolding replace_crlf
replace_crlf-with_crlf [] = refl
replace_crlf-with_crlf (c ∷ t) = elim (Bool-cases (nat_eq c 10)) [
  | inl e ↦ let same : c ≡ 10 = ground arith in rw e (cc (same, replace_crlf-with_crlf t))
  | inr e ↦
      rw e
        (rw (replace_crlf-cons c (with_crlf t) (with_crlf-start t)) (cc (replace_crlf-with_crlf t)))
]

replace_crlf-no_cr : (t : Text) → no_cr t ≡ true → replace_crlf t ≡ t
unfolding replace_crlf
replace_crlf-no_cr [] h = refl
replace_crlf-no_cr (c ∷ []) h = refl
replace_crlf-no_cr (c ∷ d ∷ t) h = ground (arith, replace_crlf-no_cr (d ∷ t))

-- A prompt file without carriage returns is read in the same way from a checkout with Windows line ends.
pub parse_prompt-with_crlf :
    (source : Source) (raw : Text) (expected_id : String)
    → no_cr raw ≡ true
    → parse_prompt source (with_crlf raw) expected_id ≡ parse_prompt source raw expected_id
unfolding parse_prompt
parse_prompt-with_crlf source raw expected_id h =
    rw (replace_crlf-with_crlf raw, replace_crlf-no_cr raw h) refl

starts_with-append : (s u v : Text) → length s ≤ length u → starts_with s (u ++ v) ≡ starts_with s u
unfolding starts_with
starts_with-append [] u v h = refl
starts_with-append (a ∷ s) [] v h = absurd (omega arith)
starts_with-append (a ∷ s) (b ∷ u) v h = cc (starts_with-append s u v (omega arith))

abbrev almost : Text
almost = codes "\n---"

contains_text-cons :
    (part : Text) (c : ℕ) (t : Text)
    → contains_text part (c ∷ t) ≡ false
    → (starts_with part (c ∷ t) ≡ false) × (contains_text part t ≡ false)
unfolding contains_text
contains_text-cons part c t h = (ground arith, ground arith)

partition-cons :
    (separator : Text) (c : ℕ) (t : Text)
    → starts_with separator (c ∷ t) ≡ false
    → partition separator (c ∷ t) ≡ (c ∷ (partition separator t).0, (partition separator t).1)
unfolding partition
partition-cons separator c t h = rw h refl

partition-at : (body : Text) → partition closing (almost ++ (10 ∷ body)) ≡ ([], body)
unfolding partition starts_with
partition-at body = refl

-- The first place where the header's closing line stands is the one after the header.
partition-closing :
    (header body : Text)
    → contains_text closing (header ++ almost) ≡ false
    → partition closing ((header ++ almost) ++ (10 ∷ body)) ≡ (header, body)
partition-closing [] body h = partition-at body
partition-closing (c ∷ header) body h =
    let (first, later) = contains_text-cons closing c (header ++ almost) h in
    let size = length-append (c ∷ header) almost in
    let here =
      starts_with-append closing (c ∷ (header ++ almost)) (10 ∷ body)
        (omega (arith, length-append header almost))
      ∙ first in
    rw (partition-cons closing c ((header ++ almost) ++ (10 ∷ body)) here)
      (cc (partition-closing header body later))

-- The fields that pydantic accepts, and a text that has no space at its ends.
pub record IsPrompt (p : AgentPrompt) : Type 0 where
  pub id : is_id (codes p.id) ≡ true
  pub version : (p.version == "") ≡ false
  pub text : non_empty p.text ≡ true
  pub trimmed : strip p.text ≡ p.text

agent_prompt-IsPrompt :
    (p : AgentPrompt) → IsPrompt p → agent_prompt (str p.id) p.version p.text ≡ ok p
unfolding agent_prompt
agent_prompt-IsPrompt p h = ground arith

starts_with-opening : (t : Text) → starts_with opening (opening ++ t) ≡ true
unfolding starts_with
starts_with-opening t = refl

-- The file of a prompt: its header, and its text.
abbrev pub prompt_file : Text → Text → Text
prompt_file header text = opening ++ ((header ++ almost) ++ (10 ∷ text))

-- A prompt is read back from its file, if its header says its id and its version, and neither has a
-- carriage return, the header no line that closes it early, and the text no space at its ends.
pub parse_prompt-prompt_file :
    (source : Source) (header : Text) (p : AgentPrompt)
    → source.load_yaml header
      ≡ ok (obj (field "id" (str p.id) (field "version" (str p.version) end)))
    → no_cr (prompt_file header p.text) ≡ true
    → contains_text closing (header ++ almost) ≡ false
    → IsPrompt p
    → parse_prompt source (prompt_file header p.text) p.id ≡ ok p
unfolding parse_prompt or_default truthy get_default
parse_prompt-prompt_file source header p yaml clean open_header valid =
    rw
      (
        replace_crlf-no_cr (prompt_file header p.text) clean,
        starts_with-opening ((header ++ almost) ++ (10 ∷ p.text)),
        partition-closing header p.text open_header,
        yaml,
        valid.trimmed,
        agent_prompt-IsPrompt p valid,
        eq_refl p.id,
      )
      refl
