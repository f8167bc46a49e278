-- ===== src/Prompts/Lock.antt =====
-- app/services/prompts.py: the lock file. The text of the messages on standard output is left out.
use steh_v1_0_0_rc.Base.{
  ℕ, String, Bool, true, false, not, ◌&&◌, Option, none, some, List, [], ◌∷◌, ◌++◌, concat, length,
  nat_eq, if◌then◌else◌, ◌==◌, non_empty, Result, ok, key_error, ◌>>=◌, or_raise, traverse,
}
use steh_v1_0_0_rc.Models.Context.{Text}
use steh_v1_0_0_rc.Context.Sanitize.{codes}
use steh_v1_0_0_rc.Context.Order.{text_le}
use steh_v1_0_0_rc.External.{Library}
use steh_v1_0_0_rc.Prompts.Parse.{AgentPrompt, Source, load_prompt, sha256}

-- `dict[str, str]`, and the lock, from an id to such; the keys of each are distinct
abbrev pub Entry : Type 0
Entry = List (String × String)

abbrev pub LockFile : Type 0
LockFile = List (String × Entry)

unfoldable pub lookup {ℓ} : {A : Type ℓ} → String → List (String × A) → Option A
lookup k [] = none
lookup k ((j, v) ∷ rest) = if j == k then some v else lookup k rest

-- the entry that `current_lock` makes for a prompt
unfoldable pub locked_entry : Library → AgentPrompt → Entry
unfolding sha256
locked_entry lib prompt = ("version", prompt.version) ∷ ("sha256", sha256 lib prompt) ∷ []

-- `sorted(set(AGENT_PROMPTS.values()))`
abbrev pub prompt_ids : List String
prompt_ids =
    "architecture" ∷ "github_issue_analysis" ∷ "implementation" ∷ "llm_judge"
    ∷ "pull_request_review" ∷ "requirements" ∷ "security" ∷ "specification" ∷ "test_planning" ∷ []

unfoldable pub lock_item : Library → Source → String → Result (String × Entry)
unfolding load_prompt locked_entry
lock_item lib source prompt_id = do
  prompt ← load_prompt source prompt_id
  ok (prompt_id, locked_entry lib prompt)

unfoldable pub current_lock : Library → Source → Result LockFile
unfolding lock_item
current_lock lib source = traverse (lock_item lib source) prompt_ids

abbrev pub same_value : Option String → Option String → Bool
same_value none none = true
same_value (some a) (some b) = a == b
same_value _ _ = false

abbrev pub holds_all : Entry → Entry → Bool
holds_all [] b = true
holds_all ((k, v) ∷ rest) b = same_value (some v) (lookup k b) && holds_all rest b

-- `pinned == entry` on dicts
unfoldable pub same_entry : Entry → Entry → Bool
unfolding lookup
same_entry a b = nat_eq (length a) (length b) && holds_all a b

-- `d[k]`
abbrev pub at : Entry → String → Result String
at entry key = or_raise (lookup key entry) key_error

abbrev pub changed_message : String → String → String
changed_message prompt_id version = concat prompt_id (
    concat ": text changed but version is still "
      (concat version "; bump the version and regenerate the lock"))

abbrev pub outdated_message : String → String
outdated_message prompt_id = concat prompt_id ": lock is outdated; regenerate it"

-- `pinned["sha256"] != entry["sha256"]`
unfoldable pub changed_text : Entry → Entry → Result Bool
unfolding lookup
changed_text entry pinned = do
  pinned_sha256 ← at pinned "sha256"
  sha256 ← at entry "sha256"
  ok (not (pinned_sha256 == sha256))

-- What the loop finds for a prompt that is in the lock.
unfoldable pub pinned_violation : String → Entry → Entry → Result (List String)
pinned_violation prompt_id entry pinned = do
  pinned_version ← at pinned "version"
  version ← at entry "version"
  changed ← if pinned_version == version then changed_text entry pinned else ok false
  ok (
      if changed
      then changed_message prompt_id version ∷ []
      else if not (same_entry pinned entry)
      then outdated_message prompt_id ∷ []
      else [])

-- one round of the loop
unfoldable pub violation : LockFile → String × Entry → Result (List String)
unfolding lookup pinned_violation
violation locked (prompt_id, entry) = elim (lookup prompt_id locked) [
  | none ↦ ok (concat prompt_id ": not in prompts.lock.json" ∷ [])
  | some pinned ↦ pinned_violation prompt_id entry pinned
]

unfoldable pub insert_item : String × Entry → LockFile → LockFile
unfolding text_le
insert_item x [] = x ∷ []
insert_item x (y ∷ ys) =
    let later = y ∷ insert_item x ys in
    if text_le (codes x.0) (codes y.0) then x ∷ y ∷ ys else later

-- `sorted(current.items())`, whose keys are distinct
unfoldable pub sorted_items : LockFile → LockFile
unfolding insert_item
sorted_items [] = []
sorted_items (x ∷ xs) = insert_item x (sorted_items xs)

unfoldable pub violations_of : LockFile → LockFile → Result (List String)
unfolding violation
violations_of locked [] = ok []
violations_of locked (item ∷ items) = do
  first ← violation locked item
  rest ← violations_of locked items
  ok (first ++ rest)

unfoldable pub lock_violations : LockFile → LockFile → Result (List String)
unfolding violations_of sorted_items
lock_violations current locked = violations_of locked (sorted_items current)

-- `json.dumps(_, indent=2)` and `json.loads` of a lock.
pub record LockText : Type 0 where
  pub dumps : LockFile → Text
  pub loads : Text → Result LockFile

abbrev pub exit_code : List String → ℕ
exit_code violations = if non_empty violations then 1 else 0

-- `main`, with the text of the lock file before and after. An argument list is none of the two
-- commands if it has another length.
unfoldable pub main : Library → Source → LockText → List String → Text → Result (ℕ × Text)
unfolding current_lock lock_violations
main lib source text (argument ∷ []) file =
    let check : Result (ℕ × Text) = (do
      current ← current_lock lib source
      locked ← text.loads file
      violations ← lock_violations current locked
      ok (exit_code violations, file)) in
    let write_lock : Result (ℕ × Text) = (do
      current ← current_lock lib source
      ok (0, text.dumps current ++ codes "\n")) in
    if argument == "--check"
    then check
    else if argument == "--write-lock"
    then write_lock
    else ok (2, file)
main lib source text argv file = ok (2, file)
