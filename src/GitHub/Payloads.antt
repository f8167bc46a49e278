-- ===== src/GitHub/Payloads.antt =====
-- The payload of a pull request, as app/services/github_pull_requests.py reads it: the second half of
-- `fetch`, and `_parse_file`. Reading JSON and what pydantic makes of a field's value are parameters.
use steh_v1_0_0_rc.Base.{
  ℕ, String, Bool, true, false, not, ◌||◌, Option, none, some, List, take, length, ltb, nat_eq,
  if◌then◌else◌, Result, ok, err, Error, value_error, type_error, key_error, json_decode_error,
  raise_if, traverse, or_raise, ◌>>=◌, ◌>>◌,
}
use steh_v1_0_0_rc.Json.{Json, bool, num, str, arr, obj, to_list, get, item, or_default}
use steh_v1_0_0_rc.Models.Context.{Text}
use steh_v1_0_0_rc.Models.PullRequest.{
  PullRequestFileStatus, PullRequestState, FetchedPullRequestFile, FetchedGitHubPullRequest,
}
use steh_v1_0_0_rc.GitHub.Repositories.{Reference, full_name}

-- What reads a payload. A field's function is none where pydantic raises a `ValidationError`, and
-- `loads` where `response.json()` raises.
pub record Reading : Type 0 where
  pub loads : List ℕ → Option Json
  pub text : String → Json → Option Text
  pub code : String → Json → Option String
  pub count : String → Json → Option ℕ
  pub flag : String → Json → Option Bool
  pub time : String → Json → Option ℕ
  pub state : String → Json → Option PullRequestState
  pub status : String → Json → Option PullRequestFileStatus

-- `isinstance(value, Mapping)`
abbrev pub is_mapping : Json → Bool
is_mapping (obj fields) = true
is_mapping _ = false

-- the number that a value equals, if it is an `int`; True is 1
abbrev pub int_value : Json → Option ℕ
int_value (num n) = some n
int_value (bool true) = some 1
int_value (bool false) = some 0
int_value _ = none

abbrev pub is_number : Json → ℕ → Bool
is_number value n = elim (int_value value) [ none ↦ false | some m ↦ nat_eq m n ]

unfoldable pub list_of : Json → Result (List Json)
list_of (arr items) = ok (to_list items)
list_of value = err type_error

abbrev pub as_text : Json → Option String
as_text (str s) = some s
as_text value = none

abbrev pub if_some {ℓ} : {A : Type ℓ} → (String → A) → A → Option String → A
if_some f fallback none = fallback
if_some f fallback (some s) = f s

-- `value if isinstance(value, str) else fallback`
unfoldable pub text_or {ℓ} : {A : Type ℓ} → Json → (String → A) → A → A
text_or value f fallback = if_some f fallback (as_text value)

-- what pydantic makes of `payload[key]`
unfoldable pub required {ℓ} : {A : Type ℓ} → (Json → Option A) → Json → String → Result A
required field payload key = do v ← item payload key; or_raise (field v) value_error

-- what pydantic makes of a value
unfoldable pub validated {ℓ} : {A : Type ℓ} → (Json → Option A) → Json → Result A
validated field v = or_raise (field v) value_error

-- a text as the field `previous_filename`
unfoldable pub present : Reading → String → Result (Option Text)
present reading s = do v ← validated (reading.text "previous_filename") (str s); ok (some v)

-- `_parse_file`
unfoldable pub parse_file : Reading → Json → Result FetchedPullRequestFile
parse_file reading payload = do
  raise_if (not (is_mapping payload)) type_error
  patch ← get payload "patch"
  previous ← get payload "previous_filename"
  filename ← required (reading.text "filename") payload "filename"
  status ← required (reading.status "status") payload "status"
  additions ← required (reading.count "additions") payload "additions"
  deletions ← required (reading.count "deletions") payload "deletions"
  changes ← required (reading.count "changes") payload "changes"
  patch_text ← validated (reading.text "patch") (text_or patch str (str ""))
  previous_filename ← text_or previous (λ s. present reading s) (ok none)
  ok (record {
    filename = filename;
    status = status;
    additions = additions;
    deletions = deletions;
    changes = changes;
    patch = patch_text;
    previous_filename = previous_filename;
  })

-- What the checks of `fetch` find in the payloads.
pub record Parts : Type 0 where
  pub entries : List Json
  pub base : Json
  pub head : Json
  pub user : Json

unfoldable pub parts_of : Reference → Json → Json → Result Parts
parts_of reference payload files_payload = do
  raise_if (not (is_mapping payload)) type_error
  entries ← list_of files_payload
  number ← get payload "number"
  raise_if (not (is_number number reference.number)) value_error
  base ← get payload "base"
  head ← get payload "head"
  user ← get payload "user"
  raise_if (not (is_mapping base) || not (is_mapping head)) type_error
  raise_if (not (is_mapping user)) type_error
  ok (record { entries = entries; base = base; head = head; user = user })

-- The `FetchedGitHubPullRequest(...)` of `fetch`; pydantic accepts at most 100 files.
unfoldable pub pull_request_of :
    Reading
    → Reference
    → Json
    → Parts
    → List FetchedPullRequestFile
    → ℕ
    → Bool
    → Result FetchedGitHubPullRequest
pull_request_of reading reference payload parts files changed_files files_truncated = do
  title ← required (reading.text "title") payload "title"
  raw_body ← get payload "body"
  body ← validated (reading.text "body") (or_default raw_body (str ""))
  state ← required (reading.state "state") payload "state"
  author ← required (reading.text "author") parts.user "login"
  pull_request_url ← required (reading.code "pull_request_url") payload "html_url"
  updated_at ← required (reading.time "updated_at") payload "updated_at"
  base_ref ← required (reading.text "base_ref") parts.base "ref"
  base_sha ← required (reading.code "base_sha") parts.base "sha"
  head_ref ← required (reading.text "head_ref") parts.head "ref"
  head_sha ← required (reading.code "head_sha") parts.head "sha"
  draft ← required (reading.flag "draft") payload "draft"
  merged ← required (reading.flag "merged") payload "merged"
  additions ← required (reading.count "additions") payload "additions"
  deletions ← required (reading.count "deletions") payload "deletions"
  raise_if (ltb 100 (length files)) value_error
  ok (record {
    repository = full_name reference;
    pull_number = reference.number;
    title = title;
    body = body;
    state = state;
    author = author;
    pull_request_url = pull_request_url;
    updated_at = updated_at;
    base_ref = base_ref;
    base_sha = base_sha;
    head_ref = head_ref;
    head_sha = head_sha;
    draft = draft;
    merged = merged;
    changed_files = changed_files;
    additions = additions;
    deletions = deletions;
    files = files;
    files_truncated = files_truncated;
  })

-- The part of `fetch` that reads the two payloads.
unfoldable pub parse_pull_request :
    Reading → ℕ → Reference → Json → Json → Result FetchedGitHubPullRequest
parse_pull_request reading max_files reference payload files_payload = do
  parts ← parts_of reference payload files_payload
  files ← traverse (parse_file reading) (take max_files parts.entries)
  changed ← item payload "changed_files"
  changed_files ← or_raise (int_value changed) type_error
  pull_request_of reading reference payload parts files changed_files
      (ltb (length files) changed_files || ltb max_files (length parts.entries))

-- `except (KeyError, TypeError, ValueError)`: an error of the JSON decoder is a `ValueError`.
abbrev pub is_caught : Error → Bool
is_caught key_error = true
is_caught type_error = true
is_caught value_error = true
is_caught json_decode_error = true
is_caught _ = false

abbrev pub raise_as {ℓ} : {A : Type ℓ} → Error → Result A → Result A
raise_as e (ok a) = ok a
raise_as e (err raised) = err (if is_caught raised then e else raised)

-- `response.json()`
abbrev pub decode : Reading → List ℕ → Result Json
decode reading content = or_raise (reading.loads content) json_decode_error

unfoldable pub read_payloads :
    Reading → ℕ → Reference → List ℕ → List ℕ → Result FetchedGitHubPullRequest
read_payloads reading max_files reference metadata files = do
  payload ← decode reading metadata
  files_payload ← decode reading files
  parse_pull_request reading max_files reference payload files_payload
