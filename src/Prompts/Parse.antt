-- ===== src/Prompts/Parse.antt =====
-- app/services/prompts.py: `AgentPrompt`, `parse_prompt`, `load_prompt` and `prompt_receipt`. Reading a
-- file and YAML, and how Python prints a version that is no text, are parameters.
use steh_v1_0_0_rc.Base.{
  ℕ, String, Bool, not, ◌&&◌, ◌||◌, Option, none, some, [], ◌∷◌, all, length, drop, nat_eq, leb,
  if◌then◌else◌, ◌==◌, non_empty, text_of, Result, ok, err, value_error, ◌>>=◌, ◌>>◌, raise_if,
}
use steh_v1_0_0_rc.Json.{Json, bool, str, obj, end, field, get_default, empty_dict, or_default}
use steh_v1_0_0_rc.Models.Context.{Text}
use steh_v1_0_0_rc.Context.Sanitize.{codes, starts_with, strip, replace_crlf}
use steh_v1_0_0_rc.External.{Library}

pub record AgentPrompt : Type 0 where
  pub id : String
  pub version : String
  pub text : Text

-- What the module is given: the prompt files, YAML, and `str` of a value that is no text.
pub record Source : Type 0 where
  pub read_prompt : String → Result Text
  pub load_yaml : Text → Result Json
  pub show : Json → String

-- `raw.partition(separator)`, without its middle, for a separator that is not empty
unfoldable pub partition : Text → Text → Text × Text
partition separator [] = ([], [])
partition separator (c ∷ t) =
    let rest = partition separator t in
    if starts_with separator (c ∷ t)
    then ([], drop (length separator) (c ∷ t))
    else (c ∷ rest.0, rest.1)

abbrev pub opening : Text
opening = codes "---\n"

abbrev pub closing : Text
closing = codes "\n---\n"

-- the characters of `^[a-z_]+$`
abbrev pub is_id_char : ℕ → Bool
is_id_char c = (leb 97 c && leb c 122) || nat_eq c 95

abbrev pub is_id : Text → Bool
is_id id = non_empty id && all is_id_char id

-- `str(value)`
abbrev pub text_value : (Json → String) → Json → String
text_value show (str s) = s
text_value show value = show value

-- the field `id`, which has to be a text
abbrev pub id_value : Json → Result String
id_value (str s) = ok s
id_value value = err value_error

-- What pydantic does with the three fields.
unfoldable pub agent_prompt : Json → String → Text → Result AgentPrompt
agent_prompt id version text = do
  name ← id_value id
  raise_if (not (is_id (codes name))) value_error
  raise_if (version == "") value_error
  raise_if (not (non_empty text)) value_error
  ok (record { id = name; version = version; text = text })

unfoldable pub parse_prompt : Source → Text → String → Result AgentPrompt
parse_prompt source raw expected_id = do
  let raw' : Text = replace_crlf raw
  raise_if (not (starts_with opening raw')) value_error
  let parts : Text × Text = partition closing (drop (length opening) raw')
  loaded ← source.load_yaml parts.0
  let meta : Json = or_default loaded empty_dict
  id ← get_default meta "id" (str "")
  version ← get_default meta "version" (str "")
  prompt ← agent_prompt id (text_value source.show version) (strip parts.1)
  raise_if (not (prompt.id == expected_id)) value_error
  ok prompt

unfoldable pub load_prompt : Source → String → Result AgentPrompt
unfolding parse_prompt
load_prompt source prompt_id = do
  raw ← source.read_prompt prompt_id
  parse_prompt source raw prompt_id

-- `AgentPrompt.sha256`
unfoldable pub sha256 : Library → AgentPrompt → String
unfolding text_of
sha256 lib p = lib.sha256 (
    lib.dumps (
      obj (
        field "id" (str p.id)
          (field "version" (str p.version) (field "text" (str (text_of p.text)) end)))))

-- `AGENT_PROMPTS.get(agent_name)`
unfoldable pub prompt_of : String → Option String
prompt_of agent_name =
    if agent_name == "requirements_agent"
    then some "requirements"
    else if agent_name == "specification_agent"
    then some "specification"
    else if agent_name == "architecture_agent"
    then some "architecture"
    else if agent_name == "security_agent"
    then some "security"
    else if agent_name == "test_planning_agent"
    then some "test_planning"
    else if agent_name == "implementation_agent"
    then some "implementation"
    else if agent_name == "github_issue_analysis_agent"
    then some "github_issue_analysis"
    else if agent_name == "pull_request_review_agent"
    then some "pull_request_review"
    else if agent_name == "llm_judge_agent"
    then some "llm_judge"
    else none

-- `prompt_receipt`, with the modes of the settings
unfoldable pub prompt_receipt : Library → Source → String → String → String → Result (Option Json)
unfolding prompt_of load_prompt sha256
prompt_receipt lib source judge_mode llm_mode agent_name = elim (prompt_of agent_name) [
  | none ↦ ok none
  | some prompt_id ↦ (do
    prompt ← load_prompt source prompt_id
    let mode : String = if agent_name == "llm_judge_agent" then judge_mode else llm_mode
    ok (
        some (
          obj (
            field "type" (str "agent_prompt") (
              field "prompt_id" (str prompt.id) (
                field "prompt_version" (str prompt.version) (
                  field "prompt_sha256" (str (sha256 lib prompt))
                    (field "applied" (bool (mode == "openai")) end))))))))
]
