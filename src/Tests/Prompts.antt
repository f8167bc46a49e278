-- ===== src/Tests/Prompts.antt =====
-- Small prompt files and their lock, as app/services/prompts.py reads and writes them.
use steh_v1_0_0_rc.Base.{
  ◌≡◌, refl, String, false, [], ◌∷◌, ◌++◌, All, Result, ok, err, get_or, find?, map,
  json_decode_error, if◌then◌else◌,
}
use steh_v1_0_0_rc.Json.{Json, or_default, truthy, get_default, str, obj, end, field}
use steh_v1_0_0_rc.Models.Context.{Text}
use steh_v1_0_0_rc.Context.Sanitize.{
  codes, contains_text, text_eq, starts_with, strip, strip_left, is_space, replace_crlf,
}
use steh_v1_0_0_rc.Tests.Context.{plain}
use steh_v1_0_0_rc.Prompts.Parse.{AgentPrompt, Source, parse_prompt, partition, agent_prompt}
use steh_v1_0_0_rc.Prompts.Lock.{LockFile, LockText, prompt_ids, current_lock, main}
use steh_v1_0_0_rc.Prompts.Files.{
  with_crlf, IsPrompt, prompt_file, parse_prompt-with_crlf, parse_prompt-prompt_file,
}
use steh_v1_0_0_rc.Prompts.Checks.{Pinned, check_pins_prompts}
use steh_v1_0_0_rc.Prompts.Written.{check_after_write}

-- The header of each file is its id.
abbrev header_of : Text → Json
header_of header = obj (
    field "id" (str (get_or (find? (λ id. text_eq (codes id) header) prompt_ids) ""))
      (field "version" (str "1.0") end))

abbrev file_of : String → Text
file_of id = prompt_file (codes id) (codes "You are an agent.")

abbrev source : Source
source = record {
  read_prompt = λ id. ok (file_of id);
  load_yaml = λ header. ok (header_of header);
  show = λ value. "";
}

abbrev security : AgentPrompt
security = record { id = "security"; version = "1.0"; text = codes "You are an agent." }

security-IsPrompt : IsPrompt security
unfolding strip strip_left is_space
security-IsPrompt = record { id = refl; version = refl; text = refl; trimmed = refl }

parse_prompt-with_crlf_example :
    parse_prompt source (with_crlf (file_of "security")) "security"
    ≡ parse_prompt source (file_of "security") "security"
parse_prompt-with_crlf_example = parse_prompt-with_crlf source (file_of "security") "security" refl

opens_once : contains_text (codes "\n---\n") (codes "security" ++ codes "\n---") ≡ false
unfolding contains_text
opens_once = refl

names :
    ◌≡◌ {A = Result Json}
      (ok (header_of (codes "security")))
      (ok (obj (field "id" (str "security") (field "version" (str "1.0") end))))
unfolding text_eq
names = refl

parse_prompt-prompt_file_example : parse_prompt source (file_of "security") "security" ≡ ok security
parse_prompt-prompt_file_example =
    parse_prompt-prompt_file source (codes "security") security names refl opens_once
      security-IsPrompt

-- The lock of these files, and its text.
abbrev lock : LockFile
lock = map (λ id. (id, ("version", "1.0") ∷ ("sha256", "0123456789abcdef") ∷ [])) prompt_ids

abbrev text : LockText
text = record {
  dumps = λ lock. codes "lock";
  loads = λ file. if text_eq file (codes "lock\n") then ok lock else err json_decode_error;
}

locks : current_lock plain source ≡ ok lock
unfolding current_lock parse_prompt replace_crlf starts_with partition agent_prompt or_default
    truthy get_default strip strip_left is_space text_eq
locks = refl

reads_back :
    (found : LockFile)
    → current_lock plain source ≡ ok found
    → text.loads (text.dumps found ++ codes "\n") ≡ ok found
unfolding text_eq
reads_back found e = cc (locks, e)

writes : main plain source text ("--write-lock" ∷ []) [] ≡ ok (0, codes "lock\n")
unfolding main
writes = rw locks refl

check_after_write_example :
    main plain source text ("--check" ∷ []) (codes "lock\n") ≡ ok (0, codes "lock\n")
check_after_write_example = check_after_write plain source text [] reads_back writes

check_pins_prompts_example :
    (locked : LockFile) × (text.loads (codes "lock\n") ≡ ok locked)
    × All (Pinned plain source locked) prompt_ids
check_pins_prompts_example =
    check_pins_prompts plain source text (codes "lock\n")
      (check_after_write plain source text [] reads_back writes)
