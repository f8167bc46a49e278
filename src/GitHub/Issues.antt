-- ===== src/GitHub/Issues.antt =====
-- app/services/github_client.py: `GitHubIssueClient`. The network, reading JSON, what pydantic makes of
-- a field's value and how Python prints a label's name are parameters.
use steh_v1_0_0_rc.Base.{
  ℕ, String, Bool, true, false, not, Option, none, some, List, [], ◌∷◌, ◌++◌, map, is_some, leb,
  nat_eq, if◌then◌else◌, concat, decimal, Result, ok, err, Error, value_error, type_error,
  json_decode_error, other, raise_if, or_raise, ◌>>=◌, ◌>>◌,
}
use steh_v1_0_0_rc.Json.{
  Json, null, str, arr, obj, lookup, truthy, get, get_default, iterate, or_default, empty_list,
  of_list,
}
use steh_v1_0_0_rc.Models.Context.{Text}
use steh_v1_0_0_rc.Models.Issue.{IssueState, FetchedGitHubIssue}
use steh_v1_0_0_rc.Context.Sanitize.{starts_with}
use steh_v1_0_0_rc.External.{Library}
use steh_v1_0_0_rc.GitHub.Http.{
  Request, Reply, failed, replied, Net, strip_slashes, https, headers_of,
}
use steh_v1_0_0_rc.GitHub.Repositories.{Reference, full_name, is_allowed}
use steh_v1_0_0_rc.GitHub.Payloads.{is_mapping, as_text, required, validated, raise_as}

abbrev pub not_allowed : Error
not_allowed = other "GitHubRepositoryNotAllowedError"

abbrev pub not_found : Error
not_found = other "GitHubIssueNotFoundError"

abbrev pub unsupported : Error
unsupported = other "GitHubPullRequestUnsupportedError"

abbrev pub upstream : Error
upstream = other "GitHubUpstreamError"

pub record IssueClient : Type 0 where
  pub base_url : Text
  pub token : Option String
  pub allowed : List Text
  pub api_version : String

-- `GitHubIssueClient(...)`
unfoldable pub new_client : Library → Text → Option String → List Text → String → Result IssueClient
new_client lib base_url token allowed api_version =
    if not (starts_with https (strip_slashes base_url))
    then err value_error
    else ok (record {
      base_url = strip_slashes base_url;
      token = token;
      allowed = map lib.casefold allowed;
      api_version = api_version;
    })

-- What the client is given; a field's function takes its name and is none where pydantic raises a
-- `ValidationError`.
pub record IssueWorld : Type 0 where
  pub transport : Request → Reply
  pub loads : List ℕ → Option Json
  pub show : Json → Json
  pub text : String → Json → Option Text
  pub url : Json → Option String
  pub time : Json → Option ℕ
  pub state : Json → Option IssueState
  pub labels : Json → Option (List Text)

-- The whole body of a reply.
unfoldable pub read_all : List ℕ → List (Option (List ℕ)) → Result (List ℕ)
read_all content [] = ok content
read_all content (none ∷ chunks) = err upstream
read_all content (some chunk ∷ chunks) = read_all (content ++ chunk) chunks

-- The tests of the status; `client.get` reads the body before them.
unfoldable pub content_of : Reply → Result (List ℕ)
content_of failed = err upstream
content_of (replied status_code chunks) = do
  content ← read_all [] chunks
  raise_if (nat_eq status_code 404) not_found
  raise_if (leb 400 status_code) upstream
  ok content

-- `"pull_request" in payload`
abbrev pub has_key : String → Json → Bool
has_key key (obj fields) = is_some (lookup key fields)
has_key key _ = false

-- The list of `str(item.get("name"))` of the items that are mappings with a truthy name.
unfoldable pub label_names : (Json → Json) → List Json → List Json
unfolding truthy
label_names show [] = []
label_names show (obj fields ∷ items) =
    let rest = label_names show items in
    elim (lookup "name" fields) [
      | none ↦ rest
      | some name ↦ if truthy name then show name ∷ rest else rest
    ]
label_names show (item ∷ items) = label_names show items

-- `user.get("login") if isinstance(user, Mapping) else None`
unfoldable pub author_of : Json → Result Json
author_of user = if is_mapping user then get user "login" else ok null

-- What follows once the payload is known to be an issue.
unfoldable pub issue_fields : IssueWorld → Reference → Json → Result FetchedGitHubIssue
issue_fields world reference payload = do
  labels_payload ← get_default payload "labels" empty_list
  items ← iterate labels_payload
  user ← get payload "user"
  login ← author_of user
  raise_if (not (is_some (as_text login))) type_error
  title ← required (world.text "title") payload "title"
  raw_body ← get payload "body"
  body ← validated (world.text "body") (or_default raw_body (str ""))
  state ← required world.state payload "state"
  labels ← validated world.labels (arr (of_list (label_names world.show items)))
  author ← validated (world.text "author") login
  issue_url ← required world.url payload "html_url"
  updated_at ← required world.time payload "updated_at"
  ok (record {
    repository = full_name reference;
    issue_number = reference.number;
    title = title;
    body = body;
    state = state;
    labels = labels;
    author = author;
    issue_url = issue_url;
    updated_at = updated_at;
  })

unfoldable pub parse_issue : IssueWorld → Reference → Json → Result FetchedGitHubIssue
parse_issue world reference payload = do
  raise_if (not (is_mapping payload)) type_error
  raise_if (has_key "pull_request" payload) unsupported
  issue_fields world reference payload

unfoldable pub read_issue : IssueWorld → Reference → List ℕ → Result FetchedGitHubIssue
read_issue world reference content = do
  payload ← or_raise (world.loads content) json_decode_error
  parse_issue world reference payload

abbrev pub issue_path : Reference → String
issue_path reference = concat "/repos/" (
    concat reference.owner
      (concat "/" (concat reference.repository (concat "/issues/" (decimal reference.number)))))

unfoldable pub request_of : IssueClient → Reference → Request
request_of client reference = record {
  base_url = client.base_url;
  path = issue_path reference;
  headers = headers_of "STEH-GitHub-Issue-Analysis/1.0" client.api_version client.token;
}

-- What follows the reply.
unfoldable pub issue_of : IssueWorld → Reference → Reply → Result FetchedGitHubIssue
issue_of world reference reply = do
  content ← content_of reply
  raise_as upstream (read_issue world reference content)

-- `fetch`
unfoldable pub fetch_issue : Library → IssueWorld → IssueClient → Reference → Net FetchedGitHubIssue
fetch_issue lib world client reference sent = elim (is_allowed lib client.allowed reference) [
  | false ↦ (err not_allowed, sent)
  | true ↦ (
    issue_of world reference (world.transport (request_of client reference)),
    sent ++ request_of client reference ∷ [],
  )
]
