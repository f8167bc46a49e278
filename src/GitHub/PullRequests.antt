-- ===== src/GitHub/PullRequests.antt =====
-- app/services/github_pull_requests.py: `GitHubPullRequestClient`. The network is a
-- parameter.
use steh_v1_0_0_rc.Base.{
  ℕ, ◌+◌, String, true, false, not, ◌&&◌, Option, none, some, List, [], ◌∷◌, ◌++◌, map, length, ltb,
  leb, nat_eq, if◌then◌else◌, concat, decimal, ◌==◌, Result, ok, err, Error, value_error, other,
}
use steh_v1_0_0_rc.Models.Context.{Text}
use steh_v1_0_0_rc.Models.PullRequest.{FetchedGitHubPullRequest}
use steh_v1_0_0_rc.Context.Sanitize.{starts_with}
use steh_v1_0_0_rc.External.{Library}
use steh_v1_0_0_rc.GitHub.Http.{
  Request, Reply, failed, replied, Net, ◌>>=◌, lift, send, strip_slashes, https, headers_of,
}
use steh_v1_0_0_rc.GitHub.Repositories.{Reference, is_allowed, allowed_repositories}
use steh_v1_0_0_rc.GitHub.Payloads.{Reading, raise_as, read_payloads}

abbrev pub not_found : Error
not_found = other "GitHubPullRequestNotFoundError"

abbrev pub not_allowed : Error
not_allowed = other "GitHubPullRequestRepositoryNotAllowedError"

abbrev pub upstream : Error
upstream = other "GitHubPullRequestUpstreamError"

pub record Client : Type 0 where
  pub base_url : Text
  pub token : Option String
  pub allowed : List Text
  pub api_version : String
  pub max_files : ℕ
  pub max_response_bytes : ℕ

-- `GitHubPullRequestClient(...)`
unfoldable pub new_client :
    Library → Text → Option String → List Text → String → ℕ → ℕ → Result Client
new_client lib base_url token allowed api_version max_files max_response_bytes =
    if not (starts_with https (strip_slashes base_url))
    then err value_error
    else if not (leb 1 max_files && leb max_files 100)
    then err value_error
    else if ltb max_response_bytes 1
    then err value_error
    else ok (record {
      base_url = strip_slashes base_url;
      token = token;
      allowed = map lib.casefold allowed;
      api_version = api_version;
      max_files = max_files;
      max_response_bytes = max_response_bytes;
    })

-- The loop of `_get` over the chunks, with the content so far.
unfoldable pub read_chunks : ℕ → List ℕ → List (Option (List ℕ)) → Result (List ℕ)
read_chunks limit content [] = ok content
read_chunks limit content (none ∷ chunks) = err upstream
read_chunks limit content (some chunk ∷ chunks) =
    let rest = read_chunks limit (content ++ chunk) chunks in
    if ltb limit (length content + length chunk) then err upstream else rest

-- `httpx.Response(...)` of the content that was read; it is none where decoding it by the headers fails
-- (`httpx.RequestError`).
abbrev pub or_upstream : Option (List ℕ) → Result (List ℕ)
or_upstream none = err upstream
or_upstream (some content) = ok content

abbrev pub rebuild : (List ℕ → Option (List ℕ)) → Result (List ℕ) → Result (List ℕ)
rebuild response (err e) = err e
rebuild response (ok content) = or_upstream (response content)

-- `_get`, of the reply: the content of the new response
unfoldable pub content_of : (List ℕ → Option (List ℕ)) → ℕ → Reply → Result (List ℕ)
unfolding read_chunks
content_of response limit failed = err upstream
content_of response limit (replied status_code chunks) =
    if nat_eq status_code 404
    then err not_found
    else if leb 400 status_code
    then err upstream
    else rebuild response (read_chunks limit [] chunks)

-- What the client is given: the network, the content of an `httpx.Response` that is made from a content
-- and the headers of the reply to a request, and what reads payloads.
pub record World : Type 0 where
  pub transport : Request → Reply
  pub response : Request → List ℕ → Option (List ℕ)
  pub reading : Reading

unfoldable pub request_of : Client → String → Request
request_of client path = record {
  base_url = client.base_url;
  path = path;
  headers = headers_of "STEH-GitHub-PR-Review/1.0" client.api_version client.token;
}

unfoldable pub get_content : World → Client → String → Net (List ℕ)
get_content world client path = do
  reply ← send world.transport (request_of client path)
  lift (content_of (world.response (request_of client path)) client.max_response_bytes reply)

abbrev pub path_of : Reference → String
path_of reference = concat "/repos/" (
    concat reference.owner
      (concat "/" (concat reference.repository (concat "/pulls/" (decimal reference.number)))))

abbrev pub files_path : Client → Reference → String
files_path client reference =
    concat (path_of reference) (concat "/files?per_page=" (decimal client.max_files))

unfoldable pub request_both : World → Client → Reference → Net FetchedGitHubPullRequest
unfolding get_content
request_both world client reference = do
  metadata ← get_content world client (path_of reference)
  files ← get_content world client (files_path client reference)
  lift (raise_as upstream (read_payloads world.reading client.max_files reference metadata files))

-- `fetch`
unfoldable pub fetch : Library → World → Client → Reference → Net FetchedGitHubPullRequest
unfolding is_allowed request_both
fetch lib world client reference = elim (is_allowed lib client.allowed reference) [
  | false ↦ lift (err not_allowed)
  | true ↦ request_both world client reference
]

-- The settings of app/core/config.py that the client is made from.
pub record GitHubSettings : Type 0 where
  pub github_api_url : Text
  pub github_token : Option String
  pub github_api_version : String
  pub github_allowed_repositories : Text
  pub github_pr_max_files : ℕ
  pub github_pr_max_response_bytes : ℕ

-- `token or None`
abbrev pub token_of : Option String → Option String
token_of none = none
token_of (some token) = if token == "" then none else some token

unfoldable pub get_github_pull_request_reader : Library → GitHubSettings → Result Client
unfolding new_client
get_github_pull_request_reader lib settings =
    new_client lib settings.github_api_url (token_of settings.github_token)
      (allowed_repositories settings.github_allowed_repositories) settings.github_api_version
      settings.github_pr_max_files settings.github_pr_max_response_bytes
