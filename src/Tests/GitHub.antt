-- ===== src/Tests/GitHub.antt =====
-- Requests of the clients of GitHub's API on small replies.
use steh_v1_0_0_rc.Base.{
  ℕ, ◌≡◌, refl, String, Bool, true, false, Option, none, some, List, [], ◌∷◌, All, ◌==◌,
  if◌then◌else◌, ok, err, zero, suc,
}
use steh_v1_0_0_rc.Json.{Json, bool, num, str, arr, obj, end, field, of_list}
use steh_v1_0_0_rc.Models.Context.{Text}
use steh_v1_0_0_rc.Models.PullRequest.{
  PullRequestFileStatus, PullRequestState, FetchedGitHubPullRequest,
}
use steh_v1_0_0_rc.Context.Sanitize.{codes, text_eq, starts_with, strip, strip_left, is_space}
use steh_v1_0_0_rc.Tests.Context.{plain}
use steh_v1_0_0_rc.GitHub.Http.{failed, replied, strip_slashes}
use steh_v1_0_0_rc.GitHub.Repositories.{Reference, is_allowed, allowed_repositories}
use steh_v1_0_0_rc.GitHub.Payloads.{Reading}
use steh_v1_0_0_rc.GitHub.PullRequests.{
  Client, World, GitHubSettings, fetch, get_content, content_of, path_of, upstream,
  get_github_pull_request_reader,
}
use steh_v1_0_0_rc.GitHub.Issues
use steh_v1_0_0_rc.GitHub.Issues.{IssueClient, IssueWorld}
use steh_v1_0_0_rc.GitHub.Allowed.{IsAllowedRequest, requests_are_allowed}

abbrev pub reference : Reference
reference = record { owner = "acme"; repository = "app"; number = 7 }

abbrev settings : GitHubSettings
settings = record {
  github_api_url = codes "https://api.github.com/";
  github_token = some "token";
  github_api_version = "2026-03-10";
  github_allowed_repositories = codes "acme/app, acme/lib";
  github_pr_max_files = 1;
  github_pr_max_response_bytes = 10;
}

abbrev pub client : Client
client = record {
  base_url = codes "https://api.github.com";
  token = some "token";
  allowed = codes "acme/app" ∷ codes "acme/lib" ∷ [];
  api_version = "2026-03-10";
  max_files = 1;
  max_response_bytes = 10;
}

made : get_github_pull_request_reader plain settings ≡ ok client
unfolding get_github_pull_request_reader strip_slashes starts_with allowed_repositories strip
    strip_left is_space
made = refl

abbrev file : Json
file = obj (
    field "filename" (str "a.py") (
      field "status" (str "modified") (
        field "additions" (num 2)
          (field "deletions" (num 1) (field "changes" (num 3) (field "patch" (str "+x") end))))))

abbrev branch : String → Json
branch name = obj (field "ref" (str name) (field "sha" (str "abcdef0") end))

-- GitHub counts two files, and the client asks for one.
abbrev metadata : Json
metadata = obj (
    field "number" (num 7) (
      field "base" (branch "main") (
        field "head" (branch "fix") (
          field "user" (obj (field "login" (str "ana") end)) (
            field "changed_files" (num 2) (
              field "title" (str "Fix") (
                field "state" (str "open") (
                  field "html_url" (str "https://github.com/acme/app/pull/7") (
                    field "updated_at" (num 5) (
                      field "draft" (bool false) (
                        field "merged" (bool false)
                          (field "additions" (num 2) (field "deletions" (num 1) end)))))))))))))

-- The two payloads by their first byte.
abbrev payload_of : List ℕ → Option Json
payload_of (zero ∷ rest) = some metadata
payload_of (suc n ∷ rest) = some (arr (of_list (file ∷ [])))
payload_of [] = none

abbrev reading : Reading
reading = record {
  loads = payload_of;
  text = λ name value. text_in value;
  code = λ name value. string_in value;
  count = λ name value. number_in value;
  flag = λ name value. flag_in value;
  time = λ name value. number_in value;
  state = λ name value. some PullRequestState.opened;
  status = λ name value. some PullRequestFileStatus.modified;
}
  where
    text_in : Json → Option Text
    text_in (str s) = some (codes s)
    text_in _ = none

    string_in : Json → Option String
    string_in (str s) = some s
    string_in _ = none

    number_in : Json → Option ℕ
    number_in (num n) = some n
    number_in _ = none

    flag_in : Json → Option Bool
    flag_in (bool b) = some b
    flag_in _ = none

abbrev pub answering : World
answering = record {
  transport = λ request.
      if request.path == path_of reference
      then replied 200 (some (0 ∷ []) ∷ [])
      else replied 200 (some (1 ∷ []) ∷ some (1 ∷ []) ∷ []);
  response = λ request content. some content;
  reading = reading;
}

abbrev found : FetchedGitHubPullRequest
found = record {
  repository = "acme/app";
  pull_number = 7;
  title = codes "Fix";
  body = [];
  state = PullRequestState.opened;
  author = codes "ana";
  pull_request_url = "https://github.com/acme/app/pull/7";
  updated_at = 5;
  base_ref = codes "main";
  base_sha = "abcdef0";
  head_ref = codes "fix";
  head_sha = "abcdef0";
  draft = false;
  merged = false;
  changed_files = 2;
  additions = 2;
  deletions = 1;
  files =
      (record {
        filename = codes "a.py";
        status = PullRequestFileStatus.modified;
        additions = 2;
        deletions = 1;
        changes = 3;
        patch = codes "+x";
        previous_filename = none;
      })
      ∷ [];
  files_truncated = true;
}

requests_are_allowed_example :
    All
      (IsAllowedRequest plain settings client reference)
      (fetch plain answering client reference []).1
requests_are_allowed_example = requests_are_allowed plain answering settings reference made

abbrev broken : World
broken = record {
  transport = λ request. failed;
  response = λ request content. some content;
  reading = reading;
}

fails : (fetch plain broken client reference []).0 ≡ err upstream
unfolding fetch text_eq get_content content_of
fails = refl

abbrev pub issue_client : IssueClient
issue_client = record {
  base_url = codes "https://api.github.com";
  token = none;
  allowed = codes "acme/app" ∷ [];
  api_version = "2026-03-10";
}

-- The reply has the payload of a pull request.
abbrev issue_world : IssueWorld
issue_world = record {
  transport = λ request. replied 200 (some (0 ∷ []) ∷ []);
  loads = λ content. some (obj (field "pull_request" (obj end) end));
  show = λ value. value;
  text = λ name value. none;
  url = λ value. none;
  time = λ value. none;
  state = λ value. none;
  labels = λ value. none;
}

no_issue :
    (Issues.fetch_issue plain issue_world issue_client reference []).0 ≡ err Issues.unsupported
unfolding Issues.fetch_issue text_eq Issues.issue_of Issues.content_of Issues.read_all
    Issues.read_issue Issues.parse_issue is_allowed
no_issue = refl
