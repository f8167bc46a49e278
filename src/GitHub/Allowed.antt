-- ===== src/GitHub/Allowed.antt =====
-- Which requests the client of app/services/github_pull_requests.py sends.
use steh_v1_0_0_rc.Base.{
  ℕ, String, ◌≡◌, ◌⊎◌, refl, true, Option, List, [], ◌∷◌, map, Bool-cases, All, inl, inr, arith,
  Result, ok, err,
}
use steh_v1_0_0_rc.Models.Context.{Text}
use steh_v1_0_0_rc.Context.Sanitize.{starts_with}
use steh_v1_0_0_rc.External.{Library}
use steh_v1_0_0_rc.GitHub.Payloads.{raise_as, read_payloads}
use steh_v1_0_0_rc.GitHub.Http.{Request, lift, ◌>>=◌, then_do, https}
use steh_v1_0_0_rc.GitHub.Repositories.{Reference, is_allowed, allowed_repositories}
use steh_v1_0_0_rc.GitHub.PullRequests.{
  Client, World, GitHubSettings, new_client, get_github_pull_request_reader, content_of,
  get_content, request_of, request_both, fetch, token_of, upstream, path_of, files_path,
}

-- The client is set up for HTTPS and for the repositories that the settings name.
record IsSetUp (lib : Library) (settings : GitHubSettings) (client : Client) : Type 0 where
  secure : starts_with https client.base_url ≡ true
  same_allowed :
      client.allowed ≡ map lib.casefold (allowed_repositories settings.github_allowed_repositories)

new_client-made :
    (lib : Library) (base_url : Text) (token : Option String) (allowed : List Text)
    (api_version : String) (max_files max_response_bytes : ℕ) {client : Client}
    → new_client lib base_url token allowed api_version max_files max_response_bytes ≡ ok client
    → (starts_with https client.base_url ≡ true) × (client.allowed ≡ map lib.casefold allowed)
unfolding new_client
new_client-made lib base_url token allowed api_version max_files max_response_bytes h =
    (ground arith, ground arith)

reader-IsSetUp :
    (lib : Library) (settings : GitHubSettings) {client : Client}
    → get_github_pull_request_reader lib settings ≡ ok client
    → IsSetUp lib settings client
unfolding get_github_pull_request_reader
reader-IsSetUp lib settings h =
    let (secure, same) =
      new_client-made lib settings.github_api_url (token_of settings.github_token)
        (allowed_repositories settings.github_allowed_repositories) settings.github_api_version
        settings.github_pr_max_files settings.github_pr_max_response_bytes h in
    record { secure = secure; same_allowed = same }

-- What holds of both requests holds of those that were sent.
module _ (world : World) (client : Client) (reference : Reference) (P : Request → Type 0)
    (first : P (request_of client (path_of reference)))
    (second : P (request_of client (files_path client reference))) where
  after_files :
      (metadata : List ℕ) (r : Result (List ℕ))
      → All P
          (then_do
            (λ files. lift (
              raise_as upstream
                (read_payloads world.reading client.max_files reference metadata files)))
            (
              r,
              request_of client (path_of reference)
                  ∷ request_of client (files_path client reference)
                  ∷ [],
            )).1
  after_files metadata (ok files) = (first, (second, tt))
  after_files metadata (err e) = (first, (second, tt))

  after_metadata :
      (r : Result (List ℕ))
      → All P
          (then_do
            (λ metadata. get_content world client (files_path client reference) >>= λ files. lift (
              raise_as upstream
                (read_payloads world.reading client.max_files reference metadata files)))
            (r, request_of client (path_of reference) ∷ [])).1
  unfolding get_content
  after_metadata (ok metadata) = after_files metadata (
      content_of (world.response (request_of client (files_path client reference)))
        client.max_response_bytes
        (world.transport (request_of client (files_path client reference))))
  after_metadata (err e) = (first, tt)

  both-sent : All P (request_both world client reference []).1
  unfolding request_both
  both-sent = after_metadata (
      content_of (world.response (request_of client (path_of reference))) client.max_response_bytes
        (world.transport (request_of client (path_of reference))))

-- A request over HTTPS for the pull request or for its files, of a repository that is allowed.
abbrev pub IsAllowedRequest : Library → GitHubSettings → Client → Reference → Request → Type 0
IsAllowedRequest lib settings client reference request =
    (starts_with https request.base_url ≡ true)
    × ((request.path ≡ path_of reference) ⊎ (request.path ≡ files_path client reference))
    × (is_allowed lib (map lib.casefold (allowed_repositories settings.github_allowed_repositories))
          reference
        ≡ true)

-- Whatever GitHub replies, a client that is made from the settings sends requests over HTTPS only, for
-- the pull request that was asked for and for its files, and none if its repository is not among those
-- that the settings allow.
pub requests_are_allowed :
    (lib : Library) (world : World) (settings : GitHubSettings) (reference : Reference)
    {client : Client}
    → get_github_pull_request_reader lib settings ≡ ok client
    → All (IsAllowedRequest lib settings client reference) (fetch lib world client reference []).1
unfolding fetch request_of
requests_are_allowed lib world settings reference {client} made =
    let set_up = reader-IsSetUp lib settings made in
    elim (Bool-cases (is_allowed lib client.allowed reference)) [
      | inr a ↦ rw (a, fetch) tt
      | inl a ↦
          let allowed = rw set_up.same_allowed at a in
          rw (a, fetch)
            (both-sent world client reference (IsAllowedRequest lib settings client reference)
              (set_up.secure, inl refl, allowed) (set_up.secure, inr refl, allowed))
    ]
