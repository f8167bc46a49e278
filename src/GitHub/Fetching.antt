-- ===== src/GitHub/Fetching.antt =====
-- What the client of app/services/github_pull_requests.py asks GitHub for, what it returns and what it
-- raises.
use steh_v1_0_0_rc.Base.{
  ℕ, String, ◌≡◌, ◌⊎◌, refl, List, Bool-cases, inl, inr, arith, Result, ok, err, Error,
}
use steh_v1_0_0_rc.External.{Library}
use steh_v1_0_0_rc.GitHub.Http.{Request, Net, then_do}
use steh_v1_0_0_rc.GitHub.Repositories.{Reference, is_allowed}
use steh_v1_0_0_rc.GitHub.Payloads.{Reading, read_payloads, raise_as, decode}
use steh_v1_0_0_rc.GitHub.PullRequests.{
  Client, World, content_of, get_content, request_of, request_both, fetch, path_of, files_path,
  not_found, not_allowed, upstream,
}
use steh_v1_0_0_rc.GitHub.Replies.{Known, content_of-Known}
use steh_v1_0_0_rc.GitHub.Caught.{Caught, bind-Caught, or_raise-Caught}
use steh_v1_0_0_rc.GitHub.Reading.{parse_pull_request-Caught}

read_payloads-Caught :
    (reading : Reading) (max_files : ℕ) (reference : Reference) (metadata files : List ℕ)
    → Caught (read_payloads reading max_files reference metadata files)
unfolding read_payloads
read_payloads-Caught reading max_files reference metadata files =
    bind-Caught (decode reading metadata) _ (or_raise-Caught (reading.loads metadata) _ refl)
      (λ payload.
        bind-Caught (decode reading files) _ (or_raise-Caught (reading.loads files) _ refl)
          (λ files_payload.
            parse_pull_request-Caught reading max_files reference payload files_payload))

raise_as-Known :
    {A : Type 0} (r : Result A) {e : Error} → Caught r → raise_as upstream r ≡ err e → Known e
raise_as-Known (ok a) c h = absurd (cc h)
raise_as-Known (err x) c h = inr (inr (ground (arith, h, c.raised x refl)))

-- How an action went whose first part has a result.
then_do-err :
    {A B : Type 0} (f : A → Net B) (r : Result A) (sent : List Request) {e : Error}
    → (then_do f (r, sent)).0 ≡ err e
    → (r ≡ err e) ⊎ ((a : A) × (f a sent).0 ≡ err e)
then_do-err f (ok a) sent h = inr (a, h)
then_do-err f (err x) sent h = inl (cc h)

-- what `_get` makes of the reply to the request for a path
abbrev got : World → Client → String → Result (List ℕ)
got world client path =
    content_of (world.response (request_of client path)) client.max_response_bytes
      (world.transport (request_of client path))

got-Known :
    (world : World) (client : Client) (path : String) {e : Error}
    → got world client path ≡ err e
    → Known e
got-Known world client path h =
    content_of-Known (world.response (request_of client path)) client.max_response_bytes
      (world.transport (request_of client path)) h

both-Known :
    (world : World) (client : Client) (reference : Reference) (sent : List Request) {e : Error}
    → (request_both world client reference sent).0 ≡ err e
    → Known e
unfolding request_both get_content
both-Known world client reference sent h =
    elim (then_do-err _ (got world client (path_of reference)) _ h) [
      | inl a ↦ got-Known world client (path_of reference) a
      | inr (metadata, b) ↦
          elim (then_do-err _ (got world client (files_path client reference)) _ b) [
            | inl c ↦ got-Known world client (files_path client reference) c
            | inr (files, d) ↦
                raise_as-Known
                  (read_payloads world.reading client.max_files reference metadata files)
                  (read_payloads-Caught world.reading client.max_files reference metadata files) d
          ]
    ]

-- Whatever GitHub replies, a fetch that raises, raises one of the client's three errors: that the
-- repository is not allowed, that the pull request was not found, or that GitHub failed.
pub fetch_raises_known :
    (lib : Library) (world : World) (client : Client) (reference : Reference) (sent : List Request)
    {e : Error}
    → (fetch lib world client reference sent).0 ≡ err e
    → (e ≡ not_allowed) ⊎ (e ≡ not_found) ⊎ (e ≡ upstream)
unfolding fetch
fetch_raises_known lib world client reference sent h =
    elim (Bool-cases (is_allowed lib client.allowed reference)) [
      | inl a ↦ both-Known world client reference sent (rw (a, fetch) at h)
      | inr a ↦ inl (cc (rw (a, fetch) at h))
    ]
