-- ===== src/GitHub/Http.antt =====
-- Requests over HTTPS as app/services/github_pull_requests.py and app/services/github_client.py make
-- them. The network is a parameter: a function from requests to replies. An action remembers the
-- requests that were sent.
use steh_v1_0_0_rc.Base.{
  ℕ, String, Option, none, some, List, [], ◌∷◌, ◌++◌, nat_eq, if◌then◌else◌, concat, Result, ok,
  err,
}
use steh_v1_0_0_rc.Models.Context.{Text}
use steh_v1_0_0_rc.Context.Sanitize.{codes}

pub record Request : Type 0 where
  pub base_url : Text
  pub path : String
  pub headers : List (String × String)

-- A request that fails (`httpx.RequestError`), or a status and the chunks of the body; a chunk is none
-- where reading the body fails.
pub data Reply : Type 0 where
  failed : Reply
  replied : ℕ → List (Option (List ℕ)) → Reply

abbrev pub Net : Type 0 → Type 0
Net A = List Request → Result A × List Request

abbrev pub then_do :
    {A B : Type 0} → (A → Net B) → Result A × List Request → Result B × List Request
then_do f (ok a, sent) = f a sent
then_do f (err e, sent) = (err e, sent)

infixl 5 ◌>>=◌
abbrev pub ◌>>=◌ : {A B : Type 0} → Net A → (A → Net B) → Net B
◌>>=◌ m f sent = then_do f (m sent)

abbrev pub lift : {A : Type 0} → Result A → Net A
lift r sent = (r, sent)

abbrev pub send : (Request → Reply) → Request → Net Reply
send transport request sent = (ok (transport request), sent ++ request ∷ [])

-- `value.rstrip("/")`
unfoldable pub strip_slashes : Text → Text
strip_slashes [] = []
strip_slashes (c ∷ t) =
    let rest = strip_slashes t in
    elim rest [ [] ↦ if nat_eq c 47 then [] else c ∷ [] | d ∷ s ↦ c ∷ d ∷ s ]

abbrev pub https : Text
https = codes "https://"

-- the headers of a client; an empty token is none
abbrev pub headers_of : String → String → Option String → List (String × String)
headers_of user_agent api_version token =
    ("Accept", "application/vnd.github+json")
    ∷ ("User-Agent", user_agent)
    ∷ ("X-GitHub-Api-Version", api_version)
    ∷ elim token [ none ↦ [] | some secret ↦ ("Authorization", concat "Bearer " secret) ∷ [] ]
