-- ===== src/GitHub/IssueErrors.antt =====
-- What the client of app/services/github_client.py raises.
use steh_v1_0_0_rc.Base.{
  ℕ, String, ◌≡◌, ◌⊎◌, refl, false, not, Option, none, some, List, [], ◌∷◌, ◌++◌, is_some, nat_eq,
  leb, Bool-cases, Option-cases, inl, inr, arith, Result, ok, err, Error, type_error, raise_if,
  ◌>>=◌, ◌>>◌,
}
use steh_v1_0_0_rc.Json.{Json, get_default, iterate, lookup, empty_list}
use steh_v1_0_0_rc.External.{Library}
use steh_v1_0_0_rc.GitHub.Http.{Request, Reply, failed, replied}
use steh_v1_0_0_rc.GitHub.Repositories.{Reference, is_allowed}
use steh_v1_0_0_rc.GitHub.Payloads.{is_mapping, as_text, raise_as}
use steh_v1_0_0_rc.GitHub.Caught.{
  Caught, ok-Caught, bind-Caught, check-Caught, lookup-Caught, field-Caught, valid-Caught,
  get-Caught, or_raise-Caught,
}
use steh_v1_0_0_rc.GitHub.Issues.{
  IssueClient, IssueWorld, not_allowed, not_found, unsupported, upstream, read_all, content_of,
  has_key, author_of, issue_fields, parse_issue, read_issue, issue_of, request_of, fetch_issue,
}

raise_as-Caught :
    {A : Type 0} (r : Result A) {e : Error} → Caught r → raise_as upstream r ≡ err e → e ≡ upstream
raise_as-Caught (ok a) c h = absurd (cc h)
raise_as-Caught (err x) c h = ground (arith, h, c.raised x refl)

-- The errors that the client raises.
abbrev Known : Error → Type 0
Known e = (e ≡ not_allowed) ⊎ (e ≡ not_found) ⊎ (e ≡ unsupported) ⊎ (e ≡ upstream)

get_default-Caught {ℓ} :
    {B : Type ℓ} (v : Json) (key : String) (d : Json) (rest : Json → Result B)
    → not (is_mapping v) ≡ false
    → ((a : Json) → Caught (rest a))
    → Caught (get_default v key d >>= rest)
unfolding get_default
get_default-Caught (Json.obj fields) key d rest m h = elim (Option-cases (lookup key fields)) [
  | inl n ↦ rw (n, get_default) (h d)
  | inr (v, n) ↦ rw (n, get_default) (h v)
]
get_default-Caught Json.null key d rest m h = absurd (cc m)
get_default-Caught (Json.bool b) key d rest m h = absurd (cc m)
get_default-Caught (Json.num n) key d rest m h = absurd (cc m)
get_default-Caught (Json.str s) key d rest m h = absurd (cc m)
get_default-Caught (Json.uuid n) key d rest m h = absurd (cc m)
get_default-Caught (Json.instant n) key d rest m h = absurd (cc m)
get_default-Caught (Json.arr xs) key d rest m h = absurd (cc m)

iterate-Caught : (v : Json) → Caught (iterate v)
unfolding iterate
iterate-Caught (Json.arr xs) = ok-Caught _
iterate-Caught (Json.obj fields) = ok-Caught _
iterate-Caught (Json.str s) = ok-Caught _
iterate-Caught Json.null = or_raise-Caught none type_error refl
iterate-Caught (Json.bool b) = or_raise-Caught none type_error refl
iterate-Caught (Json.num n) = or_raise-Caught none type_error refl
iterate-Caught (Json.uuid n) = or_raise-Caught none type_error refl
iterate-Caught (Json.instant n) = or_raise-Caught none type_error refl

author_of-Caught : (user : Json) → Caught (author_of user)
unfolding author_of
author_of-Caught user = elim (Bool-cases (is_mapping user)) [
  | inl e ↦ rw e (get-Caught user "login" (rw e refl))
  | inr e ↦ rw e (ok-Caught Json.null)
]

issue_fields-Caught :
    (world : IssueWorld) (reference : Reference) (payload : Json)
    → not (is_mapping payload) ≡ false
    → Caught (issue_fields world reference payload)
unfolding issue_fields
issue_fields-Caught world reference payload m =
    get_default-Caught payload "labels" empty_list _ m (λ labels_payload.
      bind-Caught (iterate labels_payload) _ (iterate-Caught labels_payload) (λ items.
        lookup-Caught payload "user" _ m (λ user.
          bind-Caught (author_of user) _ (author_of-Caught user) (λ login.
            check-Caught (not (is_some (as_text login))) _ type_error refl (λ found.
              field-Caught (world.text "title") payload "title" _ (λ title.
                lookup-Caught payload "body" _ m
                  (λ body. search (field-Caught, valid-Caught, ok-Caught) depth 30)))))))

-- What `fetch` makes of an error of a payload.
read_issue-Known :
    (world : IssueWorld) (reference : Reference) (content : List ℕ) {e : Error}
    → raise_as upstream (read_issue world reference content) ≡ err e
    → Known e
unfolding read_issue parse_issue
read_issue-Known world reference content h = elim (Option-cases (world.loads content)) [
  | inl n ↦ inr (inr (inr (cc (rw (n, read_issue) at h))))
  | inr (payload, n) ↦
      let parsed = rw (n, read_issue) at h in
      elim (Bool-cases (not (is_mapping payload))) [
        | inl a ↦ inr (inr (inr (cc (rw (a, parse_issue) at parsed))))
        | inr a ↦ elim (Bool-cases (has_key "pull_request" payload)) [
          | inl b ↦ inr (inr (inl (cc (rw (a, b, parse_issue) at parsed))))
          | inr b ↦ inr (
              inr (
                inr (
                  raise_as-Caught (issue_fields world reference payload)
                    (issue_fields-Caught world reference payload a)
                    (rw (a, b, parse_issue) at parsed))))
        ]
      ]
]

read_all-upstream :
    (content : List ℕ) (chunks : List (Option (List ℕ))) {e : Error}
    → read_all content chunks ≡ err e
    → e ≡ upstream
unfolding read_all
read_all-upstream content [] h = absurd (cc h)
read_all-upstream content (none ∷ chunks) h = cc h
read_all-upstream content (some chunk ∷ chunks) h = read_all-upstream (content ++ chunk) chunks h

content_of-Known : (reply : Reply) {e : Error} → content_of reply ≡ err e → Known e
unfolding content_of
content_of-Known failed h = inr (inr (inr (cc h)))
content_of-Known (replied status_code chunks) {e} h = go (read_all [] chunks) refl h
  where
    go :
        (r : Result (List ℕ))
        → read_all [] chunks ≡ r
        → (r >>= λ content.
            raise_if (nat_eq status_code 404) not_found
            >> (raise_if (leb 400 status_code) upstream >> ok content))
          ≡ err e
        → Known e
    go (err x) q k = inr (inr (inr (cc (k, read_all-upstream [] chunks q))))
    go (ok content) q k = elim (Bool-cases (nat_eq status_code 404)) [
      | inl a ↦ inr (inl (cc (rw a at k)))
      | inr a ↦ elim (Bool-cases (leb 400 status_code)) [
        | inl b ↦ inr (inr (inr (cc (rw (a, b) at k))))
        | inr b ↦ absurd (cc (rw (a, b) at k))
      ]
    ]

issue_of-Known :
    (world : IssueWorld) (reference : Reference) (reply : Reply) {e : Error}
    → issue_of world reference reply ≡ err e
    → Known e
unfolding issue_of
issue_of-Known world reference reply {e} h = go (content_of reply) refl h
  where
    go :
        (r : Result (List ℕ))
        → content_of reply ≡ r
        → (r >>= λ content. raise_as upstream (read_issue world reference content)) ≡ err e
        → Known e
    go (err x) q k = content_of-Known reply (cc (q, k))
    go (ok content) q k = read_issue-Known world reference content k

-- Whatever GitHub replies, a fetch of an issue that raises, raises one of the client's four errors: that
-- the repository is not allowed, that the issue was not found, that it is a pull request, or that GitHub
-- failed.
pub fetch_issue_raises_known :
    (lib : Library) (world : IssueWorld) (client : IssueClient) (reference : Reference)
    (sent : List Request) {e : Error}
    → (fetch_issue lib world client reference sent).0 ≡ err e
    → (e ≡ not_allowed) ⊎ (e ≡ not_found) ⊎ (e ≡ unsupported) ⊎ (e ≡ upstream)
unfolding fetch_issue
fetch_issue_raises_known lib world client reference sent h =
    elim (Bool-cases (is_allowed lib client.allowed reference)) [
      | inl a ↦
          issue_of-Known world reference (world.transport (request_of client reference))
            (rw (a, fetch_issue) at h)
      | inr a ↦ inl (cc (rw (a, fetch_issue) at h))
    ]
