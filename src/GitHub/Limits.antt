-- ===== src/GitHub/Limits.antt =====
-- What app/services/github_pull_requests.py returns of a payload: files within the limit, and none
-- left out without a mark.
use mathlib.Core.Path.{subst}
use steh_v1_0_0_rc.Base.{
  ℕ, ◌≤◌, ◌≡◌, refl, Bool, true, ◌||◌, List, [], ◌∷◌, take, take-le, length, ltb, leb, arith,
  type_error, Result, ok, err, traverse, or_raise, ◌>>=◌, >>=-eq-ok,
}
use steh_v1_0_0_rc.Json.{Json, item}
use steh_v1_0_0_rc.Models.PullRequest.{FetchedPullRequestFile, FetchedGitHubPullRequest}
use steh_v1_0_0_rc.GitHub.Repositories.{Reference, full_name}
use steh_v1_0_0_rc.GitHub.Payloads.{
  Reading, Parts, parts_of, int_value, parse_file, pull_request_of, parse_pull_request, decode,
  read_payloads,
}

-- What it returns, if it returns, has the property.
record Yields {ℓ} {A : Type ℓ} (P : A → Type 0) (r : Result A) : Type ℓ where
  returned : (a : A) → r ≡ ok a → P a

ok-injective {ℓ} : {A : Type ℓ} {a b : A} → ◌≡◌ {A = Result A} (ok a) (ok b) → a ≡ b
ok-injective h = cc h

ok-Yields {ℓ} : {A : Type ℓ} (P : A → Type 0) (a : A) → P a → Yields P (ok a)
ok-Yields P a p = record { returned = λ b h. subst P (ok-injective h) p }

bind-Yields {ℓ κ} :
    {A : Type ℓ} {B : Type κ} (P : B → Type 0) (m : Result A) (f : A → Result B)
    → ((a : A) → Yields P (f a))
    → Yields P (m >>= f)
bind-Yields P (ok a) f h = h a
bind-Yields P (err e) f h = record { returned = λ b q. absurd (cc q) }

-- What the client puts into a pull request itself, rather than from its payload.
record Built (reference : Reference) (files : List FetchedPullRequestFile) (changed_files : ℕ)
    (files_truncated : Bool) (p : FetchedGitHubPullRequest) : Type 0 where
  repository : p.repository ≡ full_name reference
  number : p.pull_number ≡ reference.number
  same_files : p.files ≡ files
  same_count : p.changed_files ≡ changed_files
  same_mark : p.files_truncated ≡ files_truncated

ok-Built :
    {reference : Reference} {files : List FetchedPullRequestFile} {changed_files : ℕ}
    {files_truncated : Bool} (p : FetchedGitHubPullRequest)
    → Built reference files changed_files files_truncated p
    → Yields (Built reference files changed_files files_truncated) (ok p)
ok-Built p b = ok-Yields _ p b

pull_request_of-Built :
    (reading : Reading) (reference : Reference) (payload : Json) (parts : Parts)
    (files : List FetchedPullRequestFile) (changed_files : ℕ) (files_truncated : Bool)
    → Yields
        (Built reference files changed_files files_truncated)
        (pull_request_of reading reference payload parts files changed_files files_truncated)
unfolding pull_request_of
pull_request_of-Built reading reference payload parts files changed_files files_truncated =
    search (bind-Yields, ok-Built) depth 50

covered : (n changed : ℕ) (more : Bool) → ((ltb n changed || more) || leb changed n) ≡ true
covered n changed more = ground arith

traverse-length :
    {A B : Type 0} (f : A → Result B) (xs : List A) {ys : List B}
    → traverse f xs ≡ ok ys
    → length ys ≡ length xs
traverse-length f [] {ys} h = let e : [] ≡ ys = cc h in rw (← e) refl
traverse-length f (x ∷ xs) {ys} h =
    let (z, _, q) = >>=-eq-ok (f x) _ h in
    let (zs, t, r) = >>=-eq-ok (traverse f xs) _ q in
    let e : z ∷ zs ≡ ys = cc r in rw (← e) (omega (arith, traverse-length f xs t))

-- It has the repository and the number that were asked for and at most as many files as the limit, and
-- is marked as truncated if GitHub counts more files than it has.
abbrev pub WithinLimits : ℕ → Reference → FetchedGitHubPullRequest → Type 0
WithinLimits max_files reference p =
    (p.repository ≡ full_name reference)
    × (p.pull_number ≡ reference.number)
    × (length p.files ≤ max_files)
    × ((p.files_truncated || leb p.changed_files (length p.files)) ≡ true)

Built-WithinLimits :
    (max_files : ℕ) (reference : Reference) (files : List FetchedPullRequestFile)
    (changed_files : ℕ) (more : Bool) {p : FetchedGitHubPullRequest}
    → Built reference files changed_files (ltb (length files) changed_files || more) p
    → length files ≤ max_files
    → WithinLimits max_files reference p
Built-WithinLimits max_files reference files changed_files more b size = (
  b.repository,
  b.number,
  rw b.same_files size,
  rw (b.same_files, b.same_count, b.same_mark) (covered (length files) changed_files more),
)

pub parse_pull_request-WithinLimits :
    (reading : Reading) (max_files : ℕ) (reference : Reference) (payload files_payload : Json)
    {p : FetchedGitHubPullRequest}
    → parse_pull_request reading max_files reference payload files_payload ≡ ok p
    → WithinLimits max_files reference p
unfolding parse_pull_request
parse_pull_request-WithinLimits reading max_files reference payload files_payload {p} h =
    let (parts, _, a) = >>=-eq-ok (parts_of reference payload files_payload) _ h in
    let (files, e, b) =
      >>=-eq-ok (traverse (parse_file reading) (take max_files parts.entries)) _ a in
    let (changed, _, c) = >>=-eq-ok (item payload "changed_files") _ b in
    let (changed_files, _, d) = >>=-eq-ok (or_raise (int_value changed) type_error) _ c in
    Built-WithinLimits max_files reference files changed_files
      (ltb max_files (length parts.entries))
      ((pull_request_of-Built reading reference payload parts files changed_files _).returned p d)
      (omega (
        arith,
        traverse-length (parse_file reading) (take max_files parts.entries) e,
        take-le max_files parts.entries,
      ))

pub read_payloads-WithinLimits :
    (reading : Reading) (max_files : ℕ) (reference : Reference) (metadata files : List ℕ)
    {p : FetchedGitHubPullRequest}
    → read_payloads reading max_files reference metadata files ≡ ok p
    → WithinLimits max_files reference p
unfolding read_payloads
read_payloads-WithinLimits reading max_files reference metadata files h =
    let (payload, _, a) = >>=-eq-ok (decode reading metadata) _ h in
    let (files_payload, _, b) = >>=-eq-ok (decode reading files) _ a in
    parse_pull_request-WithinLimits reading max_files reference payload files_payload b
