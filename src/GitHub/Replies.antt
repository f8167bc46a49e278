-- ===== src/GitHub/Replies.antt =====
-- How `_get` of app/services/github_pull_requests.py reads one reply: what it returns and what it raises.
use steh_v1_0_0_rc.Base.{
  ℕ, ◌+◌, ◌≤◌, ◌≡◌, ◌⊎◌, refl, Option, none, some, List, [], ◌∷◌, ◌++◌, length, length-append, ltb,
  leb, nat_eq, Bool-cases, inl, inr, arith, Result, ok, err, Error,
}
use steh_v1_0_0_rc.GitHub.Http.{Reply, failed, replied}
use steh_v1_0_0_rc.GitHub.PullRequests.{
  read_chunks, or_upstream, rebuild, content_of, not_found, not_allowed, upstream,
}

-- The content that is read of one reply stays within the limit.
read_chunks-le :
    (limit : ℕ) (content : List ℕ) (chunks : List (Option (List ℕ))) {read : List ℕ}
    → length content ≤ limit
    → read_chunks limit content chunks ≡ ok read
    → length read ≤ limit
unfolding read_chunks
read_chunks-le limit content [] l h = ground (arith, h)
read_chunks-le limit content (none ∷ chunks) l h = absurd (cc h)
read_chunks-le limit content (some chunk ∷ chunks) l h =
    elim (Bool-cases (ltb limit (length content + length chunk))) [
      | inl e ↦ absurd (cc (rw e at h))
      | inr e ↦
          read_chunks-le limit (content ++ chunk) chunks
            (ground (arith, length-append content chunk)) (rw e at h)
    ]

rebuild-ok :
    (response : List ℕ → Option (List ℕ)) (r : Result (List ℕ)) {body : List ℕ}
    → rebuild response r ≡ ok body
    → (read : List ℕ) × (r ≡ ok read) × (response read ≡ some body)
rebuild-ok response (err e) h = absurd (cc h)
rebuild-ok response (ok read) {body} h = (read, refl, go (response read) h)
  where
    go : (o : Option (List ℕ)) → or_upstream o ≡ ok body → o ≡ some body
    go none k = absurd (cc k)
    go (some content) k = cc k

rebuild-err :
    (response : List ℕ → Option (List ℕ)) (r : Result (List ℕ)) {e : Error}
    → rebuild response r ≡ err e
    → (r ≡ err e) ⊎ (e ≡ upstream)
rebuild-err response (err x) h = inl h
rebuild-err response (ok read) {e} h = inr (go (response read) h)
  where
    go : (o : Option (List ℕ)) → or_upstream o ≡ err e → e ≡ upstream
    go none k = cc k
    go (some content) k = absurd (cc k)

-- The body is the content of a response that was made from at most `limit` bytes.
abbrev pub MadeWithin : (List ℕ → Option (List ℕ)) → ℕ → List ℕ → Type 0
MadeWithin response limit body =
    (read : List ℕ) × (length read ≤ limit) × (response read ≡ some body)

pub content_of-MadeWithin :
    (response : List ℕ → Option (List ℕ)) (limit : ℕ) (reply : Reply) {body : List ℕ}
    → content_of response limit reply ≡ ok body
    → MadeWithin response limit body
unfolding content_of
content_of-MadeWithin response limit failed h = absurd (cc h)
content_of-MadeWithin response limit (replied status_code chunks) h =
    elim (Bool-cases (nat_eq status_code 404)) [
      | inl a ↦ absurd (cc (rw (a, content_of) at h))
      | inr a ↦ elim (Bool-cases (leb 400 status_code)) [
        | inl b ↦ absurd (cc (rw (a, b, content_of) at h))
        | inr b ↦
            let (read, c, made) =
              rebuild-ok response (read_chunks limit [] chunks) (rw (a, b, content_of) at h) in
            (read, read_chunks-le limit [] chunks (omega arith) c, made)
      ]
    ]

read_chunks-upstream :
    (limit : ℕ) (content : List ℕ) (chunks : List (Option (List ℕ))) {e : Error}
    → read_chunks limit content chunks ≡ err e
    → e ≡ upstream
unfolding read_chunks
read_chunks-upstream limit content [] h = absurd (cc h)
read_chunks-upstream limit content (none ∷ chunks) h = cc h
read_chunks-upstream limit content (some chunk ∷ chunks) h =
    elim (Bool-cases (ltb limit (length content + length chunk))) [
      | inl e ↦ cc (rw e at h)
      | inr e ↦ read_chunks-upstream limit (content ++ chunk) chunks (rw e at h)
    ]

-- The errors that the client raises.
abbrev pub Known : Error → Type 0
Known e = (e ≡ not_allowed) ⊎ (e ≡ not_found) ⊎ (e ≡ upstream)

pub content_of-Known :
    (response : List ℕ → Option (List ℕ)) (limit : ℕ) (reply : Reply) {e : Error}
    → content_of response limit reply ≡ err e
    → Known e
unfolding content_of
content_of-Known response limit failed h = inr (inr (cc h))
content_of-Known response limit (replied status_code chunks) h =
    elim (Bool-cases (nat_eq status_code 404)) [
      | inl a ↦ inr (inl (cc (rw (a, content_of) at h)))
      | inr a ↦ elim (Bool-cases (leb 400 status_code)) [
        | inl b ↦ inr (inr (cc (rw (a, b, content_of) at h)))
        | inr b ↦
            elim (rebuild-err response (read_chunks limit [] chunks) (rw (a, b, content_of) at h)) [
              | inl c ↦ inr (inr (read_chunks-upstream limit [] chunks c))
              | inr c ↦ inr (inr c)
            ]
      ]
    ]
