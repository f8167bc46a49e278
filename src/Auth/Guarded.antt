-- ===== src/Auth/Guarded.antt =====
-- What a caller has shown whom app/core/auth.py lets in.
use steh_v1_0_0_rc.Base.{
  ℕ, String, ◌≡◌, refl, true, ◌&&◌, Option, none, some, [], ◌∷◌, ◌++◌, length, drop, non_empty,
  nat_eq, Bool-cases, Option-cases, inl, inr, ok, arith,
}
use steh_v1_0_0_rc.Json.{Json}
use steh_v1_0_0_rc.Models.Context.{Text}
use steh_v1_0_0_rc.Context.Sanitize.{starts_with, strip}
use steh_v1_0_0_rc.Auth.Principal.{
  AuthSettings, Principal, Access, http_exception, raised, granted, Decoder, has_role, roles_of,
  subject_of, admit, bearer, check_header, get_principal, require_reviewer, depends, reviewer,
}

nat_eq-true : (a b : ℕ) → nat_eq a b ≡ true → a ≡ b
nat_eq-true a b h = ground arith

-- A text that starts with another is that one and the rest.
starts_with-append : (s t : Text) → starts_with s t ≡ true → t ≡ s ++ drop (length s) t
unfolding starts_with
starts_with-append [] t h = refl
starts_with-append (a ∷ s) [] h = cc
starts_with-append (a ∷ s) (b ∷ t) h =
    let same : a ≡ b = ground arith in
    let rest = starts_with-append s t (ground arith) in cc (same, rest)

admit-granted :
    (show : Json → String) (settings : AuthSettings) (claims : Json) {p : Principal}
    → admit show settings claims ≡ granted p
    → (roles_of claims ≡ ok p.roles)
      × (has_role settings.auth_required_role p.roles ≡ true)
      × (subject_of show claims ≡ ok p.subject)
unfolding admit
admit-granted show settings claims h = ground arith

check_header-granted :
    (decode : Decoder) (show : Json → String) (settings : AuthSettings) (header : Text)
    {p : Principal}
    → check_header decode show settings header ≡ granted p
    → (token : Text) × (claims : Json) × (header ≡ bearer ++ token)
      × (decode (strip token) settings.auth_jwt_secret (settings.auth_jwt_algorithm ∷ [])
          ≡ some claims)
      × (admit show settings claims ≡ granted p)
unfolding check_header
check_header-granted decode show settings header {p} h =
    elim (Bool-cases (non_empty header && starts_with bearer header)) [
      | inr e ↦ let q : http_exception 401 ≡ granted p = rw (e, check_header) at h in cc
      | inl e ↦
          elim (Option-cases (
            decode (strip (drop 7 header)) settings.auth_jwt_secret
              (settings.auth_jwt_algorithm ∷ []))) [
                | inl n ↦
                    let q : http_exception 401 ≡ granted p = rw (e, n, check_header) at h in cc
                | inr (claims, n) ↦ (
                  drop 7 header,
                  claims,
                  starts_with-append bearer header (ground arith),
                  n,
                  rw (e, n, check_header) at h,
                )
              ]
    ]

depends-granted :
    (a : Access Principal) (rest : Principal → Access Principal) {p : Principal}
    → depends a rest ≡ granted p
    → (q : Principal) × (a ≡ granted q) × (rest q ≡ granted p)
depends-granted (http_exception code) rest h = cc
depends-granted (raised e) rest h = cc
depends-granted (granted q) rest h = (q, refl, h)

require_reviewer-granted :
    (settings : AuthSettings) (q : Principal) {p : Principal}
    → require_reviewer settings q ≡ granted p
    → (q ≡ p) × (has_role settings.auth_reviewer_role q.roles ≡ true)
unfolding require_reviewer
require_reviewer-granted settings q h = (ground arith, ground arith)

get_principal-granted :
    (decode : Decoder) (show : Json → String) (settings : AuthSettings)
    (authorization : Option Text) {p : Principal}
    → settings.auth_enabled ≡ true
    → get_principal decode show settings authorization ≡ granted p
    → (header : Text) × (authorization ≡ some header)
      × (check_header decode show settings header ≡ granted p)
unfolding get_principal
get_principal-granted decode show settings none {p} on h =
    let q : http_exception 401 ≡ granted p = rw (on, get_principal) at h in cc
get_principal-granted decode show settings (some header) on h =
    (header, refl, rw (on, get_principal) at h)

-- With authentication on, a caller who is let in as a reviewer has sent a bearer token that the
-- configured secret and algorithm decode, to claims whose roles contain the required role and the
-- reviewer's, and is the subject that the claims name.
pub reviewer_is_authenticated :
    (decode : Decoder) (show : Json → String) (settings : AuthSettings)
    (authorization : Option Text) {p : Principal}
    → settings.auth_enabled ≡ true
    → reviewer decode show settings authorization ≡ granted p
    → (token : Text) × (claims : Json) × (authorization ≡ some (bearer ++ token))
      × (decode (strip token) settings.auth_jwt_secret (settings.auth_jwt_algorithm ∷ [])
          ≡ some claims)
      × (roles_of claims ≡ ok p.roles)
      × (has_role settings.auth_required_role p.roles ≡ true)
      × (has_role settings.auth_reviewer_role p.roles ≡ true)
      × (subject_of show claims ≡ ok p.subject)
unfolding reviewer
reviewer_is_authenticated decode show settings authorization on h =
    let (q, a, r) = depends-granted (get_principal decode show settings authorization) _ h in
    let (same, role) = require_reviewer-granted settings q r in
    let (header, sent, checked) =
      get_principal-granted decode show settings authorization on (rw same at a) in
    let (token, claims, text, decoded, admitted) =
      check_header-granted decode show settings header checked in
    let (roles, required, subject) = admit-granted show settings claims admitted in
    (token, claims, cc (sent, text), decoded, roles, required, rw same at role, subject)
