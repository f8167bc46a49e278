-- ===== src/Api/Deciding.antt =====
-- Who may decide a human review through app/api/routes/tasks.py, and how often.
use steh_v1_0_0_rc.Base.{
  ℕ, ◌≡◌, refl, ap, ◌∙◌, inl, inr, Bool-cases, String, true, Option, some, List, [], ◌∷◌, ◌++◌,
  Result, ok, err, human_review_conflict,
}
use steh_v1_0_0_rc.Json.{Json}
use steh_v1_0_0_rc.Models.Context.{Text}
use steh_v1_0_0_rc.Models.Review.{HumanReviewDecision}
use steh_v1_0_0_rc.Context.Sanitize.{strip}
use steh_v1_0_0_rc.Db.{TaskRecord, Session, lift, >>=-eq-ok}
use steh_v1_0_0_rc.Auth.Principal.{
  AuthSettings, Access, Principal, http_exception, raised, granted, Decoder, bearer, has_role,
  roles_of, reviewer,
}
use steh_v1_0_0_rc.Auth.Guarded.{reviewer_is_authenticated}
use steh_v1_0_0_rc.Tasks.Review.{claim_human_review}
use steh_v1_0_0_rc.Tasks.Claim.{one_decision}
use steh_v1_0_0_rc.Api.Responses.{refused, answered, Rendering, Accepted, accepted}
use steh_v1_0_0_rc.Api.Routes.{answer, decided, is_conflict, decide_human_review}

answered-ok :
    (rendering : Rendering) (task : TaskRecord) (t : Session) {a : Accepted} {s' : Session}
    → answer rendering task t ≡ (ok (answered a), s')
    → t ≡ s'
answered-ok rendering task t h =
    let (response, v, p, q) = >>=-eq-ok (lift (accepted rendering task)) _ t h in
    ap (λ x. x.1) p ∙ ap (λ x. x.1) q

conflict-decided :
    (rendering : Rendering) (p : Result TaskRecord × Session)
    → p.0 ≡ err human_review_conflict
    → (decided rendering p.0 p.1).0 ≡ ok (refused 409)
conflict-decided rendering (ok task, t) h = absurd (cc h)
conflict-decided rendering (err e, t) h =
    let same : e ≡ human_review_conflict = cc h in rw same refl

-- the claim behind an answer
decided-answered :
    (rendering : Rendering) (p : Result TaskRecord × Session) {a : Accepted} {s' : Session}
    → decided rendering p.0 p.1 ≡ (ok (answered a), s')
    → (task : TaskRecord) × (p ≡ (ok task, s'))
decided-answered rendering (ok task, t) h = (task, cc (answered-ok rendering task t h))
decided-answered rendering (err e, t) h = elim (Bool-cases (is_conflict e)) [
  | inl c ↦ absurd (cc (rw c at h))
  | inr c ↦ absurd (cc (rw c at h))
]

access-answered :
    (rendering : Rendering) (access : Access Principal) (task_id : ℕ)
    (payload : HumanReviewDecision) (s : Session) {a : Accepted} {s' : Session}
    → decide_human_review rendering access task_id payload s ≡ (ok (answered a), s')
    → (p : Principal) × (access ≡ granted p)
      × ((task : TaskRecord) × (claim_human_review task_id p.subject payload s ≡ (ok task, s')))
unfolding decide_human_review
access-answered rendering (http_exception code) task_id payload s h = absurd (cc h)
access-answered rendering (raised e) task_id payload s h = absurd (cc h)
access-answered rendering (granted p) task_id payload s h =
    (p, refl, decided-answered rendering (claim_human_review task_id p.subject payload s) h)

-- With authentication on, a decision that the route accepts comes with a bearer token that decodes to
-- claims with the reviewer's role, and any further decision on the task, by whomever, is a conflict.
pub one_authenticated_decision :
    (rendering : Rendering) (decode : Decoder) (show : Json → String) (settings : AuthSettings)
    (authorization : Option Text) (task_id : ℕ) (payload : HumanReviewDecision) (s : Session)
    {a : Accepted} {s' : Session} (second : Principal) (other : HumanReviewDecision)
    → settings.auth_enabled ≡ true
    → decide_human_review rendering (reviewer decode show settings authorization) task_id payload s
      ≡ (ok (answered a), s')
    → ((token : Text) × (claims : Json) × (roles : List Json) × (authorization
          ≡ some (bearer ++ token))
        × (decode (strip token) settings.auth_jwt_secret (settings.auth_jwt_algorithm ∷ [])
            ≡ some claims)
        × (roles_of claims ≡ ok roles)
        × (has_role settings.auth_reviewer_role roles ≡ true))
      × ((decide_human_review rendering (granted second) task_id other s').0 ≡ ok (refused 409))
unfolding decide_human_review
one_authenticated_decision rendering decode show settings authorization task_id payload s {a} {s'}
      second other on h =
    let (p, entered, (task, claimed)) =
      access-answered rendering (reviewer decode show settings authorization) task_id payload s h in
    let (token, claims, sent, decoded, roles, _, role, _) =
      reviewer_is_authenticated decode show settings authorization on entered in
    (
      (token, claims, p.roles, sent, decoded, roles, role),
      conflict-decided rendering (claim_human_review task_id second.subject other s')
          (one_decision task_id p.subject payload s second.subject other claimed),
    )
