-- ===== src/GitHub/Reading.antt =====
-- What goes wrong when app/services/github_pull_requests.py reads a payload is caught.
use steh_v1_0_0_rc.Base.{
  ℕ, String, ◌≡◌, refl, Bool, false, not, ◌||◌, Option, none, some, List, take, Bool-cases, inl,
  inr, Result, ok, err, value_error, type_error, traverse, ◌>>=◌,
}
use steh_v1_0_0_rc.Json.{Json, to_list, str, item}
use steh_v1_0_0_rc.Models.PullRequest.{FetchedPullRequestFile}
use steh_v1_0_0_rc.Models.Context.{Text}
use steh_v1_0_0_rc.GitHub.Repositories.{Reference}
use steh_v1_0_0_rc.GitHub.Payloads.{
  Reading, is_mapping, is_number, int_value, list_of, as_text, text_or, if_some, validated, present,
  parse_file, Parts, parts_of, pull_request_of, parse_pull_request,
}
use steh_v1_0_0_rc.GitHub.Caught.{
  Caught, ok-Caught, bind-Caught, or_raise-Caught, check-Caught, item-Caught, field-Caught,
  valid-Caught, value-Caught, lookup-Caught, traverse-Caught, limit-Caught,
}

present-Caught :
    (reading : Reading) (o : Option String) → Caught (if_some (present reading) (ok none) o)
unfolding present validated
present-Caught reading none = ok-Caught none
present-Caught reading (some s) =
    bind-Caught (validated (reading.text "previous_filename") (str s)) _
      (or_raise-Caught (reading.text "previous_filename" (str s)) value_error refl)
      (λ v. ok-Caught (some v))

previous-Caught {ℓ} :
    {B : Type ℓ} (reading : Reading) (v : Json) (rest : Option Text → Result B)
    → ((o : Option Text) → Caught (rest o))
    → Caught (text_or v (present reading) (ok none) >>= rest)
unfolding text_or
previous-Caught reading v rest h =
    bind-Caught (if_some (present reading) (ok none) (as_text v)) rest
      (present-Caught reading (as_text v)) h

list_of-Caught : (v : Json) → Caught (list_of v)
unfolding list_of
list_of-Caught (Json.arr items) = ok-Caught (to_list items)
list_of-Caught Json.null = or_raise-Caught none type_error refl
list_of-Caught (Json.bool b) = or_raise-Caught none type_error refl
list_of-Caught (Json.num n) = or_raise-Caught none type_error refl
list_of-Caught (Json.str s) = or_raise-Caught none type_error refl
list_of-Caught (Json.uuid n) = or_raise-Caught none type_error refl
list_of-Caught (Json.instant n) = or_raise-Caught none type_error refl
list_of-Caught (Json.obj fields) = or_raise-Caught none type_error refl

parse_file-Caught : (reading : Reading) (payload : Json) → Caught (parse_file reading payload)
unfolding parse_file
parse_file-Caught reading payload = check-Caught (not (is_mapping payload)) _ type_error refl (λ m.
    lookup-Caught payload "patch" _ m (λ patch.
      lookup-Caught payload "previous_filename" _ m
        (λ previous. search (field-Caught, valid-Caught, previous-Caught, ok-Caught) depth 20)))

parts_of-Caught :
    (reference : Reference) (payload files_payload : Json)
    → Caught (parts_of reference payload files_payload)
unfolding parts_of
parts_of-Caught reference payload files_payload =
    check-Caught (not (is_mapping payload)) _ type_error refl (λ m.
      bind-Caught (list_of files_payload) _ (list_of-Caught files_payload) (λ entries.
        lookup-Caught payload "number" _ m (λ number.
          check-Caught (not (is_number number reference.number)) _ value_error refl (λ n.
            lookup-Caught payload "base" _ m (λ base. lookup-Caught payload "head" _ m (λ head.
              lookup-Caught payload "user" _ m (λ user.
                check-Caught (not (is_mapping base) || not (is_mapping head)) _ type_error refl
                  (λ b.
                    check-Caught (not (is_mapping user)) _ type_error refl
                      (λ u. ok-Caught _)))))))))

-- What is read of a payload that is a mapping.
pull_request_of-Caught :
    (reading : Reading) (reference : Reference) (payload : Json) (parts : Parts)
    (files : List FetchedPullRequestFile) (changed_files : ℕ) (files_truncated : Bool)
    → not (is_mapping payload) ≡ false
    → Caught (pull_request_of reading reference payload parts files changed_files files_truncated)
unfolding pull_request_of
pull_request_of-Caught reading reference payload parts files changed_files files_truncated m =
    field-Caught (reading.text "title") payload "title" _ (λ title.
      lookup-Caught payload "body" _ m
        (λ body. search (field-Caught, valid-Caught, limit-Caught, ok-Caught) depth 40))

parts_of-mapping :
    (reference : Reference) (payload files_payload : Json) {parts : Parts}
    → parts_of reference payload files_payload ≡ ok parts
    → not (is_mapping payload) ≡ false
unfolding parts_of
parts_of-mapping reference payload files_payload h = elim (Bool-cases (not (is_mapping payload))) [
  | inl e ↦ absurd (cc (rw (e, parts_of) at h))
  | inr e ↦ e
]

bind_eq-Caught {ℓ κ} :
    {A : Type ℓ} {B : Type κ} (m : Result A) (f : A → Result B)
    → Caught m
    → ((a : A) → m ≡ ok a → Caught (f a))
    → Caught (m >>= f)
bind_eq-Caught (ok a) f h k = k a refl
bind_eq-Caught (err e) f h k = record { raised = λ x q. h.raised x (cc q) }

pub parse_pull_request-Caught :
    (reading : Reading) (max_files : ℕ) (reference : Reference) (payload files_payload : Json)
    → Caught (parse_pull_request reading max_files reference payload files_payload)
unfolding parse_pull_request
parse_pull_request-Caught reading max_files reference payload files_payload =
    bind_eq-Caught (parts_of reference payload files_payload) _
      (parts_of-Caught reference payload files_payload)
      (λ parts e.
        bind-Caught (traverse (parse_file reading) (take max_files parts.entries)) _
          (traverse-Caught (parse_file reading) (take max_files parts.entries)
            (parse_file-Caught reading))
          (λ files.
            bind-Caught (item payload "changed_files") _ (item-Caught payload "changed_files")
              (λ changed. value-Caught (int_value changed) type_error _ refl (λ changed_files.
                pull_request_of-Caught reading reference payload parts files changed_files _
                  (parts_of-mapping reference payload files_payload e)))))
