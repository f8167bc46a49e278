-- ===== src/Tests/Auth.antt =====
-- A reviewer whom app/core/auth.py lets in.
use steh_v1_0_0_rc.Base.{◌≡◌, refl, String, true, none, some, [], ◌∷◌, ◌++◌, if◌then◌else◌, ok}
use steh_v1_0_0_rc.Json.{Json, str, arr, obj, end, field, of_list}
use steh_v1_0_0_rc.Models.Context.{Text}
use steh_v1_0_0_rc.Context.Sanitize.{codes, starts_with, text_eq, strip, strip_left, is_space}
use steh_v1_0_0_rc.Auth.Principal.{
  AuthSettings, Principal, granted, Decoder, bearer, has_role, roles_of, subject_of, reviewer,
}
use steh_v1_0_0_rc.Auth.Guarded.{reviewer_is_authenticated}

abbrev pub settings : AuthSettings
settings = record {
  auth_enabled = true;
  auth_jwt_secret = "secret";
  auth_jwt_algorithm = "HS256";
  auth_required_role = "steh_user";
  auth_reviewer_role = "steh_reviewer";
}

abbrev pub ana : Principal
ana = record { subject = "ana"; roles = str "steh_user" ∷ str "steh_reviewer" ∷ [] }

abbrev pub claims : Json
claims = obj (field "sub" (str "ana") (field "roles" (arr (of_list ana.roles)) end))

-- It knows one token.
abbrev pub decode : Decoder
decode token secret algorithms = if text_eq token (codes "t") then some claims else none

abbrev pub show : Json → String
show value = ""

abbrev pub header : Text
header = codes "Bearer t "

pub enters : reviewer decode show settings (some header) ≡ granted ana
unfolding reviewer starts_with text_eq strip strip_left is_space
enters = refl

reviewer_is_authenticated_example :
    (token : Text) × (found : Json) × (some header ≡ some (bearer ++ token))
    × (decode (strip token) "secret" ("HS256" ∷ []) ≡ some found)
    × (roles_of found ≡ ok ana.roles)
    × (has_role "steh_user" ana.roles ≡ true)
    × (has_role "steh_reviewer" ana.roles ≡ true)
    × (subject_of show found ≡ ok ana.subject)
reviewer_is_authenticated_example =
    reviewer_is_authenticated decode show settings (some header) refl enters
