-- ===== src/Auth/Principal.antt =====
-- app/core/auth.py: `get_principal` and `require_reviewer`. The library that decodes a token is a
-- parameter, none where it raises a `PyJWTError`; so is how Python prints a `sub` that is no string.
use steh_v1_0_0_rc.Base.{
  ℕ, String, Bool, true, false, ◌&&◌, Option, none, some, List, [], ◌∷◌, any, drop, if◌then◌else◌,
  ◌==◌, non_empty, Error, Result, ok, err, ◌>>=◌,
}
use steh_v1_0_0_rc.Json.{Json, str, get_default, item, iterate, empty_list}
use steh_v1_0_0_rc.Models.Context.{Text}
use steh_v1_0_0_rc.Context.Sanitize.{codes, starts_with, strip}

-- The settings of app/core/config.py that are read here.
pub record AuthSettings : Type 0 where
  pub auth_enabled : Bool
  pub auth_jwt_secret : String
  pub auth_jwt_algorithm : String
  pub auth_required_role : String
  pub auth_reviewer_role : String

pub record Principal : Type 0 where
  pub subject : String
  pub roles : List Json

-- How a dependency of a route ends: with an `HTTPException` of a status, with another exception, or
-- with a value.
pub data Access (A : Type 0) : Type 0 where
  http_exception : ℕ → Access A
  raised : Error → Access A
  granted : A → Access A

-- What `jwt.decode` makes of a token, a secret and the algorithms that are allowed.
abbrev pub Decoder : Type 0
Decoder = Text → String → List String → Option Json

abbrev pub is_role : String → Json → Bool
is_role role (str s) = role == s
is_role role _ = false

-- `role in roles`
unfoldable pub has_role : String → List Json → Bool
has_role role roles = any (is_role role) roles

abbrev pub local_development : Principal
local_development = record {
  subject = "local-development";
  roles = str "steh_user" ∷ str "steh_reviewer" ∷ [];
}

-- `tuple(claims.get("roles", []))`
unfoldable pub roles_of : Json → Result (List Json)
unfolding get_default iterate
roles_of claims = do roles ← get_default claims "roles" empty_list; iterate roles

-- `str(claims["sub"])`
unfoldable pub subject_of : (Json → String) → Json → Result String
unfolding item
subject_of show claims = do
  sub ← item claims "sub"
  elim sub [ str s ↦ ok s | other ↦ ok (show other) ]

-- What follows once a token was decoded.
unfoldable pub admit : (Json → String) → AuthSettings → Json → Access Principal
unfolding roles_of has_role subject_of
admit show settings claims = elim (roles_of claims) [
  | err e ↦ raised e
  | ok roles ↦ elim (has_role settings.auth_required_role roles) [
    | false ↦ http_exception 403
    | true ↦ elim (subject_of show claims) [
      | err e ↦ raised e
      | ok subject ↦ granted (record { subject = subject; roles = roles })
    ]
  ]
]

abbrev pub bearer : Text
bearer = codes "Bearer "

-- What follows once there is an `authorization` header.
unfoldable pub check_header : Decoder → (Json → String) → AuthSettings → Text → Access Principal
unfolding admit
check_header decode show settings header = elim (non_empty header && starts_with bearer header) [
  | false ↦ http_exception 401
  | true ↦
      elim (decode (strip (drop 7 header)) settings.auth_jwt_secret
        (settings.auth_jwt_algorithm ∷ [])) [
          | none ↦ http_exception 401
          | some claims ↦ admit show settings claims
        ]
]

-- `get_principal`
unfoldable pub get_principal :
    Decoder → (Json → String) → AuthSettings → Option Text → Access Principal
unfolding check_header
get_principal decode show settings authorization = elim settings.auth_enabled [
  | false ↦ granted local_development
  | true ↦ elim authorization [
    | none ↦ http_exception 401
    | some header ↦ check_header decode show settings header
  ]
]

-- `require_reviewer`, of a principal
unfoldable pub require_reviewer : AuthSettings → Principal → Access Principal
unfolding has_role
require_reviewer settings principal =
    if has_role settings.auth_reviewer_role principal.roles
    then granted principal
    else http_exception 403

-- A dependency that depends on another.
abbrev pub depends : Access Principal → (Principal → Access Principal) → Access Principal
depends (http_exception code) rest = http_exception code
depends (raised e) rest = raised e
depends (granted principal) rest = rest principal

-- `require_reviewer` with the principal that it depends on
unfoldable pub reviewer : Decoder → (Json → String) → AuthSettings → Option Text → Access Principal
unfolding get_principal require_reviewer
reviewer decode show settings authorization =
    depends (get_principal decode show settings authorization) (require_reviewer settings)
