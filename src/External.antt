-- ===== src/External.antt =====
-- What the code calls and does not implement: hashing, JSON text, regular expressions, case folding.
-- Every function is arbitrary; theorems that rely on one state what they need of it.
use steh_v1_0_0_rc.Base.{String}
use steh_v1_0_0_rc.Json.{Json}
use steh_v1_0_0_rc.Models.Context.{Text}

pub record Library : Type 0 where
  pub sha256 : Text → String  -- hashlib.sha256(...).hexdigest()
  pub dumps : Json → Text  -- json.dumps
  pub casefold : Text → Text
  pub sub_private_key : Text → Text  -- _PRIVATE_KEY.sub("[REDACTED_PRIVATE_KEY]", ...)
  pub sub_bearer : Text → Text  -- _BEARER_TOKEN.sub("Bearer [REDACTED]", ...)
  pub sub_known_token : Text → Text  -- _KNOWN_TOKEN.sub("[REDACTED_TOKEN]", ...)
  pub sub_secret : Text → Text  -- _SECRET_ASSIGNMENT.sub(r"\1\2[REDACTED]", ...)
