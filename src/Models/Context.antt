-- ===== src/Models/Context.antt =====
-- app/models/context.py. The content of a source is the list of its code points, and a digest the
-- value that the hash function returns.
use steh_v1_0_0_rc.Base.{ℕ, String, Bool, List}

abbrev pub Text : Type 0
Text = List ℕ

pub data ContextKind : Type 0 where
  requirements documentation policy repository : ContextKind

pub data ContextTrust : Type 0 where
  untrusted trusted : ContextTrust

pub record ContextSourceInput : Type 0 where
  pub source_id : String
  pub kind : ContextKind
  pub version : String
  pub content : Text
  pub priority : ℕ
  pub metadata : List (String × String)

pub record ContextSourceSnapshot : Type 0 where
  pub source_id : String
  pub kind : ContextKind
  pub version : String
  pub trust : ContextTrust
  pub content : Text
  pub content_sha256 : String
  pub token_estimate : ℕ
  pub priority : ℕ
  pub metadata : List (String × String)
  pub truncated : Bool
  pub redacted : Bool
  pub suspicious_instruction : Bool

pub record ContextSourceReceipt : Type 0 where
  pub source_id : String
  pub kind : ContextKind
  pub version : String
  pub trust : ContextTrust
  pub content_sha256 : String
  pub token_estimate : ℕ
  pub truncated : Bool
  pub redacted : Bool
  pub suspicious_instruction : Bool

pub record ContextBundle : Type 0 where
  pub bundle_id : String
  pub bundle_sha256 : String
  pub request_sha256 : String
  pub created_at : ℕ
  pub sources : List ContextSourceSnapshot
  pub token_estimate : ℕ
  pub max_tokens : ℕ
  pub truncated : Bool

pub record ContextReceipt : Type 0 where
  pub bundle_id : String
  pub bundle_sha256 : String
  pub request_sha256 : String
  pub source_count : ℕ
  pub token_estimate : ℕ
  pub max_tokens : ℕ
  pub truncated : Bool
  pub sources : List ContextSourceReceipt
