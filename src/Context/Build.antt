-- ===== src/Context/Build.antt =====
-- app/services/context.py: `ContextEngine.build` spends the token budget on the ordered sources, and
-- `context_receipt` is the bundle without the sources' content.
use steh_v1_0_0_rc.Base.{
  ℕ, ◌-◌, ◌*◌, min, String, Bool, true, false, not, ◌||◌, List, [], ◌∷◌, map, nat_eq, ltb,
  if◌then◌else◌, length, take, sum_of, concat, first_chars, Result, ok, err, value_error, ◌>>=◌,
  ◌>>◌, raise_if,
}
use steh_v1_0_0_rc.Json.{Json, bool, num, str, arr, obj, end, field, Fields, of_list}
use steh_v1_0_0_rc.Models.Context.{
  Text, ContextKind, ContextTrust, untrusted, trusted, ContextSourceInput, ContextSourceSnapshot,
  ContextSourceReceipt, ContextBundle, ContextReceipt,
}
use steh_v1_0_0_rc.External.{Library}
use steh_v1_0_0_rc.Context.Sanitize.{
  SanitizedContextText, sanitize_context_text, normalize, estimate_tokens,
}
use steh_v1_0_0_rc.Context.Order.{sorted, unique_identities}

-- The fields of a `ContextEngine`, as `__init__` leaves them.
pub record ContextEngine : Type 0 where
  pub max_sources : ℕ
  pub max_tokens : ℕ
  pub max_source_tokens : ℕ

-- `ContextEngine.__init__`
unfoldable pub new_engine : ℕ → ℕ → ℕ → Result ContextEngine
new_engine max_sources max_tokens max_source_tokens = do
  raise_if (ltb max_sources 1 || ltb max_tokens 1 || ltb max_source_tokens 1) value_error
  ok (record {
    max_sources = max_sources;
    max_tokens = max_tokens;
    max_source_tokens = min max_source_tokens max_tokens;
  })

-- The variables that the loop of `build` changes.
pub record Progress : Type 0 where
  pub snapshots : List ContextSourceSnapshot
  pub remaining_tokens : ℕ
  pub bundle_truncated : Bool

unfoldable pub kind_text : ContextKind → String
kind_text ContextKind.requirements = "REQUIREMENTS"
kind_text ContextKind.documentation = "DOCUMENTATION"
kind_text ContextKind.policy = "POLICY"
kind_text ContextKind.repository = "REPOSITORY"

unfoldable pub trust_text : ContextTrust → String
trust_text untrusted = "UNTRUSTED"
trust_text trusted = "TRUSTED"

abbrev pub metadata_fields : List (String × String) → Fields
metadata_fields [] = end
metadata_fields ((key, item) ∷ rest) = field key (str item) (metadata_fields rest)

-- `snapshot.model_dump(mode="json", exclude={"content"})`
unfoldable pub dump_snapshot : ContextSourceSnapshot → Json
dump_snapshot s = obj (
    field "source_id" (str s.source_id) (
      field "kind" (str (kind_text s.kind)) (
        field "version" (str s.version) (
          field "trust" (str (trust_text s.trust)) (
            field "content_sha256" (str s.content_sha256) (
              field "token_estimate" (num s.token_estimate) (
                field "priority" (num s.priority) (
                  field "metadata" (obj (metadata_fields s.metadata)) (
                    field "truncated" (bool s.truncated) (
                      field "redacted" (bool s.redacted) (
                        field "suspicious_instruction" (bool s.suspicious_instruction)
                          end)))))))))))

-- `not content`
abbrev pub is_empty : Text → Bool
is_empty [] = true
is_empty (c ∷ t) = false

module _ (lib : Library) (engine : ContextEngine) where
  -- What one round of the loop makes of a source, given the tokens that it may use.
  unfoldable pub snapshot : ContextSourceInput → SanitizedContextText → ℕ → ContextSourceSnapshot
  snapshot source sanitized allowed_characters = record {
    source_id = source.source_id;
    kind = source.kind;
    version = source.version;
    trust = untrusted;
    content = take allowed_characters sanitized.content;
    content_sha256 = lib.sha256 (take allowed_characters sanitized.content);
    token_estimate = estimate_tokens (take allowed_characters sanitized.content);
    priority = source.priority;
    metadata = source.metadata;
    truncated = ltb allowed_characters (length sanitized.content);
    redacted = sanitized.redacted;
    suspicious_instruction = sanitized.suspicious_instruction;
  }

  abbrev pub allowed_tokens : ℕ → ℕ
  allowed_tokens remaining_tokens = min engine.max_source_tokens remaining_tokens

  -- The loop from a source on: the snapshots of the rest, what remains, and whether it truncated.
  unfoldable pub collect : List ContextSourceInput → ℕ → Bool → Result Progress
  unfolding snapshot
  collect [] remaining truncated =
      ok (record { snapshots = []; remaining_tokens = remaining; bundle_truncated = truncated })
  collect (source ∷ sources) remaining truncated =
      let sanitized = sanitize_context_text lib source.content in
      let taken = snapshot source sanitized (allowed_tokens remaining * 4) in
      let rest =
        collect sources (remaining - taken.token_estimate) (truncated || taken.truncated) in
      if nat_eq remaining 0
      then ok (record { snapshots = []; remaining_tokens = remaining; bundle_truncated = true })
      else if is_empty sanitized.content
      then err value_error
      else (do progress ← rest; ok (record progress { snapshots = taken ∷ progress.snapshots }))

  -- the `digest_payload` of `build`
  unfoldable pub digest_payload : String → List ContextSourceSnapshot → Json
  digest_payload request_sha256 snapshots = obj (
      field "schema_version" (str "1.0") (
        field "request_sha256" (str request_sha256) (
          field "max_tokens" (num engine.max_tokens)
            (field "sources" (arr (of_list (map dump_snapshot snapshots))) end))))

  -- the sources that `build` selects
  abbrev pub selected : List ContextSourceInput → List ContextSourceInput
  selected inputs = take engine.max_sources (sorted inputs)

  -- the bundle that `build` returns once the loop has ended
  unfoldable pub bundle_of : Text → ℕ → Progress → ContextBundle
  unfolding digest_payload
  bundle_of request now progress =
      let request_sha256 = lib.sha256 (normalize request) in
      let bundle_sha256 =
        lib.sha256 (lib.dumps (digest_payload request_sha256 progress.snapshots)) in
      record {
        bundle_id = concat "ctx_" (first_chars 16 bundle_sha256);
        bundle_sha256 = bundle_sha256;
        request_sha256 = request_sha256;
        created_at = now;
        sources = progress.snapshots;
        token_estimate = sum_of (λ s. s.token_estimate) progress.snapshots;
        max_tokens = engine.max_tokens;
        truncated = progress.bundle_truncated;
      }

  -- `ContextEngine.build`, at the instant `now`
  unfoldable pub build : Text → List ContextSourceInput → ℕ → Result ContextBundle
  unfolding collect bundle_of
  build request inputs now = do
    raise_if (not (unique_identities inputs)) value_error
    progress ←
        collect (selected inputs) engine.max_tokens
          (ltb (length (selected inputs)) (length (sorted inputs)))
    ok (bundle_of request now progress)

unfoldable pub source_receipt : ContextSourceSnapshot → ContextSourceReceipt
source_receipt s = record {
  source_id = s.source_id;
  kind = s.kind;
  version = s.version;
  trust = s.trust;
  content_sha256 = s.content_sha256;
  token_estimate = s.token_estimate;
  truncated = s.truncated;
  redacted = s.redacted;
  suspicious_instruction = s.suspicious_instruction;
}

unfoldable pub context_receipt : ContextBundle → ContextReceipt
unfolding source_receipt
context_receipt bundle = record {
  bundle_id = bundle.bundle_id;
  bundle_sha256 = bundle.bundle_sha256;
  request_sha256 = bundle.request_sha256;
  source_count = length bundle.sources;
  token_estimate = bundle.token_estimate;
  max_tokens = bundle.max_tokens;
  truncated = bundle.truncated;
  sources = map source_receipt bundle.sources;
}

-- `receipt.model_dump(mode="json")`
unfoldable pub dump_source_receipt : ContextSourceReceipt → Json
dump_source_receipt s = obj (
    field "source_id" (str s.source_id) (
      field "kind" (str (kind_text s.kind)) (
        field "version" (str s.version) (
          field "trust" (str (trust_text s.trust)) (
            field "content_sha256" (str s.content_sha256) (
              field "token_estimate" (num s.token_estimate) (
                field "truncated" (bool s.truncated) (
                  field "redacted" (bool s.redacted)
                    (field "suspicious_instruction" (bool s.suspicious_instruction) end)))))))))

unfoldable pub receipt_fields : ContextReceipt → Fields
receipt_fields r = field "bundle_id" (str r.bundle_id) (
    field "bundle_sha256" (str r.bundle_sha256) (
      field "request_sha256" (str r.request_sha256) (
        field "source_count" (num r.source_count) (
          field "token_estimate" (num r.token_estimate) (
            field "max_tokens" (num r.max_tokens) (
              field "truncated" (bool r.truncated)
                (field "sources" (arr (of_list (map dump_source_receipt r.sources))) end)))))))
