-- ===== src/Transfer/Intent.antt =====
-- Transfer intents, completion evidence and execution failures, with their validation
-- (crates/myvault-transfer/src/lib.rs).
use my_vault.Base.{
  nat_eq, list_eq, ℕ, ◌+◌, ◌*◌, Bool, true, false, not, ◌&&◌, ◌||◌, List, [], ◌∷◌, map, Option,
  none, some, ltb, leb, ◌==◌, if◌then◌else◌, all, any, is_none, is_some, is_empty,
}
use my_vault.Base.Results.{Result, ok, fail_if, ◌>>◌}
use my_vault.Text.{
  Text, codes, bytes, len, is_control, is_ascii_digit, is_ascii_lowercase, is_ascii_uppercase,
  split, starts_with, ends_with, contains,
}

abbrev pub max_redacted_code_bytes : ℕ
max_redacted_code_bytes = 96

abbrev pub max_portable_path_bytes : ℕ
max_portable_path_bytes = 4 * 1024

abbrev pub max_remote_id_bytes : ℕ
max_remote_id_bytes = 4 * 1024

abbrev pub max_transfer_bytes : ℕ
max_transfer_bytes = 512 * 1024 * 1024

pub data Error : Type 0 where
  invalid_intent invalid_evidence store timestamp_overflow : Error

pub data TransferDirection : Type 0 where
  upload download : TransferDirection

pub data ContentKind : Type 0 where
  markdown blob : ContentKind

abbrev pub is_upload : TransferDirection → Bool
is_upload TransferDirection.upload = true
is_upload TransferDirection.download = false

-- A `Uuid` is its 128-bit value; the nil one is 0.
pub record TransferIntent : Type 0 where
  pub operation_id : ℕ
  pub direction : TransferDirection
  pub path : Text
  pub parent_id : Text
  pub remote_file_id : Option Text
  pub expected_local_revision : Option Text
  pub expected_remote_revision : Option Text
  pub sha256_hex : Text
  pub byte_len : ℕ
  pub content_kind : ContentKind
  pub operation_marker : Text
  pub stage_ref : Option Text
  pub base_ref : Option Text
  pub attempt_count : ℕ

unfoldable pub is_hex_byte : ℕ → Bool
unfolding is_ascii_digit
is_hex_byte b = is_ascii_digit b || (leb b'a' b && leb b b'f')

unfoldable pub validate_sha256 : Text → Result Unit Error
validate_sha256 value =
    fail_if (not (len value == 64) || not (all is_hex_byte (bytes value))) Error.invalid_evidence

unfoldable pub validate_redacted_code : Text → Result Unit Error
validate_redacted_code value =
    fail_if
      (is_empty value
        || ltb max_redacted_code_bytes (len value)
        || not (all (λ b. is_ascii_lowercase b || is_ascii_digit b || b == b'_') (bytes value)))
      Error.invalid_evidence

unfoldable pub validate_opaque : Text → ℕ → Result Unit Error
validate_opaque value max_bytes =
    fail_if
      (is_empty value
        || ltb max_bytes (len value)
        || any is_control value
        || any (λ c. c == b'/' || c == 0x5C) value)
      Error.invalid_evidence

-- `if let Some(value) = value { validate_opaque(value, ..)?; }`
unfoldable pub validate_optional : Option Text → Result Unit Error
validate_optional none = ok tt
validate_optional (some value) = validate_opaque value max_remote_id_bytes

unfoldable pub to_ascii_lowercase : ℕ → ℕ
unfolding is_ascii_uppercase
to_ascii_lowercase c = if is_ascii_uppercase c then c + 32 else c

unfoldable pub eq_ignore_ascii_case : Text → Text → Bool
unfolding to_ascii_lowercase
eq_ignore_ascii_case s t = map to_ascii_lowercase s == map to_ascii_lowercase t

-- The first of `value.split('/')` names a protected directory.
unfoldable pub has_protected_head : List Text → Bool
has_protected_head [] = false
has_protected_head (part ∷ parts) =
    eq_ignore_ascii_case part (codes ".obsidian") || eq_ignore_ascii_case part (codes ".trash")

unfoldable pub is_traversal_part : Text → Bool
is_traversal_part part = is_empty part || part == codes "." || part == codes ".."

unfoldable pub validate_portable_path : Text → Result Unit Error
validate_portable_path value = do
  fail_if
      (is_empty value
        || ltb max_portable_path_bytes (len value)
        || starts_with b'/' value
        || ends_with b'/' value
        || contains 0x5C value
        || any is_control value
        || any is_traversal_part (split b'/' value))
      Error.invalid_intent
  fail_if (has_protected_head (split b'/' value)) Error.invalid_intent

unfoldable pub validate : TransferIntent → Result Unit Error
validate i = do
  fail_if (i.operation_id == 0) Error.invalid_intent
  validate_portable_path i.path
  validate_opaque i.parent_id max_remote_id_bytes
  validate_optional i.remote_file_id
  validate_optional i.expected_local_revision
  validate_optional i.expected_remote_revision
  validate_sha256 i.sha256_hex
  fail_if (ltb max_transfer_bytes i.byte_len) Error.invalid_intent
  validate_opaque i.operation_marker max_remote_id_bytes
  validate_optional i.stage_ref
  validate_optional i.base_ref
  fail_if (not (is_upload i.direction) && is_none i.remote_file_id) Error.invalid_intent
  fail_if (is_upload i.direction && (is_none i.expected_local_revision || is_none i.stage_ref))
      Error.invalid_intent

-- `TransferIntent::new`: its arguments are the fields of `i`.
unfoldable pub new_intent : TransferIntent → Result TransferIntent Error
unfolding validate
new_intent i = do validate i; ok i

pub record VerifiedTransfer : Type 0 where
  pub operation_id : ℕ
  pub remote_file_id : Text
  pub remote_revision : Text
  pub local_revision : Option Text
  pub sha256_hex : Text
  pub byte_len : ℕ
  pub base_ref : Text
  pub outcome_code : Text

-- `VerifiedTransfer::new`: its arguments are the fields of `value`.
unfoldable pub new_verified : VerifiedTransfer → Result VerifiedTransfer Error
new_verified value = do
  validate_opaque value.remote_file_id max_remote_id_bytes
  validate_opaque value.remote_revision max_remote_id_bytes
  validate_optional value.local_revision
  validate_sha256 value.sha256_hex
  validate_opaque value.base_ref max_remote_id_bytes
  validate_redacted_code value.outcome_code
  fail_if (value.operation_id == 0 || ltb max_transfer_bytes value.byte_len) Error.invalid_evidence
  ok value

unfoldable pub matches : VerifiedTransfer → TransferIntent → Bool
matches v i =
    v.operation_id == i.operation_id && v.sha256_hex == i.sha256_hex && v.byte_len == i.byte_len

pub data ExecutionFailureKind : Type 0 where
  auth_required offline rate_limited transient_safe transient_unknown permanent needs_reconcile :
      ExecutionFailureKind

-- `retry_after` in milliseconds, a `u128`.
pub record ExecutionFailure : Type 0 where
  pub kind : ExecutionFailureKind
  pub code : Text
  pub retry_after : Option ℕ

abbrev pub is_rate_limited : ExecutionFailureKind → Bool
is_rate_limited ExecutionFailureKind.rate_limited = true
is_rate_limited _ = false

unfoldable pub new_failure : ExecutionFailure → Result ExecutionFailure Error
new_failure f = do
  validate_redacted_code f.code
  fail_if (not (is_rate_limited f.kind) && is_some f.retry_after) Error.invalid_evidence
  ok f
