-- ===== src/Store/Transfers/Record.antt =====
-- `TransferRecord` and the values that a completion proves
-- (crates/myvault-sync-engine/src/store.rs).
use my_vault.Base.{
  nat_eq, list_eq, option_eq, nat_beq, ℕ, ◌≡◌, ◌↔◌, Bool, true, ◌&&◌, ◌||◌, List, [], ◌∷◌, Option,
  none, ltb, ◌==◌, ◌!=◌, Eq, is_none, is_some, arith,
}
use my_vault.Base.Results.{Result, ok, fail_if, ◌>>◌}
use my_vault.Text.{Text, split}
use my_vault.Text.Unicode.{Unicode}
use my_vault.Store.Validators.{
  Error, validate_remote_id, validate_content_path, validate_revision, validate_redacted_code,
  validate_private_reference, u64_to_i64, check_some, u32_max,
}

pub data TransferDirection : Type 0 where
  upload download : TransferDirection

pub data TransferMimeClass : Type 0 where
  markdown blob : TransferMimeClass

pub data TransferPhase : Type 0 where
  pending running retry_scheduled auth_required needs_reconcile completed : TransferPhase

abbrev pub direction_index : TransferDirection → ℕ
direction_index TransferDirection.upload = 0
direction_index TransferDirection.download = 1

abbrev pub mime_index : TransferMimeClass → ℕ
mime_index TransferMimeClass.markdown = 0
mime_index TransferMimeClass.blob = 1

abbrev pub phase_index : TransferPhase → ℕ
phase_index TransferPhase.pending = 0
phase_index TransferPhase.running = 1
phase_index TransferPhase.retry_scheduled = 2
phase_index TransferPhase.auth_required = 3
phase_index TransferPhase.needs_reconcile = 4
phase_index TransferPhase.completed = 5

pub direction_beq_iff :
    (a b : TransferDirection) → (nat_beq (direction_index a) (direction_index b) ≡ true) ↔ (a ≡ b)
direction_beq_iff a b = ground arith

pub mime_beq_iff :
    (a b : TransferMimeClass) → (nat_beq (mime_index a) (mime_index b) ≡ true) ↔ (a ≡ b)
mime_beq_iff a b = ground arith

pub phase_beq_iff :
    (a b : TransferPhase) → (nat_beq (phase_index a) (phase_index b) ≡ true) ↔ (a ≡ b)
phase_beq_iff a b = ground arith

instance abbrev pub direction_eq : Eq TransferDirection
direction_eq = record {
  beq = λ a b. nat_beq (direction_index a) (direction_index b);
  beq_iff = direction_beq_iff;
}

instance abbrev pub mime_eq : Eq TransferMimeClass
mime_eq = record { beq = λ a b. nat_beq (mime_index a) (mime_index b); beq_iff = mime_beq_iff }

instance abbrev pub phase_eq : Eq TransferPhase
phase_eq = record { beq = λ a b. nat_beq (phase_index a) (phase_index b); beq_iff = phase_beq_iff }

-- A `Uuid` is its 128-bit value; the nil one is 0.
pub record TransferRecord : Type 0 where
  pub operation_id : ℕ
  pub direction : TransferDirection
  pub portable_path : Text
  pub remote_parent_id : Text
  pub remote_file_id : Option Text
  pub display_name : Text
  pub expected_local_revision : Option Text
  pub expected_remote_revision : Option Text
  pub sha256 : Text
  pub byte_length : ℕ
  pub mime_class : TransferMimeClass
  pub operation_marker : Text
  pub stage_reference : Option Text
  pub base_reference : Option Text
  pub phase : TransferPhase
  pub attempt_count : ℕ
  pub next_attempt_at_unix_ms : ℕ
  pub created_at_unix_ms : ℕ
  pub updated_at_unix_ms : ℕ
  pub last_error_code : Option Text
  pub verified_local_revision : Option Text
  pub verified_remote_revision : Option Text

-- `rsplit('/').next()`
last_part : List Text → Text
last_part [] = []
last_part (part ∷ []) = part
last_part (part ∷ next ∷ parts) = last_part (next ∷ parts)

unfoldable pub file_name : Text → Text
unfolding last_part
file_name path = last_part (split b'/' path)

-- A completed row that lacks an identity which its completion proves.
unfoldable pub lacks_evidence : TransferRecord → Bool
lacks_evidence r =
    r.phase == TransferPhase.completed
    && (is_none r.remote_file_id
        || is_none r.base_reference
        || is_none r.verified_local_revision
        || is_none r.verified_remote_revision)

module _ (u : Unicode) where
  unfoldable pub validate : TransferRecord → Result Unit Error
  unfolding lacks_evidence
  validate r = do
    fail_if (r.operation_id == 0) Error.invalid_transfer_evidence
    validate_content_path u r.portable_path
    fail_if (r.display_name != file_name r.portable_path) Error.invalid_transfer_evidence
    validate_remote_id r.remote_parent_id
    check_some validate_remote_id r.remote_file_id
    fail_if (r.direction == TransferDirection.download && is_none r.remote_file_id)
        Error.invalid_transfer_evidence
    fail_if
        (r.direction == TransferDirection.upload
          && (is_none r.expected_local_revision || is_none r.stage_reference))
        Error.invalid_transfer_evidence
    check_some validate_revision r.expected_local_revision
    check_some validate_remote_id r.expected_remote_revision
    validate_revision r.sha256
    validate_remote_id r.operation_marker
    check_some validate_private_reference r.stage_reference
    check_some validate_private_reference r.base_reference
    check_some validate_redacted_code r.last_error_code
    check_some validate_revision r.verified_local_revision
    check_some validate_remote_id r.verified_remote_revision
    u64_to_i64 r.byte_length
    u64_to_i64 r.next_attempt_at_unix_ms
    u64_to_i64 r.created_at_unix_ms
    u64_to_i64 r.updated_at_unix_ms
    fail_if (ltb r.updated_at_unix_ms r.created_at_unix_ms || lacks_evidence r)
        Error.invalid_transfer_evidence

  -- `TransferRecord::new`: its arguments are the other fields of `r`.
  unfoldable pub new_record : TransferRecord → Result TransferRecord Error
  unfolding validate
  new_record r =
      let pending_record : TransferRecord = record r {
        display_name = file_name r.portable_path;
        phase = TransferPhase.pending;
        attempt_count = 0;
        next_attempt_at_unix_ms = r.created_at_unix_ms;
        updated_at_unix_ms = r.created_at_unix_ms;
        last_error_code = none;
        verified_local_revision = none;
        verified_remote_revision = none;
      } in
      do validate pending_record; ok pending_record

  unfoldable pub validate_new_transfer : TransferRecord → Result Unit Error
  unfolding validate
  validate_new_transfer r = do
    validate r
    fail_if
        (r.phase != TransferPhase.pending
          || r.attempt_count != 0
          || is_some r.last_error_code
          || is_some r.verified_local_revision
          || is_some r.verified_remote_revision)
        Error.invalid_transfer_evidence

  -- A stored row as a record: the columns hold their types, and the record is validated again.
  unfoldable pub row_to_transfer : TransferRecord → Result TransferRecord Error
  unfolding validate
  row_to_transfer r = do
    fail_if (ltb u32_max r.attempt_count) Error.invalid_schema
    validate r
    ok r

unfoldable pub same_registration : TransferRecord → TransferRecord → Bool
same_registration r other =
    r.operation_id == other.operation_id
    && r.direction == other.direction
    && r.portable_path == other.portable_path
    && r.remote_parent_id == other.remote_parent_id
    && (is_none other.remote_file_id || r.remote_file_id == other.remote_file_id)
    && r.display_name == other.display_name
    && r.expected_local_revision == other.expected_local_revision
    && r.expected_remote_revision == other.expected_remote_revision
    && r.sha256 == other.sha256
    && r.byte_length == other.byte_length
    && r.mime_class == other.mime_class
    && r.operation_marker == other.operation_marker
    && r.stage_reference == other.stage_reference
    && (is_none other.base_reference || r.base_reference == other.base_reference)
    && r.created_at_unix_ms == other.created_at_unix_ms

pub record TransferCompletion : Type 0 where
  pub remote_file_id : Text
  pub remote_revision : Text
  pub local_revision : Text
  pub base_reference : Text
  pub outcome_code : Text
  pub occurred_at_unix_ms : ℕ

unfoldable pub validate_completion : TransferCompletion → Result Unit Error
validate_completion c = do
  validate_remote_id c.remote_file_id
  validate_remote_id c.remote_revision
  validate_revision c.local_revision
  validate_private_reference c.base_reference
  validate_redacted_code c.outcome_code
  u64_to_i64 c.occurred_at_unix_ms

-- `TransferCompletion::new`: its arguments are the fields of `c`.
unfoldable pub new_completion : TransferCompletion → Result TransferCompletion Error
unfolding validate_completion
new_completion c = do validate_completion c; ok c
