-- ===== src/Store/Validators.antt =====
-- `Error` and the shared validators of crates/myvault-sync-engine/src/lib.rs.
use my_vault.Base.{
  nat_eq, list_eq, option_eq, ℕ, Bool, true, false, not, ◌&&◌, ◌||◌, List, [], ◌∷◌, Option, none,
  some, ltb, leb, ◌==◌, ◌!=◌, all, any,
}
use my_vault.Base.Results.{Result, ok, err, fail_if}
use my_vault.Text.{
  Text, codes, bytes, len, split, is_ascii_control, is_ascii_digit, is_ascii_lowercase,
  is_ascii_alphanumeric, is_lower_hex_64, is_remote_id,
}
use my_vault.Text.Unicode.{Unicode}
use my_vault.Path.{PathError, VaultPath, VaultPathClass, from_portable, collision_key, classify}

-- The errors that the modelled operations return; `database` is a statement that SQLite refuses.
pub data Error : Type 0 where
  database invalid_remote_id invalid_remote_token invalid_portable_path invalid_revision
        invalid_timestamp invalid_error_code invalid_state_transition invalid_schema
        invalid_transfer_evidence transfer_collision transfer_not_found batch_already_active
        no_active_batch unknown_mutation local_mutation_incomplete mutation_needs_reconcile
        mutation_not_found mutation_collision mutation_state_version_mismatch
        transfer_change_mismatch cursor_mismatch invalid_remote_entry unsupported_transfer_change :
      Error

abbrev pub i64_max : ℕ
i64_max = 9223372036854775807

abbrev pub u32_max : ℕ
u32_max = 4294967295

unfoldable pub validate_remote_id : Text → Result Unit Error
unfolding is_remote_id
validate_remote_id value = fail_if (not (is_remote_id value)) Error.invalid_remote_id

unfoldable pub validate_remote_token : Text → Result Unit Error
validate_remote_token value =
    fail_if
      (not (leb 1 (len value) && leb (len value) 4096 && not (any is_ascii_control (bytes value))))
      Error.invalid_remote_token

-- The first part of the collision key names a protected root.
protected_root : List Text → Bool
protected_root [] = false
protected_root (part ∷ parts) = part == codes ".obsidian" || part == codes ".trash"

is_obsidian_metadata : VaultPathClass → Bool
is_obsidian_metadata VaultPathClass.obsidian_metadata = true
is_obsidian_metadata _ = false

module _ (u : Unicode) where
  content_path_result : Text → Result VaultPath PathError → Result Unit Error
  unfolding protected_root is_obsidian_metadata
  content_path_result value (err e) = err Error.invalid_portable_path
  content_path_result value (ok path) =
      fail_if
        (path.as_str != value
          || is_obsidian_metadata (classify u path)
          || protected_root (split b'/' (collision_key u path)))
        Error.invalid_portable_path

  unfoldable pub validate_content_path : Text → Result Unit Error
  unfolding content_path_result
  validate_content_path value = content_path_result value (from_portable u value)

unfoldable pub validate_revision : Text → Result Unit Error
validate_revision value = fail_if (not (is_lower_hex_64 value)) Error.invalid_revision

unfoldable pub validate_redacted_code : Text → Result Unit Error
validate_redacted_code value =
    fail_if
      (not (
        leb 1 (len value)
        && leb (len value) 128
        && all (λ b. is_ascii_alphanumeric b || b == b'-' || b == b'_' || b == b'.') (bytes value)))
      Error.invalid_error_code

unfoldable pub validate_private_reference : Text → Result Unit Error
validate_private_reference value =
    fail_if
      (not (
        leb 1 (len value)
        && leb (len value) 256
        && all
            (λ b. is_ascii_lowercase b || is_ascii_digit b || b == b'-' || b == b'_' || b == b'.')
            (bytes value)
        && not (value == codes "." || value == codes "..")))
      Error.invalid_transfer_evidence

-- `u64_to_i64(value)?`: the number keeps its value.
unfoldable pub u64_to_i64 : ℕ → Result Unit Error
u64_to_i64 value = fail_if (ltb i64_max value) Error.invalid_timestamp

-- `if let Some(value) = value { check(value)?; }`
unfoldable pub check_some : (Text → Result Unit Error) → Option Text → Result Unit Error
check_some check none = ok tt
check_some check (some value) = check value
