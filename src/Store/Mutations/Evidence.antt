-- ===== src/Store/Mutations/Evidence.antt =====
-- The checks of mutation intents and of the evidence of their outcomes
-- (crates/myvault-sync-engine/src/store.rs).
use my_vault.Base.{
  nat_eq, list_eq, option_eq, bool_eq, ℕ, Bool, not, ◌&&◌, ◌||◌, Option, none, some, ◌==◌, ◌!=◌, Eq,
  is_none, is_some, or_else,
}
use my_vault.Base.Results.{Result, ok, err, fail_if, ◌>>◌}
use my_vault.Text.{Text}
use my_vault.Text.Digest.{Digest}
use my_vault.Text.Unicode.{Unicode}
use my_vault.Mutation.{
  kind_eq, disposition_eq, capture_eq, MutationOperationKind, MutationDisposition,
  MutationEvidenceCapturePhase, MutationIntent, MutationVerificationEvidence,
}
use my_vault.Mutation.Fingerprint.{intent_fingerprint, evidence_fingerprint}
use my_vault.Store.Validators.{
  Error, validate_remote_id, validate_content_path, validate_revision, validate_redacted_code,
  validate_private_reference, u64_to_i64, check_some,
}

unfoldable pub validate_hash_size_pair : Option Text → Option ℕ → Result Unit Error
validate_hash_size_pair none none = ok tt
validate_hash_size_pair (some hash) (some size) = do validate_revision hash; u64_to_i64 size
validate_hash_size_pair none (some size) = err Error.invalid_transfer_evidence
validate_hash_size_pair (some hash) none = err Error.invalid_transfer_evidence

-- A blocked intent without one of the remote identities that it blocks.
unfoldable pub lacks_remote : MutationIntent → Bool
lacks_remote i =
    is_none i.account_id
    || is_none i.remote_root_id
    || is_none i.remote_file_id
    || is_none i.source_parent_id
    || is_none i.source_path
    || is_none i.expected_remote_revision

-- The four fields of the base are all there, or none is.
unfoldable pub has_whole_base : MutationIntent → Bool
has_whole_base i =
    (is_none i.base_local_revision
      && is_none i.base_remote_revision
      && is_none i.base_sha256
      && is_none i.base_byte_length)
    || (is_some i.base_local_revision
        && is_some i.base_remote_revision
        && is_some i.base_sha256
        && is_some i.base_byte_length)

abbrev pub is_blocked : MutationIntent → Bool
is_blocked i = i.operation_kind == MutationOperationKind.remote_existing_blocked

module _ (u : Unicode) (d : Digest) where
  unfoldable pub validate_mutation_intent : MutationIntent → Result Unit Error
  unfolding validate_hash_size_pair lacks_remote has_whole_base
  validate_mutation_intent i = do
    fail_if (i.operation_id == 0) Error.mutation_collision
    validate_redacted_code i.operation_marker
    validate_revision i.intent_fingerprint
    fail_if (i.intent_fingerprint != intent_fingerprint d i) Error.invalid_transfer_evidence
    check_some validate_remote_id i.account_id
    check_some validate_remote_id i.remote_root_id
    check_some validate_remote_id i.remote_file_id
    check_some validate_remote_id i.source_parent_id
    check_some validate_remote_id i.destination_parent_id
    check_some (validate_content_path u) i.source_path
    check_some (validate_content_path u) i.destination_path
    check_some validate_remote_id i.expected_local_revision
    check_some validate_remote_id i.expected_remote_revision
    check_some validate_remote_id i.base_local_revision
    check_some validate_remote_id i.base_remote_revision
    check_some validate_private_reference i.local_object_id
    check_some validate_private_reference i.base_reference
    validate_hash_size_pair i.base_sha256 i.base_byte_length
    validate_hash_size_pair i.expected_local_sha256 i.expected_local_byte_length
    validate_hash_size_pair i.expected_remote_sha256 i.expected_remote_byte_length
    u64_to_i64 i.registered_at_unix_ms
    fail_if (is_some i.account_id != is_some i.remote_root_id) Error.invalid_transfer_evidence
    fail_if (is_blocked i && lacks_remote i) Error.invalid_transfer_evidence
    fail_if (is_blocked i && not (has_whole_base i)) Error.invalid_transfer_evidence

  unfoldable pub validate_mutation_evidence : MutationVerificationEvidence → Result Unit Error
  unfolding validate_hash_size_pair
  validate_mutation_evidence e = do
    fail_if (e.evidence_id == 0 || e.operation_id == 0) Error.invalid_transfer_evidence
    u64_to_i64 e.attempt_number
    validate_revision e.evidence_fingerprint
    fail_if (e.evidence_fingerprint != evidence_fingerprint d e) Error.invalid_transfer_evidence
    u64_to_i64 e.captured_at_unix_ms
    check_some validate_redacted_code e.outcome_code
    fail_if (e.disposition == MutationDisposition.needs_reconcile && is_none e.outcome_code)
        Error.invalid_transfer_evidence
    check_some validate_remote_id e.observed_account_id
    check_some validate_remote_id e.observed_remote_root_id
    check_some validate_remote_id e.observed_remote_file_id
    check_some validate_remote_id e.observed_parent_id
    check_some validate_remote_id e.observed_local_revision
    check_some validate_remote_id e.observed_remote_revision
    check_some (validate_content_path u) e.observed_path
    validate_hash_size_pair e.observed_sha256 e.observed_byte_length
    check_some validate_redacted_code e.observed_operation_marker
    validate_offset e.verified_received_byte_offset
    check_some validate_private_reference e.resume_reference
    where
      validate_offset : Option ℕ → Result Unit Error
      validate_offset none = ok tt
      validate_offset (some offset) = u64_to_i64 offset

-- The evidence of a blocked registration: it shows the blocked identities and forbids side effects.
unfoldable pub shows_blocked : MutationIntent → MutationVerificationEvidence → Bool
shows_blocked i e = not (
    e.disposition != MutationDisposition.needs_reconcile
    || e.capture_phase != MutationEvidenceCapturePhase.preflight
    || not e.forbidden_side_effect
    || is_none e.outcome_code
    || e.observed_account_id != i.account_id
    || e.observed_remote_root_id != i.remote_root_id
    || e.observed_remote_file_id != i.remote_file_id
    || e.observed_parent_id != i.source_parent_id
    || e.observed_path != i.source_path
    || e.observed_local_revision != i.expected_local_revision
    || e.observed_remote_revision != i.expected_remote_revision
    || e.observed_operation_marker != some i.operation_marker)

unfoldable pub require_expected_match :
    {A : Type 0} ⦃e : Eq A⦄ → Option A → Option A → Result Unit Error
require_expected_match expected observed =
    fail_if (is_some expected && expected != observed) Error.invalid_transfer_evidence

-- `validate_verified_applied_evidence`, of the intent that it loads
unfoldable pub validate_applied_for :
    MutationIntent → MutationVerificationEvidence → Result Unit Error
unfolding require_expected_match
validate_applied_for i e = do
  require_expected_match i.account_id e.observed_account_id
  require_expected_match i.remote_root_id e.observed_remote_root_id
  require_expected_match i.remote_file_id e.observed_remote_file_id
  require_expected_match (or_else i.destination_parent_id i.source_parent_id) e.observed_parent_id
  require_expected_match (or_else i.destination_path i.source_path) e.observed_path
  require_expected_match i.expected_local_revision e.observed_local_revision
  require_expected_match i.expected_remote_revision e.observed_remote_revision
  require_expected_match i.expected_local_sha256 e.observed_sha256
  require_expected_match i.expected_local_byte_length e.observed_byte_length
  require_expected_match i.expected_remote_sha256 e.observed_sha256
  require_expected_match i.expected_remote_byte_length e.observed_byte_length
  fail_if (e.observed_operation_marker != some i.operation_marker) Error.invalid_transfer_evidence
