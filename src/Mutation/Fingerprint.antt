-- ===== src/Mutation/Fingerprint.antt =====
-- `canonical_fingerprint` of crates/myvault-sync-engine/src/store.rs and the records that it seals.
use my_vault.Base.{ℕ, ◌/◌, ◌%◌, ◌^◌, List, [], ◌∷◌, ◌++◌, Option, none, some, if◌then◌else◌, length}
use mathlib.Core.Option
use my_vault.Text.{Text, codes, bytes}
use my_vault.Text.Decimal.{decimal}
use my_vault.Text.Digest.{Digest}
use my_vault.Mutation.{
  MutationOperationKind, MutationDisposition, MutationEvidenceCapturePhase, MutationIntent,
  MutationVerificationEvidence,
}

-- `u64::to_be_bytes`
unfoldable pub be_bytes : ℕ → List ℕ
be_bytes n =
    (n / 2 ^ 56 % 256)
    ∷ (n / 2 ^ 48 % 256)
    ∷ (n / 2 ^ 40 % 256)
    ∷ (n / 2 ^ 32 % 256)
    ∷ (n / 2 ^ 24 % 256)
    ∷ (n / 2 ^ 16 % 256)
    ∷ (n / 2 ^ 8 % 256)
    ∷ (n % 256)
    ∷ []

-- `append_canonical_bytes`: the length, then the bytes.
unfoldable pub framed : List ℕ → List ℕ
unfolding be_bytes
framed value = be_bytes (length value) ++ value

-- What one field adds to the digest.
unfoldable pub field_bytes : Text → Option Text → List ℕ
unfolding framed
field_bytes name none = framed (bytes name) ++ (0 ∷ [])
field_bytes name (some value) = framed (bytes name) ++ (1 ∷ framed (bytes value))

unfoldable pub fields_bytes : List (Text × Option Text) → List ℕ
unfolding field_bytes
fields_bytes [] = []
fields_bytes ((name, value) ∷ fields) = field_bytes name value ++ fields_bytes fields

unfoldable pub canonical_fingerprint : Digest → Text → List (Text × Option Text) → Text
unfolding fields_bytes
canonical_fingerprint d domain fields = d.sha256_hex (framed (bytes domain) ++ fields_bytes fields)

abbrev kind_str : MutationOperationKind → Text
kind_str MutationOperationKind.local_publish = codes "local_publish"
kind_str MutationOperationKind.merge_publish = codes "merge_publish"
kind_str MutationOperationKind.conflict_copy_publish = codes "conflict_copy_publish"
kind_str MutationOperationKind.base_publish = codes "base_publish"
kind_str MutationOperationKind.remote_existing_blocked = codes "remote_existing_blocked"

abbrev capture_str : MutationEvidenceCapturePhase → Text
capture_str MutationEvidenceCapturePhase.preflight = codes "preflight"
capture_str MutationEvidenceCapturePhase.post_verify = codes "post_verify"
capture_str MutationEvidenceCapturePhase.reconcile = codes "reconcile"

abbrev disposition_str : MutationDisposition → Text
disposition_str MutationDisposition.verified_applied = codes "verified_applied"
disposition_str MutationDisposition.verified_not_applied = codes "verified_not_applied"
disposition_str MutationDisposition.retry_safe = codes "retry_safe"
disposition_str MutationDisposition.needs_reconcile = codes "needs_reconcile"

-- `MutationIntent::canonical_fingerprint`, its fields
unfoldable pub intent_fields : MutationIntent → List (Text × Option Text)
intent_fields i =
    (codes "operation_kind", some (kind_str i.operation_kind))
    ∷ (codes "account_id", i.account_id)
    ∷ (codes "remote_root_id", i.remote_root_id)
    ∷ (codes "remote_file_id", i.remote_file_id)
    ∷ (codes "source_parent_id", i.source_parent_id)
    ∷ (codes "destination_parent_id", i.destination_parent_id)
    ∷ (codes "local_object_id", i.local_object_id)
    ∷ (codes "source_path", i.source_path)
    ∷ (codes "destination_path", i.destination_path)
    ∷ (codes "expected_local_revision", i.expected_local_revision)
    ∷ (codes "expected_remote_revision", i.expected_remote_revision)
    ∷ (codes "base_reference", i.base_reference)
    ∷ (codes "base_local_revision", i.base_local_revision)
    ∷ (codes "base_remote_revision", i.base_remote_revision)
    ∷ (codes "base_sha256", i.base_sha256)
    ∷ (codes "base_byte_length", Option.map decimal i.base_byte_length)
    ∷ (codes "expected_local_sha256", i.expected_local_sha256)
    ∷ (codes "expected_local_byte_length", Option.map decimal i.expected_local_byte_length)
    ∷ (codes "expected_remote_sha256", i.expected_remote_sha256)
    ∷ (codes "expected_remote_byte_length", Option.map decimal i.expected_remote_byte_length)
    ∷ (codes "operation_marker", some i.operation_marker)
    ∷ []

unfoldable pub intent_fingerprint : Digest → MutationIntent → Text
unfolding canonical_fingerprint intent_fields
intent_fingerprint d i = canonical_fingerprint d (codes "r3-mutation-intent-v1") (intent_fields i)

-- `MutationVerificationEvidence::canonical_fingerprint`, its fields
unfoldable pub evidence_fields : Digest → MutationVerificationEvidence → List (Text × Option Text)
evidence_fields d e =
    (codes "operation_id", some (d.uuid_text e.operation_id))
    ∷ (codes "attempt_number", some (decimal e.attempt_number))
    ∷ (codes "capture_phase", some (capture_str e.capture_phase))
    ∷ (codes "disposition", some (disposition_str e.disposition))
    ∷ (codes "outcome_code", e.outcome_code)
    ∷ (codes "observed_account_id", e.observed_account_id)
    ∷ (codes "observed_remote_root_id", e.observed_remote_root_id)
    ∷ (codes "observed_remote_file_id", e.observed_remote_file_id)
    ∷ (codes "observed_parent_id", e.observed_parent_id)
    ∷ (codes "observed_path", e.observed_path)
    ∷ (codes "observed_local_revision", e.observed_local_revision)
    ∷ (codes "observed_remote_revision", e.observed_remote_revision)
    ∷ (codes "observed_sha256", e.observed_sha256)
    ∷ (codes "observed_byte_length", Option.map decimal e.observed_byte_length)
    ∷ (codes "observed_operation_marker", e.observed_operation_marker)
    ∷ (codes "forbidden_side_effect", some (decimal (if e.forbidden_side_effect then 1 else 0)))
    ∷ (codes "verified_received_byte_offset", Option.map decimal e.verified_received_byte_offset)
    ∷ (codes "resume_reference", e.resume_reference)
    ∷ []

unfoldable pub evidence_fingerprint : Digest → MutationVerificationEvidence → Text
unfolding canonical_fingerprint evidence_fields
evidence_fingerprint d e =
    canonical_fingerprint d (codes "r3-mutation-evidence-v1") (evidence_fields d e)
