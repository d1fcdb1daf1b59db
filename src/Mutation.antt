-- ===== src/Mutation.antt =====
-- The durable mutation records of crates/myvault-sync-engine/src/store.rs.
pub mod Fingerprint
use my_vault.Base.{nat_beq, ℕ, ◌≡◌, ◌↔◌, Bool, true, false, Option, Eq, arith}
use my_vault.Text.{Text}

pub data MutationOperationKind : Type 0 where
  local_publish merge_publish conflict_copy_publish base_publish remote_existing_blocked :
      MutationOperationKind

pub data MutationPhase : Type 0 where
  intent_durable running retry_scheduled needs_reconcile completed : MutationPhase

pub data MutationDisposition : Type 0 where
  verified_applied verified_not_applied retry_safe needs_reconcile : MutationDisposition

pub data MutationRetryMode : Type 0 where
  restart_exact resume_exact : MutationRetryMode

pub data MutationEvidenceCapturePhase : Type 0 where
  preflight post_verify reconcile : MutationEvidenceCapturePhase

-- The derived `PartialEq` of the field-less enums compares their discriminants.
abbrev pub kind_index : MutationOperationKind → ℕ
kind_index MutationOperationKind.local_publish = 0
kind_index MutationOperationKind.merge_publish = 1
kind_index MutationOperationKind.conflict_copy_publish = 2
kind_index MutationOperationKind.base_publish = 3
kind_index MutationOperationKind.remote_existing_blocked = 4

abbrev pub phase_index : MutationPhase → ℕ
phase_index MutationPhase.intent_durable = 0
phase_index MutationPhase.running = 1
phase_index MutationPhase.retry_scheduled = 2
phase_index MutationPhase.needs_reconcile = 3
phase_index MutationPhase.completed = 4

abbrev pub disposition_index : MutationDisposition → ℕ
disposition_index MutationDisposition.verified_applied = 0
disposition_index MutationDisposition.verified_not_applied = 1
disposition_index MutationDisposition.retry_safe = 2
disposition_index MutationDisposition.needs_reconcile = 3

abbrev pub capture_index : MutationEvidenceCapturePhase → ℕ
capture_index MutationEvidenceCapturePhase.preflight = 0
capture_index MutationEvidenceCapturePhase.post_verify = 1
capture_index MutationEvidenceCapturePhase.reconcile = 2

pub kind_beq_iff :
    (a b : MutationOperationKind) → (nat_beq (kind_index a) (kind_index b) ≡ true) ↔ (a ≡ b)
kind_beq_iff a b = ground arith

pub phase_beq_iff :
    (a b : MutationPhase) → (nat_beq (phase_index a) (phase_index b) ≡ true) ↔ (a ≡ b)
phase_beq_iff a b = ground arith

pub disposition_beq_iff :
    (a b : MutationDisposition)
    → (nat_beq (disposition_index a) (disposition_index b) ≡ true) ↔ (a ≡ b)
disposition_beq_iff a b = ground arith

pub capture_beq_iff :
    (a b : MutationEvidenceCapturePhase)
    → (nat_beq (capture_index a) (capture_index b) ≡ true) ↔ (a ≡ b)
capture_beq_iff a b = ground arith

instance abbrev pub kind_eq : Eq MutationOperationKind
kind_eq = record { beq = λ a b. nat_beq (kind_index a) (kind_index b); beq_iff = kind_beq_iff }

instance abbrev pub phase_eq : Eq MutationPhase
phase_eq = record { beq = λ a b. nat_beq (phase_index a) (phase_index b); beq_iff = phase_beq_iff }

instance abbrev pub disposition_eq : Eq MutationDisposition
disposition_eq = record {
  beq = λ a b. nat_beq (disposition_index a) (disposition_index b);
  beq_iff = disposition_beq_iff;
}

instance abbrev pub capture_eq : Eq MutationEvidenceCapturePhase
capture_eq = record {
  beq = λ a b. nat_beq (capture_index a) (capture_index b);
  beq_iff = capture_beq_iff;
}

pub record MutationIntent : Type 0 where
  pub operation_id : ℕ
  pub operation_kind : MutationOperationKind
  pub account_id : Option Text
  pub remote_root_id : Option Text
  pub remote_file_id : Option Text
  pub source_parent_id : Option Text
  pub destination_parent_id : Option Text
  pub local_object_id : Option Text
  pub source_path : Option Text
  pub destination_path : Option Text
  pub expected_local_revision : Option Text
  pub expected_remote_revision : Option Text
  pub base_reference : Option Text
  pub base_local_revision : Option Text
  pub base_remote_revision : Option Text
  pub base_sha256 : Option Text
  pub base_byte_length : Option ℕ
  pub expected_local_sha256 : Option Text
  pub expected_local_byte_length : Option ℕ
  pub expected_remote_sha256 : Option Text
  pub expected_remote_byte_length : Option ℕ
  pub operation_marker : Text
  pub intent_fingerprint : Text
  pub registered_at_unix_ms : ℕ

pub record MutationState : Type 0 where
  pub operation_id : ℕ
  pub phase : MutationPhase
  pub attempt_number : ℕ
  pub state_version : ℕ
  pub disposition : Option MutationDisposition
  pub next_attempt_at_unix_ms : Option ℕ
  pub retry_mode : Option MutationRetryMode
  pub resume_reference : Option Text
  pub last_evidence_id : Option ℕ
  pub outcome_code : Option Text
  pub updated_at_unix_ms : ℕ

pub record MutationVerificationEvidence : Type 0 where
  pub evidence_id : ℕ
  pub operation_id : ℕ
  pub attempt_number : ℕ
  pub capture_phase : MutationEvidenceCapturePhase
  pub disposition : MutationDisposition
  pub outcome_code : Option Text
  pub observed_account_id : Option Text
  pub observed_remote_root_id : Option Text
  pub observed_remote_file_id : Option Text
  pub observed_parent_id : Option Text
  pub observed_path : Option Text
  pub observed_local_revision : Option Text
  pub observed_remote_revision : Option Text
  pub observed_sha256 : Option Text
  pub observed_byte_length : Option ℕ
  pub observed_operation_marker : Option Text
  pub forbidden_side_effect : Bool
  pub verified_received_byte_offset : Option ℕ
  pub resume_reference : Option Text
  pub evidence_fingerprint : Text
  pub captured_at_unix_ms : ℕ
