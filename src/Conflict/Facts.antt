-- ===== src/Conflict/Facts.antt =====
-- The inputs of the classifier: scenarios, assessments, sealed evidence
-- (crates/myvault-sync-engine/src/conflict/classifier.rs).
use my_vault.Base.{
  nat_beq, list_beq, list_beq_iff, list_eq, nat_eq, ℕ, ◌≡◌, ◌↔◌, Bool, true, false, ◌&&◌, List,
  Option, Eq, arith,
}
use my_vault.Text.{Text}
use my_vault.Mutation.{MutationOperationKind}

pub record ContentFingerprint : Type 0 where
  pub sha256 : Text
  pub byte_length : ℕ

abbrev pub fingerprint_beq : ContentFingerprint → ContentFingerprint → Bool
fingerprint_beq a b = list_beq a.sha256 b.sha256 && nat_beq a.byte_length b.byte_length

pub fingerprint_beq_iff : (a b : ContentFingerprint) → (fingerprint_beq a b ≡ true) ↔ (a ≡ b)
fingerprint_beq_iff a b = ground (arith, list_beq_iff a.sha256 b.sha256)

instance abbrev pub fingerprint_eq : Eq ContentFingerprint
fingerprint_eq = record { beq = fingerprint_beq; beq_iff = fingerprint_beq_iff }

pub data GuardedLocalCapability : Type 0 where
  available unavailable unknown : GuardedLocalCapability

unfoldable pub is_available : GuardedLocalCapability → Bool
is_available GuardedLocalCapability.available = true
is_available _ = false

pub data DeletedFinalStateProof : Type 0 where
  verified not_verified : DeletedFinalStateProof

pub data LocalRenameGuard : Type 0 where
  exact_identity_lineage_and_no_collision not_proven : LocalRenameGuard

pub data BoundaryAssessment : Type 0 where
  approved protected_path unsupported_object_or_topology malformed_object_metadata
        account_root_or_allowlist_mismatch allowlisted_identity_lineage_revision_or_base_mismatch :
      BoundaryAssessment

pub data VerifiedNotAppliedRetry : Type 0 where
  guarded_local_replace guarded_conflict_copy remote_existing_mutation_blocked
        preconditions_changed_or_capability_unavailable :
      VerifiedNotAppliedRetry

pub data ReplayDisposition : Type 0 where
  verified_applied_exact_post_state verified_not_applied side_effect_outcome_unknown
        queued_intent_captured_base_changed :
      ReplayDisposition

abbrev pub replay_index : ReplayDisposition → ℕ
replay_index ReplayDisposition.verified_applied_exact_post_state = 0
replay_index ReplayDisposition.verified_not_applied = 1
replay_index ReplayDisposition.side_effect_outcome_unknown = 2
replay_index ReplayDisposition.queued_intent_captured_base_changed = 3

pub replay_beq_iff :
    (a b : ReplayDisposition) → (nat_beq (replay_index a) (replay_index b) ≡ true) ↔ (a ≡ b)
replay_beq_iff a b = ground arith

instance abbrev pub replay_eq : Eq ReplayDisposition
replay_eq = record {
  beq = λ a b. nat_beq (replay_index a) (replay_index b);
  beq_iff = replay_beq_iff;
}

pub record ReplayProof : Type 0 where
  pub operation_id : ℕ
  pub state_version : ℕ
  pub outcome_fingerprint : Text
  pub disposition : ReplayDisposition
  pub operation_kind : MutationOperationKind
  pub intent_fingerprint : Text
  pub account_id : Option Text
  pub remote_root_id : Option Text
  pub object_identity : Option Text
  pub identity_path : Option Text
  pub target_parent_id : Option Text
  pub base_sha256 : Option Text
  pub base_byte_length : Option ℕ
  pub expected_local_content : Option ContentFingerprint
  pub expected_remote_content : Option ContentFingerprint
  pub local_revision : Option Text
  pub remote_revision : Option Text

pub data ReplayAssessment : Type 0 where
  fresh : ReplayAssessment
  verified_applied_exact_post_state : ReplayProof → ReplayAssessment
  verified_not_applied : ReplayProof → VerifiedNotAppliedRetry → ReplayAssessment
  side_effect_outcome_unknown : ReplayProof → ReplayAssessment
  queued_intent_captured_base_changed : ReplayProof → ReplayAssessment

pub record GuardedMetadataTargetEvidence : Type 0 where
  pub portable_path : Text
  pub parent_id : Text
  pub object_id : Option Text
  pub normalized_collision_key : Text
  pub occupied_collision_keys : List Text

pub record ClassificationEvidenceFacts : Type 0 where
  pub account_id : Option Text
  pub remote_root_id : Option Text
  pub object_identity : Option Text
  pub canonical_identity_path : Option Text
  pub target_parent_id : Option Text
  pub base : Option ContentFingerprint
  pub local : Option ContentFingerprint
  pub remote : Option ContentFingerprint
  pub local_revision : Option Text
  pub remote_revision : Option Text
  pub durable_state_version : ℕ
  pub prior_operation_id : Option ℕ
  pub prior_outcome_fingerprint : Option Text
  pub prior_intent_fingerprint : Option Text
  pub prior_replay_disposition : Option ReplayDisposition
  pub guarded_metadata_target : Option GuardedMetadataTargetEvidence

pub record VerifiedSemanticTarget : Type 0 where
  pub account_id : Text
  pub remote_root_id : Text
  pub object_identity : Text
  pub durable_state_version : ℕ
  pub target : Text

pub record ClassificationEvidence : Type 0 where
  pub facts : ClassificationEvidenceFacts
  pub verified_markdown_merge : Option ContentFingerprint
  pub verified_deleted_final_state : Bool
  pub verified_same_rename : Option VerifiedSemanticTarget
  pub verified_same_move : Option VerifiedSemanticTarget

pub data ConflictInputFailure : Type 0 where
  missing_exact_identity invalid_exact_identity invalid_content_evidence
        invalid_durable_state_version missing_markdown_merge_proof invalid_replay_proof
        missing_semantic_proof :
      ConflictInputFailure

pub data ConflictCase : Type 0 where
  remote_content_changed : GuardedLocalCapability → ConflictCase
  local_content_changed non_overlapping_markdown_changes overlapping_text_changes
        both_binary_changed :
      ConflictCase
  both_changed_without_exact_base invalid_or_ambiguous_text merge_input_exceeds_bounds :
      GuardedLocalCapability → ConflictCase
  local_delete_remote_edited local_edited_remote_delete : ConflictCase
  both_deleted : DeletedFinalStateProof → ConflictCase
  local_rename_remote_edited : ConflictCase
  local_edited_remote_rename : LocalRenameGuard → ConflictCase
  same_exact_rename equivalent_but_byte_different_renames divergent_renames
        local_move_remote_edited :
      ConflictCase
  local_edited_remote_move : LocalRenameGuard → ConflictCase
  same_exact_move divergent_moves rename_move_cycle : ConflictCase
  rename_move_conflict : LocalRenameGuard → ConflictCase
  local_metadata_change_remote_delete local_delete_remote_metadata_change : ConflictCase
  destination_created_vs_move_or_rename distinct_creates_at_equivalent_path :
      GuardedLocalCapability → ConflictCase
  different_items_move_to_same_target duplicate_remote_path : ConflictCase
  child_changed_with_parent_changed : LocalRenameGuard → ConflictCase
  portable_equivalent_destination_collision : GuardedLocalCapability → ConflictCase

-- The precedence-bearing input that `validate` has accepted.
pub record ConflictInput : Type 0 where
  pub evidence : ClassificationEvidence
  pub boundary : BoundaryAssessment
  pub replay : ReplayAssessment
  pub case : ConflictCase
