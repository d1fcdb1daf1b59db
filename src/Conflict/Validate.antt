-- ===== src/Conflict/Validate.antt =====
-- `validate_classification_evidence` and `ConflictInput::new`
-- (crates/myvault-sync-engine/src/conflict/classifier.rs).
use my_vault.Base.{
  nat_eq, list_eq, option_eq, Bool, true, false, not, ◌&&◌, ◌||◌, Option, none, some, if◌then◌else◌,
  ◌==◌, ◌!=◌, leb, is_none, is_some, is_empty,
}
use mathlib.Core.Option
use my_vault.Base.Results.{Result, ok, err, fail_if}
use my_vault.Text.{is_lower_hex_64}
use my_vault.Mutation.{MutationOperationKind, kind_eq}
use my_vault.Conflict.Facts.{
  ContentFingerprint, fingerprint_eq, LocalRenameGuard, VerifiedNotAppliedRetry, ReplayDisposition,
  replay_eq, ReplayProof, ReplayAssessment, ClassificationEvidenceFacts, VerifiedSemanticTarget,
  ClassificationEvidence, ConflictInputFailure, ConflictCase,
}

pub record RequiredContent : Type 0 where
  pub base : Bool
  pub local : Bool
  pub remote : Bool

abbrev needs : Bool → Bool → Bool → RequiredContent
needs base local remote = record { base = base; local = local; remote = remote }

unfoldable pub required_content : ConflictCase → RequiredContent
required_content (ConflictCase.remote_content_changed _) = needs true true true
required_content ConflictCase.local_content_changed = needs true true true
required_content ConflictCase.non_overlapping_markdown_changes = needs true true true
required_content ConflictCase.overlapping_text_changes = needs true true true
required_content ConflictCase.both_binary_changed = needs true true true
required_content (ConflictCase.both_changed_without_exact_base _) = needs false true true
required_content (ConflictCase.invalid_or_ambiguous_text _) = needs false true true
required_content (ConflictCase.merge_input_exceeds_bounds _) = needs false true true
required_content (ConflictCase.destination_created_vs_move_or_rename _) = needs false true true
required_content (ConflictCase.distinct_creates_at_equivalent_path _) = needs false true true
required_content (ConflictCase.portable_equivalent_destination_collision _) = needs false true true
required_content ConflictCase.local_delete_remote_edited = needs false false true
required_content ConflictCase.local_rename_remote_edited = needs false false true
required_content ConflictCase.local_move_remote_edited = needs false false true
required_content ConflictCase.local_edited_remote_delete = needs false true false
required_content (ConflictCase.local_edited_remote_rename _) = needs false true false
required_content _ = needs false false false

unfoldable pub require_content :
    ClassificationEvidenceFacts → RequiredContent → Result Unit ConflictInputFailure
require_content facts required =
    fail_if
      (required.base && is_none facts.base
        || required.local && is_none facts.local
        || required.remote && is_none facts.remote)
      ConflictInputFailure.invalid_content_evidence

unfoldable pub is_fresh : ReplayAssessment → Bool
is_fresh ReplayAssessment.fresh = true
is_fresh _ = false

replay_required : ReplayAssessment → RequiredContent
replay_required
      (ReplayAssessment.verified_not_applied _ VerifiedNotAppliedRetry.guarded_local_replace) =
    needs false false true
replay_required
      (ReplayAssessment.verified_not_applied _ VerifiedNotAppliedRetry.guarded_conflict_copy) =
    needs false false true
replay_required _ = needs false false false

-- The content facts that a fresh case claims.
unfoldable pub content_valid : ClassificationEvidenceFacts → ConflictCase → Bool
content_valid facts (ConflictCase.remote_content_changed _) =
    facts.local == facts.base && facts.remote != facts.base
content_valid facts ConflictCase.local_content_changed =
    facts.remote == facts.base && facts.local != facts.base
content_valid facts ConflictCase.non_overlapping_markdown_changes =
    facts.local != facts.base && facts.remote != facts.base
content_valid facts ConflictCase.overlapping_text_changes =
    facts.local != facts.base && facts.remote != facts.base
content_valid facts ConflictCase.both_binary_changed =
    facts.local != facts.base && facts.remote != facts.base
content_valid facts (ConflictCase.both_changed_without_exact_base _) =
    is_none facts.base && is_some facts.local && is_some facts.remote
content_valid facts (ConflictCase.invalid_or_ambiguous_text _) =
    is_some facts.local
    && is_some facts.remote
    && (is_none facts.base || facts.local != facts.base || facts.remote != facts.base)
content_valid facts (ConflictCase.merge_input_exceeds_bounds _) =
    is_some facts.local
    && is_some facts.remote
    && (is_none facts.base || facts.local != facts.base || facts.remote != facts.base)
content_valid facts _ = true

unfoldable pub validate_content_predicates :
    ClassificationEvidenceFacts → ReplayAssessment → ConflictCase → Result Unit ConflictInputFailure
unfolding require_content replay_required content_valid is_fresh
validate_content_predicates facts replay case =
    if not (is_fresh replay)
    then require_content facts (replay_required replay)
    else if content_valid facts case
    then ok tt
    else err ConflictInputFailure.invalid_content_evidence

abbrev is_exact_guard : LocalRenameGuard → Bool
is_exact_guard LocalRenameGuard.exact_identity_lineage_and_no_collision = true
is_exact_guard LocalRenameGuard.not_proven = false

unfoldable pub case_requires_guarded_target : ConflictCase → Bool
case_requires_guarded_target (ConflictCase.local_edited_remote_rename g) = is_exact_guard g
case_requires_guarded_target (ConflictCase.local_edited_remote_move g) = is_exact_guard g
case_requires_guarded_target (ConflictCase.rename_move_conflict g) = is_exact_guard g
case_requires_guarded_target (ConflictCase.child_changed_with_parent_changed g) = is_exact_guard g
case_requires_guarded_target _ = false

unfoldable pub semantic_target_matches :
    Option VerifiedSemanticTarget → ClassificationEvidenceFacts → Bool
semantic_target_matches none facts = false
semantic_target_matches (some proof) facts =
    facts.account_id == some proof.account_id
    && facts.remote_root_id == some proof.remote_root_id
    && facts.object_identity == some proof.object_identity
    && facts.durable_state_version == proof.durable_state_version
    && not (is_empty proof.target)

unfoldable pub replay_operation_matches : ReplayAssessment → MutationOperationKind → Bool
replay_operation_matches
      (ReplayAssessment.verified_not_applied _ VerifiedNotAppliedRetry.guarded_local_replace) kind =
    kind == MutationOperationKind.local_publish
replay_operation_matches
      (ReplayAssessment.verified_not_applied _ VerifiedNotAppliedRetry.guarded_conflict_copy) kind =
    kind == MutationOperationKind.conflict_copy_publish
replay_operation_matches
      (ReplayAssessment.verified_not_applied _
        VerifiedNotAppliedRetry.remote_existing_mutation_blocked)
      kind =
    kind == MutationOperationKind.remote_existing_blocked
replay_operation_matches _ kind = true

payload_matches : MutationOperationKind → ReplayProof → ClassificationEvidenceFacts → Bool
payload_matches MutationOperationKind.local_publish proof facts =
    proof.expected_local_content == facts.remote
payload_matches MutationOperationKind.conflict_copy_publish proof facts =
    proof.expected_local_content == facts.remote
payload_matches MutationOperationKind.merge_publish proof facts =
    is_some proof.expected_local_content
payload_matches MutationOperationKind.base_publish proof facts =
    proof.expected_local_content == facts.base
payload_matches MutationOperationKind.remote_existing_blocked proof facts = true

exact_post_state : MutationOperationKind → ReplayProof → ClassificationEvidenceFacts → Bool
exact_post_state MutationOperationKind.local_publish proof facts =
    facts.local == proof.expected_local_content
exact_post_state MutationOperationKind.merge_publish proof facts =
    facts.local == proof.expected_local_content
exact_post_state MutationOperationKind.conflict_copy_publish proof facts = true
exact_post_state MutationOperationKind.remote_existing_blocked proof facts = true
exact_post_state MutationOperationKind.base_publish proof facts =
    facts.base == proof.expected_local_content

unfoldable pub replay_snapshot_matches : ClassificationEvidence → ReplayProof → Bool
unfolding payload_matches exact_post_state
replay_snapshot_matches evidence proof =
    let facts = evidence.facts in
    let identity_matches =
      proof.account_id == facts.account_id
      && proof.remote_root_id == facts.remote_root_id
      && proof.object_identity == facts.object_identity
      && proof.identity_path == facts.canonical_identity_path
      && proof.target_parent_id == facts.target_parent_id in
    let prior_base_matches_current =
      proof.base_sha256 == Option.map (λ (c : ContentFingerprint). c.sha256) facts.base
      && proof.base_byte_length
        == Option.map (λ (c : ContentFingerprint). c.byte_length) facts.base in
    let applied = proof.disposition == ReplayDisposition.verified_applied_exact_post_state in
    let base_matches =
      if applied && proof.operation_kind == MutationOperationKind.base_publish
      then true
      else prior_base_matches_current in
    let remote_matches =
      is_none proof.expected_remote_content || proof.expected_remote_content == facts.remote in
    let tuple_matches =
      base_matches
      && proof.local_revision == facts.local_revision
      && proof.remote_revision == facts.remote_revision
      && payload_matches proof.operation_kind proof facts
      && remote_matches in
    let exact_post_state_matches =
      not applied || exact_post_state proof.operation_kind proof facts in
    identity_matches
    && (if proof.disposition == ReplayDisposition.queued_intent_captured_base_changed
        then not tuple_matches
        else tuple_matches && exact_post_state_matches)

check_proof :
    ClassificationEvidence
    → ReplayAssessment
    → ReplayProof
    → ReplayDisposition
    → Bool
    → Result Unit ConflictInputFailure
unfolding replay_operation_matches replay_snapshot_matches
check_proof evidence replay proof expected version_matches =
    let facts = evidence.facts in
    fail_if
      (proof.operation_id == 0
        || not version_matches
        || not (is_lower_hex_64 proof.outcome_fingerprint)
        || facts.prior_operation_id != some proof.operation_id
        || facts.prior_outcome_fingerprint != some proof.outcome_fingerprint
        || facts.prior_intent_fingerprint != some proof.intent_fingerprint
        || proof.disposition != expected
        || facts.prior_replay_disposition != some expected
        || not (replay_operation_matches replay proof.operation_kind)
        || not (replay_snapshot_matches evidence proof))
      ConflictInputFailure.invalid_replay_proof

unfoldable pub validate_replay_proof :
    ClassificationEvidence → ReplayAssessment → Result Unit ConflictInputFailure
unfolding check_proof
validate_replay_proof evidence ReplayAssessment.fresh =
    let facts = evidence.facts in
    fail_if
      (not (
        is_none facts.prior_operation_id
        && is_none facts.prior_outcome_fingerprint
        && is_none facts.prior_intent_fingerprint
        && is_none facts.prior_replay_disposition))
      ConflictInputFailure.invalid_replay_proof
validate_replay_proof evidence (ReplayAssessment.verified_applied_exact_post_state proof) =
    check_proof evidence (ReplayAssessment.verified_applied_exact_post_state proof) proof
      ReplayDisposition.verified_applied_exact_post_state
      (proof.state_version == evidence.facts.durable_state_version)
validate_replay_proof evidence (ReplayAssessment.verified_not_applied proof retry) =
    check_proof evidence (ReplayAssessment.verified_not_applied proof retry) proof
      ReplayDisposition.verified_not_applied
      (proof.state_version == evidence.facts.durable_state_version)
validate_replay_proof evidence (ReplayAssessment.side_effect_outcome_unknown proof) =
    check_proof evidence (ReplayAssessment.side_effect_outcome_unknown proof) proof
      ReplayDisposition.side_effect_outcome_unknown
      (proof.state_version == evidence.facts.durable_state_version)
validate_replay_proof evidence (ReplayAssessment.queued_intent_captured_base_changed proof) =
    check_proof evidence (ReplayAssessment.queued_intent_captured_base_changed proof) proof
      ReplayDisposition.queued_intent_captured_base_changed
      (leb proof.state_version evidence.facts.durable_state_version)
