-- ===== src/Conflict/Classify.antt =====
-- `classify_conflict` of crates/myvault-sync-engine/src/conflict/classifier.rs. `case` and the
-- assessments are matched as the source matches them; a `ConflictPlan` is bound to the evidence.
use my_vault.Base.{List, [], ◌∷◌, Option, none, some, if◌then◌else◌, or_else, unwrap_or, ◌==◌}
use my_vault.Mutation.{MutationOperationKind, kind_eq}
use my_vault.Conflict.Cells.{
  ConflictCell, ConflictOutcome, ConflictDraft, RetainedEvidence, CursorGate, ConflictPlan,
}
use my_vault.Conflict.Facts.{
  GuardedLocalCapability, is_available, DeletedFinalStateProof, LocalRenameGuard,
  BoundaryAssessment, VerifiedNotAppliedRetry, ReplayAssessment, ConflictCase, ConflictInput,
  ClassificationEvidence,
}

-- `ConflictPlan::new`
abbrev new_plan :
    ConflictCell
    → ConflictOutcome
    → List ConflictDraft
    → List RetainedEvidence
    → CursorGate
    → ConflictPlan
new_plan cell outcome drafts retained cursor_gate = record {
  cell = cell;
  outcome = outcome;
  drafts = drafts;
  retained = retained;
  cursor_gate = cursor_gate;
}

needs_reconcile : ConflictCell → List ConflictDraft → List RetainedEvidence → ConflictPlan
needs_reconcile cell drafts retained =
    new_plan cell ConflictOutcome.needs_reconcile drafts retained CursorGate.needs_reconcile

abbrev both_sides : List RetainedEvidence
both_sides =
    RetainedEvidence.local_bytes ∷ RetainedEvidence.remote_bytes
    ∷ RetainedEvidence.preserve_both_evidence ∷ []

preserve_both : ConflictCell → ConflictPlan
preserve_both cell =
    new_plan cell ConflictOutcome.preserve_both_local (ConflictDraft.conflict_copy_publish ∷ [])
      both_sides CursorGate.all_local_publications

preserve_or_reconcile : ConflictCell → GuardedLocalCapability → ConflictPlan
unfolding preserve_both needs_reconcile is_available
preserve_or_reconcile cell capability =
    if is_available capability then preserve_both cell else needs_reconcile cell [] both_sides

preserve_if_available : ConflictCell → ConflictCell → GuardedLocalCapability → ConflictPlan
unfolding preserve_both needs_reconcile is_available
preserve_if_available available_cell unavailable_cell capability =
    if is_available capability
    then preserve_both available_cell
    else needs_reconcile unavailable_cell [] both_sides

guarded_draft : LocalRenameGuard → ConflictDraft → List ConflictDraft
guarded_draft LocalRenameGuard.exact_identity_lineage_and_no_collision
      ConflictDraft.guarded_local_move =
    ConflictDraft.guarded_local_move ∷ []
guarded_draft LocalRenameGuard.exact_identity_lineage_and_no_collision
      ConflictDraft.guarded_local_rename_move =
    ConflictDraft.guarded_local_rename_move ∷ []
guarded_draft _ _ = []

rename_drafts : LocalRenameGuard → List ConflictDraft
rename_drafts LocalRenameGuard.exact_identity_lineage_and_no_collision =
    ConflictDraft.guarded_local_rename ∷ []
rename_drafts LocalRenameGuard.not_proven = []

unfoldable pub classify_fresh_case : ConflictCase → ConflictPlan
unfolding preserve_or_reconcile preserve_if_available guarded_draft rename_drafts
classify_fresh_case (ConflictCase.remote_content_changed guarded_local_replace) =
    if is_available guarded_local_replace
    then new_plan ConflictCell.c01 ConflictOutcome.guarded_local_replace
        (ConflictDraft.local_content_publish ∷ ConflictDraft.base_publish ∷ [])
        (RetainedEvidence.remote_bytes ∷ []) CursorGate.all_local_publications
    else needs_reconcile ConflictCell.c01 ([]) (RetainedEvidence.remote_bytes ∷ [])
classify_fresh_case ConflictCase.local_content_changed =
    new_plan ConflictCell.c02 ConflictOutcome.remote_mutation_blocked
      (ConflictDraft.remote_existing_blocked ∷ []) (RetainedEvidence.local_bytes ∷ [])
      CursorGate.needs_reconcile
classify_fresh_case ConflictCase.non_overlapping_markdown_changes =
    new_plan ConflictCell.c03 ConflictOutcome.safe_text_merge_local
      (ConflictDraft.merge_publish ∷ ConflictDraft.base_publish
        ∷ ConflictDraft.remote_existing_blocked ∷ [])
      (RetainedEvidence.local_bytes ∷ RetainedEvidence.remote_bytes ∷ []) CursorGate.needs_reconcile
classify_fresh_case ConflictCase.overlapping_text_changes = preserve_both ConflictCell.c04
classify_fresh_case ConflictCase.both_binary_changed = preserve_both ConflictCell.c05
classify_fresh_case (ConflictCase.both_changed_without_exact_base guarded_no_replace) =
    preserve_if_available ConflictCell.c06a ConflictCell.c06b guarded_no_replace
classify_fresh_case (ConflictCase.invalid_or_ambiguous_text guarded_no_replace) =
    preserve_or_reconcile ConflictCell.c07 guarded_no_replace
classify_fresh_case (ConflictCase.merge_input_exceeds_bounds guarded_no_replace) =
    preserve_or_reconcile ConflictCell.c08 guarded_no_replace
classify_fresh_case ConflictCase.local_delete_remote_edited =
    new_plan ConflictCell.c09 ConflictOutcome.needs_reconcile
      (ConflictDraft.local_content_publish ∷ ConflictDraft.base_publish
        ∷ ConflictDraft.remote_existing_blocked ∷ [])
      (RetainedEvidence.remote_bytes ∷ RetainedEvidence.delete_intent ∷ [])
      CursorGate.needs_reconcile
classify_fresh_case ConflictCase.local_edited_remote_delete =
    needs_reconcile ConflictCell.c10 (ConflictDraft.remote_existing_blocked ∷ []) (
      RetainedEvidence.local_bytes ∷ RetainedEvidence.delete_intent
      ∷ RetainedEvidence.preserve_both_evidence ∷ [])
classify_fresh_case (ConflictCase.both_deleted DeletedFinalStateProof.verified) =
    new_plan ConflictCell.c11 ConflictOutcome.no_op_verified ([])
      (RetainedEvidence.delete_intent ∷ []) CursorGate.exact_verification
classify_fresh_case (ConflictCase.both_deleted DeletedFinalStateProof.not_verified) =
    needs_reconcile ConflictCell.c11 ([]) (RetainedEvidence.delete_intent ∷ [])
classify_fresh_case ConflictCase.local_rename_remote_edited =
    new_plan ConflictCell.c12 ConflictOutcome.remote_mutation_blocked
      (ConflictDraft.local_content_publish ∷ ConflictDraft.base_publish
        ∷ ConflictDraft.remote_existing_blocked ∷ [])
      (RetainedEvidence.remote_bytes ∷ RetainedEvidence.local_rename_intent ∷ [])
      CursorGate.needs_reconcile
classify_fresh_case (ConflictCase.local_edited_remote_rename local_rename) =
    needs_reconcile ConflictCell.c13 (rename_drafts local_rename)
      (RetainedEvidence.local_bytes ∷ RetainedEvidence.remote_rename_intent ∷ [])
classify_fresh_case ConflictCase.same_exact_rename =
    new_plan ConflictCell.c14a ConflictOutcome.no_op_verified ([])
      (RetainedEvidence.local_rename_intent ∷ []) CursorGate.exact_verification
classify_fresh_case ConflictCase.equivalent_but_byte_different_renames =
    needs_reconcile ConflictCell.c14b ([])
      (RetainedEvidence.local_rename_intent ∷ RetainedEvidence.remote_rename_intent ∷ [])
classify_fresh_case ConflictCase.divergent_renames =
    needs_reconcile ConflictCell.c14c ([])
      (RetainedEvidence.local_rename_intent ∷ RetainedEvidence.remote_rename_intent ∷ [])
classify_fresh_case ConflictCase.local_move_remote_edited =
    needs_reconcile ConflictCell.c15
      (ConflictDraft.local_content_publish ∷ ConflictDraft.remote_existing_blocked ∷ [])
      (RetainedEvidence.remote_bytes ∷ RetainedEvidence.move_intent ∷ [])
classify_fresh_case (ConflictCase.local_edited_remote_move local_move) =
    needs_reconcile ConflictCell.c16 (guarded_draft local_move ConflictDraft.guarded_local_move)
      (RetainedEvidence.local_bytes ∷ RetainedEvidence.move_intent ∷ [])
classify_fresh_case ConflictCase.same_exact_move =
    new_plan ConflictCell.c17 ConflictOutcome.no_op_verified ([])
      (RetainedEvidence.parent_lineage ∷ []) CursorGate.exact_verification
classify_fresh_case ConflictCase.divergent_moves =
    needs_reconcile ConflictCell.c18 ([])
      (RetainedEvidence.move_intent ∷ RetainedEvidence.parent_lineage ∷ [])
classify_fresh_case ConflictCase.rename_move_cycle = needs_reconcile ConflictCell.c18 ([]) (
    RetainedEvidence.move_intent ∷ RetainedEvidence.local_rename_intent
    ∷ RetainedEvidence.parent_lineage ∷ [])
classify_fresh_case (ConflictCase.rename_move_conflict combined_target) =
    needs_reconcile ConflictCell.c19
      (guarded_draft combined_target ConflictDraft.guarded_local_rename_move)
      (RetainedEvidence.local_rename_intent ∷ RetainedEvidence.move_intent ∷ [])
classify_fresh_case ConflictCase.local_metadata_change_remote_delete =
    needs_reconcile ConflictCell.c20 (ConflictDraft.remote_existing_blocked ∷ []) (
      RetainedEvidence.local_rename_intent ∷ RetainedEvidence.move_intent
      ∷ RetainedEvidence.delete_intent ∷ [])
classify_fresh_case ConflictCase.local_delete_remote_metadata_change =
    needs_reconcile ConflictCell.c21 ([]) (
      RetainedEvidence.delete_intent ∷ RetainedEvidence.remote_rename_intent
      ∷ RetainedEvidence.move_intent ∷ RetainedEvidence.remote_identity ∷ [])
classify_fresh_case (ConflictCase.destination_created_vs_move_or_rename guarded_no_replace) =
    preserve_if_available ConflictCell.c22a ConflictCell.c22b guarded_no_replace
classify_fresh_case (ConflictCase.distinct_creates_at_equivalent_path guarded_no_replace) =
    preserve_or_reconcile ConflictCell.c23 guarded_no_replace
classify_fresh_case ConflictCase.different_items_move_to_same_target =
    needs_reconcile ConflictCell.c24 ([]) (
      RetainedEvidence.local_identity ∷ RetainedEvidence.remote_identity
      ∷ RetainedEvidence.destination_identity ∷ [])
classify_fresh_case ConflictCase.duplicate_remote_path =
    needs_reconcile ConflictCell.c25 ([])
      (RetainedEvidence.remote_identity ∷ RetainedEvidence.destination_identity ∷ [])
classify_fresh_case (ConflictCase.child_changed_with_parent_changed resolved_lineage) =
    needs_reconcile ConflictCell.c26
      (guarded_draft resolved_lineage ConflictDraft.guarded_local_move)
      (RetainedEvidence.local_bytes ∷ RetainedEvidence.parent_lineage ∷ [])
classify_fresh_case (ConflictCase.portable_equivalent_destination_collision guarded_no_replace) =
    preserve_or_reconcile ConflictCell.c34 guarded_no_replace

unfoldable pub classify_boundary : BoundaryAssessment → Option ConflictPlan
classify_boundary BoundaryAssessment.approved = none
classify_boundary BoundaryAssessment.protected_path = some (
    new_plan ConflictCell.c27 ConflictOutcome.unsupported_protected ([])
      (RetainedEvidence.destination_identity ∷ []) CursorGate.needs_reconcile)
classify_boundary BoundaryAssessment.unsupported_object_or_topology = some (
    new_plan ConflictCell.c28a ConflictOutcome.unsupported_protected ([])
      (RetainedEvidence.provider_metadata ∷ []) CursorGate.needs_reconcile)
classify_boundary BoundaryAssessment.malformed_object_metadata = some (
    new_plan ConflictCell.c28b ConflictOutcome.needs_reconcile ([])
      (RetainedEvidence.provider_metadata ∷ []) CursorGate.needs_reconcile)
classify_boundary BoundaryAssessment.account_root_or_allowlist_mismatch = some (
    new_plan ConflictCell.c33a ConflictOutcome.unsupported_protected ([])
      (RetainedEvidence.provider_metadata ∷ []) CursorGate.needs_reconcile)
classify_boundary BoundaryAssessment.allowlisted_identity_lineage_revision_or_base_mismatch = some (
    new_plan ConflictCell.c33b ConflictOutcome.needs_reconcile ([])
      (RetainedEvidence.provider_metadata ∷ RetainedEvidence.parent_lineage ∷ [])
      CursorGate.needs_reconcile)

classify_retry : VerifiedNotAppliedRetry → ConflictPlan
unfolding needs_reconcile
classify_retry VerifiedNotAppliedRetry.guarded_local_replace =
    new_plan ConflictCell.c30 ConflictOutcome.guarded_local_replace
      (ConflictDraft.local_content_publish ∷ []) ([]) CursorGate.all_local_publications
classify_retry VerifiedNotAppliedRetry.guarded_conflict_copy =
    new_plan ConflictCell.c30 ConflictOutcome.preserve_both_local
      (ConflictDraft.conflict_copy_publish ∷ []) (RetainedEvidence.preserve_both_evidence ∷ [])
      CursorGate.all_local_publications
classify_retry VerifiedNotAppliedRetry.remote_existing_mutation_blocked =
    new_plan ConflictCell.c30 ConflictOutcome.remote_mutation_blocked
      (ConflictDraft.remote_existing_blocked ∷ []) ([]) CursorGate.needs_reconcile
classify_retry VerifiedNotAppliedRetry.preconditions_changed_or_capability_unavailable =
    needs_reconcile ConflictCell.c30 ([]) ([])

unfoldable pub classify_replay : ReplayAssessment → Option ConflictPlan
unfolding classify_retry needs_reconcile
classify_replay ReplayAssessment.fresh = none
classify_replay (ReplayAssessment.verified_applied_exact_post_state proof) =
    if proof.operation_kind == MutationOperationKind.conflict_copy_publish
    then some (needs_reconcile ConflictCell.c29 ([]) (RetainedEvidence.preserve_both_evidence ∷ []))
    else some (
        new_plan ConflictCell.c29 ConflictOutcome.no_op_verified ([]) ([])
          CursorGate.exact_verification)
classify_replay (ReplayAssessment.verified_not_applied _ retry) = some (classify_retry retry)
classify_replay (ReplayAssessment.side_effect_outcome_unknown _) =
    some (needs_reconcile ConflictCell.c31 ([]) ([]))
classify_replay (ReplayAssessment.queued_intent_captured_base_changed _) = some (
    needs_reconcile ConflictCell.c32 ([])
      (RetainedEvidence.local_bytes ∷ RetainedEvidence.remote_bytes ∷ []))

-- The boundary decides first, then the prior outcome, then the fresh facts; the plan is bound to
-- the evidence of its input (`bind_evidence`).
unfoldable pub classify_conflict : ConflictInput → ConflictPlan × ClassificationEvidence
unfolding classify_boundary classify_replay classify_fresh_case
classify_conflict input = (
  unwrap_or (or_else (classify_boundary input.boundary) (classify_replay input.replay))
      (classify_fresh_case input.case),
  input.evidence,
)
