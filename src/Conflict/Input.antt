-- ===== src/Conflict/Input.antt =====
-- `validate_classification_evidence` and `ConflictInput::new`
-- (crates/myvault-sync-engine/src/conflict/classifier.rs).
use my_vault.Base.{
  nat_eq, list_eq, ℕ, ◌^◌, Bool, true, false, not, ◌&&◌, ◌||◌, Option, ◌==◌, ltb, leb, is_none,
  is_some_and, any, length,
}
use my_vault.Base.Results.{Result, ok, err, fail_if, ◌>>◌}
use my_vault.Text.{Text, is_lower_hex_64, is_remote_id}
use my_vault.Text.Digest.{Digest}
use my_vault.Text.Unicode.{Unicode}
use my_vault.Conflict.Facts.{
  ContentFingerprint, DeletedFinalStateProof, BoundaryAssessment, ReplayAssessment,
  GuardedMetadataTargetEvidence, ClassificationEvidenceFacts, ClassificationEvidence,
  ConflictInputFailure, ConflictCase, ConflictInput,
}
use my_vault.Conflict.Paths.{ConflictNameFailure, is_exact_content_path, normalized_collision_key}
use my_vault.Conflict.Validate.{
  required_content, require_content, is_fresh, validate_content_predicates,
  case_requires_guarded_target, semantic_target_matches, validate_replay_proof,
}

-- `i64::try_from(n).is_err()`
abbrev exceeds_i64 : ℕ → Bool
exceeds_i64 n = leb (2 ^ 63) n

unfoldable pub is_bad_content : Option ContentFingerprint → Bool
is_bad_content content =
    is_some_and content (λ c. not (is_lower_hex_64 c.sha256) || exceeds_i64 c.byte_length)

abbrev pub is_merge_case : ConflictCase → Bool
is_merge_case ConflictCase.non_overlapping_markdown_changes = true
is_merge_case _ = false

-- The case needs a semantic proof that the evidence does not hold.
unfoldable pub lacks_semantic_proof : ClassificationEvidence → ConflictCase → Bool
unfolding semantic_target_matches
lacks_semantic_proof e (ConflictCase.both_deleted DeletedFinalStateProof.verified) =
    not e.verified_deleted_final_state
lacks_semantic_proof e ConflictCase.same_exact_rename =
    not (semantic_target_matches e.verified_same_rename e.facts)
lacks_semantic_proof e ConflictCase.same_exact_move =
    not (semantic_target_matches e.verified_same_move e.facts)
lacks_semantic_proof e _ = false

unfoldable pub check_fingerprints : ClassificationEvidence → Result Unit ConflictInputFailure
unfolding is_bad_content
check_fingerprints e =
    fail_if
      (is_bad_content e.facts.base
        || is_bad_content e.facts.local
        || is_bad_content e.facts.remote
        || is_bad_content e.verified_markdown_merge)
      ConflictInputFailure.invalid_content_evidence

module _ (d : Digest) (u : Unicode) where
  -- `normalized_collision_key(path).as_deref() != Ok(key)`
  key_differs : Result Text ConflictNameFailure → Text → Bool
  key_differs (ok found) key = not (found == key)
  key_differs (err e) key = true

  unfoldable pub is_bad_target : GuardedMetadataTargetEvidence → Bool
  unfolding key_differs
  is_bad_target target =
      not (is_exact_content_path u target.portable_path)
      || not (is_remote_id target.parent_id)
      || is_some_and target.object_id (λ id. not (is_remote_id id))
      || key_differs (normalized_collision_key u d target.portable_path)
          target.normalized_collision_key
      || ltb 4096 (length target.occupied_collision_keys)
      || any (λ key. not (is_lower_hex_64 key) || key == target.normalized_collision_key)
          target.occupied_collision_keys

  -- The exact identifiers, the path, the revisions, the state version and the guarded target.
  unfoldable pub check_identity :
      ClassificationEvidenceFacts → ConflictCase → Result Unit ConflictInputFailure
  unfolding is_bad_target
  check_identity facts case = do
    fail_if
        (is_none facts.account_id
          || is_none facts.remote_root_id
          || is_none facts.object_identity
          || is_none facts.target_parent_id)
        ConflictInputFailure.missing_exact_identity
    fail_if
        (is_some_and facts.account_id (λ id. not (is_remote_id id))
          || is_some_and facts.remote_root_id (λ id. not (is_remote_id id))
          || is_some_and facts.object_identity (λ id. not (is_remote_id id))
          || is_some_and facts.target_parent_id (λ id. not (is_remote_id id))
          || not (is_some_and facts.canonical_identity_path (is_exact_content_path u))
          || not (is_some_and facts.local_revision is_lower_hex_64)
          || not (is_some_and facts.remote_revision is_remote_id))
        ConflictInputFailure.invalid_exact_identity
    fail_if (facts.durable_state_version == 0) ConflictInputFailure.invalid_durable_state_version
    fail_if (is_some_and facts.guarded_metadata_target is_bad_target)
        ConflictInputFailure.invalid_exact_identity
    fail_if (case_requires_guarded_target case && is_none facts.guarded_metadata_target)
        ConflictInputFailure.missing_semantic_proof

  -- The checks of an approved boundary, in the order of the source.
  unfoldable pub validate_approved :
      ClassificationEvidence → ReplayAssessment → ConflictCase → Result Unit ConflictInputFailure
  validate_approved e replay case = do
    check_identity e.facts case
    validate_replay_proof e replay
    check_fingerprints e
    require_content e.facts (required_content case)
    fail_if (is_fresh replay && is_merge_case case && is_none e.verified_markdown_merge)
        ConflictInputFailure.missing_markdown_merge_proof
    validate_content_predicates e.facts replay case
    fail_if (lacks_semantic_proof e case) ConflictInputFailure.missing_semantic_proof

  unfoldable pub validate_classification_evidence :
      ClassificationEvidence
      → BoundaryAssessment
      → ReplayAssessment
      → ConflictCase
      → Result Unit ConflictInputFailure
  unfolding validate_approved
  validate_classification_evidence e BoundaryAssessment.approved replay case =
      validate_approved e replay case
  validate_classification_evidence e _ replay case = ok tt

  -- `ConflictInput::new`
  unfoldable pub new_input :
      ClassificationEvidence
      → BoundaryAssessment
      → ReplayAssessment
      → ConflictCase
      → Result ConflictInput ConflictInputFailure
  unfolding validate_classification_evidence
  new_input e boundary replay case = do
    validate_classification_evidence e boundary replay case
    ok (record { evidence = e; boundary = boundary; replay = replay; case = case })
