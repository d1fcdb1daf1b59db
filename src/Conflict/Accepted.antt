-- ===== src/Conflict/Accepted.antt =====
-- What an accepted classifier input has passed.
use my_vault.Base.{◌≡◌, false, ◌&&◌, is_none, arith}
use my_vault.Base.Results.{ok, >>-ok, fail_if, fail_if-ok}
use my_vault.Text.Digest.{Digest}
use my_vault.Text.Unicode.{Unicode}
use my_vault.Conflict.Facts.{
  BoundaryAssessment, ReplayAssessment, ClassificationEvidence, ConflictInputFailure, ConflictCase,
  ConflictInput,
}
use my_vault.Conflict.Validate.{
  required_content, require_content, is_fresh, validate_content_predicates, validate_replay_proof,
}
use my_vault.Conflict.Input.{
  is_merge_case, lacks_semantic_proof, check_identity, check_fingerprints, validate_approved,
  new_input,
}

-- The checks of the content and of the proofs.
pub record Checked (e : ClassificationEvidence) (replay : ReplayAssessment) (case : ConflictCase)
    : Type 0 where
  pub replayed : validate_replay_proof e replay ≡ ok tt
  pub content : require_content e.facts (required_content case) ≡ ok tt
  pub merge : (is_fresh replay && is_merge_case case && is_none e.verified_markdown_merge) ≡ false
  pub predicates : validate_content_predicates e.facts replay case ≡ ok tt
  pub semantic : lacks_semantic_proof e case ≡ false

module _ (d : Digest) (u : Unicode) where
  approved-Checked :
      (e : ClassificationEvidence) (replay : ReplayAssessment) (case : ConflictCase)
      → validate_approved d u e replay case ≡ ok tt
      → Checked e replay case
  unfolding validate_approved
  approved-Checked e replay case h =
      let h1 = (>>-ok (check_identity d u e.facts case) _ h).1 in
      let (replayed, h2) = >>-ok (validate_replay_proof e replay) _ h1 in
      let h3 = (>>-ok (check_fingerprints e) _ h2).1 in
      let (content, h4) = >>-ok (require_content e.facts (required_content case)) _ h3 in
      let (merge, h5) =
        >>-ok
          (fail_if (is_fresh replay && is_merge_case case && is_none e.verified_markdown_merge)
            ConflictInputFailure.missing_markdown_merge_proof)
          _ h4 in
      let (predicates, semantic) = >>-ok (validate_content_predicates e.facts replay case) _ h5 in
      record {
        replayed = replayed;
        content = content;
        merge = fail_if-ok _ ConflictInputFailure.missing_markdown_merge_proof merge;
        predicates = predicates;
        semantic = fail_if-ok _ ConflictInputFailure.missing_semantic_proof semantic;
      }

  -- An accepted input holds what it was built from, and an approved one has passed the checks.
  pub new_input-Checked :
      (e : ClassificationEvidence) (b : BoundaryAssessment) (replay : ReplayAssessment)
      (case : ConflictCase) (input : ConflictInput)
      → new_input d u e b replay case ≡ ok input
      → (input ≡ record { evidence = e; boundary = b; replay = replay; case = case })
        × (b ≡ BoundaryAssessment.approved → Checked e replay case)
  unfolding new_input
  new_input-Checked e BoundaryAssessment.approved replay case input h =
      let (passed, same) = >>-ok (validate_approved d u e replay case) _ h in
      (ground arith, λ _. approved-Checked e replay case passed)
  new_input-Checked e BoundaryAssessment.protected_path replay case input h =
      (ground arith, λ a. cc)
  new_input-Checked e _ replay case input h = (ground arith, λ a. cc)
