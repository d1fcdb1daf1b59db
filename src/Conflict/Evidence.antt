-- ===== src/Conflict/Evidence.antt =====
-- The sealing of evidence: `ClassificationEvidence::new` and its `verify_*` methods
-- (crates/myvault-sync-engine/src/conflict/classifier.rs). The fields that they set are private,
-- so that all evidence is made by them.
use my_vault.Base.{
  nat_eq, list_eq, option_eq, ℕ, Bool, true, false, not, ◌||◌, List, none, some, length, ◌==◌, ◌!=◌,
}
use my_vault.Base.Results.{Result, ok, err, fail_if, ◌>>◌}
use my_vault.Text.{Text, bytes, is_remote_id}
use my_vault.Text.Digest.{Digest}
use my_vault.Text.Unicode.{Unicode}
use my_vault.Markdown.{MarkdownMergeIssue, MarkdownMergeOutcome}
use my_vault.Markdown.Edits.{Diff}
use my_vault.Markdown.Merge.{merge_markdown_three_way}
use my_vault.Conflict.Facts.{
  ContentFingerprint, fingerprint_eq, ClassificationEvidence, ClassificationEvidenceFacts,
  VerifiedSemanticTarget,
}
use my_vault.Conflict.Paths.{is_exact_content_path}

pub data ClassificationProofFailure : Type 0 where
  evidence_mismatch : ClassificationProofFailure

unfoldable pub new_evidence : ClassificationEvidenceFacts → ClassificationEvidence
new_evidence facts = record {
  facts = facts;
  verified_markdown_merge = none;
  verified_deleted_final_state = false;
  verified_same_rename = none;
  verified_same_move = none;
}

-- The identity that a proof names is not that of the facts.
unfoldable pub is_other_identity : ClassificationEvidenceFacts → Text → Text → Text → ℕ → Bool
is_other_identity facts account_id remote_root_id object_identity durable_state_version =
    facts.account_id != some account_id
    || facts.remote_root_id != some remote_root_id
    || facts.object_identity != some object_identity
    || not (facts.durable_state_version == durable_state_version)

abbrev pub target_of : Text → Text → Text → ℕ → Text → VerifiedSemanticTarget
target_of account_id remote_root_id object_identity durable_state_version target = record {
  account_id = account_id;
  remote_root_id = remote_root_id;
  object_identity = object_identity;
  durable_state_version = durable_state_version;
  target = target;
}

unfoldable pub verify_deleted_final_state :
    ClassificationEvidence
    → Text
    → Text
    → Text
    → ℕ
    → Bool
    → Bool
    → Result ClassificationEvidence ClassificationProofFailure
unfolding is_other_identity
verify_deleted_final_state e account root object version local_deleted remote_deleted = do
  fail_if
      (is_other_identity e.facts account root object version
        || not local_deleted
        || not remote_deleted)
      evidence_mismatch
  ok (record e { verified_deleted_final_state = true })

unfoldable pub verify_same_rename :
    Unicode
    → ClassificationEvidence
    → Text
    → Text
    → Text
    → ℕ
    → Text
    → Text
    → Result ClassificationEvidence ClassificationProofFailure
unfolding is_other_identity
verify_same_rename u e account root object version local_intended_path remote_intended_path = do
  fail_if
      (is_other_identity e.facts account root object version
        || local_intended_path != remote_intended_path
        || not (is_exact_content_path u local_intended_path))
      evidence_mismatch
  ok (record e {
    verified_same_rename = some (target_of account root object version local_intended_path);
  })

unfoldable pub verify_same_move :
    ClassificationEvidence
    → Text
    → Text
    → Text
    → ℕ
    → Text
    → Text
    → Result ClassificationEvidence ClassificationProofFailure
unfolding is_other_identity
verify_same_move e account root object version local_parent_id remote_parent_id = do
  fail_if
      (is_other_identity e.facts account root object version
        || local_parent_id != remote_parent_id
        || not (is_remote_id local_parent_id))
      evidence_mismatch
  ok (record e {
    verified_same_move = some (target_of account root object version local_parent_id);
  })

module _ (d : Digest) (diff : Diff) where
  unfoldable pub fingerprint_bytes : List ℕ → ContentFingerprint
  fingerprint_bytes bs = record { sha256 = d.sha256_hex bs; byte_length = length bs }

  unfoldable pub attach_merge :
      ClassificationEvidence
      → MarkdownMergeOutcome
      → Result ClassificationEvidence MarkdownMergeIssue
  attach_merge e (MarkdownMergeOutcome.merged merged) = ok (record e {
    verified_markdown_merge =
        some (record { sha256 = merged.sha256; byte_length = merged.byte_length });
  })
  attach_merge e (MarkdownMergeOutcome.preserve_both issue) = err issue

  unfoldable pub verify_markdown_merge :
      ClassificationEvidence → Text → Text → Text → Result ClassificationEvidence MarkdownMergeIssue
  unfolding attach_merge
  verify_markdown_merge e base local remote = do
    fail_if
        (e.facts.base != some (fingerprint_bytes (bytes base))
          || e.facts.local != some (fingerprint_bytes (bytes local))
          || e.facts.remote != some (fingerprint_bytes (bytes remote)))
        MarkdownMergeIssue.evidence_fingerprint_mismatch
    attach_merge e (merge_markdown_three_way d diff base local remote)
