-- ===== src/Conflict/Tests.antt =====
-- Concrete runs of the classifier: a remote edit of an unchanged file, two non-overlapping
-- Markdown edits, two binary edits, and a deletion on both sides.
use my_vault.Base.{
  ℕ, Bool, ◌++◌, ◌∷◌, list_eq, ◌==◌, if◌then◌else◌, length, nat_eq, ◌≡◌, refl, true, false, [],
  Option, none, some, is_some,
}
use my_vault.Base.Results.{ok}
use my_vault.Text.{
  Text, codes, is_remote_id, starts_with, split, ends_with, is_control, join, is_lower_hex_64,
  bytes, cons_head, is_ascii_alphanumeric, is_ascii_digit, is_ascii_lowercase, is_ascii_uppercase,
  len,
}
use my_vault.Text.Digest.{Digest}
use my_vault.Text.Unicode.{Unicode}
use my_vault.Conflict.Cells.{CursorGate}
use my_vault.Conflict.Facts.{
  GuardedLocalCapability, DeletedFinalStateProof, ContentFingerprint, BoundaryAssessment,
  ReplayAssessment, ClassificationEvidence, ClassificationEvidenceFacts, ConflictCase,
  ConflictInput,
}
use my_vault.Conflict.Input.{
  new_input, check_identity, check_fingerprints, is_bad_content, is_bad_target,
  lacks_semantic_proof, validate_approved, validate_classification_evidence,
}
use my_vault.Conflict.Classify.{classify_conflict}
use my_vault.Conflict.Paths.{
  is_exact_content_path, exact_vault_path, key_bytes, normalized_collision_key,
}
use my_vault.Path.{from_portable, component_collision_key, is_portable_component}
use my_vault.Conflict.Validate.{
  case_requires_guarded_target, validate_replay_proof, require_content, required_content, is_fresh,
  content_valid, replay_operation_matches, replay_snapshot_matches, semantic_target_matches,
  validate_content_predicates,
}
use my_vault.Conflict.Evidence.{new_evidence, fingerprint_bytes, verify_markdown_merge}
use my_vault.Conflict.Published.{IsPublication, plan_of, publishes_local, publish_proved}
use my_vault.Conflict.Sealed.{Sealed, MergeOf, Sealed-merge_proved}
use my_vault.Markdown.Parse.{parse_markdown, render}
use my_vault.Markdown.Merge.{merge_markdown_three_way}
use my_vault.Markdown.Edits.{Diff, DiffOp, edits_from_myers, combine_edits}
use my_vault.Conflict.Gates.{IsGated, classify_conflict-IsGated, boundary_decides}
use my_vault.Conflict.Safety.{CanMerge, merge_proved, preserve_proved}

abbrev unicode : Unicode
unicode = record { nfkc = λ s. s; case_fold = λ s. s; to_uppercase = λ s. s }

abbrev hex_a : Text
hex_a = codes "aaaaaaaaaaaaaaaaaaaaaaaaaaaaaaaaaaaaaaaaaaaaaaaaaaaaaaaaaaaaaaaa"

abbrev hex_b : Text
hex_b = codes "bbbbbbbbbbbbbbbbbbbbbbbbbbbbbbbbbbbbbbbbbbbbbbbbbbbbbbbbbbbbbbbb"

abbrev hex_c : Text
hex_c = codes "cccccccccccccccccccccccccccccccccccccccccccccccccccccccccccccccc"

abbrev digest : Digest
digest = record { sha256_hex = λ bs. hex_c; uuid_text = λ n. [] }

abbrev content : Text → ContentFingerprint
content sha = record { sha256 = sha; byte_length = 12 }

abbrev facts :
    Option ContentFingerprint
    → Option ContentFingerprint
    → Option ContentFingerprint
    → ClassificationEvidenceFacts
facts base local remote = record {
  account_id = some (codes "account-1");
  remote_root_id = some (codes "root-1");
  object_identity = some (codes "file-1");
  canonical_identity_path = some (codes "notes/a.md");
  target_parent_id = some (codes "folder-1");
  base = base;
  local = local;
  remote = remote;
  local_revision = some hex_b;
  remote_revision = some (codes "rev-2");
  durable_state_version = 3;
  prior_operation_id = none;
  prior_outcome_fingerprint = none;
  prior_intent_fingerprint = none;
  prior_replay_disposition = none;
  guarded_metadata_target = none;
}

-- Local is the base, remote is not; both differ; and nothing is left.
abbrev remote_edit : ClassificationEvidence
remote_edit = record {
  facts = facts (some (content hex_a)) (some (content hex_a)) (some (content hex_b));
  verified_markdown_merge = none;
  verified_deleted_final_state = false;
  verified_same_rename = none;
  verified_same_move = none;
}

abbrev both_edits : ClassificationEvidence
both_edits = record remote_edit {
  facts = facts (some (content hex_a)) (some (content hex_c)) (some (content hex_b));
  verified_markdown_merge = some (content hex_c);
}

abbrev both_deletions : ClassificationEvidence
both_deletions = record remote_edit {
  facts = facts none none none;
  verified_deleted_final_state = true;
}

abbrev input : ClassificationEvidence → ConflictCase → ConflictInput
input e c = record {
  evidence = e;
  boundary = BoundaryAssessment.approved;
  replay = ReplayAssessment.fresh;
  case = c;
}

abbrev remote_edit_case : ConflictCase
remote_edit_case = ConflictCase.remote_content_changed GuardedLocalCapability.available

-- The four inputs are accepted.
inputs_accepted :
    (new_input digest unicode remote_edit BoundaryAssessment.approved ReplayAssessment.fresh
        remote_edit_case
      ≡ ok (input remote_edit remote_edit_case))
    × (new_input digest unicode both_edits BoundaryAssessment.approved ReplayAssessment.fresh
          ConflictCase.non_overlapping_markdown_changes
        ≡ ok (input both_edits ConflictCase.non_overlapping_markdown_changes))
    × (new_input digest unicode both_edits BoundaryAssessment.approved ReplayAssessment.fresh
          ConflictCase.both_binary_changed
        ≡ ok (input both_edits ConflictCase.both_binary_changed))
    × (new_input digest unicode both_deletions BoundaryAssessment.approved ReplayAssessment.fresh
          (ConflictCase.both_deleted DeletedFinalStateProof.verified)
        ≡ ok (input both_deletions (ConflictCase.both_deleted DeletedFinalStateProof.verified)))
unfolding new_input check_identity check_fingerprints is_bad_content is_bad_target
    lacks_semantic_proof validate_approved validate_classification_evidence is_remote_id starts_with
    split ends_with is_control join is_lower_hex_64 bytes cons_head is_ascii_alphanumeric
    is_ascii_digit is_ascii_lowercase is_ascii_uppercase len is_exact_content_path exact_vault_path
    key_bytes normalized_collision_key from_portable component_collision_key is_portable_component
    case_requires_guarded_target validate_replay_proof require_content required_content is_fresh
    content_valid replay_operation_matches replay_snapshot_matches semantic_target_matches
    validate_content_predicates
inputs_accepted = (refl, refl, refl, refl)

publish_proved_example :
    IsPublication remote_edit.facts remote_edit_case (plan_of (input remote_edit remote_edit_case))
unfolding classify_conflict
publish_proved_example =
    publish_proved digest unicode remote_edit BoundaryAssessment.approved remote_edit_case
      (input remote_edit remote_edit_case) inputs_accepted.0 refl

merge_proved_example : CanMerge both_edits
unfolding classify_conflict
merge_proved_example =
    merge_proved digest unicode both_edits BoundaryAssessment.approved
      ConflictCase.non_overlapping_markdown_changes
      (input both_edits ConflictCase.non_overlapping_markdown_changes) inputs_accepted.1 refl

preserve_proved_example :
    (is_some both_edits.facts.local ≡ true) × (is_some both_edits.facts.remote ≡ true)
unfolding classify_conflict
preserve_proved_example =
    preserve_proved digest unicode both_edits BoundaryAssessment.approved
      ConflictCase.both_binary_changed (input both_edits ConflictCase.both_binary_changed)
      inputs_accepted.2 refl

classify_conflict-IsGated_example :
    IsGated (classify_conflict (input both_edits ConflictCase.overlapping_text_changes)).0
classify_conflict-IsGated_example =
    classify_conflict-IsGated (input both_edits ConflictCase.overlapping_text_changes)

-- The same boundary over different facts.
abbrev refused : ClassificationEvidence → ConflictCase → ConflictInput
refused e c = record (input e c) { boundary = BoundaryAssessment.protected_path }

boundary_decides_example :
    let p = (classify_conflict (refused remote_edit remote_edit_case)).0 in
    (p.drafts ≡ [])
    × (p.cursor_gate ≡ CursorGate.needs_reconcile)
    × ((classify_conflict (refused both_edits ConflictCase.both_binary_changed)).0 ≡ p)
boundary_decides_example =
    boundary_decides (refused remote_edit remote_edit_case)
      (refused both_edits ConflictCase.both_binary_changed) (λ e. cc) refl

-- The same edit on both sides, merged. The digest of these runs tells the two texts apart, and the
-- diff replaces everything when they differ.
abbrev base_text : Text
base_text = codes "a" ++ (0x0A ∷ [])

abbrev edited_text : Text
edited_text = codes "b" ++ (0x0A ∷ [])

abbrev telling : Digest
telling = record {
  sha256_hex = λ bs. if bs == base_text then hex_a else hex_b;
  uuid_text = λ n. [];
}

abbrev op : Bool → ℕ → ℕ → DiffOp
op same old new = record {
  is_equal = same;
  old_start = 0;
  old_end = old;
  new_start = 0;
  new_end = new;
}

abbrev diff : Diff
diff xs ys = op (xs == ys) (length xs) (length ys) ∷ []

abbrev print : Text → Option ContentFingerprint
print sha = some (record { sha256 = sha; byte_length = 2 })

abbrev unsealed : ClassificationEvidence
unsealed = record remote_edit { facts = facts (print hex_a) (print hex_b) (print hex_b) }

abbrev sealed : ClassificationEvidence
sealed = record unsealed { verified_markdown_merge = print hex_b }

merge_attached :
    verify_markdown_merge telling diff unsealed base_text edited_text edited_text ≡ ok sealed
unfolding verify_markdown_merge fingerprint_bytes bytes merge_markdown_three_way len parse_markdown
    starts_with ends_with split edits_from_myers combine_edits render join
merge_attached = refl

sealed_accepted :
    new_input telling unicode sealed BoundaryAssessment.approved ReplayAssessment.fresh
      ConflictCase.non_overlapping_markdown_changes
    ≡ ok (input sealed ConflictCase.non_overlapping_markdown_changes)
unfolding new_input check_identity check_fingerprints is_bad_content is_bad_target
    lacks_semantic_proof validate_approved validate_classification_evidence is_remote_id starts_with
    split ends_with is_control join is_lower_hex_64 bytes cons_head is_ascii_alphanumeric
    is_ascii_digit is_ascii_lowercase is_ascii_uppercase len is_exact_content_path exact_vault_path
    key_bytes normalized_collision_key from_portable component_collision_key is_portable_component
    case_requires_guarded_target validate_replay_proof require_content required_content is_fresh
    content_valid replay_operation_matches replay_snapshot_matches semantic_target_matches
    validate_content_predicates
sealed_accepted = refl

unsealed-Sealed : Sealed telling unicode diff unsealed
unfolding new_evidence
unsealed-Sealed = Sealed.fresh unsealed.facts

Sealed-merge_proved_example : MergeOf telling unicode diff sealed
unfolding classify_conflict
Sealed-merge_proved_example =
    Sealed-merge_proved telling unicode diff sealed BoundaryAssessment.approved
      ConflictCase.non_overlapping_markdown_changes
      (input sealed ConflictCase.non_overlapping_markdown_changes)
      (Sealed.merged unsealed sealed base_text edited_text edited_text unsealed-Sealed
        merge_attached)
      sealed_accepted refl

abbrev deletions_unsealed : ClassificationEvidence
deletions_unsealed = record both_deletions { verified_deleted_final_state = false }

-- Local content that is not the base: the plan of a renamed note drafts the publication over it.
abbrev renamed_edit : ClassificationEvidence
renamed_edit = record both_edits { verified_markdown_merge = none }

changed_local_published :
    (new_input digest unicode renamed_edit BoundaryAssessment.approved ReplayAssessment.fresh
        ConflictCase.local_rename_remote_edited
      ≡ ok (input renamed_edit ConflictCase.local_rename_remote_edited))
    × (publishes_local (plan_of (input renamed_edit ConflictCase.local_rename_remote_edited))
        ≡ true)
unfolding new_input check_identity check_fingerprints is_bad_content is_bad_target
    lacks_semantic_proof validate_approved validate_classification_evidence is_remote_id starts_with
    split ends_with is_control join is_lower_hex_64 bytes cons_head is_ascii_alphanumeric
    is_ascii_digit is_ascii_lowercase is_ascii_uppercase len is_exact_content_path exact_vault_path
    key_bytes normalized_collision_key from_portable component_collision_key is_portable_component
    case_requires_guarded_target validate_replay_proof require_content required_content is_fresh
    content_valid replay_operation_matches replay_snapshot_matches semantic_target_matches
    validate_content_predicates classify_conflict
changed_local_published = (refl, refl)
