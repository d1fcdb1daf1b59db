-- ===== src/Conflict/Replay.antt =====
-- Sealing of prior outcomes as replay evidence: `ReplayProof::from_r3_1`,
-- `ReplayProof::from_queued_base_change`
-- (crates/myvault-sync-engine/src/conflict/classifier.rs).
use my_vault.Base.{
  nat_eq, list_eq, option_eq, ℕ, Bool, not, ◌&&◌, ◌||◌, Option, none, some, if◌then◌else◌, ◌==◌,
  ◌!=◌, leb, is_none_or, or_else,
}
use mathlib.Core.Option
use my_vault.Base.Results.{Result, ok, err, fail_if, ◌>>=◌, ◌>>◌}
use my_vault.Text.{Text, is_lower_hex_64}
use my_vault.Text.Digest.{Digest}
use my_vault.Mutation.{
  MutationIntent, MutationState, MutationVerificationEvidence, MutationDisposition, MutationPhase,
  MutationEvidenceCapturePhase, phase_eq, disposition_eq, capture_eq,
}
use my_vault.Mutation.Fingerprint.{intent_fingerprint, evidence_fingerprint}
use my_vault.Conflict.Facts.{
  ContentFingerprint, ReplayDisposition, ReplayProof, ClassificationEvidenceFacts,
}

pub data ReplayProofFailure : Type 0 where
  invalid_intent inconsistent_durable_outcome unsupported_disposition base_did_not_change :
      ReplayProofFailure

unfoldable pub intent_content_fingerprint :
    Option Text → Option ℕ → Result (Option ContentFingerprint) ReplayProofFailure
intent_content_fingerprint none none = ok none
intent_content_fingerprint (some sha256) (some byte_length) =
    if is_lower_hex_64 sha256
    then ok (some (record { sha256 = sha256; byte_length = byte_length }))
    else err invalid_intent
intent_content_fingerprint _ _ = err invalid_intent

-- `expected.is_none_or(|value| observed == Some(value))`
abbrev observed : Option Text → Option Text → Bool
observed expected seen = is_none_or expected (λ value. seen == some value)

unfoldable pub post_state_matches_intent : MutationIntent → MutationVerificationEvidence → Bool
post_state_matches_intent intent e =
    e.observed_operation_marker == some intent.operation_marker
    && observed intent.account_id e.observed_account_id
    && observed intent.remote_root_id e.observed_remote_root_id
    && observed intent.remote_file_id e.observed_remote_file_id
    && observed intent.destination_parent_id e.observed_parent_id
    && observed intent.destination_path e.observed_path
    && observed intent.expected_local_revision e.observed_local_revision
    && observed intent.expected_remote_revision e.observed_remote_revision
    && observed intent.expected_local_sha256 e.observed_sha256
    && is_none_or intent.expected_local_byte_length (λ value. e.observed_byte_length == some value)

-- The proof that both constructors build, from the intent and what differs between them.
abbrev seal :
    MutationIntent
    → ℕ
    → Text
    → ReplayDisposition
    → Option ContentFingerprint
    → Option ContentFingerprint
    → ReplayProof
seal intent version outcome disposition expected_local expected_remote = record {
  operation_id = intent.operation_id;
  state_version = version;
  outcome_fingerprint = outcome;
  disposition = disposition;
  operation_kind = intent.operation_kind;
  intent_fingerprint = intent.intent_fingerprint;
  account_id = intent.account_id;
  remote_root_id = intent.remote_root_id;
  object_identity = or_else intent.remote_file_id intent.local_object_id;
  identity_path = or_else intent.source_path intent.destination_path;
  target_parent_id = or_else intent.destination_parent_id intent.source_parent_id;
  base_sha256 = intent.base_sha256;
  base_byte_length = intent.base_byte_length;
  expected_local_content = expected_local;
  expected_remote_content = expected_remote;
  local_revision = intent.expected_local_revision;
  remote_revision = intent.expected_remote_revision;
}

-- `match evidence.disposition`, with its guards
replay_disposition :
    MutationDisposition
    → MutationIntent
    → MutationState
    → MutationVerificationEvidence
    → Result ReplayDisposition ReplayProofFailure
unfolding post_state_matches_intent
replay_disposition MutationDisposition.verified_applied intent state e =
    if state.phase == MutationPhase.completed
      && e.capture_phase == MutationEvidenceCapturePhase.post_verify
      && post_state_matches_intent intent e
    then ok ReplayDisposition.verified_applied_exact_post_state
    else err unsupported_disposition
replay_disposition MutationDisposition.verified_not_applied intent state e =
    if state.phase == MutationPhase.needs_reconcile
      && (e.capture_phase == MutationEvidenceCapturePhase.post_verify
          || e.capture_phase == MutationEvidenceCapturePhase.reconcile)
    then ok ReplayDisposition.verified_not_applied
    else err unsupported_disposition
replay_disposition MutationDisposition.needs_reconcile intent state e =
    if state.phase == MutationPhase.needs_reconcile
      && e.capture_phase == MutationEvidenceCapturePhase.reconcile
    then ok ReplayDisposition.side_effect_outcome_unknown
    else err unsupported_disposition
replay_disposition MutationDisposition.retry_safe intent state e = err unsupported_disposition

module _ (d : Digest) where
  unfoldable pub from_r3_1 :
      MutationIntent
      → MutationState
      → MutationVerificationEvidence
      → Result ReplayProof ReplayProofFailure
  unfolding replay_disposition intent_content_fingerprint
  from_r3_1 intent state e = do
    fail_if
        (intent.operation_id != state.operation_id
          || intent.operation_id != e.operation_id
          || intent.intent_fingerprint != intent_fingerprint d intent)
        invalid_intent
    expected_local ←
        intent_content_fingerprint intent.expected_local_sha256 intent.expected_local_byte_length
    expected_remote ←
        intent_content_fingerprint intent.expected_remote_sha256 intent.expected_remote_byte_length
    fail_if
        (e.evidence_fingerprint != evidence_fingerprint d e
          || state.state_version == 0
          || state.last_evidence_id != some e.evidence_id
          || state.disposition != some e.disposition
          || state.outcome_code != e.outcome_code)
        inconsistent_durable_outcome
    disposition ← replay_disposition e.disposition intent state e
    ok (
        seal intent state.state_version e.evidence_fingerprint disposition expected_local
          expected_remote)

  unfoldable pub from_queued_base_change :
      MutationIntent → ℕ → ClassificationEvidenceFacts → Result ReplayProof ReplayProofFailure
  unfolding intent_content_fingerprint
  from_queued_base_change intent captured_state_version current = do
    fail_if (intent.intent_fingerprint != intent_fingerprint d intent) invalid_intent
    expected_local ←
        intent_content_fingerprint intent.expected_local_sha256 intent.expected_local_byte_length
    expected_remote ←
        intent_content_fingerprint intent.expected_remote_sha256 intent.expected_remote_byte_length
    fail_if
        (captured_state_version == 0 || leb current.durable_state_version captured_state_version)
        base_did_not_change
    fail_if
        (not (
          intent.base_sha256 != Option.map (λ (c : ContentFingerprint). c.sha256) current.base
          || intent.expected_local_revision != current.local_revision
          || intent.expected_remote_revision != current.remote_revision))
        base_did_not_change
    ok (
        seal intent captured_state_version intent.intent_fingerprint
          ReplayDisposition.queued_intent_captured_base_changed expected_local expected_remote)
