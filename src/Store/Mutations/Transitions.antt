-- ===== src/Store/Mutations/Transitions.antt =====
-- Claims and outcomes of mutations, with their transitions
-- (crates/myvault-sync-engine/src/store.rs).
use my_vault.Base.{
  nat_eq, list_eq, option_eq, ℕ, ◌+◌, ◌%◌, ◌^◌, Bool, not, ◌&&◌, ◌||◌, Option, none, some, ltb,
  ◌==◌, ◌!=◌, if◌then◌else◌, is_some, is_some_and, find,
}
use my_vault.Base.Results.{Result, ok, err, fail_if, ◌>>◌, ◌>>=◌}
use my_vault.Text.Digest.{Digest}
use my_vault.Text.Unicode.{Unicode}
use my_vault.Mutation.{
  kind_eq, phase_eq, disposition_eq, capture_eq, MutationPhase, MutationDisposition,
  MutationEvidenceCapturePhase, MutationState, MutationVerificationEvidence,
}
use my_vault.Store.Validators.{Error, u64_to_i64}
use my_vault.Store.Mutations.Evidence.{is_blocked, validate_mutation_evidence, validate_applied_for}
use my_vault.Store.Mutations.Machine.{
  MutationStore, MutationOutcomeTransition, require_mutation, found_mutation, insert_mutation_event,
  insert_mutation_evidence, update_mutation_state, event_of,
}

unfoldable pub is_ready : MutationPhase → Bool
is_ready phase = phase == MutationPhase.intent_durable || phase == MutationPhase.retry_scheduled

-- A claim of a retry counts an attempt, as a `u32`.
unfoldable pub claimed_state : ℕ → MutationState → MutationState
claimed_state now r = record {
  operation_id = r.operation_id;
  phase = MutationPhase.running;
  attempt_number =
      if r.phase == MutationPhase.retry_scheduled
      then (r.attempt_number + 1) % 2 ^ 32
      else r.attempt_number;
  state_version = r.state_version + 1;
  disposition = none;
  next_attempt_at_unix_ms = none;
  retry_mode = none;
  resume_reference = none;
  last_evidence_id = r.last_evidence_id;
  outcome_code = none;
  updated_at_unix_ms = now;
}

-- The state is written and its event with it.
unfoldable pub write_state :
    MutationState → ℕ → Option ℕ → MutationStore → Result (MutationState × MutationStore) Error
unfolding update_mutation_state insert_mutation_event event_of
write_state next expected evidence s = do
  s₁ ← update_mutation_state next expected s
  s₂ ← insert_mutation_event (event_of next evidence) s₁
  ok (next, s₂)

unfoldable pub claim_state :
    ℕ → ℕ → MutationStore → MutationState → Result (MutationState × MutationStore) Error
unfolding is_ready claimed_state write_state
claim_state expected now s r = do
  fail_if (r.state_version != expected) Error.mutation_state_version_mismatch
  fail_if (not (is_ready r.phase) || is_some_and r.next_attempt_at_unix_ms (λ due. ltb now due))
      Error.invalid_state_transition
  write_state (claimed_state now r) r.state_version none s

unfoldable pub claim_mutation :
    ℕ → ℕ → ℕ → MutationStore → Result (MutationState × MutationStore) Error
unfolding found_mutation require_mutation claim_state
claim_mutation id expected now s = do
  u64_to_i64 now
  i ← found_mutation Error.mutation_not_found (find (λ x. x.operation_id == id) s.intents)
  fail_if (is_blocked i) Error.mutation_needs_reconcile
  r ← require_mutation Error.mutation_not_found s id
  claim_state expected now s r

unfoldable pub is_open : MutationPhase → Bool
is_open phase = phase == MutationPhase.running || phase == MutationPhase.needs_reconcile

-- The phase and disposition that a transition leads to; the other fields of its target are none.
unfoldable pub transition_target :
    MutationPhase
    → MutationVerificationEvidence
    → MutationOutcomeTransition
    → Result (MutationPhase × MutationDisposition) Error
unfolding is_open
transition_target current e MutationOutcomeTransition.verified_applied =
    if is_open current
      && e.disposition == MutationDisposition.verified_applied
      && e.capture_phase == MutationEvidenceCapturePhase.post_verify
      && not e.forbidden_side_effect
    then ok (MutationPhase.completed, MutationDisposition.verified_applied)
    else err Error.invalid_state_transition
transition_target current e MutationOutcomeTransition.needs_reconcile =
    if current == MutationPhase.running
      && e.disposition == MutationDisposition.needs_reconcile
      && is_some e.outcome_code
    then ok (MutationPhase.needs_reconcile, MutationDisposition.needs_reconcile)
    else err Error.invalid_state_transition
transition_target current e (MutationOutcomeTransition.verified_not_applied next) =
    err Error.invalid_state_transition
transition_target current e (MutationOutcomeTransition.retry_safe next reference) =
    err Error.invalid_state_transition

unfoldable pub validate_verified_applied_evidence :
    MutationVerificationEvidence → MutationStore → Result Unit Error
unfolding found_mutation validate_applied_for
validate_verified_applied_evidence e s = do
  fail_if (e.capture_phase != MutationEvidenceCapturePhase.post_verify || e.forbidden_side_effect)
      Error.invalid_transfer_evidence
  i ←
      found_mutation Error.mutation_not_found
        (find (λ x. x.operation_id == e.operation_id) s.intents)
  validate_applied_for i e

unfoldable pub check_transition :
    MutationOutcomeTransition → MutationVerificationEvidence → MutationStore → Result Unit Error
unfolding validate_verified_applied_evidence
check_transition MutationOutcomeTransition.verified_applied e s =
    validate_verified_applied_evidence e s
check_transition _ e s = ok tt

unfoldable pub recorded_state :
    MutationPhase
    → MutationDisposition
    → MutationVerificationEvidence
    → MutationState
    → MutationState
recorded_state phase disposition e r = record {
  operation_id = r.operation_id;
  phase = phase;
  attempt_number = r.attempt_number;
  state_version = r.state_version + 1;
  disposition = some disposition;
  next_attempt_at_unix_ms = none;
  retry_mode = none;
  resume_reference = none;
  last_evidence_id = some e.evidence_id;
  outcome_code = e.outcome_code;
  updated_at_unix_ms = e.captured_at_unix_ms;
}

unfoldable pub record_over :
    ℕ
    → MutationVerificationEvidence
    → MutationOutcomeTransition
    → MutationStore
    → MutationState
    → Result (MutationState × MutationStore) Error
unfolding is_open check_transition transition_target insert_mutation_evidence recorded_state
    write_state
record_over expected e transition s r = do
  fail_if (r.state_version != expected) Error.mutation_state_version_mismatch
  fail_if (e.attempt_number != r.attempt_number || not (is_open r.phase))
      Error.invalid_state_transition
  check_transition transition e s
  target ← transition_target r.phase e transition
  s₁ ← insert_mutation_evidence e s
  write_state (recorded_state target.0 target.1 e r) r.state_version (some e.evidence_id) s₁

module _ (u : Unicode) (d : Digest) where
  unfoldable pub record_mutation_outcome :
      ℕ
      → ℕ
      → MutationVerificationEvidence
      → MutationOutcomeTransition
      → MutationStore
      → Result (MutationState × MutationStore) Error
  unfolding validate_mutation_evidence require_mutation record_over
  record_mutation_outcome id expected e transition s = do
    validate_mutation_evidence u d e
    fail_if (e.operation_id != id) Error.mutation_collision
    r ← require_mutation Error.mutation_not_found s id
    record_over expected e transition s r
