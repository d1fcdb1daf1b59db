-- ===== src/Store/Mutations/Tests.antt =====
-- A local publication that is registered, claimed and proved to be applied.
use my_vault.Base.{
  ◌≡◌, ◌≢◌, refl, subst, ◌++◌, true, false, List, [], ◌∷◌, none, some, find, nat_eq, ◌==◌, arith,
}
use my_vault.Base.Results.{ok}
use my_vault.Text.{Text, codes}
use my_vault.Text.Digest.{Digest}
use my_vault.Text.Unicode.{Unicode}
use my_vault.Mutation.{
  capture_eq, MutationOperationKind, MutationPhase, MutationDisposition,
  MutationEvidenceCapturePhase, MutationIntent, MutationState, MutationVerificationEvidence,
}
use my_vault.Store.Mutations.Machine.{MutationStore, MutationEvent, MutationOutcomeTransition}
use my_vault.Store.Mutations.Transitions.{claim_mutation, record_mutation_outcome}
use my_vault.Store.Mutations.Operations.{MutationOp, perform_all}
use my_vault.Store.Mutations.Log.{IsLogged, perform_all-IsLogged}
use my_vault.Store.Mutations.Steps.{of_operation}
use my_vault.Store.Mutations.Races.{IsProof, applied_is_proved}
use my_vault.Store.Mutations.Once.{claim_mutation_once}

abbrev unicode : Unicode
unicode = record { nfkc = λ s. s; case_fold = λ s. s; to_uppercase = λ s. s }

abbrev hex : Text
hex = codes "bbbbbbbbbbbbbbbbbbbbbbbbbbbbbbbbbbbbbbbbbbbbbbbbbbbbbbbbbbbbbbbb"

abbrev digest : Digest
digest = record { sha256_hex = λ s. hex; uuid_text = λ n. [] }

abbrev intent : MutationIntent
intent = record {
  operation_id = 9;
  operation_kind = MutationOperationKind.local_publish;
  account_id = none;
  remote_root_id = none;
  remote_file_id = none;
  source_parent_id = none;
  destination_parent_id = none;
  local_object_id = none;
  source_path = none;
  destination_path = none;
  expected_local_revision = some (codes "local-1");
  expected_remote_revision = none;
  base_reference = none;
  base_local_revision = none;
  base_remote_revision = none;
  base_sha256 = none;
  base_byte_length = none;
  expected_local_sha256 = none;
  expected_local_byte_length = none;
  expected_remote_sha256 = none;
  expected_remote_byte_length = none;
  operation_marker = codes "marker-9";
  intent_fingerprint = hex;
  registered_at_unix_ms = 10;
}

abbrev evidence : MutationVerificationEvidence
evidence = record {
  evidence_id = 5;
  operation_id = 9;
  attempt_number = 0;
  capture_phase = MutationEvidenceCapturePhase.post_verify;
  disposition = MutationDisposition.verified_applied;
  outcome_code = some (codes "published");
  observed_account_id = none;
  observed_remote_root_id = none;
  observed_remote_file_id = none;
  observed_parent_id = none;
  observed_path = none;
  observed_local_revision = some (codes "local-1");
  observed_remote_revision = none;
  observed_sha256 = none;
  observed_byte_length = none;
  observed_operation_marker = some (codes "marker-9");
  forbidden_side_effect = false;
  verified_received_byte_offset = none;
  resume_reference = none;
  evidence_fingerprint = hex;
  captured_at_unix_ms = 30;
}

abbrev empty : MutationStore
empty = record { intents = []; states = []; events = []; evidence = [] }

empty-IsLogged : IsLogged [] []
empty-IsLogged = record {
  ids = λ id. omega arith;
  log = λ id v. refl;
  told = refl;
  no_retry = refl;
}

abbrev calls : List MutationOp
calls =
    MutationOp.register intent none
    ∷ MutationOp.claim 9 0 20
    ∷ MutationOp.claim 9 0 21
    ∷ MutationOp.record_outcome 9 1 evidence MutationOutcomeTransition.verified_applied
    ∷ []

perform_all-IsLogged_example :
    IsLogged
      (perform_all unicode digest calls empty).states
      (perform_all unicode digest calls empty).events
perform_all-IsLogged_example = perform_all-IsLogged unicode digest calls empty empty-IsLogged

abbrev first_state : MutationState
first_state = record {
  operation_id = 9;
  phase = MutationPhase.intent_durable;
  attempt_number = 0;
  state_version = 0;
  disposition = none;
  next_attempt_at_unix_ms = none;
  retry_mode = none;
  resume_reference = none;
  last_evidence_id = none;
  outcome_code = none;
  updated_at_unix_ms = 10;
}

abbrev running_state : MutationState
running_state = record first_state {
  phase = MutationPhase.running;
  state_version = 1;
  updated_at_unix_ms = 20;
}

abbrev done_state : MutationState
done_state = record running_state {
  phase = MutationPhase.completed;
  state_version = 2;
  disposition = some MutationDisposition.verified_applied;
  last_evidence_id = some 5;
  outcome_code = some (codes "published");
  updated_at_unix_ms = 30;
}

abbrev registered : MutationStore
registered = record {
  intents = intent ∷ [];
  states = first_state ∷ [];
  events =
      record {
        operation_id = 9;
        attempt_number = 0;
        state_version = 0;
        phase = MutationPhase.intent_durable;
        disposition = none;
        evidence_id = none;
        outcome_code = none;
        occurred_at_unix_ms = 10;
      }
      ∷ [];
  evidence = [];
}

abbrev running_event : MutationEvent
running_event = record {
  operation_id = 9;
  attempt_number = 0;
  state_version = 1;
  phase = MutationPhase.running;
  disposition = none;
  evidence_id = none;
  outcome_code = none;
  occurred_at_unix_ms = 20;
}

abbrev claimed : MutationStore
claimed = record registered {
  states = running_state ∷ [];
  events = registered.events ++ running_event ∷ [];
}

abbrev done_event : MutationEvent
done_event = record running_event {
  state_version = 2;
  phase = MutationPhase.completed;
  disposition = some MutationDisposition.verified_applied;
  evidence_id = some 5;
  outcome_code = some (codes "published");
  occurred_at_unix_ms = 30;
}

abbrev done : MutationStore
done = record claimed {
  states = done_state ∷ [];
  events = claimed.events ++ done_event ∷ [];
  evidence = evidence ∷ [];
}

registration : perform_all unicode digest (MutationOp.register intent none ∷ []) empty ≡ registered
unfolding perform_all my_vault.Store.Validators.validate_redacted_code my_vault.Text.len
    my_vault.Text.is_ascii_alphanumeric my_vault.Store.Validators.validate_revision
    my_vault.Text.is_lower_hex_64 my_vault.Mutation.Fingerprint.intent_fingerprint
    my_vault.Store.Validators.check_some my_vault.Store.Validators.validate_remote_id
    my_vault.Store.Validators.u64_to_i64
registration = refl

registered-IsLogged : IsLogged registered.states registered.events
registered-IsLogged =
    subst (λ (s : MutationStore). IsLogged s.states s.events) registration
      (perform_all-IsLogged unicode digest (MutationOp.register intent none ∷ []) empty
        empty-IsLogged)

abbrev outcome : List MutationOp
outcome = MutationOp.record_outcome 9 1 evidence MutationOutcomeTransition.verified_applied ∷ []

claim_mutation_once_example :
    ((r : MutationState) × (find (of_operation 9) registered.states ≡ some r)
      × (r.state_version ≡ 0))
    × (claim_mutation 9 2 40 (perform_all unicode digest outcome claimed)
        ≢ ok (running_state, claimed))
unfolding claim_mutation my_vault.Store.Validators.u64_to_i64 my_vault.Store.Validators.check_some
claim_mutation_once_example =
    claim_mutation_once unicode digest 9 0 20 2 40 outcome registered running_state running_state
      claimed claimed registered-IsLogged refl

applied_is_proved_example :
    (i : MutationIntent) × (find (λ x. x.operation_id == 9) claimed.intents ≡ some i)
    × IsProof i evidence
    × ((evidence.capture_phase == MutationEvidenceCapturePhase.post_verify) ≡ true)
    × (evidence.forbidden_side_effect ≡ false)
unfolding record_mutation_outcome my_vault.Store.Validators.u64_to_i64
    my_vault.Store.Validators.validate_revision my_vault.Text.is_lower_hex_64
    my_vault.Mutation.Fingerprint.evidence_fingerprint my_vault.Store.Validators.check_some
    my_vault.Store.Validators.validate_redacted_code my_vault.Text.is_ascii_alphanumeric
    my_vault.Store.Validators.validate_remote_id
applied_is_proved_example =
    applied_is_proved unicode digest 9 1 evidence claimed done_state done refl
