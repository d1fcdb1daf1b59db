-- ===== src/Store/Mutations/Machine.antt =====
-- The state machine of mutations: registration, claims and outcomes
-- (crates/myvault-sync-engine/src/store.rs).
use my_vault.Base.{
  nat_eq, list_eq, option_eq, ℕ, not, ◌&&◌, ◌||◌, List, [], ◌∷◌, ◌++◌, Option, none, some, ltb,
  ◌==◌, ◌!=◌, if◌then◌else◌, is_some_and, any, find,
}
use my_vault.Base.Results.{Result, ok, err, fail_if, ◌>>◌, ◌>>=◌}
use my_vault.Text.{Text}
use my_vault.Text.Digest.{Digest}
use my_vault.Text.Unicode.{Unicode}
use my_vault.Mutation.{
  kind_eq, phase_eq, disposition_eq, capture_eq, MutationPhase, MutationDisposition, MutationIntent,
  MutationState, MutationVerificationEvidence,
}
use my_vault.Store.Table.{update_one}
use my_vault.Store.Validators.{Error, validate_redacted_code, u64_to_i64, check_some, u32_max}
use my_vault.Store.Mutations.Evidence.{
  is_blocked, validate_mutation_intent, validate_mutation_evidence, shows_blocked,
}

-- `event_id` is the place of the event in the list.
pub record MutationEvent : Type 0 where
  pub operation_id : ℕ
  pub attempt_number : ℕ
  pub state_version : ℕ
  pub phase : MutationPhase
  pub disposition : Option MutationDisposition
  pub evidence_id : Option ℕ
  pub outcome_code : Option Text
  pub occurred_at_unix_ms : ℕ

-- The tables of mutations.
pub record MutationStore : Type 0 where
  pub intents : List MutationIntent
  pub states : List MutationState
  pub events : List MutationEvent
  pub evidence : List MutationVerificationEvidence

pub data MutationRegistrationOutcome : Type 0 where
  registered already_present already_completed : MutationRegistrationOutcome

pub data MutationOutcomeTransition : Type 0 where
  verified_applied : MutationOutcomeTransition
  verified_not_applied : (next_attempt_at_unix_ms : ℕ) → MutationOutcomeTransition
  retry_safe : (next_attempt_at_unix_ms : ℕ) → (resume_reference : Text) → MutationOutcomeTransition
  needs_reconcile : MutationOutcomeTransition

unfoldable pub row_to_mutation_state : MutationState → Result MutationState Error
row_to_mutation_state r = do
  fail_if (r.operation_id == 0) Error.invalid_schema
  fail_if (ltb u32_max r.attempt_number) Error.invalid_schema
  fail_if (is_some_and r.last_evidence_id (λ id. id == 0)) Error.invalid_schema
  check_some validate_redacted_code r.outcome_code
  ok r

load_state_row : Option MutationState → Result (Option MutationState) Error
unfolding row_to_mutation_state
load_state_row none = ok none
load_state_row (some row) = row_to_mutation_state row >>= λ r. ok (some r)

unfoldable pub load_mutation_state : MutationStore → ℕ → Result (Option MutationState) Error
unfolding load_state_row
load_mutation_state s id = load_state_row (find (λ r. r.operation_id == id) s.states)

unfoldable pub found_mutation : {A : Type 0} → Error → Option A → Result A Error
found_mutation error none = err error
found_mutation error (some a) = ok a

unfoldable pub require_mutation : Error → MutationStore → ℕ → Result MutationState Error
unfolding load_mutation_state found_mutation
require_mutation error s id = load_mutation_state s id >>= found_mutation error

-- `INSERT INTO mutation_events`; the operation is one of an intent that is there
unfoldable pub insert_mutation_event : MutationEvent → MutationStore → Result MutationStore Error
insert_mutation_event e s = do
  check_some validate_redacted_code e.outcome_code
  u64_to_i64 e.state_version
  u64_to_i64 e.occurred_at_unix_ms
  ok (record s { events = s.events ++ e ∷ [] })

-- `INSERT INTO mutation_verification_evidence`, whose ids are unique and whose operation has an
-- intent
unfoldable pub insert_mutation_evidence :
    MutationVerificationEvidence → MutationStore → Result MutationStore Error
insert_mutation_evidence e s = do
  u64_to_i64 e.captured_at_unix_ms
  fail_if
      (any (λ x. x.evidence_id == e.evidence_id) s.evidence
        || not (any (λ i. i.operation_id == e.operation_id) s.intents))
      Error.database
  ok (record s { evidence = s.evidence ++ e ∷ [] })

-- The `UPDATE` of one version of one state. No state that is written has a next attempt or a retry
-- mode, as the `CHECK` clauses of the table want it of such a phase.
unfoldable pub update_mutation_state :
    MutationState → ℕ → MutationStore → Result MutationStore Error
update_mutation_state next expected s = do
  u64_to_i64 next.state_version
  u64_to_i64 next.updated_at_unix_ms
  u64_to_i64 expected
  rows ←
      update_one (λ r. r.operation_id == next.operation_id && r.state_version == expected)
        (λ r. next) Error.mutation_state_version_mismatch s.states
  ok (record s { states = rows })

unfoldable pub initial_state : MutationIntent → MutationState
initial_state i = record {
  operation_id = i.operation_id;
  phase = MutationPhase.intent_durable;
  attempt_number = 0;
  state_version = 0;
  disposition = none;
  next_attempt_at_unix_ms = none;
  retry_mode = none;
  resume_reference = none;
  last_evidence_id = none;
  outcome_code = none;
  updated_at_unix_ms = i.registered_at_unix_ms;
}

-- The event of a state that was just written.
unfoldable pub event_of : MutationState → Option ℕ → MutationEvent
event_of r evidence = record {
  operation_id = r.operation_id;
  attempt_number = r.attempt_number;
  state_version = r.state_version;
  phase = r.phase;
  disposition = r.disposition;
  evidence_id = evidence;
  outcome_code = r.outcome_code;
  occurred_at_unix_ms = r.updated_at_unix_ms;
}

-- `insert_mutation_intent` and `insert_mutation_state`, whose operation ids are unique
unfoldable pub insert_mutation : MutationIntent → MutationStore → Result MutationStore Error
unfolding initial_state
insert_mutation i s = do
  fail_if
      (any (λ x. x.operation_id == i.operation_id) s.intents
        || any (λ r. r.operation_id == i.operation_id) s.states)
      Error.database
  ok (record s { intents = s.intents ++ i ∷ []; states = s.states ++ initial_state i ∷ [] })

-- The state of a blocked mutation: the `UPDATE` of its initial state.
unfoldable pub blocked_state : MutationVerificationEvidence → MutationState → MutationState
blocked_state e r = record r {
  phase = MutationPhase.needs_reconcile;
  state_version = 1;
  disposition = some MutationDisposition.needs_reconcile;
  last_evidence_id = some e.evidence_id;
  outcome_code = e.outcome_code;
  updated_at_unix_ms = e.captured_at_unix_ms;
}

unfoldable pub block_mutation :
    MutationIntent → MutationVerificationEvidence → MutationStore → Result MutationStore Error
unfolding insert_mutation_evidence insert_mutation_event blocked_state initial_state event_of
block_mutation i e s = do
  s₁ ← insert_mutation_evidence e s
  rows ←
      update_one
        (λ r.
          r.operation_id == i.operation_id
          && (r.state_version == 0 && r.phase == MutationPhase.intent_durable))
        (blocked_state e) Error.mutation_state_version_mismatch s₁.states
  insert_mutation_event (event_of (blocked_state e (initial_state i)) (some e.evidence_id))
      (record s₁ { states = rows })

unfoldable pub block_if :
    MutationIntent
    → Option MutationVerificationEvidence
    → MutationStore
    → Result MutationStore Error
unfolding block_mutation
block_if i none s = ok s
block_if i (some e) s = block_mutation i e s

unfoldable pub check_initial :
    MutationIntent → Option MutationVerificationEvidence → Result Unit Error
unfolding shows_blocked
check_initial i none = fail_if (is_blocked i) Error.invalid_transfer_evidence
check_initial i (some e) =
    if is_blocked i
    then fail_if (not (shows_blocked i e)) Error.invalid_transfer_evidence
    else err Error.invalid_state_transition

unfoldable pub registration_outcome : MutationState → MutationRegistrationOutcome
registration_outcome r =
    if r.phase == MutationPhase.completed
    then MutationRegistrationOutcome.already_completed
    else MutationRegistrationOutcome.already_present

unfoldable pub register_mutation_over :
    MutationIntent
    → Option MutationVerificationEvidence
    → MutationStore
    → Option MutationIntent
    → Result (MutationRegistrationOutcome × MutationStore) Error
unfolding require_mutation registration_outcome insert_mutation insert_mutation_event block_if
    event_of initial_state
register_mutation_over i initial s (some stored) = do
  fail_if
      (stored.intent_fingerprint != i.intent_fingerprint
        || stored.operation_marker != i.operation_marker)
      Error.mutation_collision
  r ← require_mutation Error.invalid_schema s i.operation_id
  ok (registration_outcome r, s)
register_mutation_over i initial s none = do
  fail_if (any (λ x. x.operation_marker == i.operation_marker) s.intents) Error.mutation_collision
  s₁ ← insert_mutation i s
  s₂ ← insert_mutation_event (event_of (initial_state i) none) s₁
  s₃ ← block_if i initial s₂
  ok (MutationRegistrationOutcome.registered, s₃)

module _ (u : Unicode) (d : Digest) where
  unfoldable pub check_evidence :
      MutationIntent → Option MutationVerificationEvidence → Result Unit Error
  unfolding validate_mutation_evidence
  check_evidence i none = ok tt
  check_evidence i (some e) = do
    validate_mutation_evidence u d e
    fail_if (e.operation_id != i.operation_id) Error.mutation_collision

  unfoldable pub register_mutation_intent :
      MutationIntent
      → Option MutationVerificationEvidence
      → MutationStore
      → Result (MutationRegistrationOutcome × MutationStore) Error
  unfolding validate_mutation_intent check_evidence check_initial register_mutation_over
  register_mutation_intent i initial s = do
    validate_mutation_intent u d i
    check_evidence i initial
    check_initial i initial
    register_mutation_over i initial s (find (λ x. x.operation_id == i.operation_id) s.intents)
