-- ===== src/Store/Transfers/Completion.antt =====
-- The publication of a download into the vault and the verified completion of a transfer, with the
-- change batch and the remote entry that they touch (crates/myvault-sync-engine/src/store.rs).
use my_vault.Base.{
  nat_eq, list_eq, option_eq, nat_beq, ℕ, ◌≡◌, ◌↔◌, Bool, true, false, not, ◌&&◌, ◌||◌, [], ◌∷◌,
  ◌++◌, Option, none, some, ltb, ◌==◌, ◌!=◌, Eq, if◌then◌else◌, is_some_and, is_none_or, any, find,
  arith,
}
use my_vault.Base.Results.{Result, ok, err, fail_if, ◌>>◌, ◌>>=◌}
use my_vault.Text.{Text, codes}
use my_vault.Store.Table.{update_one}
use my_vault.Store.Validators.{Error, validate_remote_token, u64_to_i64}
use my_vault.Store.Transfers.Record.{
  direction_eq, phase_eq, TransferDirection, TransferPhase, TransferRecord, TransferCompletion,
}
use my_vault.Store.Transfers.Queue.{
  SyncStore, TransferHistory, ChangeBatch, LocalMutation, LocalMutationState, RemoteEntry,
  RemoteEntryKind,
}
use my_vault.Store.Transfers.Moves.{is_publishable}

abbrev pub local_state_index : LocalMutationState → ℕ
local_state_index LocalMutationState.pending = 0
local_state_index LocalMutationState.applying = 1
local_state_index LocalMutationState.needs_reconcile = 2
local_state_index LocalMutationState.committed = 3

pub local_state_beq_iff :
    (a b : LocalMutationState)
    → (nat_beq (local_state_index a) (local_state_index b) ≡ true) ↔ (a ≡ b)
local_state_beq_iff a b = ground arith

instance abbrev pub local_state_eq : Eq LocalMutationState
local_state_eq = record {
  beq = λ a b. nat_beq (local_state_index a) (local_state_index b);
  beq_iff = local_state_beq_iff;
}

abbrev pub is_file : RemoteEntryKind → Bool
is_file RemoteEntryKind.file = true
is_file RemoteEntryKind.folder = false

load_batch_row : Option ChangeBatch → Result (Option ChangeBatch) Error
load_batch_row none = ok none
load_batch_row (some b) = do
  validate_remote_token b.expected_cursor
  validate_remote_token b.next_cursor
  fail_if (b.batch_id == 0) Error.invalid_schema
  ok (some b)

unfoldable pub load_change_batch : SyncStore → Result (Option ChangeBatch) Error
unfolding load_batch_row
load_change_batch s = load_batch_row s.change_batch

state_of : Option LocalMutation → Option LocalMutationState
state_of none = none
state_of (some m) = some m.state

unfoldable pub load_local_mutation_state : SyncStore → ℕ → Text → Option LocalMutationState
unfolding state_of
load_local_mutation_state s batch mutation =
    state_of (find (λ m. m.batch_id == batch && m.mutation_id == mutation) s.change_batch_mutations)

state_in : SyncStore → Text → Option ChangeBatch → Option LocalMutationState
unfolding load_local_mutation_state
state_in s mutation none = none
state_in s mutation (some b) = load_local_mutation_state s b.batch_id mutation

unfoldable pub active_transfer_mutation_state :
    SyncStore → Text → Result (Option LocalMutationState) Error
unfolding load_change_batch state_in
active_transfer_mutation_state s mutation =
    load_change_batch s >>= λ batch. ok (state_in s mutation batch)

-- `UPDATE change_batch_mutations SET state = ..` of one mutation of one batch in a given state
unfoldable pub move_mutation :
    ℕ → Text → LocalMutationState → LocalMutationState → SyncStore → Result SyncStore Error
move_mutation batch mutation from to s =
    update_one (λ m. m.batch_id == batch && m.mutation_id == mutation && m.state == from)
      (λ m. record m { state = to }) Error.invalid_state_transition s.change_batch_mutations
    >>= λ rows. ok (record s { change_batch_mutations = rows })

unfoldable pub commit_in : Text → SyncStore → Option ChangeBatch → Result SyncStore Error
unfolding move_mutation
commit_in mutation s none = err Error.invalid_state_transition
commit_in mutation s (some b) =
    move_mutation b.batch_id mutation LocalMutationState.applying LocalMutationState.committed s

unfoldable pub commit_transfer_mutation : Text → SyncStore → Result SyncStore Error
unfolding commit_in
commit_transfer_mutation mutation s = commit_in mutation s s.change_batch

-- The entry that the completion's evidence matches.
unfoldable pub is_base_of : TransferRecord → TransferCompletion → RemoteEntry → Bool
is_base_of transfer c e =
    e.file_id == c.remote_file_id
    && e.parent_id == transfer.remote_parent_id
    && e.portable_path == transfer.portable_path
    && is_file e.kind
    && e.remote_revision == c.remote_revision
    && (is_none_or e.content_hash_algorithm (λ a. a != codes "sha256")
        || e.content_hash == some transfer.sha256)

unfoldable pub based_entry : TransferRecord → TransferCompletion → RemoteEntry → RemoteEntry
based_entry transfer c e = record e {
  base_local_revision = some c.local_revision;
  base_remote_revision = some c.remote_revision;
  base_content_hash = some transfer.sha256;
  base_byte_length = some transfer.byte_length;
}

unfoldable pub update_remote_base_if_present :
    TransferRecord → TransferCompletion → SyncStore → Result SyncStore Error
unfolding is_base_of based_entry
update_remote_base_if_present transfer c s =
    if any (λ e. e.file_id == c.remote_file_id) s.remote_entries
    then u64_to_i64 transfer.byte_length
      >> (update_one (is_base_of transfer c) (based_entry transfer c) Error.transfer_change_mismatch
            s.remote_entries
          >>= λ entries. ok (record s { remote_entries = entries }))
    else ok s

pub data TransferCompletionOutcome : Type 0 where
  completed already_completed : TransferCompletionOutcome

-- `value != &expected` where there is a value
unfoldable pub differs : Option Text → Text → Bool
differs value expected = is_some_and value (λ v. v != expected)

unfoldable pub same_history : TransferCompletion → Option TransferHistory → Bool
same_history c history =
    is_some_and history
      (λ h. h.outcome_code == c.outcome_code && h.occurred_at_unix_ms == c.occurred_at_unix_ms)

-- The completed row and its history hold exactly this evidence.
unfoldable pub same_completion : TransferCompletion → SyncStore → TransferRecord → Bool
unfolding same_history
same_completion c s r =
    r.remote_file_id == some c.remote_file_id
    && r.verified_remote_revision == some c.remote_revision
    && r.verified_local_revision == some c.local_revision
    && r.base_reference == some c.base_reference
    && same_history c (find (λ h. h.operation_id == r.operation_id) s.transfer_history)

-- The guard of a first completion: the row is open, not behind the evidence, and every expected
-- identity is the proven one.
unfoldable pub may_complete : TransferCompletion → TransferRecord → Bool
unfolding is_publishable differs
may_complete c r = not (
    not (is_publishable r.phase)
    || ltb c.occurred_at_unix_ms r.updated_at_unix_ms
    || differs r.remote_file_id c.remote_file_id
    || differs r.expected_remote_revision c.remote_revision
    || (r.direction == TransferDirection.upload
        && differs r.expected_local_revision c.local_revision)
    || differs r.base_reference c.base_reference)

unfoldable pub completed_row : TransferCompletion → TransferRecord → TransferRecord
completed_row c r = record r {
  remote_file_id = some c.remote_file_id;
  base_reference = some c.base_reference;
  phase = TransferPhase.completed;
  next_attempt_at_unix_ms = c.occurred_at_unix_ms;
  updated_at_unix_ms = c.occurred_at_unix_ms;
  last_error_code = none;
  verified_local_revision = some c.local_revision;
  verified_remote_revision = some c.remote_revision;
}

-- `INSERT INTO transfer_history`, whose operation ids are unique
unfoldable pub insert_history : ℕ → TransferCompletion → SyncStore → Result SyncStore Error
insert_history id c s = do
  fail_if (any (λ h. h.operation_id == id) s.transfer_history) Error.database
  ok (record s {
    transfer_history =
        s.transfer_history
        ++ (record {
          operation_id = id;
          outcome_code = c.outcome_code;
          occurred_at_unix_ms = c.occurred_at_unix_ms;
        }
            ∷ []);
  })

-- `if mutation_state == Some(Applying) { commit_transfer_mutation(..)?; }`
unfoldable pub commit_if_applying :
    Text → Option LocalMutationState → SyncStore → Result SyncStore Error
unfolding commit_transfer_mutation
commit_if_applying mutation state s =
    if is_some_and state (λ m. m == LocalMutationState.applying)
    then commit_transfer_mutation mutation s
    else ok s
