-- ===== src/Store/Transfers/Queue.antt =====
-- The state of the transfer queue, and how transfers are registered, read and claimed
-- (crates/myvault-sync-engine/src/store.rs). An operation is a function from the state to its
-- result and the next state; an error drops the transaction, so it has no next state.
use my_vault.Base.{
  nat_eq, list_eq, option_eq, ℕ, Bool, not, ◌&&◌, ◌||◌, List, [], ◌∷◌, ◌++◌, Option, none, some,
  ltb, leb, ◌==◌, if◌then◌else◌, any, find,
}
use my_vault.Base.Results.{Result, ok, err, fail_if, ◌>>◌, ◌>>=◌}
use my_vault.Text.{Text}
use my_vault.Text.Unicode.{Unicode}
use my_vault.Store.Table.{update_one}
use my_vault.Store.Validators.{Error, u64_to_i64}
use my_vault.Store.Transfers.Record.{
  direction_eq, mime_eq, phase_eq, TransferPhase, TransferRecord, validate_new_transfer,
  row_to_transfer, same_registration,
}

pub record TransferHistory : Type 0 where
  pub operation_id : ℕ
  pub outcome_code : Text
  pub occurred_at_unix_ms : ℕ

pub data LocalMutationState : Type 0 where
  pending applying needs_reconcile committed : LocalMutationState

-- The row of `change_batch`.
pub record ChangeBatch : Type 0 where
  pub batch_id : ℕ
  pub expected_cursor : Text
  pub next_cursor : Text

-- A row of `change_batch_mutations`.
pub record LocalMutation : Type 0 where
  pub batch_id : ℕ
  pub mutation_id : Text
  pub state : LocalMutationState

pub data RemoteEntryKind : Type 0 where
  file folder : RemoteEntryKind

-- A row of `remote_entries`.
pub record RemoteEntry : Type 0 where
  pub file_id : Text
  pub parent_id : Text
  pub portable_path : Text
  pub kind : RemoteEntryKind
  pub content_hash_algorithm : Option Text
  pub content_hash : Option Text
  pub remote_revision : Text
  pub base_local_revision : Option Text
  pub base_remote_revision : Option Text
  pub base_content_hash : Option Text
  pub base_byte_length : Option ℕ

pub data SyncPhase : Type 0 where
  need_start_token scanning draining ready : SyncPhase

-- The parts of the row of `vault_state` that the operations on transfers read.
pub record VaultSyncState : Type 0 where
  pub phase : SyncPhase
  pub durable_cursor : Option Text

-- The tables that transfers read and write; `vault_state` is what `load_state` returns.
pub record SyncStore : Type 0 where
  pub vault_state : Result (Option VaultSyncState) Error
  pub transfers : List TransferRecord
  pub transfer_history : List TransferHistory
  pub change_batch : Option ChangeBatch
  pub change_batch_mutations : List LocalMutation
  pub remote_entries : List RemoteEntry

unfoldable pub required : Option VaultSyncState → Result VaultSyncState Error
required none = err Error.invalid_state_transition
required (some state) = ok state

unfoldable pub require_state : SyncStore → Result VaultSyncState Error
unfolding required
require_state s = s.vault_state >>= required

pub data TransferRegistrationOutcome : Type 0 where
  registered already_present already_completed : TransferRegistrationOutcome

unfoldable pub registration_of : TransferPhase → TransferRegistrationOutcome
registration_of phase =
    if phase == TransferPhase.completed
    then TransferRegistrationOutcome.already_completed
    else TransferRegistrationOutcome.already_present

-- `phase IN ('pending', 'retry_scheduled')`
unfoldable pub is_claimable : TransferPhase → Bool
is_claimable phase = phase == TransferPhase.pending || phase == TransferPhase.retry_scheduled

-- `WHERE phase IN ('pending', 'retry_scheduled') AND next_attempt_at_unix_ms <= now`
unfoldable pub is_due : ℕ → TransferRecord → Bool
unfolding is_claimable
is_due now r = is_claimable r.phase && leb r.next_attempt_at_unix_ms now

-- `ORDER BY created_at_unix_ms, operation_id`: the column holds the lowercase hexadecimal text of
-- the `Uuid`, of one length, so its order is that of the value.
unfoldable pub ordered_before : TransferRecord → TransferRecord → Bool
ordered_before a b =
    ltb a.created_at_unix_ms b.created_at_unix_ms
    || (a.created_at_unix_ms == b.created_at_unix_ms && ltb a.operation_id b.operation_id)

unfoldable pub earlier : TransferRecord → Option TransferRecord → TransferRecord
unfolding ordered_before
earlier r none = r
earlier r (some q) = if ordered_before q r then q else r

-- `LIMIT 1`
unfoldable pub first_due : ℕ → List TransferRecord → Option TransferRecord
unfolding is_due earlier
first_due now [] = none
first_due now (r ∷ rs) =
    let rest = first_due now rs in if is_due now r then some (earlier r rest) else rest

unfoldable pub running_at : ℕ → TransferRecord → TransferRecord
running_at now r = record r { phase = TransferPhase.running; updated_at_unix_ms = now }

unfoldable pub found_transfer : Option TransferRecord → Result TransferRecord Error
found_transfer none = err Error.transfer_not_found
found_transfer (some r) = ok r

unfoldable pub claim_loaded :
    ℕ → SyncStore → TransferRecord → Result (Option TransferRecord × SyncStore) Error
unfolding running_at
claim_loaded now s transfer =
    update_one (λ r. r.operation_id == transfer.operation_id && is_claimable r.phase)
      (running_at now) Error.invalid_state_transition s.transfers
    >>= λ rows. ok (some (running_at now transfer), record s { transfers = rows })

unfoldable pub register_over :
    TransferRecord
    → SyncStore
    → Option TransferRecord
    → Result (TransferRegistrationOutcome × SyncStore) Error
unfolding registration_of
register_over transfer s (some existing) = do
  fail_if (not (same_registration existing transfer)) Error.transfer_collision
  ok (registration_of existing.phase, s)
register_over transfer s none = do
  fail_if (any (λ r. r.operation_marker == transfer.operation_marker) s.transfers)
      Error.transfer_collision
  ok (TransferRegistrationOutcome.registered, record s { transfers = s.transfers ++ transfer ∷ [] })

module _ (u : Unicode) where
  load_row : Option TransferRecord → Result (Option TransferRecord) Error
  load_row none = ok none
  load_row (some row) = row_to_transfer u row >>= λ r. ok (some r)

  unfoldable pub load_transfer : List TransferRecord → ℕ → Result (Option TransferRecord) Error
  unfolding load_row
  load_transfer rows id = load_row (find (λ r. r.operation_id == id) rows)

  -- `load_transfer(..)?.ok_or(Error::TransferNotFound)?`
  unfoldable pub require_transfer : List TransferRecord → ℕ → Result TransferRecord Error
  unfolding load_transfer
  require_transfer rows id = load_transfer rows id >>= found_transfer

  unfoldable pub register_transfer :
      TransferRecord → SyncStore → Result (TransferRegistrationOutcome × SyncStore) Error
  unfolding require_state load_transfer register_over
  register_transfer transfer s = do
    validate_new_transfer u transfer
    _ ← require_state s
    load_transfer s.transfers transfer.operation_id >>= register_over transfer s

  unfoldable pub claim_row :
      ℕ → SyncStore → Option TransferRecord → Result (Option TransferRecord × SyncStore) Error
  unfolding claim_loaded
  claim_row now s none = ok (none, s)
  claim_row now s (some row) = row_to_transfer u row >>= claim_loaded now s

  unfoldable pub claim_next_transfer :
      ℕ → SyncStore → Result (Option TransferRecord × SyncStore) Error
  unfolding first_due claim_row
  claim_next_transfer now s = do u64_to_i64 now; claim_row now s (first_due now s.transfers)
