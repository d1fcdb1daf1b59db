-- ===== src/Store/Transfers/Verified.antt =====
-- `begin_transfer_local_publish` and `complete_verified_transfer`
-- (crates/myvault-sync-engine/src/store.rs). `uuid_text` is the text of a `Uuid`.
use my_vault.Base.{
  nat_eq, list_eq, option_eq, ℕ, Bool, not, ◌&&◌, ◌||◌, Option, none, some, ltb, leb, ◌==◌, ◌!=◌,
  if◌then◌else◌, is_some, is_some_and, is_none_or,
}
use my_vault.Base.Results.{Result, ok, err, fail_if, ◌>>◌, ◌>>=◌}
use my_vault.Text.{Text, codes}
use my_vault.Text.Unicode.{Unicode}
use my_vault.Store.Validators.{Error, u64_to_i64}
use my_vault.Store.Transfers.Record.{
  direction_eq, phase_eq, TransferDirection, TransferPhase, TransferRecord, TransferCompletion,
  validate_completion,
}
use my_vault.Store.Transfers.Queue.{SyncStore, ChangeBatch, LocalMutationState, require_transfer}
use my_vault.Store.Transfers.Moves.{is_publishable, update_transfer}
use my_vault.Store.Transfers.Completion.{
  local_state_eq, load_change_batch, load_local_mutation_state, active_transfer_mutation_state,
  move_mutation, update_remote_base_if_present, TransferCompletionOutcome, same_completion,
  may_complete, completed_row, insert_history, commit_if_applying,
}

unfoldable pub required_batch : Option ChangeBatch → Result ChangeBatch Error
required_batch none = err Error.no_active_batch
required_batch (some b) = ok b

unfoldable pub publish_row : ℕ → TransferRecord → TransferRecord
publish_row now r = record r { updated_at_unix_ms = now }

-- The mutation was not pending: what its state means.
unfoldable pub not_pending :
    TransferRecord → SyncStore → Option LocalMutationState → Result SyncStore Error
not_pending transfer s (some LocalMutationState.applying) =
    if transfer.last_error_code == some (codes "reconcile_requested")
    then ok s
    else err Error.mutation_needs_reconcile
not_pending transfer s (some LocalMutationState.needs_reconcile) =
    err Error.mutation_needs_reconcile
not_pending transfer s (some LocalMutationState.committed) = err Error.invalid_state_transition
not_pending transfer s (some LocalMutationState.pending) = err Error.unknown_mutation
not_pending transfer s none = err Error.unknown_mutation

-- The first `UPDATE`, where it changed a row, is followed by that of the transfer.
unfoldable pub publish_over :
    ℕ
    → Text
    → ℕ
    → SyncStore
    → ChangeBatch
    → TransferRecord
    → Result SyncStore Error
    → Result SyncStore Error
unfolding not_pending publish_row update_transfer is_publishable load_local_mutation_state
publish_over id mutation now s active transfer (ok moved) =
    update_transfer id (λ r. is_publishable r.phase && leb r.updated_at_unix_ms now)
      (publish_row now) moved
publish_over id mutation now s active transfer (err _) =
    not_pending transfer s (load_local_mutation_state s active.batch_id mutation)

-- The row is a claimed download, not ahead of `now`.
unfoldable pub may_publish : ℕ → TransferRecord → Bool
unfolding is_publishable
may_publish now r = not (
    r.direction != TransferDirection.download
    || not (is_publishable r.phase)
    || ltb now r.updated_at_unix_ms)

-- A completion of a row that is completed.
unfoldable pub complete_again :
    TransferCompletion
    → SyncStore
    → TransferRecord
    → Option LocalMutationState
    → Result (TransferCompletionOutcome × SyncStore) Error
unfolding same_completion
complete_again c s existing state =
    if same_completion c s existing && is_none_or state (λ m. m == LocalMutationState.committed)
    then ok (TransferCompletionOutcome.already_completed, s)
    else err Error.transfer_collision

-- The first completion.
unfoldable pub complete_open :
    ℕ
    → Text
    → TransferCompletion
    → SyncStore
    → TransferRecord
    → Option LocalMutationState
    → Result (TransferCompletionOutcome × SyncStore) Error
unfolding may_complete insert_history update_transfer completed_row is_publishable
    update_remote_base_if_present commit_if_applying
complete_open id mutation c s existing state = do
  fail_if (not (may_complete c existing)) Error.invalid_state_transition
  fail_if (is_some state && existing.direction != TransferDirection.download)
      Error.transfer_change_mismatch
  fail_if (is_some_and state (λ m. m != LocalMutationState.applying)) Error.invalid_state_transition
  u64_to_i64 c.occurred_at_unix_ms
  s₁ ← insert_history id c s
  s₂ ← update_transfer id (λ r. is_publishable r.phase) (completed_row c) s₁
  s₃ ← update_remote_base_if_present existing c s₂
  s₄ ← commit_if_applying mutation state s₃
  ok (TransferCompletionOutcome.completed, s₄)

unfoldable pub complete_over :
    ℕ
    → Text
    → TransferCompletion
    → SyncStore
    → TransferRecord
    → Option LocalMutationState
    → Result (TransferCompletionOutcome × SyncStore) Error
unfolding complete_again complete_open
complete_over id mutation c s existing state =
    if existing.phase == TransferPhase.completed
    then complete_again c s existing state
    else complete_open id mutation c s existing state

module _ (u : Unicode) (uuid_text : ℕ → Text) where
  unfoldable pub begin_transfer_local_publish : ℕ → ℕ → SyncStore → Result SyncStore Error
  unfolding load_change_batch required_batch require_transfer may_publish publish_over move_mutation
  begin_transfer_local_publish id now s = do
    fail_if (id == 0) Error.transfer_not_found
    u64_to_i64 now
    batch ← load_change_batch s
    active ← required_batch batch
    transfer ← require_transfer u s.transfers id
    fail_if (not (may_publish now transfer)) Error.invalid_state_transition
    publish_over id (uuid_text id) now s active transfer (
        move_mutation active.batch_id (uuid_text id) LocalMutationState.pending
          LocalMutationState.applying s)

  unfoldable pub complete_verified_transfer :
      ℕ → TransferCompletion → SyncStore → Result (TransferCompletionOutcome × SyncStore) Error
  unfolding validate_completion require_transfer active_transfer_mutation_state complete_over
  complete_verified_transfer id c s = do
    fail_if (id == 0) Error.transfer_not_found
    validate_completion c
    existing ← require_transfer u s.transfers id
    state ← active_transfer_mutation_state s (uuid_text id)
    complete_over id (uuid_text id) c s existing state
