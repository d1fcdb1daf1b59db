-- ===== src/Store/Transfers/Moves.antt =====
-- How a transfer is retried, paused, stopped, released and counted, and what opening the store does
-- to it (crates/myvault-sync-engine/src/store.rs).
use my_vault.Base.{
  nat_eq, list_eq, option_eq, ℕ, ◌+◌, Bool, not, ◌&&◌, ◌||◌, some, ltb, leb, ◌==◌, ◌!=◌,
  if◌then◌else◌, is_none, is_some,
}
use my_vault.Base.Results.{Result, ok, fail_if, ◌>>◌, ◌>>=◌}
use my_vault.Text.{Text, codes}
use my_vault.Text.Unicode.{Unicode}
use my_vault.Store.Table.{count, update, update_one}
use my_vault.Store.Validators.{
  Error, validate_redacted_code, validate_private_reference, u64_to_i64,
}
use my_vault.Store.Transfers.Record.{phase_eq, TransferPhase, TransferRecord}
use my_vault.Store.Transfers.Queue.{SyncStore, require_transfer}

-- `phase IN ('running', 'auth_required', 'needs_reconcile')`
unfoldable pub is_retryable : TransferPhase → Bool
is_retryable phase =
    phase == TransferPhase.running
    || phase == TransferPhase.auth_required
    || phase == TransferPhase.needs_reconcile

-- `phase IN ('running', 'needs_reconcile')`
unfoldable pub is_publishable : TransferPhase → Bool
is_publishable phase = phase == TransferPhase.running || phase == TransferPhase.needs_reconcile

unfoldable pub retry_row : ℕ → ℕ → Text → TransferRecord → TransferRecord
retry_row next updated code r = record r {
  phase = TransferPhase.retry_scheduled;
  attempt_count = r.attempt_count + 1;
  next_attempt_at_unix_ms = next;
  updated_at_unix_ms = updated;
  last_error_code = some code;
}

unfoldable pub pause_row : ℕ → ℕ → Text → TransferRecord → TransferRecord
pause_row next updated code r = record r {
  phase = TransferPhase.retry_scheduled;
  next_attempt_at_unix_ms = next;
  updated_at_unix_ms = updated;
  last_error_code = some code;
}

unfoldable pub stop_row : TransferPhase → ℕ → Text → TransferRecord → TransferRecord
stop_row target updated code r = record r {
  phase = target;
  updated_at_unix_ms = updated;
  last_error_code = some code;
}

unfoldable pub base_row : Text → ℕ → TransferRecord → TransferRecord
base_row base updated r = record r { base_reference = some base; updated_at_unix_ms = updated }

unfoldable pub interrupted_row : TransferRecord → TransferRecord
interrupted_row r = record r {
  phase = TransferPhase.needs_reconcile;
  last_error_code = some (codes "interrupted_unknown_outcome");
}

-- The row already holds this schedule.
unfoldable pub same_schedule : ℕ → Text → TransferRecord → Bool
same_schedule next code r =
    r.phase == TransferPhase.retry_scheduled
    && r.next_attempt_at_unix_ms == next
    && r.last_error_code == some code

-- An `UPDATE` of the row with this id, where its phase allows it.
unfoldable pub update_transfer :
    ℕ
    → (TransferRecord → Bool)
    → (TransferRecord → TransferRecord)
    → SyncStore
    → Result SyncStore Error
update_transfer id allowed f s =
    update_one (λ r. r.operation_id == id && allowed r) f Error.invalid_state_transition s.transfers
    >>= λ rows. ok (record s { transfers = rows })

-- What follows the load of the row: nothing where it is already as wanted, an error where the
-- caller is behind the row, else the update.
unfoldable pub move_row :
    ℕ
    → Bool
    → ℕ
    → (TransferPhase → Bool)
    → (TransferRecord → TransferRecord)
    → SyncStore
    → TransferRecord
    → Result SyncStore Error
unfolding update_transfer
move_row id done updated allowed f s existing = if done then ok s else do
  fail_if (ltb updated existing.updated_at_unix_ms) Error.invalid_state_transition
  update_transfer id (λ r. allowed r.phase) f s

module _ (u : Unicode) where
  unfoldable pub schedule_transfer_retry : ℕ → ℕ → Text → ℕ → SyncStore → Result SyncStore Error
  unfolding require_transfer same_schedule is_retryable retry_row move_row
  schedule_transfer_retry id next code updated s = do
    fail_if (id == 0) Error.transfer_not_found
    validate_redacted_code code
    u64_to_i64 next
    u64_to_i64 updated
    require_transfer u s.transfers id >>= λ existing.
        move_row id (same_schedule next code existing) updated is_retryable
          (retry_row next updated code) s existing

  unfoldable pub pause_transfer_offline : ℕ → ℕ → Text → ℕ → SyncStore → Result SyncStore Error
  unfolding require_transfer same_schedule pause_row move_row
  pause_transfer_offline id next code updated s = do
    fail_if (id == 0) Error.transfer_not_found
    validate_redacted_code code
    u64_to_i64 next
    u64_to_i64 updated
    require_transfer u s.transfers id >>= λ existing.
        move_row id (same_schedule next code existing) updated
          (λ phase. phase == TransferPhase.running) (pause_row next updated code) s existing

  unfoldable pub mark_transfer_stopped :
      ℕ → TransferPhase → Text → ℕ → SyncStore → Result SyncStore Error
  unfolding require_transfer stop_row move_row
  mark_transfer_stopped id target code updated s = do
    fail_if (id == 0) Error.transfer_not_found
    fail_if (not (target == TransferPhase.auth_required || target == TransferPhase.needs_reconcile))
        Error.invalid_state_transition
    validate_redacted_code code
    u64_to_i64 updated
    require_transfer u s.transfers id >>= λ existing.
        move_row id (existing.phase == target && existing.last_error_code == some code) updated
          (λ phase. phase == TransferPhase.running) (stop_row target updated code) s existing

  unfoldable pub mark_transfer_auth_required : ℕ → Text → ℕ → SyncStore → Result SyncStore Error
  unfolding mark_transfer_stopped
  mark_transfer_auth_required id code updated s =
      mark_transfer_stopped id TransferPhase.auth_required code updated s

  unfoldable pub mark_transfer_needs_reconcile : ℕ → Text → ℕ → SyncStore → Result SyncStore Error
  unfolding mark_transfer_stopped
  mark_transfer_needs_reconcile id code updated s =
      mark_transfer_stopped id TransferPhase.needs_reconcile code updated s

  unfoldable pub requeue_transfer_for_reconciliation : ℕ → ℕ → SyncStore → Result SyncStore Error
  unfolding require_transfer retry_row update_transfer
  requeue_transfer_for_reconciliation id now s = do
    fail_if (id == 0) Error.transfer_not_found
    u64_to_i64 now
    require_transfer u s.transfers id >>= λ existing. do
      fail_if
          (existing.phase != TransferPhase.needs_reconcile || ltb now existing.updated_at_unix_ms)
          Error.invalid_state_transition
      update_transfer id
          (λ r. r.phase == TransferPhase.needs_reconcile && leb r.updated_at_unix_ms now)
          (retry_row now now (codes "reconcile_requested")) s

  unfoldable pub publish_base_over :
      ℕ → Text → ℕ → SyncStore → TransferRecord → Result SyncStore Error
  unfolding is_publishable base_row update_transfer
  publish_base_over id base updated s existing =
      if existing.base_reference == some base then ok s else do
        fail_if (is_some existing.base_reference || ltb updated existing.updated_at_unix_ms)
            Error.transfer_collision
        update_transfer id (λ r. is_publishable r.phase && is_none r.base_reference)
            (base_row base updated) s

  unfoldable pub publish_transfer_base_reference : ℕ → Text → ℕ → SyncStore → Result SyncStore Error
  unfolding require_transfer publish_base_over
  publish_transfer_base_reference id base updated s = do
    validate_private_reference base
    u64_to_i64 updated
    require_transfer u s.transfers id >>= publish_base_over id base updated s

-- `phase = 'auth_required' AND updated_at_unix_ms <= now`
unfoldable pub is_resumable : ℕ → TransferRecord → Bool
is_resumable now r = r.phase == TransferPhase.auth_required && leb r.updated_at_unix_ms now

unfoldable pub resume_auth_required_transfers : ℕ → SyncStore → Result (ℕ × SyncStore) Error
unfolding is_resumable retry_row
resume_auth_required_transfers now s = do
  u64_to_i64 now
  ok (
    count (is_resumable now) s.transfers,
    record s {
      transfers = update (is_resumable now) (retry_row now now (codes "auth_restored")) s.transfers;
    },
  )

-- The transfers in `recover_interrupted_jobs`.
unfoldable pub recover_interrupted_transfers : SyncStore → SyncStore
unfolding interrupted_row
recover_interrupted_transfers s = record s {
  transfers = update (λ r. r.phase == TransferPhase.running) interrupted_row s.transfers;
}

unfoldable pub transfer_count : SyncStore → ℕ
transfer_count s = count (λ r. r.phase != TransferPhase.completed) s.transfers

pub record TransferSummary : Type 0 where
  pub pending : ℕ
  pub running : ℕ
  pub retry_scheduled : ℕ
  pub auth_required : ℕ
  pub needs_reconcile : ℕ
  pub completed : ℕ

unfoldable pub transfer_summary : SyncStore → TransferSummary
transfer_summary s =
    let in_phase : TransferPhase → ℕ = λ phase. count (λ r. r.phase == phase) s.transfers in
    record {
      pending = in_phase TransferPhase.pending;
      running = in_phase TransferPhase.running;
      retry_scheduled = in_phase TransferPhase.retry_scheduled;
      auth_required = in_phase TransferPhase.auth_required;
      needs_reconcile = in_phase TransferPhase.needs_reconcile;
      completed = in_phase TransferPhase.completed;
    }
