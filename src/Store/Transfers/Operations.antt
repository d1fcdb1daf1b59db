-- ===== src/Store/Transfers/Operations.antt =====
-- The operations of the queue as one step function, and runs of them
-- (crates/myvault-sync-engine/src/store.rs).
use my_vault.Base.{ℕ, ◌≡◌, refl, subst, List, [], ◌∷◌}
use my_vault.Base.Results.{Result, ok, err, ok-injective, ◌>>=◌}
use my_vault.Text.{Text}
use my_vault.Text.Unicode.{Unicode}
use my_vault.Store.Validators.{Error}
use my_vault.Store.Transfers.Record.{TransferPhase, TransferRecord, TransferCompletion}
use my_vault.Store.Transfers.Queue.{SyncStore, claim_next_transfer, register_transfer}
use my_vault.Store.Transfers.Moves.{
  schedule_transfer_retry, pause_transfer_offline, mark_transfer_auth_required,
  mark_transfer_needs_reconcile, requeue_transfer_for_reconciliation,
  publish_transfer_base_reference, resume_auth_required_transfers, recover_interrupted_transfers,
}
use my_vault.Store.Transfers.Verified.{begin_transfer_local_publish, complete_verified_transfer}
use my_vault.Store.Transfers.Pages.{RemoteChange}
use my_vault.Store.Transfers.Batches.{begin_transfer_change_batch}
use my_vault.Store.Transfers.BatchChanges.{begin_transfer_change_batch-Change}
use my_vault.Store.Transfers.Change.{Change}
use my_vault.Store.Transfers.Changes.{
  schedule_transfer_retry-Change, pause_transfer_offline-Change, mark_transfer_stopped-Change,
  requeue_transfer_for_reconciliation-Change, publish_transfer_base_reference-Change,
  resume_auth_required_transfers-Change, recover_interrupted_transfers-Change,
}
use my_vault.Store.Transfers.Claims.{register_transfer-Change, claim_next_transfer-Change}
use my_vault.Store.Transfers.Commits.{
  begin_transfer_local_publish-Change, complete_verified_transfer-Change,
}

-- The calls that change the tables of transfers; `reopen` is what opening the store does to them.
pub data Op : Type 0 where
  register : TransferRecord → Op
  claim : ℕ → Op
  schedule : ℕ → ℕ → Text → ℕ → Op
  pause : ℕ → ℕ → Text → ℕ → Op
  stop_for_auth : ℕ → Text → ℕ → Op
  stop_for_reconcile : ℕ → Text → ℕ → Op
  resume : ℕ → Op
  requeue : ℕ → ℕ → Op
  publish_base : ℕ → Text → ℕ → Op
  begin_publish : ℕ → ℕ → Op
  complete : ℕ → TransferCompletion → Op
  begin_batch : ℕ → Text → Text → List RemoteChange → List TransferRecord → Op
  reopen : Op

-- The state after a call that returned a value.
abbrev pub next_state : {A : Type 0} → Result (A × SyncStore) Error → Result SyncStore Error
next_state m = m >>= λ x. ok (x.1)

-- After an error the transaction is dropped and the state is as before.
abbrev pub state_after : Result SyncStore Error → SyncStore → SyncStore
state_after (ok s') s = s'
state_after (err _) s = s

module _ (u : Unicode) (uuid_text : ℕ → Text) where
  unfoldable pub apply : Op → SyncStore → Result SyncStore Error
  unfolding register_transfer claim_next_transfer schedule_transfer_retry pause_transfer_offline
      mark_transfer_auth_required mark_transfer_needs_reconcile resume_auth_required_transfers
      requeue_transfer_for_reconciliation publish_transfer_base_reference
      begin_transfer_local_publish complete_verified_transfer recover_interrupted_transfers
      begin_transfer_change_batch
  apply (Op.register t) s = next_state (register_transfer u t s)
  apply (Op.claim now) s = next_state (claim_next_transfer u now s)
  apply (Op.schedule id next code updated) s = schedule_transfer_retry u id next code updated s
  apply (Op.pause id next code updated) s = pause_transfer_offline u id next code updated s
  apply (Op.stop_for_auth id code updated) s = mark_transfer_auth_required u id code updated s
  apply (Op.stop_for_reconcile id code updated) s =
      mark_transfer_needs_reconcile u id code updated s
  apply (Op.resume now) s = next_state (resume_auth_required_transfers now s)
  apply (Op.requeue id now) s = requeue_transfer_for_reconciliation u id now s
  apply (Op.publish_base id base updated) s = publish_transfer_base_reference u id base updated s
  apply (Op.begin_publish id now) s = begin_transfer_local_publish u uuid_text id now s
  apply (Op.complete id c) s = next_state (complete_verified_transfer u uuid_text id c s)
  apply (Op.begin_batch batch expected next changes downloads) s =
      begin_transfer_change_batch u uuid_text batch expected next changes downloads s
  apply Op.reopen s = ok (recover_interrupted_transfers s)

  -- Any sequence of calls, whatever each returns.
  unfoldable pub run : List Op → SyncStore → SyncStore
  unfolding apply
  run [] s = s
  run (op ∷ ops) s = run ops (state_after (apply op s) s)

  next_state-Change :
      {A : Type 0} (m : Result (A × SyncStore) Error) (s : SyncStore) {s' : SyncStore}
      → ((a : A) (s₁ : SyncStore) → m ≡ ok (a, s₁) → Change u s s₁)
      → next_state m ≡ ok s'
      → Change u s s'
  next_state-Change (ok (a, s₁)) s {s'} g h =
      let e : s₁ ≡ s' = ok-injective h in subst (λ x. Change u s x) e (g a s₁ refl)
  next_state-Change (err e) s g h = absurd cc

  pub apply-Change : (op : Op) (s : SyncStore) {s' : SyncStore} → apply op s ≡ ok s' → Change u s s'
  unfolding apply mark_transfer_auth_required mark_transfer_needs_reconcile
  apply-Change (Op.register t) s h =
      next_state-Change (register_transfer u t s) s (λ a s₁. register_transfer-Change u t s) h
  apply-Change (Op.claim now) s h =
      next_state-Change (claim_next_transfer u now s) s (λ a s₁. claim_next_transfer-Change u now s)
        h
  apply-Change (Op.schedule id next code updated) s h =
      schedule_transfer_retry-Change u id next code updated s h
  apply-Change (Op.pause id next code updated) s h =
      pause_transfer_offline-Change u id next code updated s h
  apply-Change (Op.stop_for_auth id code updated) s h =
      mark_transfer_stopped-Change u id TransferPhase.auth_required code updated s h
  apply-Change (Op.stop_for_reconcile id code updated) s h =
      mark_transfer_stopped-Change u id TransferPhase.needs_reconcile code updated s h
  apply-Change (Op.resume now) s h =
      next_state-Change (resume_auth_required_transfers now s) s
        (λ a s₁. resume_auth_required_transfers-Change u now s) h
  apply-Change (Op.requeue id now) s h = requeue_transfer_for_reconciliation-Change u id now s h
  apply-Change (Op.publish_base id base updated) s h =
      publish_transfer_base_reference-Change u id base updated s h
  apply-Change (Op.begin_publish id now) s h =
      begin_transfer_local_publish-Change u uuid_text id now s h
  apply-Change (Op.complete id c) s h =
      next_state-Change (complete_verified_transfer u uuid_text id c s) s
        (λ a s₁. complete_verified_transfer-Change u uuid_text id c s) h
  apply-Change (Op.begin_batch batch expected next changes downloads) s h =
      begin_transfer_change_batch-Change u uuid_text batch expected next changes downloads s h
  apply-Change Op.reopen s h =
      subst (λ x. Change u s x) (ok-injective h) (recover_interrupted_transfers-Change u s)
