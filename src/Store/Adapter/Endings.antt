-- ===== src/Store/Adapter/Endings.antt =====
-- How an attempt ends: the worker of crates/myvault-transfer/src/lib.rs on the durable store of
-- crates/myvault-sync-engine/src/store.rs: each disposition
-- of an execution records its outcome.
use my_vault.Base.{
  nat_eq, list_eq, ℕ, ◌≡◌, subst, Option, none, some, ==→≡, arith, if◌then◌else◌, Bool-cases, inl,
  inr,
}
use my_vault.Base.Results.{Result, ok, err}
use my_vault.Text.{Text, codes}
use my_vault.Text.Unicode.{Unicode}
use my_vault.Transfer.Intent.{
  Error, TransferIntent, VerifiedTransfer, ExecutionFailure, ExecutionFailureKind, matches,
}
use my_vault.Transfer.Backoff.{base_backoff_ms, retry_delay_ms, checked_add_ms}
use my_vault.Transfer.Worker.{
  Worker, WorkOutcome, then_ok, rate_limit_delay, handle_kind, handle_failure, dispose,
}
use my_vault.Store.Validators as Validators
use my_vault.Store.Transfers.Record.{TransferPhase, TransferCompletion, new_completion}
use my_vault.Store.Transfers.Queue.{SyncStore}
use my_vault.Store.Transfers.Moves.{
  schedule_transfer_retry, pause_transfer_offline, mark_transfer_auth_required,
  mark_transfer_needs_reconcile,
}
use my_vault.Store.Transfers.Verified.{complete_verified_transfer}
use my_vault.Store.Transfers.Changes.{
  schedule_transfer_retry-Change, pause_transfer_offline-Change, mark_transfer_stopped-Change,
}
use my_vault.Store.Transfers.Commits.{complete_verified_transfer-Change}
use my_vault.Store.Transfers.Invariant.{IsValid, Change-IsValid}
use my_vault.Store.Adapter.{stored, complete_checked, complete_evidence, completion_of, sync_store}
use my_vault.Store.Adapter.Phases.{
  InPhase, schedule-InPhase, pause-InPhase, stop-InPhase, complete-InPhase,
}
use my_vault.Store.Adapter.Reports.{
  Recorded, no_report, then_ok-Recorded, then_hold-Recorded, retry_at-Recorded,
  complete_stored-Recorded,
}

module _ (u : Unicode) (uuid_text : ℕ → Text) where
  schedule_Recorded :
      (id : ℕ) (code : Text) (s : SyncStore)
      → IsValid s
      → (at : ℕ) (s' : SyncStore) → schedule_transfer_retry u id at code at s ≡ ok s'
      → Recorded (WorkOutcome.retry_scheduled id) s'
  schedule_Recorded id code s v at s' h = (
    schedule-InPhase u id at code at s v h,
    Change-IsValid u s s' (schedule_transfer_retry-Change u id at code at s h) v,
  )

  pause_Recorded :
      (id : ℕ) (code : Text) (s : SyncStore)
      → IsValid s
      → (at : ℕ) (s' : SyncStore) → pause_transfer_offline u id at code at s ≡ ok s'
      → Recorded (WorkOutcome.retry_scheduled id) s'
  pause_Recorded id code s v at s' h = (
    pause-InPhase u id at code at s v h,
    Change-IsValid u s s' (pause_transfer_offline-Change u id at code at s h) v,
  )

  auth_Recorded :
      (id : ℕ) (code : Text) (now : ℕ) (s : SyncStore)
      → IsValid s
      → (s' : SyncStore) → mark_transfer_auth_required u id code now s ≡ ok s'
      → Recorded (WorkOutcome.auth_required id) s'
  unfolding mark_transfer_auth_required
  auth_Recorded id code now s v s' h = (
    stop-InPhase u id TransferPhase.auth_required code now s v h,
    Change-IsValid u s s'
        (mark_transfer_stopped-Change u id TransferPhase.auth_required code now s h) v,
  )

  reconcile_Recorded :
      (id : ℕ) (code : Text) (now : ℕ) (s : SyncStore)
      → IsValid s
      → (s' : SyncStore) → mark_transfer_needs_reconcile u id code now s ≡ ok s'
      → Recorded (WorkOutcome.needs_reconcile id) s'
  unfolding mark_transfer_needs_reconcile
  reconcile_Recorded id code now s v s' h = (
    stop-InPhase u id TransferPhase.needs_reconcile code now s v h,
    Change-IsValid u s s'
        (mark_transfer_stopped-Change u id TransferPhase.needs_reconcile code now s h) v,
  )

  module _ {E : Type 0} where
    reconciled :
        (id now : ℕ) (f : ExecutionFailure) (w : Worker SyncStore E) (o : WorkOutcome)
        (w' : Worker SyncStore E)
        → IsValid w.store
        → then_ok w
            (stored (mark_transfer_needs_reconcile u id f.code now w.store) w.store)
            (WorkOutcome.needs_reconcile id)
          ≡ (ok o, w')
        → Recorded o w'.store
    reconciled id now f w o w' v h =
        then_ok-Recorded w (mark_transfer_needs_reconcile u id f.code now w.store) w.store
          (WorkOutcome.needs_reconcile id) o w' (reconcile_Recorded id f.code now w.store v) h

    handle_kind-Recorded :
        (kind : ExecutionFailureKind) (id now attempt : ℕ) (f : ExecutionFailure)
        (w : Worker SyncStore E) (o : WorkOutcome) (w' : Worker SyncStore E)
        → IsValid w.store
        → handle_kind (sync_store u uuid_text) kind id now attempt f w ≡ (ok o, w')
        → Recorded o w'.store
    unfolding handle_kind sync_store
    handle_kind-Recorded ExecutionFailureKind.auth_required id now attempt f w o w' v h =
        then_hold-Recorded w (mark_transfer_auth_required u id f.code now w.store) w.store id o w'
          (auth_Recorded id f.code now w.store v) h
    handle_kind-Recorded ExecutionFailureKind.offline id now attempt f w o w' v h =
        retry_at-Recorded (checked_add_ms now base_backoff_ms)
          (λ at. pause_transfer_offline u id at f.code at) id w o w'
          (pause_Recorded id f.code w.store v) h
    handle_kind-Recorded ExecutionFailureKind.rate_limited id now attempt f w o w' v h =
        retry_at-Recorded (checked_add_ms now (rate_limit_delay id attempt f.retry_after))
          (λ at. schedule_transfer_retry u id at f.code at) id w o w'
          (schedule_Recorded id f.code w.store v) h
    handle_kind-Recorded ExecutionFailureKind.transient_safe id now attempt f w o w' v h =
        retry_at-Recorded (checked_add_ms now (retry_delay_ms id attempt))
          (λ at. schedule_transfer_retry u id at f.code at) id w o w'
          (schedule_Recorded id f.code w.store v) h
    handle_kind-Recorded ExecutionFailureKind.transient_unknown id now attempt f w o w' v h =
        reconciled id now f w o w' v h
    handle_kind-Recorded ExecutionFailureKind.permanent id now attempt f w o w' v h =
        reconciled id now f w o w' v h
    handle_kind-Recorded ExecutionFailureKind.needs_reconcile id now attempt f w o w' v h =
        reconciled id now f w o w' v h

    complete_evidence-Recorded :
        (evidence : VerifiedTransfer) (now : ℕ) (id : ℕ) (local : Option Text)
        (w : Worker SyncStore E) (o : WorkOutcome) (w' : Worker SyncStore E)
        → evidence.operation_id ≡ id
        → IsValid w.store
        → then_ok w
            (complete_evidence u uuid_text evidence now local w.store)
            (WorkOutcome.completed id)
          ≡ (ok o, w')
        → Recorded o w'.store
    unfolding complete_evidence complete_checked then_ok
    complete_evidence-Recorded evidence now id none w o w' e v h =
        no_report Error.invalid_evidence o _ w' h
    complete_evidence-Recorded evidence now id (some local) w o w' e v h =
        checked (new_completion (completion_of evidence local now)) h
      where
        checked :
            (m : Result TransferCompletion Validators.Error)
            → then_ok w
                (complete_checked u uuid_text evidence.operation_id w.store m)
                (WorkOutcome.completed id)
              ≡ (ok o, w')
            → Recorded o w'.store
        checked (err x) k = no_report Error.invalid_evidence o _ w' k
        checked (ok c) k =
            complete_stored-Recorded w
              (complete_verified_transfer u uuid_text evidence.operation_id c w.store) w.store
              (WorkOutcome.completed id) o w'
              (λ x s' g. (
                subst (λ n. InPhase n TransferPhase.completed s') e
                    (complete-InPhase u uuid_text evidence.operation_id c w.store v g),
                Change-IsValid u w.store s'
                    (complete_verified_transfer-Change u uuid_text evidence.operation_id c w.store
                      g)
                    v,
              ))
              k

    pub dispose-Recorded :
        (r : Result VerifiedTransfer ExecutionFailure) (i : TransferIntent) (now : ℕ)
        (w : Worker SyncStore E) (o : WorkOutcome) (w' : Worker SyncStore E)
        → IsValid w.store
        → dispose (sync_store u uuid_text) r i now w ≡ (ok o, w')
        → Recorded o w'.store
    unfolding dispose handle_failure sync_store matches
    dispose-Recorded (err f) i now w o w' v h =
        handle_kind-Recorded f.kind i.operation_id now i.attempt_count f w o w' v h
    dispose-Recorded (ok evidence) i now w o w' v h = elim (Bool-cases (matches evidence i)) [
      | inl e ↦
          let same : evidence.operation_id ≡ i.operation_id =
            ==→≡ evidence.operation_id i.operation_id (ground arith) in
          complete_evidence-Recorded evidence now i.operation_id evidence.local_revision w o w' same
            v (rw (e, if◌then◌else◌) at h)
      | inr e ↦
          then_ok-Recorded w
            (mark_transfer_needs_reconcile u i.operation_id (codes "verified_evidence_mismatch") now
              w.store)
            w.store (WorkOutcome.needs_reconcile i.operation_id) o w'
            (reconcile_Recorded i.operation_id (codes "verified_evidence_mismatch") now w.store v)
            (rw (e, if◌then◌else◌) at h)
    ]
