-- ===== src/Store/Transfers/Changes.antt =====
-- Each operation of the queue as a change of the tables (crates/myvault-sync-engine/src/store.rs).
use my_vault.Base.{
  nat_eq, list_eq, option_eq, ℕ, ◌≡◌, refl, sym, ap, Bool, true, false, not, ◌&&◌, ◌||◌, some, leb,
  ltb, ◌==◌, ◌!=◌, is_none, is_some, Bool-cases, inl, inr, if◌then◌else◌, arith,
}
use my_vault.Base.Results.{ok, fail_if, fail_if-ok, ok-injective, >>-ok, >>=-ok}
use my_vault.Text.{Text, codes}
use my_vault.Text.Unicode.{Unicode}
use my_vault.Store.Validators.{
  Error, validate_redacted_code, validate_private_reference, u64_to_i64,
}
use my_vault.Store.Transfers.Record.{phase_eq, TransferPhase, TransferRecord}
use my_vault.Store.Transfers.Queue.{SyncStore, require_transfer}
use my_vault.Store.Transfers.Moves.{
  is_retryable, is_publishable, retry_row, pause_row, stop_row, base_row, same_schedule, move_row,
  schedule_transfer_retry, pause_transfer_offline, mark_transfer_stopped,
  requeue_transfer_for_reconciliation, publish_base_over, publish_transfer_base_reference,
  is_resumable, resume_auth_required_transfers, recover_interrupted_transfers,
}
use my_vault.Store.Transfers.Change.{Change, kept, moved, Quiet, update_transfer-Change}
use my_vault.Store.Transfers.Quiet.{
  retry_row-QuietStep, pause_row-QuietStep, stop_row-QuietStep, base_row-QuietStep,
  interrupted_row-QuietStep,
}

module _ (u : Unicode) where
  abbrev unchanged : (s : SyncStore) {s' : SyncStore} → s ≡ s' → Change u s s'
  unchanged s e =
      kept (ap (λ (x : SyncStore). x.transfers) (sym e))
        (ap (λ (x : SyncStore). x.transfer_history) (sym e))

  move_row-Change :
      (id : ℕ) (done : Bool) (updated : ℕ) (allowed : TransferPhase → Bool)
      (f : TransferRecord → TransferRecord) (s : SyncStore) (r : TransferRecord) {s' : SyncStore}
      → Quiet (λ x. allowed x.phase) f
      → move_row id done updated allowed f s r ≡ ok s'
      → Change u s s'
  unfolding move_row
  move_row-Change id true updated allowed f s r q h = unchanged s (ok-injective h)
  move_row-Change id false updated allowed f s r q h =
      update_transfer-Change u id (λ x. allowed x.phase) f s q
        (>>-ok (fail_if (ltb updated r.updated_at_unix_ms) Error.invalid_state_transition) _ h).1

  pub schedule_transfer_retry-Change :
      (id next : ℕ) (code : Text) (updated : ℕ) (s : SyncStore) {s' : SyncStore}
      → schedule_transfer_retry u id next code updated s ≡ ok s'
      → Change u s s'
  unfolding schedule_transfer_retry
  schedule_transfer_retry-Change id next code updated s h =
      let h₁ = (>>-ok (fail_if (id == 0) Error.transfer_not_found) _ h).1 in
      let h₂ = (>>-ok (validate_redacted_code code) _ h₁).1 in
      let h₃ = (>>-ok (u64_to_i64 next) _ h₂).1 in
      let h₄ = (>>-ok (u64_to_i64 updated) _ h₃).1 in
      let (r, h₅, h₆) = >>=-ok (require_transfer u s.transfers id) _ h₄ in
      move_row-Change id (same_schedule next code r) updated is_retryable
        (retry_row next updated code) s r (retry_row-QuietStep next updated code) h₆

  pub pause_transfer_offline-Change :
      (id next : ℕ) (code : Text) (updated : ℕ) (s : SyncStore) {s' : SyncStore}
      → pause_transfer_offline u id next code updated s ≡ ok s'
      → Change u s s'
  unfolding pause_transfer_offline
  pause_transfer_offline-Change id next code updated s h =
      let h₁ = (>>-ok (fail_if (id == 0) Error.transfer_not_found) _ h).1 in
      let h₂ = (>>-ok (validate_redacted_code code) _ h₁).1 in
      let h₃ = (>>-ok (u64_to_i64 next) _ h₂).1 in
      let h₄ = (>>-ok (u64_to_i64 updated) _ h₃).1 in
      let (r, h₅, h₆) = >>=-ok (require_transfer u s.transfers id) _ h₄ in
      move_row-Change id (same_schedule next code r) updated
        (λ phase. phase == TransferPhase.running) (pause_row next updated code) s r
        (pause_row-QuietStep next updated code) h₆

  abbrev stops : TransferPhase → Bool
  stops target = target == TransferPhase.auth_required || target == TransferPhase.needs_reconcile

  pub mark_transfer_stopped-Change :
      (id : ℕ) (target : TransferPhase) (code : Text) (updated : ℕ) (s : SyncStore) {s' : SyncStore}
      → mark_transfer_stopped u id target code updated s ≡ ok s'
      → Change u s s'
  unfolding mark_transfer_stopped
  mark_transfer_stopped-Change id target code updated s h =
      let h₁ = (>>-ok (fail_if (id == 0) Error.transfer_not_found) _ h).1 in
      let (g, h₂) = >>-ok (fail_if (not (stops target)) Error.invalid_state_transition) _ h₁ in
      let stopped = fail_if-ok (not (stops target)) Error.invalid_state_transition g in
      let e : stops target ≡ true = ground (arith, stopped) in
      let h₃ = (>>-ok (validate_redacted_code code) _ h₂).1 in
      let h₄ = (>>-ok (u64_to_i64 updated) _ h₃).1 in
      let (r, h₅, h₆) = >>=-ok (require_transfer u s.transfers id) _ h₄ in
      move_row-Change id (r.phase == target && r.last_error_code == some code) updated
        (λ phase. phase == TransferPhase.running) (stop_row target updated code) s r
        (λ x. stop_row-QuietStep target updated code x e) h₆

  pub requeue_transfer_for_reconciliation-Change :
      (id now : ℕ) (s : SyncStore) {s' : SyncStore}
      → requeue_transfer_for_reconciliation u id now s ≡ ok s'
      → Change u s s'
  unfolding requeue_transfer_for_reconciliation is_retryable
  requeue_transfer_for_reconciliation-Change id now s h =
      let h₁ = (>>-ok (fail_if (id == 0) Error.transfer_not_found) _ h).1 in
      let h₂ = (>>-ok (u64_to_i64 now) _ h₁).1 in
      let (r, h₃, h₄) = >>=-ok (require_transfer u s.transfers id) _ h₂ in
      let h₅ =
        (>>-ok
          (fail_if (r.phase != TransferPhase.needs_reconcile || ltb now r.updated_at_unix_ms)
            Error.invalid_state_transition)
          _ h₄).1 in
      update_transfer-Change u id
        (λ x. x.phase == TransferPhase.needs_reconcile && leb x.updated_at_unix_ms now)
        (retry_row now now (codes "reconcile_requested")) s
        (λ x e.
          retry_row-QuietStep now now (codes "reconcile_requested") x (needs_retry x.phase _ e))
        h₅
    where
      needs_retry :
          (p : TransferPhase) (b : Bool)
          → (p == TransferPhase.needs_reconcile && b) ≡ true
          → is_retryable p ≡ true
      needs_retry p b e = ground arith

  publish_base_over-Change :
      (id : ℕ) (base : Text) (updated : ℕ) (s : SyncStore) (r : TransferRecord) {s' : SyncStore}
      → publish_base_over u id base updated s r ≡ ok s'
      → Change u s s'
  unfolding publish_base_over
  publish_base_over-Change id base updated s r h =
      elim (Bool-cases (r.base_reference == some base)) [
        | inl e ↦ unchanged s (ok-injective (rw (e, if◌then◌else◌) at h))
        | inr e ↦
            update_transfer-Change u id (λ x. is_publishable x.phase && is_none x.base_reference)
              (base_row base updated) s (base_row-QuietStep base updated)
              (>>-ok
                (fail_if (is_some r.base_reference || ltb updated r.updated_at_unix_ms)
                  Error.transfer_collision)
                _ (rw (e, if◌then◌else◌) at h)).1
      ]

  pub publish_transfer_base_reference-Change :
      (id : ℕ) (base : Text) (updated : ℕ) (s : SyncStore) {s' : SyncStore}
      → publish_transfer_base_reference u id base updated s ≡ ok s'
      → Change u s s'
  unfolding publish_transfer_base_reference
  publish_transfer_base_reference-Change id base updated s h =
      let h₁ = (>>-ok (validate_private_reference base) _ h).1 in
      let h₂ = (>>-ok (u64_to_i64 updated) _ h₁).1 in
      let (r, h₃, h₄) = >>=-ok (require_transfer u s.transfers id) _ h₂ in
      publish_base_over-Change id base updated s r h₄

  pub resume_auth_required_transfers-Change :
      (now : ℕ) (s : SyncStore) {n : ℕ} {s' : SyncStore}
      → resume_auth_required_transfers now s ≡ ok (n, s')
      → Change u s s'
  unfolding resume_auth_required_transfers is_resumable is_retryable
  resume_auth_required_transfers-Change now s {n} {s'} h =
      let h₁ = (>>-ok (u64_to_i64 now) _ h).1 in
      let e = ap (λ (x : ℕ × SyncStore). x.1) (ok-injective h₁) in
      moved (is_resumable now) (retry_row now now (codes "auth_restored"))
        (λ x e₁. retry_row-QuietStep now now (codes "auth_restored") x (auth_retry x.phase _ e₁))
        (ap (λ (x : SyncStore). x.transfers) (sym e))
        (ap (λ (x : SyncStore). x.transfer_history) (sym e))
    where
      auth_retry :
          (p : TransferPhase) (b : Bool)
          → (p == TransferPhase.auth_required && b) ≡ true
          → is_retryable p ≡ true
      auth_retry p b e = ground arith

  pub recover_interrupted_transfers-Change :
      (s : SyncStore) → Change u s (recover_interrupted_transfers s)
  unfolding recover_interrupted_transfers
  recover_interrupted_transfers-Change s =
      moved (λ r. r.phase == TransferPhase.running) _ interrupted_row-QuietStep refl refl
