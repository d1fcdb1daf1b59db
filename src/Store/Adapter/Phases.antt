-- ===== src/Store/Adapter/Phases.antt =====
-- The phase in which each call that ends an attempt leaves its transfer
-- (crates/myvault-sync-engine/src/store.rs).
use my_vault.Base.{
  nat_eq, list_eq, option_eq, ℕ, ◌≡◌, refl, sym, ap, ◌∙◌, subst, Bool, true, false, not, ◌&&◌, ◌||◌,
  Option, some, ltb, ◌==◌, ==-refl, Bool-cases, inl, inr, find, if◌then◌else◌, &&-eq-true, arith,
}
use my_vault.Base.Results.{ok, fail_if, ok-injective, >>-ok, >>=-ok}
use my_vault.Text.{Text}
use my_vault.Text.Unicode.{Unicode}
use my_vault.Store.Validators.{Error, validate_redacted_code, u64_to_i64}
use my_vault.Store.Table.{update, update_one, update_one-ok}
use my_vault.Store.Table.Counts.{find-update_one}
use my_vault.Store.Transfers.Record.{
  phase_eq, TransferPhase, TransferRecord, TransferCompletion, validate_completion,
}
use my_vault.Store.Transfers.Queue.{SyncStore, LocalMutationState, require_transfer}
use my_vault.Store.Transfers.Moves.{
  is_retryable, is_publishable, retry_row, pause_row, stop_row, same_schedule, update_transfer,
  move_row, schedule_transfer_retry, pause_transfer_offline, mark_transfer_stopped,
}
use my_vault.Store.Transfers.Completion.{
  TransferCompletionOutcome, completed_row, active_transfer_mutation_state,
}
use my_vault.Store.Transfers.Verified.{complete_over, complete_verified_transfer}
use my_vault.Store.Transfers.Change.{has_id, require_transfer-ok}
use my_vault.Store.Transfers.Commits.{complete_open-rows, complete_again-same}
use my_vault.Store.Transfers.Invariant.{IsValid}

-- The store holds the transfer, in this phase.
abbrev pub InPhase : ℕ → TransferPhase → SyncStore → Type 0
InPhase id phase s =
    (r : TransferRecord) × (find (has_id id) s.transfers ≡ some r) × ((r.phase == phase) ≡ true)

-- The row that an `UPDATE` of one id has changed.
update_transfer-find :
    (id : ℕ) (allowed : TransferRecord → Bool) (f : TransferRecord → TransferRecord) (s : SyncStore)
    (r : TransferRecord) {s' : SyncStore}
    → ((x : TransferRecord) → has_id id x ≡ true → has_id id (f x) ≡ true)
    → IsValid s
    → find (has_id id) s.transfers ≡ some r
    → update_transfer id allowed f s ≡ ok s'
    → find (has_id id) s'.transfers ≡ some (f r)
unfolding update_transfer
update_transfer-find id allowed f s r {s'} k v h e =
    let (rows, h₁, h₂) =
      >>=-ok
        (update_one (λ x. x.operation_id == id && allowed x) f Error.invalid_state_transition
          s.transfers)
        _ e in
    let (one, h₃) =
      update_one-ok (λ x. has_id id x && allowed x) f Error.invalid_state_transition s.transfers
        h₁ in
    let e₁ : record s { transfers = rows } ≡ s' = ok-injective h₂ in
    let e₂ : s'.transfers ≡ update (λ x. has_id id x && allowed x) f s.transfers =
      ap (λ (x : SyncStore). x.transfers) (sym e₁) ∙ h₃ in
    ap (find (has_id id)) e₂
    ∙ find-update_one (has_id id) allowed f k s.transfers r h (v.ids id) one

move_row-InPhase :
    (id : ℕ) (done : Bool) (updated : ℕ) (allowed : TransferPhase → Bool)
    (f : TransferRecord → TransferRecord) (phase : TransferPhase) (s : SyncStore)
    (r : TransferRecord) {s' : SyncStore}
    → ((x : TransferRecord) → has_id id x ≡ true → has_id id (f x) ≡ true)
    → ((f r).phase == phase) ≡ true
    → (done ≡ true → (r.phase == phase) ≡ true)
    → IsValid s
    → find (has_id id) s.transfers ≡ some r
    → move_row id done updated allowed f s r ≡ ok s'
    → InPhase id phase s'
unfolding move_row
move_row-InPhase id true updated allowed f phase s r {s'} k g d v h e =
    subst (λ x. InPhase id phase x) (ok-injective e) (r, h, d refl)
move_row-InPhase id false updated allowed f phase s r {s'} k g d v h e =
    let e₁ =
      (>>-ok (fail_if (ltb updated r.updated_at_unix_ms) Error.invalid_state_transition) _ e).1 in
    (f r, update_transfer-find id (λ x. allowed x.phase) f s r k v h e₁, g)

module _ (u : Unicode) where
  pub schedule-InPhase :
      (id next : ℕ) (code : Text) (updated : ℕ) (s : SyncStore) {s' : SyncStore}
      → IsValid s
      → schedule_transfer_retry u id next code updated s ≡ ok s'
      → InPhase id TransferPhase.retry_scheduled s'
  unfolding schedule_transfer_retry retry_row same_schedule
  schedule-InPhase id next code updated s v h =
      let h₁ = (>>-ok (fail_if (id == 0) Error.transfer_not_found) _ h).1 in
      let h₂ = (>>-ok (validate_redacted_code code) _ h₁).1 in
      let h₃ = (>>-ok (u64_to_i64 next) _ h₂).1 in
      let h₄ = (>>-ok (u64_to_i64 updated) _ h₃).1 in
      let (r, h₅, h₆) = >>=-ok (require_transfer u s.transfers id) _ h₄ in
      move_row-InPhase id (same_schedule next code r) updated is_retryable
        (retry_row next updated code) TransferPhase.retry_scheduled s r (λ x e. e) refl
        (λ e. ground arith) v (require_transfer-ok u s.transfers id h₅) h₆

  pub pause-InPhase :
      (id next : ℕ) (code : Text) (updated : ℕ) (s : SyncStore) {s' : SyncStore}
      → IsValid s
      → pause_transfer_offline u id next code updated s ≡ ok s'
      → InPhase id TransferPhase.retry_scheduled s'
  unfolding pause_transfer_offline pause_row same_schedule
  pause-InPhase id next code updated s v h =
      let h₁ = (>>-ok (fail_if (id == 0) Error.transfer_not_found) _ h).1 in
      let h₂ = (>>-ok (validate_redacted_code code) _ h₁).1 in
      let h₃ = (>>-ok (u64_to_i64 next) _ h₂).1 in
      let h₄ = (>>-ok (u64_to_i64 updated) _ h₃).1 in
      let (r, h₅, h₆) = >>=-ok (require_transfer u s.transfers id) _ h₄ in
      move_row-InPhase id (same_schedule next code r) updated (λ p. p == TransferPhase.running)
        (pause_row next updated code) TransferPhase.retry_scheduled s r (λ x e. e) refl
        (λ e. ground arith) v (require_transfer-ok u s.transfers id h₅) h₆

  pub stop-InPhase :
      (id : ℕ) (target : TransferPhase) (code : Text) (updated : ℕ) (s : SyncStore) {s' : SyncStore}
      → IsValid s
      → mark_transfer_stopped u id target code updated s ≡ ok s'
      → InPhase id target s'
  unfolding mark_transfer_stopped stop_row
  stop-InPhase id target code updated s v h =
      let h₁ = (>>-ok (fail_if (id == 0) Error.transfer_not_found) _ h).1 in
      let h₂ =
        (>>-ok
          (fail_if
            (not (target == TransferPhase.auth_required || target == TransferPhase.needs_reconcile))
            Error.invalid_state_transition)
          _ h₁).1 in
      let h₃ = (>>-ok (validate_redacted_code code) _ h₂).1 in
      let h₄ = (>>-ok (u64_to_i64 updated) _ h₃).1 in
      let (r, h₅, h₆) = >>=-ok (require_transfer u s.transfers id) _ h₄ in
      move_row-InPhase id (r.phase == target && r.last_error_code == some code) updated
        (λ p. p == TransferPhase.running) (stop_row target updated code) target s r (λ x e. e)
        (==-refl target) (λ e. (&&-eq-true (r.phase == target) _ e).0) v
        (require_transfer-ok u s.transfers id h₅) h₆

  complete_over-InPhase :
      (id : ℕ) (mutation : Text) (c : TransferCompletion) (s : SyncStore) (r : TransferRecord)
      (state : Option LocalMutationState) {o : TransferCompletionOutcome} {s' : SyncStore}
      → IsValid s
      → find (has_id id) s.transfers ≡ some r
      → complete_over id mutation c s r state ≡ ok (o, s')
      → InPhase id TransferPhase.completed s'
  unfolding complete_over completed_row
  complete_over-InPhase id mutation c s r state {o} {s'} v f h =
      elim (Bool-cases (r.phase == TransferPhase.completed)) [
        | inl e ↦
            let same = complete_again-same c s r state (rw (e, if◌then◌else◌) at h) in
            subst (λ x. InPhase id TransferPhase.completed x) same (r, f, e)
        | inr e ↦
            let (one, rows) =
              complete_open-rows id mutation c s r state (rw (e, if◌then◌else◌) at h) in
            (
              completed_row c r,
              ap (find (has_id id)) rows
                  ∙ find-update_one (has_id id) (λ x. is_publishable x.phase) (completed_row c)
                      (λ x g. g) s.transfers r f (v.ids id) one,
              refl,
            )
      ]

  pub complete-InPhase :
      (uuid_text : ℕ → Text) (id : ℕ) (c : TransferCompletion) (s : SyncStore)
      {o : TransferCompletionOutcome} {s' : SyncStore}
      → IsValid s
      → complete_verified_transfer u uuid_text id c s ≡ ok (o, s')
      → InPhase id TransferPhase.completed s'
  unfolding complete_verified_transfer
  complete-InPhase uuid_text id c s v h =
      let h₁ = (>>-ok (fail_if (id == 0) Error.transfer_not_found) _ h).1 in
      let h₂ = (>>-ok (validate_completion c) _ h₁).1 in
      let (r, h₃, h₄) = >>=-ok (require_transfer u s.transfers id) _ h₂ in
      let (state, h₅, h₆) = >>=-ok (active_transfer_mutation_state s (uuid_text id)) _ h₄ in
      complete_over-InPhase id (uuid_text id) c s r state v
        (require_transfer-ok u s.transfers id h₃) h₆
