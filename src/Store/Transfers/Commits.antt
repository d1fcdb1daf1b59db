-- ===== src/Store/Transfers/Commits.antt =====
-- Publications and completions as changes of the tables
-- (crates/myvault-sync-engine/src/store.rs).
use my_vault.Base.{
  nat_eq, list_eq, option_eq, ℕ, ◌≡◌, refl, sym, ap, ◌∙◌, subst, true, false, not, ◌&&◌, List, [],
  ◌∷◌, ◌++◌, Option, some, leb, ◌==◌, ◌!=◌, find, any, is_some, is_some_and, is_none_or, Bool-cases,
  inl, inr, if◌then◌else◌, arith,
}
use my_vault.Base.Results.{Result, ok, err, fail_if, fail_if-ok, ok-injective, >>-ok, >>=-ok}
use my_vault.Text.{Text}
use my_vault.Text.Unicode.{Unicode}
use my_vault.Store.Validators.{Error, u64_to_i64}
use my_vault.Store.Table.{count, update, update_one, update_one-ok}
use my_vault.Store.Transfers.Record.{
  direction_eq, phase_eq, TransferDirection, TransferPhase, TransferRecord, TransferCompletion,
  validate_completion,
}
use my_vault.Store.Transfers.Queue.{SyncStore, ChangeBatch, LocalMutationState, require_transfer}
use my_vault.Store.Transfers.Moves.{is_publishable, update_transfer}
use my_vault.Store.Transfers.Completion.{
  local_state_eq, load_change_batch, load_local_mutation_state, active_transfer_mutation_state,
  move_mutation, update_remote_base_if_present, TransferCompletionOutcome, same_completion,
  may_complete, completed_row, insert_history, commit_if_applying,
}
use my_vault.Store.Transfers.Verified.{
  required_batch, publish_row, publish_over, may_publish, complete_again, complete_open,
  complete_over, begin_transfer_local_publish, complete_verified_transfer,
}
use my_vault.Store.Transfers.Change.{
  Change, kept, finished, has_id, completes, history_of, require_transfer-ok,
  update_transfer-Change,
}
use my_vault.Store.Transfers.Quiet.{publish_row-QuietStep}
use my_vault.Store.Transfers.Untouched.{
  SameTransfers, SameTransfers-refl, move_mutation-SameTransfers, update_remote_base-SameTransfers,
  commit_if_applying-SameTransfers, not_pending-same, same_then_Change,
}

publish_over-Change :
    (u : Unicode) (id : ℕ) (mutation : Text) (now : ℕ) (s : SyncStore) (active : ChangeBatch)
    (t : TransferRecord) (m : Result SyncStore Error) {s' : SyncStore}
    → ((s₁ : SyncStore) → m ≡ ok s₁ → SameTransfers s s₁)
    → publish_over id mutation now s active t m ≡ ok s'
    → Change u s s'
unfolding publish_over
publish_over-Change u id mutation now s active t (ok s₁) {s'} same h =
    same_then_Change u s s₁ s' (same s₁ refl) (
      update_transfer-Change u id (λ r. is_publishable r.phase && leb r.updated_at_unix_ms now)
        (publish_row now) s₁ (publish_row-QuietStep now) h)
publish_over-Change u id mutation now s active t (err e) same h =
    let e₁ = not_pending-same t s (load_local_mutation_state s active.batch_id mutation) h in
    kept e₁.rows e₁.history

pub complete_again-same :
    (c : TransferCompletion) (s : SyncStore) (r : TransferRecord)
    (state : Option LocalMutationState) {o : TransferCompletionOutcome} {s' : SyncStore}
    → complete_again c s r state ≡ ok (o, s')
    → s ≡ s'
unfolding complete_again
complete_again-same c s r state {o} {s'} h =
    elim (Bool-cases
      (same_completion c s r && is_none_or state (λ m. m == LocalMutationState.committed))) [
        | inl e ↦
            let e₁ : (TransferCompletionOutcome.already_completed, s) ≡ (o, s') =
              ok-injective (rw (e, if◌then◌else◌) at h) in
            ap (λ (x : TransferCompletionOutcome × SyncStore). x.1) e₁
        | inr e ↦ absurd cc
      ]

-- What a first completion has passed and written.
complete_open-parts :
    (id : ℕ) (mutation : Text) (c : TransferCompletion) (s : SyncStore) (r : TransferRecord)
    (state : Option LocalMutationState) {o : TransferCompletionOutcome} {s' : SyncStore}
    → complete_open id mutation c s r state ≡ ok (o, s')
    → (may_complete c r ≡ true)
      × (count (completes id) s.transfers ≡ 1)
      × (any (λ x. x.operation_id == id) s.transfer_history ≡ false)
      × (s'.transfers ≡ update (completes id) (completed_row c) s.transfers)
      × (s'.transfer_history ≡ s.transfer_history ++ history_of id c ∷ [])
unfolding complete_open insert_history update_transfer
complete_open-parts id mutation c s r state {o} {s'} h =
    let (g₁, h₁) = >>-ok (fail_if (not (may_complete c r)) Error.invalid_state_transition) _ h in
    let may = fail_if-ok (not (may_complete c r)) Error.invalid_state_transition g₁ in
    let h₂ =
      (>>-ok
        (fail_if (is_some state && r.direction != TransferDirection.download)
          Error.transfer_change_mismatch)
        _ h₁).1 in
    let h₃ =
      (>>-ok
        (fail_if (is_some_and state (λ m. m != LocalMutationState.applying))
          Error.invalid_state_transition)
        _ h₂).1 in
    let h₄ = (>>-ok (u64_to_i64 c.occurred_at_unix_ms) _ h₃).1 in
    let (s₁, i, h₅) = >>=-ok (insert_history id c s) _ h₄ in
    let (i₁, i₂) =
      >>-ok (fail_if (any (λ x. x.operation_id == id) s.transfer_history) Error.database) _ i in
    let (s₂, m, h₆) =
      >>=-ok (update_transfer id (λ x. is_publishable x.phase) (completed_row c) s₁) _ h₅ in
    let (rows, m₁, m₂) =
      >>=-ok
        (update_one (completes id) (completed_row c) Error.invalid_state_transition s₁.transfers) _
        m in
    let (one, m₃) =
      update_one-ok (completes id) (completed_row c) Error.invalid_state_transition s₁.transfers
        m₁ in
    let (s₃, b, h₇) = >>=-ok (update_remote_base_if_present r c s₂) _ h₆ in
    let (s₄, d, h₈) = >>=-ok (commit_if_applying mutation state s₃) _ h₇ in
    let e₁ : record s { transfer_history = s.transfer_history ++ history_of id c ∷ [] } ≡ s₁ =
      ok-injective i₂ in
    let e₂ : record s₁ { transfers = rows } ≡ s₂ = ok-injective m₂ in
    let e₃ : s₄ ≡ s' = ap (λ (x : TransferCompletionOutcome × SyncStore). x.1) (ok-injective h₈) in
    let t₁ : s₁.transfers ≡ s.transfers = ap (λ (x : SyncStore). x.transfers) (sym e₁) in
    let a = update_remote_base-SameTransfers r c s₂ b in
    let z = commit_if_applying-SameTransfers mutation state s₃ d in
    let one' : count (completes id) s.transfers ≡ 1 =
      subst (λ (x : List TransferRecord). count (completes id) x ≡ 1) t₁ one in
    (
      ground (arith, may),
      one',
      (fail_if-ok (any (λ x. x.operation_id == id) s.transfer_history) Error.database i₁),
      (ap (λ (x : SyncStore). x.transfers) (sym e₃)
          ∙ z.rows
          ∙ a.rows
          ∙ ap (λ (x : SyncStore). x.transfers) (sym e₂)
          ∙ m₃
          ∙ ap (update (completes id) (completed_row c)) t₁),
      (ap (λ (x : SyncStore). x.transfer_history) (sym e₃)
          ∙ z.history
          ∙ a.history
          ∙ ap (λ (x : SyncStore). x.transfer_history) (sym e₂)
          ∙ ap (λ (x : SyncStore). x.transfer_history) (sym e₁)),
    )

complete_open-Change :
    (u : Unicode) (id : ℕ) (mutation : Text) (c : TransferCompletion) (s : SyncStore)
    (r : TransferRecord) (state : Option LocalMutationState) {o : TransferCompletionOutcome}
    {s' : SyncStore}
    → find (has_id id) s.transfers ≡ some r
    → complete_open id mutation c s r state ≡ ok (o, s')
    → Change u s s'
complete_open-Change u id mutation c s r state f h =
    let (may, one, new, rows, history) = complete_open-parts id mutation c s r state h in
    finished id c r f may one new rows history

-- The rows that a first completion leaves.
pub complete_open-rows :
    (id : ℕ) (mutation : Text) (c : TransferCompletion) (s : SyncStore) (r : TransferRecord)
    (state : Option LocalMutationState) {o : TransferCompletionOutcome} {s' : SyncStore}
    → complete_open id mutation c s r state ≡ ok (o, s')
    → (count (completes id) s.transfers ≡ 1)
      × (s'.transfers ≡ update (completes id) (completed_row c) s.transfers)
complete_open-rows id mutation c s r state h =
    let (may, one, new, rows, history) = complete_open-parts id mutation c s r state h in
    (one, rows)

pub complete_over-Change :
    (u : Unicode) (id : ℕ) (mutation : Text) (c : TransferCompletion) (s : SyncStore)
    (r : TransferRecord) (state : Option LocalMutationState) {o : TransferCompletionOutcome}
    {s' : SyncStore}
    → find (has_id id) s.transfers ≡ some r
    → complete_over id mutation c s r state ≡ ok (o, s')
    → Change u s s'
unfolding complete_over
complete_over-Change u id mutation c s r state {o} {s'} f h =
    elim (Bool-cases (r.phase == TransferPhase.completed)) [
      | inl e ↦
          let same =
            SameTransfers-refl s s'
              (complete_again-same c s r state (rw (e, if◌then◌else◌) at h)) in
          kept same.rows same.history
      | inr e ↦ complete_open-Change u id mutation c s r state f (rw (e, if◌then◌else◌) at h)
    ]

module _ (u : Unicode) (uuid_text : ℕ → Text) where
  pub begin_transfer_local_publish-Change :
      (id now : ℕ) (s : SyncStore) {s' : SyncStore}
      → begin_transfer_local_publish u uuid_text id now s ≡ ok s'
      → Change u s s'
  unfolding begin_transfer_local_publish
  begin_transfer_local_publish-Change id now s h =
      let h₁ = (>>-ok (fail_if (id == 0) Error.transfer_not_found) _ h).1 in
      let h₂ = (>>-ok (u64_to_i64 now) _ h₁).1 in
      let (batch, h₃, h₄) = >>=-ok (load_change_batch s) _ h₂ in
      let (active, h₅, h₆) = >>=-ok (required_batch batch) _ h₄ in
      let (t, h₇, h₈) = >>=-ok (require_transfer u s.transfers id) _ h₆ in
      let h₉ = (>>-ok (fail_if (not (may_publish now t)) Error.invalid_state_transition) _ h₈).1 in
      publish_over-Change u id (uuid_text id) now s active t
        (move_mutation active.batch_id (uuid_text id) LocalMutationState.pending
          LocalMutationState.applying s)
        (λ s₁ e.
          move_mutation-SameTransfers active.batch_id (uuid_text id) LocalMutationState.pending
            LocalMutationState.applying s e)
        h₉

  pub complete_verified_transfer-Change :
      (id : ℕ) (c : TransferCompletion) (s : SyncStore) {o : TransferCompletionOutcome}
      {s' : SyncStore}
      → complete_verified_transfer u uuid_text id c s ≡ ok (o, s')
      → Change u s s'
  unfolding complete_verified_transfer
  complete_verified_transfer-Change id c s h =
      let h₁ = (>>-ok (fail_if (id == 0) Error.transfer_not_found) _ h).1 in
      let h₂ = (>>-ok (validate_completion c) _ h₁).1 in
      let (r, h₃, h₄) = >>=-ok (require_transfer u s.transfers id) _ h₂ in
      let (state, h₅, h₆) = >>=-ok (active_transfer_mutation_state s (uuid_text id)) _ h₄ in
      complete_over-Change u id (uuid_text id) c s r state (require_transfer-ok u s.transfers id h₃)
        h₆
