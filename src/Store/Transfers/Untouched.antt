-- ===== src/Store/Transfers/Untouched.antt =====
-- Steps that leave the tables of transfers as they are
-- (crates/myvault-sync-engine/src/store.rs).
use my_vault.Base.{
  nat_eq, list_eq, option_eq, ℕ, ◌≡◌, sym, ap, ◌∙◌, subst, false, ◌&&◌, List, [], ◌∷◌, ◌++◌, Option,
  none, some, ◌==◌, find, any, is_some_and, Bool-cases, inl, inr, if◌then◌else◌,
}
use my_vault.Base.Results.{ok, ok-injective, >>-ok, >>=-ok}
use my_vault.Text.{Text, codes}
use my_vault.Text.Unicode.{Unicode}
use my_vault.Store.Validators.{Error, u64_to_i64}
use my_vault.Store.Table.{count, update, update_one}
use my_vault.Store.Transfers.Record.{direction_eq, phase_eq, TransferRecord, TransferCompletion}
use my_vault.Store.Transfers.Queue.{SyncStore, TransferHistory, ChangeBatch, LocalMutationState}
use my_vault.Store.Transfers.Completion.{
  local_state_eq, move_mutation, commit_in, commit_transfer_mutation, is_base_of, based_entry,
  update_remote_base_if_present, completed_row, commit_if_applying,
}
use my_vault.Store.Transfers.Verified.{not_pending}
use my_vault.Store.Transfers.Change.{
  Change, Adds, kept, added, extended, moved, finished, has_id, has_marker, completes, history_of,
}

-- Two states that agree on the tables of transfers.
pub record SameTransfers (s s' : SyncStore) : Type 0 where
  pub rows : s'.transfers ≡ s.transfers
  pub history : s'.transfer_history ≡ s.transfer_history

pub SameTransfers-refl : (s s' : SyncStore) → s ≡ s' → SameTransfers s s'
SameTransfers-refl s s' e = record {
  rows = ap (λ (x : SyncStore). x.transfers) (sym e);
  history = ap (λ (x : SyncStore). x.transfer_history) (sym e);
}

pub move_mutation-SameTransfers :
    (batch : ℕ) (mutation : Text) (from to : LocalMutationState) (s : SyncStore) {s' : SyncStore}
    → move_mutation batch mutation from to s ≡ ok s'
    → SameTransfers s s'
unfolding move_mutation
move_mutation-SameTransfers batch mutation from to s {s'} h =
    let (rows, h₁, h₂) =
      >>=-ok
        (update_one (λ m. m.batch_id == batch && m.mutation_id == mutation && m.state == from)
          (λ m. record m { state = to }) Error.invalid_state_transition s.change_batch_mutations)
        _ h in
    let e : record s { change_batch_mutations = rows } ≡ s' = ok-injective h₂ in
    record {
      rows = ap (λ (x : SyncStore). x.transfers) (sym e);
      history = ap (λ (x : SyncStore). x.transfer_history) (sym e);
    }

pub update_remote_base-SameTransfers :
    (t : TransferRecord) (c : TransferCompletion) (s : SyncStore) {s' : SyncStore}
    → update_remote_base_if_present t c s ≡ ok s'
    → SameTransfers s s'
unfolding update_remote_base_if_present
update_remote_base-SameTransfers t c s {s'} h =
    elim (Bool-cases (any (λ e. e.file_id == c.remote_file_id) s.remote_entries)) [
      | inl e ↦
          let h₁ = (>>-ok (u64_to_i64 t.byte_length) _ (rw (e, if◌then◌else◌) at h)).1 in
          let (entries, h₂, h₃) =
            >>=-ok
              (update_one (is_base_of t c) (based_entry t c) Error.transfer_change_mismatch
                s.remote_entries)
              _ h₁ in
          let e₁ : record s { remote_entries = entries } ≡ s' = ok-injective h₃ in
          record {
            rows = ap (λ (x : SyncStore). x.transfers) (sym e₁);
            history = ap (λ (x : SyncStore). x.transfer_history) (sym e₁);
          }
      | inr e ↦ SameTransfers-refl s s' (ok-injective (rw (e, if◌then◌else◌) at h))
    ]

commit_in-SameTransfers :
    (mutation : Text) (s : SyncStore) (batch : Option ChangeBatch) {s' : SyncStore}
    → commit_in mutation s batch ≡ ok s'
    → SameTransfers s s'
unfolding commit_in
commit_in-SameTransfers mutation s none h = absurd cc
commit_in-SameTransfers mutation s (some b) h =
    move_mutation-SameTransfers b.batch_id mutation LocalMutationState.applying
      LocalMutationState.committed s h

pub commit_if_applying-SameTransfers :
    (mutation : Text) (state : Option LocalMutationState) (s : SyncStore) {s' : SyncStore}
    → commit_if_applying mutation state s ≡ ok s'
    → SameTransfers s s'
unfolding commit_if_applying commit_transfer_mutation
commit_if_applying-SameTransfers mutation state s {s'} h =
    elim (Bool-cases (is_some_and state (λ m. m == LocalMutationState.applying))) [
      | inl e ↦ commit_in-SameTransfers mutation s s.change_batch (rw (e, if◌then◌else◌) at h)
      | inr e ↦ SameTransfers-refl s s' (ok-injective (rw (e, if◌then◌else◌) at h))
    ]

pub not_pending-same :
    (t : TransferRecord) (s : SyncStore) (state : Option LocalMutationState) {s' : SyncStore}
    → not_pending t s state ≡ ok s'
    → SameTransfers s s'
unfolding not_pending
not_pending-same t s (some LocalMutationState.applying) {s'} h =
    elim (Bool-cases (t.last_error_code == some (codes "reconcile_requested"))) [
      | inl e ↦ SameTransfers-refl s s' (ok-injective (rw (e, if◌then◌else◌) at h))
      | inr e ↦ absurd cc
    ]
not_pending-same t s (some LocalMutationState.needs_reconcile) h = absurd cc
not_pending-same t s (some LocalMutationState.committed) h = absurd cc
not_pending-same t s (some LocalMutationState.pending) h = absurd cc
not_pending-same t s none h = absurd cc

pub same_then_Change :
    (u : Unicode) (s s₁ s' : SyncStore) → SameTransfers s s₁ → Change u s₁ s' → Change u s s'
same_then_Change u s s₁ s' e (kept a b) = kept (a ∙ e.rows) (b ∙ e.history)
same_then_Change u s s₁ s' e (added t v n m a b) =
    added t v (subst (λ rows. find (has_id t.operation_id) rows ≡ none) e.rows n)
      (subst (λ rows. any (has_marker t.operation_marker) rows ≡ false) e.rows m)
      (a ∙ ap (λ (rows : List TransferRecord). rows ++ t ∷ []) e.rows) (b ∙ e.history)
same_then_Change u s s₁ s' e (extended ts n a b) =
    extended ts (subst (λ rows. Adds u rows ts) e.rows n)
      (a ∙ ap (λ (rows : List TransferRecord). rows ++ ts) e.rows) (b ∙ e.history)
same_then_Change u s s₁ s' e (moved p f q a b) =
    moved p f q (a ∙ ap (update p f) e.rows) (b ∙ e.history)
same_then_Change u s s₁ s' e (finished id c r n m o h a b) =
    finished id c r (subst (λ rows. find (has_id id) rows ≡ some r) e.rows n) m
      (subst (λ rows. count (completes id) rows ≡ 1) e.rows o)
      (subst (λ (hs : List TransferHistory). any (λ x. x.operation_id == id) hs ≡ false) e.history
        h)
      (a ∙ ap (update (completes id) (completed_row c)) e.rows)
      (b ∙ ap (λ (hs : List TransferHistory). hs ++ history_of id c ∷ []) e.history)
