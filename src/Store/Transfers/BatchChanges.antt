-- ===== src/Store/Transfers/BatchChanges.antt =====
-- A page of changes as a change of the tables of transfers
-- (crates/myvault-sync-engine/src/store.rs).
use my_vault.Base.{
  nat_eq, list_eq, option_eq, ℕ, ◌≡◌, sym, ap, ◌∙◌, subst, false, not, ◌&&◌, ◌||◌, List, [], ◌∷◌,
  ◌++◌, Option, none, some, ltb, ◌==◌, ◌!=◌, any, find, is_some, is_none, length, ◌⊎◌, inl, inr,
}
use my_vault.Base.Results.{ok, fail_if, fail_if-ok, ok-injective, >>-ok, >>=-ok}
use my_vault.Text.{Text}
use my_vault.Text.Unicode.{Unicode}
use my_vault.Store.Validators.{Error, validate_remote_token}
use my_vault.Store.Transfers.Record.{
  direction_eq, phase_eq, TransferDirection, TransferPhase, TransferRecord, same_registration,
  validate_new_transfer,
}
use my_vault.Store.Transfers.Queue.{SyncStore, require_state, load_transfer}
use my_vault.Store.Transfers.Completion.{load_change_batch}
use my_vault.Store.Transfers.Pages.{RemoteChange}
use my_vault.Store.Transfers.Batches.{
  max_scan_page_entries, is_ready, register_in_over, register_transfer_in_transaction,
  declare_mutation, validate_changes, validate_downloads, validate_resolved_transfer_changes,
  upsert_all, register_downloads, begin_transfer_change_batch,
}
use my_vault.Store.Transfers.Change.{
  Change, Adds, extended, has_id, has_marker, append_assoc, append_nil, load_transfer-none,
}
use my_vault.Store.Transfers.Untouched.{SameTransfers, SameTransfers-refl}

-- A transfer that goes into the table, new.
record IsNew (t : TransferRecord) (s s' : SyncStore) : Type 0 where
  id : find (has_id t.operation_id) s.transfers ≡ none
  marker : any (has_marker t.operation_marker) s.transfers ≡ false
  rows : s'.transfers ≡ s.transfers ++ t ∷ []
  history : s'.transfer_history ≡ s.transfer_history

declare_mutation-SameTransfers :
    (batch : ℕ) (mutation : Text) (s : SyncStore) {s' : SyncStore}
    → declare_mutation batch mutation s ≡ ok s'
    → SameTransfers s s'
unfolding declare_mutation
declare_mutation-SameTransfers batch mutation s {s'} h =
    let k =
      (>>-ok
        (fail_if
          (any (λ m. m.batch_id == batch && m.mutation_id == mutation) s.change_batch_mutations)
          Error.database)
        _ h).1 in
    let e = ok-injective k in
    record {
      rows = ap (λ (x : SyncStore). x.transfers) (sym e);
      history = ap (λ (x : SyncStore). x.transfer_history) (sym e);
    }

-- What a run of registrations adds.
record IsExtended (u : Unicode) (s s' : SyncStore) : Type 0 where
  news : List TransferRecord
  adds : Adds u s.transfers news
  rows : s'.transfers ≡ s.transfers ++ news
  history : s'.transfer_history ≡ s.transfer_history

module _ (u : Unicode) where
  register_in_over-IsNew :
      (t : TransferRecord) (s : SyncStore) (existing : Option TransferRecord) {s' : SyncStore}
      → load_transfer u s.transfers t.operation_id ≡ ok existing
      → register_in_over t s existing ≡ ok s'
      → SameTransfers s s' ⊎ IsNew t s s'
  unfolding register_in_over
  register_in_over-IsNew t s (some r) {s'} l h =
      let k =
        (>>-ok
          (fail_if (not (same_registration r t) || r.phase == TransferPhase.completed)
            Error.transfer_collision)
          _ h).1 in
      inl (SameTransfers-refl s s' (ok-injective k))
  register_in_over-IsNew t s none {s'} l h =
      let (g, k) =
        >>-ok (fail_if (any (has_marker t.operation_marker) s.transfers) Error.transfer_collision) _
          h in
      let e : record s { transfers = s.transfers ++ t ∷ [] } ≡ s' = ok-injective k in
      inr (record {
        id = load_transfer-none u s.transfers t.operation_id l;
        marker =
            fail_if-ok (any (has_marker t.operation_marker) s.transfers) Error.transfer_collision g;
        rows = ap (λ (x : SyncStore). x.transfers) (sym e);
        history = ap (λ (x : SyncStore). x.transfer_history) (sym e);
      })

  register_in-IsNew :
      (t : TransferRecord) (s : SyncStore) {s' : SyncStore}
      → register_transfer_in_transaction u t s ≡ ok s'
      → SameTransfers s s' ⊎ IsNew t s s'
  unfolding register_transfer_in_transaction
  register_in-IsNew t s h =
      let (existing, l, k) = >>=-ok (load_transfer u s.transfers t.operation_id) _ h in
      register_in_over-IsNew t s existing l k

  extend_by :
      (t : TransferRecord) (s s₁ s₂ s' : SyncStore)
      → validate_new_transfer u t ≡ ok tt
      → SameTransfers s s₁ ⊎ IsNew t s s₁
      → SameTransfers s₁ s₂
      → IsExtended u s₂ s'
      → IsExtended u s s'
  extend_by t s s₁ s₂ s' w (inl same) d e =
      let rows : s₂.transfers ≡ s.transfers = d.rows ∙ same.rows in
      record {
        news = e.news;
        adds = subst (λ x. Adds u x e.news) rows e.adds;
        rows = e.rows ∙ ap (λ (x : List TransferRecord). x ++ e.news) rows;
        history = e.history ∙ d.history ∙ same.history;
      }
  extend_by t s s₁ s₂ s' w (inr new) d e =
      let rows : s₂.transfers ≡ s.transfers ++ t ∷ [] = d.rows ∙ new.rows in
      record {
        news = t ∷ e.news;
        adds = (w, new.id, new.marker, subst (λ x. Adds u x e.news) rows e.adds);
        rows =
            e.rows
            ∙ ap (λ (x : List TransferRecord). x ++ e.news) rows
            ∙ append_assoc s.transfers t e.news;
        history = e.history ∙ d.history ∙ new.history;
      }

module _ (u : Unicode) (uuid_text : ℕ → Text) where
  register_downloads-IsExtended :
      (batch : ℕ) (downloads : List TransferRecord) (s : SyncStore) {s' : SyncStore}
      → validate_downloads u downloads ≡ ok tt
      → register_downloads u uuid_text batch downloads s ≡ ok s'
      → IsExtended u s s'
  unfolding register_downloads validate_downloads
  register_downloads-IsExtended batch [] s {s'} v h =
      let e : s ≡ s' = ok-injective h in
      let same = SameTransfers-refl s s' e in
      record {
        news = [];
        adds = tt;
        rows = same.rows ∙ sym (append_nil s.transfers);
        history = same.history;
      }
  register_downloads-IsExtended batch (t ∷ downloads) s {s'} v h =
      let (w, v₁) = >>-ok (validate_new_transfer u t) _ v in
      let v₂ =
        (>>-ok
          (fail_if (t.direction != TransferDirection.download || is_none t.expected_remote_revision)
            Error.transfer_change_mismatch)
          _ v₁).1 in
      let (s₁, h₁, k₁) = >>=-ok (register_transfer_in_transaction u t s) _ h in
      let (s₂, h₂, k₂) = >>=-ok (declare_mutation batch (uuid_text t.operation_id) s₁) _ k₁ in
      extend_by u t s s₁ s₂ s' w (register_in-IsNew u t s h₁)
        (declare_mutation-SameTransfers batch (uuid_text t.operation_id) s₁ h₂)
        (register_downloads-IsExtended batch downloads s₂ v₂ k₂)

  pub begin_transfer_change_batch-Change :
      (batch : ℕ) (expected next : Text) (changes : List RemoteChange)
      (downloads : List TransferRecord) (s : SyncStore) {s' : SyncStore}
      → begin_transfer_change_batch u uuid_text batch expected next changes downloads s ≡ ok s'
      → Change u s s'
  unfolding begin_transfer_change_batch
  begin_transfer_change_batch-Change batch expected next changes downloads s h =
      let h₁ = (>>-ok (fail_if (batch == 0) Error.invalid_state_transition) _ h).1 in
      let h₂ = (>>-ok (validate_remote_token expected) _ h₁).1 in
      let h₃ = (>>-ok (validate_remote_token next) _ h₂).1 in
      let h₄ =
        (>>-ok (fail_if (ltb max_scan_page_entries (length changes)) Error.invalid_remote_entry) _
          h₃).1 in
      let h₅ = (>>-ok (validate_changes u changes) _ h₄).1 in
      let (v, h₆) = >>-ok (validate_downloads u downloads) _ h₅ in
      let (state, _, h₇) = >>=-ok (require_state s) _ h₆ in
      let h₈ =
        (>>-ok
          (fail_if (not (is_ready state.phase) || state.durable_cursor != some expected)
            Error.cursor_mismatch)
          _ h₇).1 in
      let (active, _, h₉) = >>=-ok (load_change_batch s) _ h₈ in
      let h₁₀ = (>>-ok (fail_if (is_some active) Error.batch_already_active) _ h₉).1 in
      let h₁₁ =
        (>>-ok (validate_resolved_transfer_changes u s.remote_entries changes downloads) _ h₁₀).1 in
      let (entries, _, h₁₂) = >>=-ok (upsert_all u changes s.remote_entries) _ h₁₁ in
      let e = register_downloads-IsExtended batch downloads _ v h₁₂ in
      extended e.news e.adds e.rows e.history
