-- ===== src/Store/Transfers/Claims.antt =====
-- Registrations and claims as changes of the tables
-- (crates/myvault-sync-engine/src/store.rs).
use my_vault.Base.{
  nat_eq, list_eq, option_eq, ℕ, ◌≡◌, sym, ap, ◌∙◌, subst, Bool, not, ◌&&◌, List, [], ◌∷◌, ◌++◌,
  Option, none, some, ◌==◌, any, &&-eq-true,
}
use my_vault.Base.Results.{ok, fail_if, fail_if-ok, ok-injective, >>-ok, >>=-ok}
use my_vault.Text.Unicode.{Unicode}
use my_vault.Store.Validators.{Error, u64_to_i64}
use my_vault.Store.Table.{count, update, update_one, update_one-ok}
use my_vault.Store.Transfers.Record.{
  direction_eq, phase_eq, TransferRecord, row_to_transfer, validate_new_transfer, same_registration,
}
use my_vault.Store.Transfers.Queue.{
  SyncStore, TransferRegistrationOutcome, load_transfer, require_state, is_claimable, running_at,
  first_due, claim_loaded, claim_row, claim_next_transfer, register_transfer, register_over,
}
use my_vault.Store.Transfers.Completion.{local_state_eq}
use my_vault.Store.Transfers.Change.{
  Change, kept, added, moved, has_marker, row_to_transfer-ok, load_transfer-none,
}
use my_vault.Store.Transfers.Untouched.{SameTransfers-refl}
use my_vault.Store.Transfers.Quiet.{running_at-QuietStep}

-- A claim that returns a row has moved that row, and no other, to running.
abbrev pub claimed : ℕ → TransferRecord → Bool
claimed id r = r.operation_id == id && is_claimable r.phase

pub claim_loaded-ok :
    (now : ℕ) (s : SyncStore) (row : TransferRecord) {o : Option TransferRecord} {s' : SyncStore}
    → claim_loaded now s row ≡ ok (o, s')
    → (o ≡ some (running_at now row))
      × (s'
          ≡ record s { transfers = update (claimed row.operation_id) (running_at now) s.transfers })
      × (count (claimed row.operation_id) s.transfers ≡ 1)
unfolding claim_loaded
claim_loaded-ok now s row {o} {s'} h =
    let (rows, h₁, h₂) =
      >>=-ok
        (update_one (claimed row.operation_id) (running_at now) Error.invalid_state_transition
          s.transfers)
        _ h in
    let (one, e) =
      update_one-ok (claimed row.operation_id) (running_at now) Error.invalid_state_transition
        s.transfers h₁ in
    let e₁ : (some (running_at now row), record s { transfers = rows }) ≡ (o, s') =
      ok-injective h₂ in
    (
      ap (λ (x : Option TransferRecord × SyncStore). x.0) (sym e₁),
      ap (λ (x : Option TransferRecord × SyncStore). x.1) (sym e₁)
          ∙ ap (λ (x : List TransferRecord). record s { transfers = x }) e,
      one,
    )

module _ (u : Unicode) where
  register_over-Change :
      (t : TransferRecord) (s : SyncStore) (existing : Option TransferRecord)
      {o : TransferRegistrationOutcome} {s' : SyncStore}
      → validate_new_transfer u t ≡ ok tt
      → load_transfer u s.transfers t.operation_id ≡ ok existing
      → register_over t s existing ≡ ok (o, s')
      → Change u s s'
  unfolding register_over
  register_over-Change t s (some r) {o} {s'} v l h =
      let h₁ = (>>-ok (fail_if (not (same_registration r t)) Error.transfer_collision) _ h).1 in
      let e : s ≡ s' =
        ap (λ (x : TransferRegistrationOutcome × SyncStore). x.1) (ok-injective h₁) in
      let same = SameTransfers-refl s s' e in kept same.rows same.history
  register_over-Change t s none {o} {s'} v l h =
      let (g, h₁) =
        >>-ok (fail_if (any (has_marker t.operation_marker) s.transfers) Error.transfer_collision) _
          h in
      let e : record s { transfers = s.transfers ++ t ∷ [] } ≡ s' =
        ap (λ (x : TransferRegistrationOutcome × SyncStore). x.1) (ok-injective h₁) in
      added t v (load_transfer-none u s.transfers t.operation_id l)
        (fail_if-ok (any (has_marker t.operation_marker) s.transfers) Error.transfer_collision g)
        (ap (λ (x : SyncStore). x.transfers) (sym e))
        (ap (λ (x : SyncStore). x.transfer_history) (sym e))

  pub register_transfer-Change :
      (t : TransferRecord) (s : SyncStore) {o : TransferRegistrationOutcome} {s' : SyncStore}
      → register_transfer u t s ≡ ok (o, s')
      → Change u s s'
  unfolding register_transfer
  register_transfer-Change t s h =
      let (v, h₁) = >>-ok (validate_new_transfer u t) _ h in
      let (_, _, h₂) = >>=-ok (require_state s) _ h₁ in
      let (existing, h₃, h₄) = >>=-ok (load_transfer u s.transfers t.operation_id) _ h₂ in
      register_over-Change t s existing v h₃ h₄

  pub claim_next_transfer-ok :
      (now : ℕ) (s : SyncStore) {o : Option TransferRecord} {s' : SyncStore}
      → claim_next_transfer u now s ≡ ok (o, s')
      → claim_row u now s (first_due now s.transfers) ≡ ok (o, s')
  unfolding claim_next_transfer
  claim_next_transfer-ok now s h = (>>-ok (u64_to_i64 now) _ h).1

  pub claim_row-ok :
      (now : ℕ) (s : SyncStore) (row : TransferRecord) {o : Option TransferRecord} {s' : SyncStore}
      → claim_row u now s (some row) ≡ ok (o, s')
      → claim_loaded now s row ≡ ok (o, s')
  unfolding claim_row
  claim_row-ok now s row {o} {s'} h =
      let (t, h₁, h₂) = >>=-ok (row_to_transfer u row) (claim_loaded now s) h in
      subst (λ t. claim_loaded now s t ≡ ok (o, s')) (row_to_transfer-ok u row h₁) h₂

  claim_row-Change :
      (now : ℕ) (s : SyncStore) (row : Option TransferRecord) {o : Option TransferRecord}
      {s' : SyncStore}
      → claim_row u now s row ≡ ok (o, s')
      → Change u s s'
  unfolding claim_row
  claim_row-Change now s none {o} {s'} h =
      let e : s ≡ s' = ap (λ (x : Option TransferRecord × SyncStore). x.1) (ok-injective h) in
      let same = SameTransfers-refl s s' e in kept same.rows same.history
  claim_row-Change now s (some row) h =
      let (e, e₁, one) = claim_loaded-ok now s row (claim_row-ok now s row h) in
      moved (claimed row.operation_id) (running_at now)
        (λ r e₂.
          running_at-QuietStep now r
            (&&-eq-true (r.operation_id == row.operation_id) (is_claimable r.phase) e₂).1)
        (ap (λ (x : SyncStore). x.transfers) e₁) (ap (λ (x : SyncStore). x.transfer_history) e₁)

  pub claim_next_transfer-Change :
      (now : ℕ) (s : SyncStore) {o : Option TransferRecord} {s' : SyncStore}
      → claim_next_transfer u now s ≡ ok (o, s')
      → Change u s s'
  claim_next_transfer-Change now s h =
      claim_row-Change now s (first_due now s.transfers) (claim_next_transfer-ok now s h)
