-- ===== src/Store/Transfers/Change.antt =====
-- What an operation does to the tables: nothing, a new row, quiet steps of some rows, or the
-- completion of one row (crates/myvault-sync-engine/src/store.rs).
use my_vault.Base.{
  nat_eq, list_eq, option_eq, ℕ, ◌≡◌, refl, sym, ap, ◌∙◌, subst, Bool, true, false, ◌&&◌, List, [],
  ◌∷◌, ◌++◌, none, some, ◌==◌, find, any, Option-cases, inl, inr, &&-eq-true, ltb,
}
use my_vault.Base.Results.{ok, err, fail_if, ok-injective, guarded-ok, ◌>>=◌, >>=-ok}
use my_vault.Text.{Text}
use my_vault.Text.Unicode.{Unicode}
use my_vault.Store.Validators.{Error, u32_max}
use my_vault.Store.Table.{count, update, update_one, update_one-ok}
use my_vault.Store.Transfers.Record.{
  phase_eq, TransferRecord, TransferCompletion, validate, validate_new_transfer, row_to_transfer,
}
use my_vault.Store.Transfers.Queue.{
  SyncStore, TransferHistory, load_transfer, require_transfer, found_transfer,
}
use my_vault.Store.Transfers.Moves.{is_publishable, update_transfer}
use my_vault.Store.Transfers.Completion.{completed_row, may_complete}
use my_vault.Store.Transfers.Steps.{QuietStep}

-- The rows that the test picks make a quiet step.
abbrev pub Quiet : (TransferRecord → Bool) → (TransferRecord → TransferRecord) → Type 0
Quiet p f = (r : TransferRecord) → p r ≡ true → QuietStep r (f r)

-- The row that a completion changes.
abbrev pub completes : ℕ → TransferRecord → Bool
completes id r = r.operation_id == id && is_publishable r.phase

abbrev pub has_id : ℕ → TransferRecord → Bool
has_id id r = r.operation_id == id

abbrev pub has_marker : Text → TransferRecord → Bool
has_marker marker r = r.operation_marker == marker

abbrev pub history_of : ℕ → TransferCompletion → TransferHistory
history_of id c = record {
  operation_id = id;
  outcome_code = c.outcome_code;
  occurred_at_unix_ms = c.occurred_at_unix_ms;
}

-- Rows that go in one after the other, each new, with its own id and marker.
abbrev pub Adds : Unicode → List TransferRecord → List TransferRecord → Type 0
Adds u rows [] = Unit {0}
Adds u rows (t ∷ ts) =
    (validate_new_transfer u t ≡ ok tt)
    × (find (has_id t.operation_id) rows ≡ none)
    × (any (has_marker t.operation_marker) rows ≡ false)
    × Adds u (rows ++ t ∷ []) ts

pub data Change (u : Unicode) (s s' : SyncStore) : Type 0 where
  kept : s'.transfers ≡ s.transfers → s'.transfer_history ≡ s.transfer_history → Change u s s'
  added :
      (t : TransferRecord)
      → validate_new_transfer u t ≡ ok tt
      → find (has_id t.operation_id) s.transfers ≡ none
      → any (has_marker t.operation_marker) s.transfers ≡ false
      → s'.transfers ≡ s.transfers ++ t ∷ []
      → s'.transfer_history ≡ s.transfer_history
      → Change u s s'
  extended :
      (ts : List TransferRecord)
      → Adds u s.transfers ts
      → s'.transfers ≡ s.transfers ++ ts
      → s'.transfer_history ≡ s.transfer_history
      → Change u s s'
  moved :
      (p : TransferRecord → Bool) (f : TransferRecord → TransferRecord)
      → Quiet p f
      → s'.transfers ≡ update p f s.transfers
      → s'.transfer_history ≡ s.transfer_history
      → Change u s s'
  finished :
      (id : ℕ) (c : TransferCompletion) (r : TransferRecord)
      → find (has_id id) s.transfers ≡ some r
      → may_complete c r ≡ true
      → count (completes id) s.transfers ≡ 1
      → any (λ h. h.operation_id == id) s.transfer_history ≡ false
      → s'.transfers ≡ update (completes id) (completed_row c) s.transfers
      → s'.transfer_history ≡ s.transfer_history ++ history_of id c ∷ []
      → Change u s s'

pub append_nil : (rows : List TransferRecord) → rows ++ [] ≡ rows
append_nil [] = refl
append_nil (r ∷ rows) = ap (λ x. r ∷ x) (append_nil rows)

pub append_assoc :
    (rows : List TransferRecord) (t : TransferRecord) (ts : List TransferRecord)
    → (rows ++ t ∷ []) ++ ts ≡ rows ++ t ∷ ts
append_assoc [] t ts = refl
append_assoc (r ∷ rows) t ts = ap (λ x. r ∷ x) (append_assoc rows t ts)

-- A loaded row is the stored one.
pub row_to_transfer-ok :
    (u : Unicode) (row : TransferRecord) {r : TransferRecord}
    → row_to_transfer u row ≡ ok r
    → r ≡ row
unfolding row_to_transfer
row_to_transfer-ok u row h =
    guarded-ok (fail_if (ltb u32_max row.attempt_count) Error.invalid_schema) (validate u row) row h

pub load_transfer-none :
    (u : Unicode) (rows : List TransferRecord) (id : ℕ)
    → load_transfer u rows id ≡ ok none
    → find (has_id id) rows ≡ none
unfolding load_transfer
load_transfer-none u rows id h = elim (Option-cases (find (has_id id) rows)) [
  | inl e ↦ e
  | inr (r, e) ↦
      let (a, h₁, h₂) = >>=-ok (row_to_transfer u r) (λ x. ok (some x)) (rw e at h) in absurd cc
]

pub require_transfer-ok :
    (u : Unicode) (rows : List TransferRecord) (id : ℕ) {r : TransferRecord}
    → require_transfer u rows id ≡ ok r
    → find (has_id id) rows ≡ some r
unfolding require_transfer load_transfer found_transfer
require_transfer-ok u rows id {r} h = elim (Option-cases (find (has_id id) rows)) [
  | inl e ↦ let e₁ : err Error.transfer_not_found ≡ ok r = rw e at h in absurd cc
  | inr (x, e) ↦
      let (a, h₁, h₂) =
        >>=-ok (row_to_transfer u x >>= λ y. ok (some y)) found_transfer (rw e at h) in
      let (b, h₃, h₄) = >>=-ok (row_to_transfer u x) (λ y. ok (some y)) h₁ in
      let e₁ : some b ≡ a = ok-injective h₄ in
      let e₂ : found_transfer (some b) ≡ ok r = subst (λ y. found_transfer y ≡ ok r) (sym e₁) h₂ in
      e ∙ ap some (sym (row_to_transfer-ok u x h₃) ∙ ok-injective e₂)
]

-- The `UPDATE` of one row by its id, whose rows make quiet steps.
pub update_transfer-Change :
    (u : Unicode) (id : ℕ) (allowed : TransferRecord → Bool) (f : TransferRecord → TransferRecord)
    (s : SyncStore) {s' : SyncStore}
    → Quiet allowed f
    → update_transfer id allowed f s ≡ ok s'
    → Change u s s'
unfolding update_transfer
update_transfer-Change u id allowed f s {s'} q h =
    let (rows, h₁, h₂) =
      >>=-ok
        (update_one (λ r. r.operation_id == id && allowed r) f Error.invalid_state_transition
          s.transfers)
        (λ rows. ok (record s { transfers = rows })) h in
    let (h₃, h₄) = update_one-ok _ f Error.invalid_state_transition s.transfers h₁ in
    let e : record s { transfers = rows } ≡ s' = ok-injective h₂ in
    let e₁ : s'.transfers ≡ rows = ap (λ (x : SyncStore). x.transfers) (sym e) in
    moved (λ r. r.operation_id == id && allowed r) f
      (λ r e₂. q r (&&-eq-true (r.operation_id == id) (allowed r) e₂).1) (e₁ ∙ h₄)
      (ap (λ (x : SyncStore). x.transfer_history) (sym e))
