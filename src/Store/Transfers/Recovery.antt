-- ===== src/Store/Transfers/Recovery.antt =====
-- Reopening the store, and the counts that it reports
-- (crates/myvault-sync-engine/src/store.rs).
use my_vault.Base.{
  nat_eq, ◌+◌, ◌≡◌, refl, Bool, true, false, List, [], ◌∷◌, some, if◌then◌else◌, Bool-cases, inl,
  inr, ◌==◌, ◌!=◌, arith,
}
use my_vault.Text.{codes}
use my_vault.Store.Table.{count, update, Extends}
use my_vault.Store.Transfers.Record.{phase_eq, TransferPhase, TransferRecord}
use my_vault.Store.Transfers.Queue.{SyncStore}
use my_vault.Store.Transfers.Moves.{
  TransferSummary, transfer_summary, transfer_count, recover_interrupted_transfers, interrupted_row,
}

abbrev in_phase : TransferPhase → TransferRecord → Bool
in_phase phase r = r.phase == phase

abbrev recovered : List TransferRecord → List TransferRecord
recovered rs = update (in_phase TransferPhase.running) interrupted_row rs

running_gone :
    (rs : List TransferRecord) → count (in_phase TransferPhase.running) (recovered rs) ≡ 0
unfolding interrupted_row
running_gone [] = refl
running_gone (r ∷ rs) = let h = running_gone rs in ground (arith, h)

reconcile_gained :
    (rs : List TransferRecord)
    → count (in_phase TransferPhase.needs_reconcile) (recovered rs)
      ≡ count (in_phase TransferPhase.needs_reconcile) rs
        + count (in_phase TransferPhase.running) rs
unfolding interrupted_row
reconcile_gained [] = refl
reconcile_gained (r ∷ rs) = let h = reconcile_gained rs in ground (arith, h)

others_kept :
    (phase : TransferPhase)
    → (phase == TransferPhase.running) ≡ false
    → (phase == TransferPhase.needs_reconcile) ≡ false
    → (rs : List TransferRecord) → count (in_phase phase) (recovered rs) ≡ count (in_phase phase) rs
unfolding interrupted_row
others_kept phase a b [] = refl
others_kept phase a b (r ∷ rs) = let h = others_kept phase a b rs in ground (arith, a, b, h)

-- What the summary says after the store was reopened.
unfoldable pub interrupted_summary : TransferSummary → TransferSummary
interrupted_summary t = record t { running = 0; needs_reconcile = t.needs_reconcile + t.running }

-- A row before and after the store is reopened.
pub record IsReopened (r r' : TransferRecord) : Type 0 where
  pub interrupted :
      (r.phase == TransferPhase.running) ≡ true
      → r' ≡ record r {
        phase = TransferPhase.needs_reconcile;
        last_error_code = some (codes "interrupted_unknown_outcome");
      }
  pub untouched : (r.phase == TransferPhase.running) ≡ false → r' ≡ r

-- No row is added.
abbrev pub IsAdded : TransferRecord → Type 0
IsAdded _ = ⊥

recovered-IsReopened : (rs : List TransferRecord) → Extends IsReopened IsAdded rs (recovered rs)
unfolding interrupted_row
recovered-IsReopened [] = tt
recovered-IsReopened (r ∷ rs) = (
  elim (Bool-cases (in_phase TransferPhase.running r)) [
    | inl e ↦ rw (e, if◌then◌else◌) (record { interrupted = λ _. refl; untouched = λ n. absurd cc })
    | inr e ↦ rw (e, if◌then◌else◌) (record { interrupted = λ y. absurd cc; untouched = λ _. refl })
  ],
  recovered-IsReopened rs,
)

-- Opening the store takes every transfer that was running, whose outcome is unknown, to
-- reconciliation with the code of an interruption and changes nothing else of it; every other
-- transfer keeps its row, none is added or lost, and the summary counts no running transfer, the
-- former ones with those that wait for reconciliation, and each other phase as before.
pub transfer_summary-recover_interrupted_transfers :
    (s : SyncStore)
    → Extends IsReopened IsAdded s.transfers (recover_interrupted_transfers s).transfers
      × (transfer_summary (recover_interrupted_transfers s)
          ≡ interrupted_summary (transfer_summary s))
unfolding transfer_summary recover_interrupted_transfers interrupted_summary
transfer_summary-recover_interrupted_transfers s =
    let rs = s.transfers in
    let a = running_gone rs in
    let b = reconcile_gained rs in
    let c = others_kept TransferPhase.pending refl refl rs in
    let d = others_kept TransferPhase.retry_scheduled refl refl rs in
    let e = others_kept TransferPhase.auth_required refl refl rs in
    let f = others_kept TransferPhase.completed refl refl rs in
    (recovered-IsReopened rs, simp (a, b, c, d, e, f))

counted :
    (rs : List TransferRecord)
    → count (λ r. r.phase != TransferPhase.completed) rs
      ≡ count (in_phase TransferPhase.pending) rs
        + count (in_phase TransferPhase.running) rs
        + count (in_phase TransferPhase.retry_scheduled) rs
        + count (in_phase TransferPhase.auth_required) rs
        + count (in_phase TransferPhase.needs_reconcile) rs
counted [] = refl
counted (r ∷ rs) = let h = counted rs in ground (arith, h)

-- The number of active transfers is the sum of the summary's five phases other than completed, and
-- reopening the store does not change it.
pub transfer_count-transfer_summary :
    (s : SyncStore)
    → (transfer_count s
        ≡ (transfer_summary s).pending
          + (transfer_summary s).running
          + (transfer_summary s).retry_scheduled
          + (transfer_summary s).auth_required
          + (transfer_summary s).needs_reconcile)
      × (transfer_count (recover_interrupted_transfers s) ≡ transfer_count s)
unfolding transfer_count transfer_summary recover_interrupted_transfers
transfer_count-transfer_summary s =
    let rs = s.transfers in
    let a = running_gone rs in
    let b = reconcile_gained rs in
    let c = others_kept TransferPhase.pending refl refl rs in
    let d = others_kept TransferPhase.retry_scheduled refl refl rs in
    let e = others_kept TransferPhase.auth_required refl refl rs in
    (counted rs, omega (arith, counted (recovered rs), counted rs, a, b, c, d, e))
