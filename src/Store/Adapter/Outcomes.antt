-- ===== src/Store/Adapter/Outcomes.antt =====
-- The worker of crates/myvault-transfer/src/lib.rs on the durable store of
-- crates/myvault-sync-engine/src/store.rs: what a call reports is what the store then holds.
use my_vault.Base.{
  nat_eq, list_eq, ℕ, max, ◌≡◌, refl, List, Option, none, some, ◌==◌, any, if◌then◌else◌,
  Bool-cases, inl, inr,
}
use my_vault.Base.Results.{Result, ok, err, ◌>>=◌}
use my_vault.Text.{Text}
use my_vault.Text.Unicode.{Unicode}
use my_vault.Transfer.Intent.{Error, TransferIntent, VerifiedTransfer, ExecutionFailure, new_intent}
use my_vault.Transfer.Worker.{
  Execution, publish, finish, Worker, WorkOutcome, note_error, run_execution, after_execution,
  after_claim, unless_held, run_once_with_completion_clock,
}
use my_vault.Store.Validators as Validators
use my_vault.Store.Transfers.Record.{TransferRecord}
use my_vault.Store.Transfers.Queue.{SyncStore, ChangeBatch, LocalMutation, claim_next_transfer}
use my_vault.Store.Transfers.Completion.{load_change_batch}
use my_vault.Store.Transfers.Verified.{begin_transfer_local_publish}
use my_vault.Store.Transfers.Claims.{claim_next_transfer-Change}
use my_vault.Store.Transfers.Commits.{begin_transfer_local_publish-Change}
use my_vault.Store.Transfers.Invariant.{IsValid, Change-IsValid}
use my_vault.Store.Adapter.{
  stored, intent_of, claimed_intent, publish_declared, publish_in, checked_mutations, sync_store,
}
use my_vault.Store.Adapter.Endings.{dispose-Recorded}
use my_vault.Store.Adapter.Reports.{Recorded, report, no_report}

module _ (u : Unicode) (uuid_text : ℕ → Text) where
  stored-IsValid :
      (m : Result SyncStore Validators.Error) (s : SyncStore)
      → ((s' : SyncStore) → m ≡ ok s' → IsValid s')
      → IsValid s
      → IsValid ((stored m s).1)
  stored-IsValid (ok s') s g v = g s' refl
  stored-IsValid (err e) s g v = v

  publish_declared-IsValid :
      (id now : ℕ) (s : SyncStore) (ms : Result (List LocalMutation) Validators.Error)
      → IsValid s
      → IsValid ((publish_declared u uuid_text id now s ms).1)
  unfolding publish_declared
  publish_declared-IsValid id now s (err e) v = v
  publish_declared-IsValid id now s (ok ms) v =
      elim (Bool-cases (any (λ m. m.mutation_id == uuid_text id) ms)) [
        | inl e ↦
            rw (e, if◌then◌else◌)
              (stored-IsValid (begin_transfer_local_publish u uuid_text id now s) s
                (λ s' h.
                  Change-IsValid u s s' (begin_transfer_local_publish-Change u uuid_text id now s h)
                    v)
                v)
        | inr e ↦ rw (e, if◌then◌else◌) v
      ]

  publish_in-IsValid :
      (id now : ℕ) (s : SyncStore) (batch : Result (Option ChangeBatch) Validators.Error)
      → IsValid s
      → IsValid ((publish_in u uuid_text id now s batch).1)
  unfolding publish_in
  publish_in-IsValid id now s (err e) v = v
  publish_in-IsValid id now s (ok none) v = v
  publish_in-IsValid id now s (ok (some b)) v =
      publish_declared-IsValid id now s (checked_mutations b.batch_id s.change_batch_mutations) v

  module _ {E : Type 0} where
    -- However often the executor publishes, the store stays well-formed.
    run_execution-IsValid :
        (id cutoff : ℕ) (x : Execution E) (s : SyncStore) (gate : Option Error)
        → IsValid s
        → IsValid ((run_execution (sync_store u uuid_text) id cutoff x s gate).2)
    unfolding run_execution sync_store
    run_execution-IsValid id cutoff (finish r e) s gate v = v
    run_execution-IsValid id cutoff (publish k) s gate v =
        let p = publish_in u uuid_text id cutoff s (load_change_batch s) in
        run_execution-IsValid id cutoff (k p.0) p.1 (note_error p.0 gate)
          (publish_in-IsValid id cutoff s (load_change_batch s) v)

    after_execution-Recorded :
        (r : Result VerifiedTransfer ExecutionFailure) (e : E) (s : SyncStore) (gate : Option Error)
        (i : TransferIntent) (now : ℕ) (w : Worker SyncStore E) (o : WorkOutcome)
        (w' : Worker SyncStore E)
        → IsValid s
        → after_execution (sync_store u uuid_text) (r, e, s, gate) i now w ≡ (ok o, w')
        → Recorded o w'.store
    unfolding after_execution
    after_execution-Recorded r e s (some error) i now w o w' v h = no_report error o _ w' h
    after_execution-Recorded r e s none i now w o w' v h =
        dispose-Recorded u uuid_text r i now (record w { store = s; executor = e }) o w' v h

    claimed-Recorded :
        (execute : E → TransferIntent → Execution E) (cutoff clock : ℕ) (w : Worker SyncStore E)
        (c : Result (Option TransferIntent) Error) (s : SyncStore) (o : WorkOutcome)
        (w' : Worker SyncStore E)
        → IsValid s
        → after_claim (sync_store u uuid_text) execute cutoff clock w (c, s) ≡ (ok o, w')
        → Recorded o w'.store
    unfolding after_claim
    claimed-Recorded execute cutoff clock w (err e) s o w' v h = no_report e o _ w' h
    claimed-Recorded execute cutoff clock w (ok none) s o w' v h =
        report WorkOutcome.idle o _ w' h (tt, v)
    claimed-Recorded execute cutoff clock w (ok (some i)) s o w' v h =
        let x =
          run_execution (sync_store u uuid_text) i.operation_id cutoff (execute w.executor i) s
            none in
        after_execution-Recorded x.0 x.1 x.2 x.3 i (max clock cutoff) w o w'
          (run_execution-IsValid i.operation_id cutoff (execute w.executor i) s none v) h

    claim_due-Recorded :
        (execute : E → TransferIntent → Execution E) (cutoff clock : ℕ) (w : Worker SyncStore E)
        (m : Result (Option TransferRecord × SyncStore) Validators.Error) (o : WorkOutcome)
        (w' : Worker SyncStore E)
        → claim_next_transfer u cutoff w.store ≡ m
        → IsValid w.store
        → after_claim (sync_store u uuid_text) execute cutoff clock w (claimed_intent w.store m)
          ≡ (ok o, w')
        → Recorded o w'.store
    unfolding claimed_intent
    claim_due-Recorded execute cutoff clock w (err e) o w' g v h =
        claimed-Recorded execute cutoff clock w (err Error.store) w.store o w' v h
    claim_due-Recorded execute cutoff clock w (ok (none, s)) o w' g v h =
        claimed-Recorded execute cutoff clock w (ok none) s o w'
          (Change-IsValid u w.store s (claim_next_transfer-Change u cutoff w.store g) v) h
    claim_due-Recorded execute cutoff clock w (ok (some r, s)) o w' g v h =
        claimed-Recorded execute cutoff clock w (new_intent (intent_of r) >>= λ i. ok (some i)) s o
          w' (Change-IsValid u w.store s (claim_next_transfer-Change u cutoff w.store g) v) h

    held-Recorded :
        (held : Option ℕ) (execute : E → TransferIntent → Execution E) (cutoff clock : ℕ)
        (w : Worker SyncStore E) (o : WorkOutcome) (w' : Worker SyncStore E)
        → IsValid w.store
        → unless_held (sync_store u uuid_text) held execute cutoff clock w ≡ (ok o, w')
        → Recorded o w'.store
    unfolding unless_held sync_store
    held-Recorded (some id) execute cutoff clock w o w' v h =
        report WorkOutcome.idle o _ w' h (tt, v)
    held-Recorded none execute cutoff clock w o w' v h =
        claim_due-Recorded execute cutoff clock w (claim_next_transfer u cutoff w.store) o w' refl v
          h

    -- On the durable store with well-formed tables, whatever the executor does, a call of the
    -- worker that reports an outcome leaves the tables well-formed, and the transfer that the
    -- outcome names stands in them, in the phase that the outcome names: completed, scheduled for a
    -- retry, waiting for authorization or waiting for reconciliation.
    pub run_once-Recorded :
        (execute : E → TransferIntent → Execution E) (cutoff clock : ℕ) (w : Worker SyncStore E)
        (o : WorkOutcome) (w' : Worker SyncStore E)
        → IsValid w.store
        → run_once_with_completion_clock (sync_store u uuid_text) execute cutoff clock w
          ≡ (ok o, w')
        → Recorded o w'.store
    unfolding run_once_with_completion_clock
    run_once-Recorded execute cutoff clock w o w' v h =
        held-Recorded w.auth_refresh_required execute cutoff clock w o w' v h
