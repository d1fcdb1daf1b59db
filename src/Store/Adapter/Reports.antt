-- ===== src/Store/Adapter/Reports.antt =====
-- What a report of the worker rests on: the worker of crates/myvault-transfer/src/lib.rs on the durable store of
-- crates/myvault-sync-engine/src/store.rs: one lemma for each way in which
-- a call ends.
use my_vault.Base.{nat_eq, list_eq, ℕ, ◌≡◌, refl, ap, subst}
use my_vault.Base.Results.{Result, ok, err, ok-injective}
use my_vault.Transfer.Intent.{Error}
use my_vault.Transfer.Worker.{Worker, WorkOutcome, then_ok, then_hold, retry_at}
use my_vault.Store.Validators as Validators
use my_vault.Store.Transfers.Record.{TransferPhase}
use my_vault.Store.Transfers.Queue.{SyncStore}
use my_vault.Store.Transfers.Completion.{TransferCompletionOutcome}
use my_vault.Store.Transfers.Invariant.{IsValid}
use my_vault.Store.Adapter.{stored, complete_stored}
use my_vault.Store.Adapter.Phases.{InPhase}

-- The store holds the transfer of the outcome in the phase that the outcome names.
abbrev pub HoldsOutcome : WorkOutcome → SyncStore → Type 0
HoldsOutcome WorkOutcome.idle s = Unit
HoldsOutcome (WorkOutcome.completed id) s = InPhase id TransferPhase.completed s
HoldsOutcome (WorkOutcome.retry_scheduled id) s = InPhase id TransferPhase.retry_scheduled s
HoldsOutcome (WorkOutcome.auth_required id) s = InPhase id TransferPhase.auth_required s
HoldsOutcome (WorkOutcome.needs_reconcile id) s = InPhase id TransferPhase.needs_reconcile s

abbrev pub Recorded : WorkOutcome → SyncStore → Type 0
Recorded o s = HoldsOutcome o s × IsValid s

module _ {E : Type 0} where
  pub report :
      (o o' : WorkOutcome) (w w' : Worker SyncStore E)
      → ◌≡◌ {A = Result WorkOutcome Error × Worker SyncStore E} (ok o, w) (ok o', w')
      → Recorded o w.store
      → Recorded o' w'.store
  report o o' w w' h r =
      subst (λ x. Recorded x w'.store)
        (ok-injective (ap (λ (x : Result WorkOutcome Error × Worker SyncStore E). x.0) h))
        (subst (λ (x : Worker SyncStore E). Recorded o x.store)
          (ap (λ (x : Result WorkOutcome Error × Worker SyncStore E). x.1) h) r)

  pub no_report :
      {X : Type 0} (e : Error) (o : WorkOutcome) (w w' : Worker SyncStore E)
      → ◌≡◌ {A = Result WorkOutcome Error × Worker SyncStore E} (err e, w) (ok o, w')
      → X
  no_report e o w w' h =
      let e₁ : ◌≡◌ {A = Result WorkOutcome Error} (err e) (ok o) =
        ap (λ (x : Result WorkOutcome Error × Worker SyncStore E). x.0) h in
      absurd cc

  pub then_ok-Recorded :
      (w : Worker SyncStore E) (m : Result SyncStore Validators.Error) (s : SyncStore)
      (outcome o : WorkOutcome) (w' : Worker SyncStore E)
      → ((s' : SyncStore) → m ≡ ok s' → Recorded outcome s')
      → then_ok w (stored m s) outcome ≡ (ok o, w')
      → Recorded o w'.store
  unfolding then_ok
  then_ok-Recorded w (ok s') s outcome o w' r h = report outcome o _ w' h (r s' refl)
  then_ok-Recorded w (err e) s outcome o w' r h = no_report Error.store o _ w' h

  pub then_hold-Recorded :
      (w : Worker SyncStore E) (m : Result SyncStore Validators.Error) (s : SyncStore) (id : ℕ)
      (o : WorkOutcome) (w' : Worker SyncStore E)
      → ((s' : SyncStore) → m ≡ ok s' → Recorded (WorkOutcome.auth_required id) s')
      → then_hold w (stored m s) id ≡ (ok o, w')
      → Recorded o w'.store
  unfolding then_hold
  then_hold-Recorded w (ok s') s id o w' r h =
      report (WorkOutcome.auth_required id) o _ w' h (r s' refl)
  then_hold-Recorded w (err e) s id o w' r h = no_report Error.store o _ w' h

  pub retry_at-Recorded :
      (next : Result ℕ Error) (call : ℕ → SyncStore → Result SyncStore Validators.Error) (id : ℕ)
      (w : Worker SyncStore E) (o : WorkOutcome) (w' : Worker SyncStore E)
      → ((at : ℕ) (s' : SyncStore)
          → call at w.store ≡ ok s'
          → Recorded (WorkOutcome.retry_scheduled id) s')
      → retry_at next (λ at s. stored (call at s) s) id w ≡ (ok o, w')
      → Recorded o w'.store
  unfolding retry_at
  retry_at-Recorded (ok at) call id w o w' r h =
      then_ok-Recorded w (call at w.store) w.store (WorkOutcome.retry_scheduled id) o w' (r at) h
  retry_at-Recorded (err e) call id w o w' r h = no_report e o w w' h

  pub complete_stored-Recorded :
      (w : Worker SyncStore E) (m : Result (TransferCompletionOutcome × SyncStore) Validators.Error)
      (s : SyncStore) (outcome o : WorkOutcome) (w' : Worker SyncStore E)
      → ((x : TransferCompletionOutcome) (s' : SyncStore) → m ≡ ok (x, s') → Recorded outcome s')
      → then_ok w (complete_stored s m) outcome ≡ (ok o, w')
      → Recorded o w'.store
  unfolding then_ok complete_stored
  complete_stored-Recorded w (ok (x, s')) s outcome o w' r h = report outcome o _ w' h (r x s' refl)
  complete_stored-Recorded w (err e) s outcome o w' r h = no_report Error.store o _ w' h
