-- ===== src/Transfer/Worker/Rounds.antt =====
-- What one round of the worker does to its store, and what an expired token does to later rounds.
use my_vault.Base.{ℕ, max, ◌≡◌, refl, List, [], ◌∷◌, Option, none, some, arith, All}
use my_vault.Base.Results.{Result, ok, err}
use my_vault.Transfer.Intent.{Error, TransferIntent, VerifiedTransfer, ExecutionFailure}
use my_vault.Transfer.Worker.{
  TransferStore, Execution, WorkOutcome, Worker, run_execution, unless_held, dispose,
  after_execution, after_claim, run_once_with_completion_clock,
}
use my_vault.Transfer.Worker.Good.{run_once_Good}
use my_vault.Transfer.Worker.Trace.{StoreCall, traced, IsSafe}

module _ {S E : Type 0} (st : TransferStore S) (execute : E → TransferIntent → Execution E) where
  -- The worker with nothing recorded yet and no refresh pending.
  abbrev pub recording : E → S → Worker (List StoreCall × S) E
  recording executor s = record {
    store = ([], s);
    executor = executor;
    auth_refresh_required = none;
  }

  -- Every call that a round makes of its store, whatever the store answers and the executor does,
  -- is safe for the intent `i` that it claimed: it claims at the cutoff; it names only the
  -- operation of `i`; it completes only evidence with the identity, the digest and the length of
  -- `i`; a retry lies 1 s to 900 s, an offline pause 1 s after the completion time, within a u64;
  -- and the completion time is never before the cutoff.
  pub run_once_calls-IsSafe :
      (cutoff clock : ℕ) (executor : E) (s : S) (i : TransferIntent)
      → (st.claim_due cutoff s).0 ≡ ok (some i)
      → All
          (IsSafe i cutoff (max clock cutoff))
          (run_once_with_completion_clock
            (traced st)
            execute
            cutoff
            clock
            (recording executor s)).1.store.0
  run_once_calls-IsSafe cutoff clock executor s i e =
      (run_once_Good st execute cutoff clock executor s i e).calls

  -- Rounds at the given cutoffs and clocks, whatever each returns.
  abbrev pub rounds : List (ℕ × ℕ) → Worker S E → Worker S E
  rounds [] w = w
  rounds ((cutoff, clock) ∷ later) w =
      rounds later (run_once_with_completion_clock st execute cutoff clock w).1

  held_round :
      (w : Worker S E) (id cutoff clock : ℕ)
      → w.auth_refresh_required ≡ some id
      → run_once_with_completion_clock st execute cutoff clock w ≡ (ok WorkOutcome.idle, w)
  unfolding run_once_with_completion_clock
  held_round w id cutoff clock e = ground arith

  held_rounds :
      (w : Worker S E) (id : ℕ) (later : List (ℕ × ℕ))
      → w.auth_refresh_required ≡ some id
      → rounds later w ≡ w
  held_rounds w id [] e = refl
  held_rounds w id ((cutoff, clock) ∷ later) e =
      rw (held_round w id cutoff clock e) (held_rounds w id later e)

  dispose-holds :
      (r : Result VerifiedTransfer ExecutionFailure) (i : TransferIntent) (now : ℕ) (w : Worker S E)
      (id : ℕ)
      → (dispose st r i now w).0 ≡ ok (WorkOutcome.auth_required id)
      → (dispose st r i now w).1.auth_refresh_required ≡ some id
  unfolding dispose
  dispose-holds r i now w id h = ground arith

  after_execution-holds :
      (x : Result VerifiedTransfer ExecutionFailure × E × S × Option Error) (i : TransferIntent)
      (now : ℕ) (w : Worker S E) (id : ℕ)
      → (after_execution st x i now w).0 ≡ ok (WorkOutcome.auth_required id)
      → (after_execution st x i now w).1.auth_refresh_required ≡ some id
  unfolding after_execution
  after_execution-holds (r, e, s, some error) i now w id h = cc
  after_execution-holds (r, e, s, none) i now w id h =
      dispose-holds r i now (record w { store = s; executor = e }) id h

  after_claim-holds :
      (cutoff clock : ℕ) (w : Worker S E) (x : Result (Option TransferIntent) Error × S) (id : ℕ)
      → (after_claim st execute cutoff clock w x).0 ≡ ok (WorkOutcome.auth_required id)
      → (after_claim st execute cutoff clock w x).1.auth_refresh_required ≡ some id
  unfolding after_claim
  after_claim-holds cutoff clock w (err e, s) id h = cc
  after_claim-holds cutoff clock w (ok none, s) id h = cc
  after_claim-holds cutoff clock w (ok (some i), s) id h =
      after_execution-holds (run_execution st i.operation_id cutoff (execute w.executor i) s none) i
        (max clock cutoff) w id h

  unless_held-holds :
      (cutoff clock : ℕ) (o : Option ℕ) (w : Worker S E) (id : ℕ)
      → (unless_held st o execute cutoff clock w).0 ≡ ok (WorkOutcome.auth_required id)
      → (unless_held st o execute cutoff clock w).1.auth_refresh_required ≡ some id
  unfolding unless_held
  unless_held-holds cutoff clock (some _) w id h = cc
  unless_held-holds cutoff clock none w id h =
      after_claim-holds cutoff clock w (st.claim_due cutoff w.store) id h

  -- Once a round reports that the credential of operation `id` expired, the worker names `id` as
  -- waiting for a refresh, and no later round, at any cutoff and clock, changes the worker or its
  -- store.
  pub auth_required_holds :
      (cutoff clock : ℕ) (w : Worker S E) (id : ℕ) (later : List (ℕ × ℕ))
      → (run_once_with_completion_clock st execute cutoff clock w).0
        ≡ ok (WorkOutcome.auth_required id)
      → let w' = (run_once_with_completion_clock st execute cutoff clock w).1 in
        (w'.auth_refresh_required ≡ some id) × (rounds later w' ≡ w')
  unfolding run_once_with_completion_clock
  auth_required_holds cutoff clock w id later h =
      let held = unless_held-holds cutoff clock w.auth_refresh_required w id h in
      (held, held_rounds _ id later held)
