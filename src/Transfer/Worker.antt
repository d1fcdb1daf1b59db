-- ===== src/Transfer/Worker.antt =====
-- `Worker`, the traits `TransferStore` and `TransferExecutor` (crates/myvault-transfer/src/lib.rs).
-- A store is a record of its operations on a state; what it does is a parameter.
pub mod Trace
pub mod Good
pub mod Rounds
mod Tests
use my_vault.Base.{ℕ, max, Option, none, some, ltb, if◌then◌else◌, min}
use my_vault.Base.Results.{Result, ok, err}
use my_vault.Text.{Text, codes}
use my_vault.Transfer.Intent.{
  Error, TransferIntent, VerifiedTransfer, matches, ExecutionFailureKind, ExecutionFailure,
}
use my_vault.Transfer.Backoff.{
  base_backoff_ms, max_backoff_ms, u64_max, retry_delay_ms, checked_add_ms,
}

-- The trait: each method returns its result and the store's next state.
pub record TransferStore (S : Type 0) : Type 0 where
  pub claim_due : ℕ → S → Result (Option TransferIntent) Error × S
  pub begin_local_publish : ℕ → ℕ → S → Result Unit Error × S
  pub complete_verified : VerifiedTransfer → ℕ → S → Result Unit Error × S
  pub schedule_retry : ℕ → ℕ → Text → S → Result Unit Error × S
  pub pause_offline : ℕ → ℕ → Text → S → Result Unit Error × S
  pub mark_auth_required : ℕ → Text → ℕ → S → Result Unit Error × S
  pub mark_needs_reconcile : ℕ → Text → ℕ → S → Result Unit Error × S

-- One execution as its caller sees it: the executor may call `before_local_publish` any number of
-- times, reading each result, and then finishes with its outcome and its own next state.
pub data Execution (E : Type 0) : Type 0 where
  publish : (Result Unit Error → Execution E) → Execution E
  finish : Result VerifiedTransfer ExecutionFailure → E → Execution E

pub data WorkOutcome : Type 0 where
  idle : WorkOutcome
  completed retry_scheduled auth_required needs_reconcile : ℕ → WorkOutcome

pub record Worker (S E : Type 0) : Type 0 where
  pub store : S
  pub executor : E
  pub auth_refresh_required : Option ℕ

-- `if let Err(error) = result { gate_error = Some(error); }`
abbrev pub note_error : Result Unit Error → Option Error → Option Error
note_error (ok _) gate_error = gate_error
note_error (err e) gate_error = some e

-- The delay of a rate-limited retry: `clamp(BASE_BACKOFF_MS, MAX_BACKOFF_MS)` of what the
-- provider asked for, where that fits a `u64`, and else of the backoff.
unfoldable pub rate_limit_delay : ℕ → ℕ → Option ℕ → ℕ
rate_limit_delay id attempt none =
    max base_backoff_ms (min (retry_delay_ms id attempt) max_backoff_ms)
rate_limit_delay id attempt (some millis) =
    let requested = if ltb u64_max millis then retry_delay_ms id attempt else millis in
    max base_backoff_ms (min requested max_backoff_ms)

module _ {S E : Type 0} where
  -- `store.call(..)?; Ok(outcome)`
  unfoldable pub then_ok :
      Worker S E → Result Unit Error × S → WorkOutcome → Result WorkOutcome Error × Worker S E
  then_ok w (ok _, s) outcome = (ok outcome, record w { store = s })
  then_ok w (err e, s) outcome = (err e, record w { store = s })

  -- The same, and the worker holds the operation until its token is refreshed.
  unfoldable pub then_hold :
      Worker S E → Result Unit Error × S → ℕ → Result WorkOutcome Error × Worker S E
  then_hold w (ok _, s) id =
      (ok (WorkOutcome.auth_required id), record w { store = s; auth_refresh_required = some id })
  then_hold w (err e, s) id = (err e, record w { store = s })

  -- `let next = checked_add_ms(now, delay)?; store.call(next)?; Ok(RetryScheduled(id))`
  unfoldable pub retry_at :
      Result ℕ Error
      → (ℕ → S → Result Unit Error × S)
      → ℕ
      → Worker S E
      → Result WorkOutcome Error × Worker S E
  unfolding then_ok
  retry_at (ok next) call id w = then_ok w (call next w.store) (WorkOutcome.retry_scheduled id)
  retry_at (err e) call id w = (err e, w)

module _ {S E : Type 0} (st : TransferStore S) where
  -- The execution, with its calls of the gate made on the store.
  unfoldable pub run_execution :
      ℕ
      → ℕ
      → Execution E
      → S
      → Option Error
      → Result VerifiedTransfer ExecutionFailure × E × S × Option Error
  run_execution id cutoff (finish r e) s gate_error = (r, e, s, gate_error)
  run_execution id cutoff (publish k) s gate_error =
      let (r, s') = st.begin_local_publish id cutoff s in
      run_execution id cutoff (k r) s' (note_error r gate_error)

  unfoldable pub handle_kind :
      ExecutionFailureKind
      → ℕ
      → ℕ
      → ℕ
      → ExecutionFailure
      → Worker S E
      → Result WorkOutcome Error × Worker S E
  unfolding then_ok then_hold retry_at
  handle_kind ExecutionFailureKind.auth_required id now attempt f w =
      then_hold w (st.mark_auth_required id f.code now w.store) id
  handle_kind ExecutionFailureKind.offline id now attempt f w =
      retry_at (checked_add_ms now base_backoff_ms) (λ next. st.pause_offline id next f.code) id w
  handle_kind ExecutionFailureKind.rate_limited id now attempt f w =
      retry_at (checked_add_ms now (rate_limit_delay id attempt f.retry_after))
        (λ next. st.schedule_retry id next f.code) id w
  handle_kind ExecutionFailureKind.transient_safe id now attempt f w =
      retry_at (checked_add_ms now (retry_delay_ms id attempt))
        (λ next. st.schedule_retry id next f.code) id w
  handle_kind _ id now attempt f w =
      then_ok w (st.mark_needs_reconcile id f.code now w.store) (WorkOutcome.needs_reconcile id)

  unfoldable pub handle_failure :
      ℕ → ℕ → ℕ → ExecutionFailure → Worker S E → Result WorkOutcome Error × Worker S E
  unfolding handle_kind
  handle_failure id now attempt f w = handle_kind f.kind id now attempt f w

  -- `match execution`, at the completion time `now`
  unfoldable pub dispose :
      Result VerifiedTransfer ExecutionFailure
      → TransferIntent
      → ℕ
      → Worker S E
      → Result WorkOutcome Error × Worker S E
  unfolding handle_failure then_ok matches
  dispose (ok v) i now w =
      if matches v i
      then then_ok w (st.complete_verified v now w.store) (WorkOutcome.completed i.operation_id)
      else then_ok w
          (st.mark_needs_reconcile i.operation_id (codes "verified_evidence_mismatch") now w.store)
          (WorkOutcome.needs_reconcile i.operation_id)
  dispose (err f) i now w = handle_failure i.operation_id now i.attempt_count f w

  -- After the execution: an error of the gate ends the call before any disposition.
  unfoldable pub after_execution :
      Result VerifiedTransfer ExecutionFailure × E × S × Option Error
      → TransferIntent
      → ℕ
      → Worker S E
      → Result WorkOutcome Error × Worker S E
  unfolding dispose
  after_execution (r, e, s, some error) i now w = (err error, record w { store = s; executor = e })
  after_execution (r, e, s, none) i now w = dispose r i now (record w { store = s; executor = e })

  unfoldable pub after_claim :
      (E → TransferIntent → Execution E)
      → ℕ
      → ℕ
      → Worker S E
      → Result (Option TransferIntent) Error × S
      → Result WorkOutcome Error × Worker S E
  unfolding after_execution run_execution
  after_claim execute cutoff clock w (err e, s) = (err e, record w { store = s })
  after_claim execute cutoff clock w (ok none, s) = (ok WorkOutcome.idle, record w { store = s })
  after_claim execute cutoff clock w (ok (some i), s) =
      after_execution (run_execution i.operation_id cutoff (execute w.executor i) s none) i
        (max clock cutoff) w

  unfoldable pub unless_held :
      Option ℕ
      → (E → TransferIntent → Execution E)
      → ℕ
      → ℕ
      → Worker S E
      → Result WorkOutcome Error × Worker S E
  unfolding after_claim
  unless_held (some _) execute cutoff clock w = (ok WorkOutcome.idle, w)
  unless_held none execute cutoff clock w =
      after_claim execute cutoff clock w (st.claim_due cutoff w.store)

  -- `clock` is what the completion clock says if it is read.
  unfoldable pub run_once_with_completion_clock :
      (E → TransferIntent → Execution E)
      → ℕ
      → ℕ
      → Worker S E
      → Result WorkOutcome Error × Worker S E
  unfolding unless_held
  run_once_with_completion_clock execute cutoff clock w =
      unless_held w.auth_refresh_required execute cutoff clock w

  unfoldable pub run_once :
      (E → TransferIntent → Execution E) → ℕ → Worker S E → Result WorkOutcome Error × Worker S E
  unfolding run_once_with_completion_clock
  run_once execute now w = run_once_with_completion_clock execute now now w
