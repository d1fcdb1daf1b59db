-- ===== src/Transfer/Worker/Good.antt =====
-- Every branch of a round of the worker is good: proofs.
use my_vault.Transfer.Worker.Trace.{StoreCall, traced, settles, IsSafe, outcomes, Settled, Good}
use my_vault.Transfer.Worker.Trace.StoreCall.{
  claim, begin, complete, retry, offline, auth, reconcile,
}
use my_vault.Base.{
  ℕ, ◌+◌, ◌≤◌, ◌<◌, ◌^◌, max, ◌≡◌, refl, true, List, [], ◌∷◌, Option, none, some, arith, ◌≢◌, All,
  if◌then◌else◌, nat_eq, list_beq_iff, ap, Bool-cases, inl, inr,
}
use my_vault.Base.Results.{Result, ok, err}
use my_vault.Text.{codes}
use my_vault.Transfer.Intent.{
  Error, TransferIntent, VerifiedTransfer, matches, ExecutionFailureKind, ExecutionFailure,
}
use my_vault.Transfer.Backoff.{checked_add_ms, retry_delay_bounds}
use my_vault.Transfer.Worker.{
  TransferStore, Execution, publish, finish, WorkOutcome, Worker, run_execution, then_ok, then_hold,
  retry_at, rate_limit_delay, handle_kind, handle_failure, dispose, after_execution, after_claim,
  run_once_with_completion_clock, note_error,
}

pub rate_limit_bounds :
    (id attempt : ℕ) (asked : Option ℕ)
    → (1000 ≤ rate_limit_delay id attempt asked) × (rate_limit_delay id attempt asked ≤ 900000)
unfolding rate_limit_delay
rate_limit_bounds id attempt none = omega arith
rate_limit_bounds id attempt (some millis) = omega arith

checked_add_ms_lem :
    (now d : ℕ) {next : ℕ} → checked_add_ms now d ≡ ok next → (next ≡ now + d) × (next < 2 ^ 64)
unfolding checked_add_ms
checked_add_ms_lem now d h = ground arith

Settled-one : (o : WorkOutcome) → o ≢ WorkOutcome.idle → Settled (ok o) (o ∷ [])
Settled-one WorkOutcome.idle n = absurd (n refl)
Settled-one _ n = refl

module _ {S E : Type 0} (P : StoreCall → Type 0) (w : Worker (List StoreCall × S) E)
    (calls : All P w.store.0) (fresh : outcomes w.store.0 ≡ []) where
  -- One settling call ends a round well.
  pub then_ok-Good :
      (c : StoreCall) (o : WorkOutcome) (r : Result Unit Error) (s : S)
      → settles c ≡ some o
      → o ≢ WorkOutcome.idle
      → P c
      → Good P (then_ok w (r, (c ∷ w.store.0, s)) o)
  unfolding then_ok
  then_ok-Good c o (ok _) s e n p = record {
    calls = (p, calls);
    settled = rw (e, fresh) (Settled-one o n);
  }
  then_ok-Good c o (err x) s e n p = record {
    calls = (p, calls);
    settled = rw (e, fresh) (omega arith);
  }

  pub then_hold-Good :
      (c : StoreCall) (id : ℕ) (r : Result Unit Error) (s : S)
      → settles c ≡ some (WorkOutcome.auth_required id)
      → P c
      → Good P (then_hold w (r, (c ∷ w.store.0, s)) id)
  unfolding then_hold
  then_hold-Good c id (ok _) s e p = record { calls = (p, calls); settled = rw (e, fresh) refl }
  then_hold-Good c id (err x) s e p = record {
    calls = (p, calls);
    settled = rw (e, fresh) (omega arith);
  }

  pub retry_at-Good :
      (n : Result ℕ Error) (c : ℕ → StoreCall) (call : ℕ → S → Result Unit Error × S) (id : ℕ)
      → ((next : ℕ) → settles (c next) ≡ some (WorkOutcome.retry_scheduled id))
      → ((next : ℕ) → n ≡ ok next → P (c next))
      → Good P (retry_at n (λ next x. let (r, s) = call next x.1 in (r, (c next ∷ x.0, s))) id w)
  unfolding retry_at
  retry_at-Good (err e) c call id es p = record { calls = calls; settled = rw fresh (omega arith) }
  retry_at-Good (ok next) c call id es p =
      let (r, s) = call next w.store.1 in
      then_ok-Good (c next) (WorkOutcome.retry_scheduled id) r s (es next) (λ e. cc) (p next refl)

pub matches_lem :
    (v : VerifiedTransfer) (i : TransferIntent)
    → matches v i ≡ true
    → (v.operation_id ≡ i.operation_id) × (v.sha256_hex ≡ i.sha256_hex) × (v.byte_len ≡ i.byte_len)
unfolding matches
matches_lem v i h = ground (arith, list_beq_iff v.sha256_hex i.sha256_hex)

module _ {S E : Type 0} (st : TransferStore S) (i : TransferIntent) (cutoff now : ℕ)
    (w : Worker (List StoreCall × S) E) (calls : All (IsSafe i cutoff now) w.store.0)
    (fresh : outcomes w.store.0 ≡ []) where
  handle_kind-Good :
      (kind : ExecutionFailureKind) (f : ExecutionFailure)
      → Good
          (IsSafe i cutoff now)
          (handle_kind (traced st) kind i.operation_id now i.attempt_count f w)
  unfolding handle_kind
  handle_kind-Good ExecutionFailureKind.auth_required f =
      then_hold-Good _ w calls fresh (auth i.operation_id f.code now) i.operation_id _ _ refl
        (refl, refl)
  handle_kind-Good ExecutionFailureKind.offline f =
      retry_at-Good _ w calls fresh _ (λ next. offline i.operation_id next f.code)
        (λ next. st.pause_offline i.operation_id next f.code) i.operation_id (λ next. refl)
        (λ next e. let (sum, fits) = checked_add_ms_lem now 1000 e in (refl, sum, fits))
  handle_kind-Good ExecutionFailureKind.rate_limited f =
      retry_at-Good _ w calls fresh _ (λ next. retry i.operation_id next f.code)
        (λ next. st.schedule_retry i.operation_id next f.code) i.operation_id (λ next. refl)
        (λ next e. (
          refl,
          omega (
            arith,
            checked_add_ms_lem now _ e,
            rate_limit_bounds i.operation_id i.attempt_count f.retry_after,
          ),
          omega (
            arith,
            checked_add_ms_lem now _ e,
            rate_limit_bounds i.operation_id i.attempt_count f.retry_after,
          ),
          (checked_add_ms_lem now _ e).1,
        ))
  handle_kind-Good ExecutionFailureKind.transient_safe f =
      retry_at-Good _ w calls fresh _ (λ next. retry i.operation_id next f.code)
        (λ next. st.schedule_retry i.operation_id next f.code) i.operation_id (λ next. refl)
        (λ next e. (
          refl,
          omega (
            arith,
            checked_add_ms_lem now _ e,
            retry_delay_bounds i.operation_id i.attempt_count,
          ),
          omega (
            arith,
            checked_add_ms_lem now _ e,
            retry_delay_bounds i.operation_id i.attempt_count,
          ),
          (checked_add_ms_lem now _ e).1,
        ))
  handle_kind-Good _ f =
      then_ok-Good _ w calls fresh (reconcile i.operation_id f.code now) _ _ _ refl (λ e. cc)
        (refl, refl)

  dispose-Good :
      (r : Result VerifiedTransfer ExecutionFailure)
      → Good (IsSafe i cutoff now) (dispose (traced st) r i now w)
  unfolding dispose handle_failure
  dispose-Good (err f) = handle_kind-Good f.kind f
  dispose-Good (ok v) = elim (Bool-cases (matches v i)) [
    | inl same ↦
        let (id, sha, size) = matches_lem v i same in
        rw (same, if◌then◌else◌)
          (then_ok-Good _ w calls fresh (complete v now) _ _ _
            (ap (λ (n : ℕ). some (WorkOutcome.completed n)) id) (λ e. cc) (id, sha, size, refl))
    | inr other ↦
        rw (other, if◌then◌else◌)
          (then_ok-Good _ w calls fresh
            (reconcile i.operation_id (codes "verified_evidence_mismatch") now) _ _ _ refl (λ e. cc)
            (refl, refl))
  ]

module _ {S E : Type 0} (st : TransferStore S) where
  run_execution-All :
      (P : StoreCall → Type 0) (id cutoff : ℕ) (x : Execution E) (calls : List StoreCall) (s : S)
      (g : Option Error)
      → P (begin id cutoff)
      → All P calls
      → All P (run_execution (traced st) id cutoff x (calls, s) g).2.0
  unfolding run_execution
  run_execution-All P id cutoff (finish r e) calls s g p h = h
  run_execution-All P id cutoff (publish k) calls s g p h =
      let (r, s') = st.begin_local_publish id cutoff s in
      run_execution-All P id cutoff (k r) (begin id cutoff ∷ calls) s' (note_error r g) p (p, h)

  outcomes-run_execution :
      (id cutoff : ℕ) (x : Execution E) (calls : List StoreCall) (s : S) (g : Option Error)
      → outcomes (run_execution (traced st) id cutoff x (calls, s) g).2.0 ≡ outcomes calls
  unfolding run_execution
  outcomes-run_execution id cutoff (finish r e) calls s g = refl
  outcomes-run_execution id cutoff (publish k) calls s g =
      let (r, s') = st.begin_local_publish id cutoff s in
      outcomes-run_execution id cutoff (k r) (begin id cutoff ∷ calls) s' (note_error r g)

  after_execution-Good :
      (x : Result VerifiedTransfer ExecutionFailure × E × (List StoreCall × S) × Option Error)
      (i : TransferIntent) (cutoff now : ℕ) (w : Worker (List StoreCall × S) E)
      → All (IsSafe i cutoff now) x.2.0
      → outcomes x.2.0 ≡ []
      → Good (IsSafe i cutoff now) (after_execution (traced st) x i now w)
  unfolding after_execution
  after_execution-Good (r, e, s, some error) i cutoff now w calls fresh = record {
    calls = calls;
    settled = rw fresh (omega arith);
  }
  after_execution-Good (r, e, s, none) i cutoff now w calls fresh =
      dispose-Good st i cutoff now (record w { store = s; executor = e }) calls fresh r

  pub run_once_Good :
      (execute : E → TransferIntent → Execution E) (cutoff clock : ℕ) (executor : E) (s : S)
      (i : TransferIntent)
      → (st.claim_due cutoff s).0 ≡ ok (some i)
      → Good (IsSafe i cutoff (max clock cutoff)) (
          run_once_with_completion_clock
            (traced st)
            execute
            cutoff
            clock
            (record { store = ([], s); executor = executor; auth_refresh_required = none }))
  unfolding run_once_with_completion_clock
  run_once_Good execute cutoff clock executor s i e =
      rw (e, after_claim)
        (let s' = (st.claim_due cutoff s).1 in
          after_execution-Good _ i cutoff (max clock cutoff) _
            (run_execution-All _ i.operation_id cutoff (execute executor i) (claim cutoff ∷ []) s'
              none (refl, refl) (refl, tt))
            (outcomes-run_execution i.operation_id cutoff (execute executor i) (claim cutoff ∷ [])
              s' none))
