-- ===== src/Transfer/Worker/Trace.antt =====
-- What a worker asks of its store in one round: any store, with its calls recorded.
use my_vault.Base.{
  ℕ, ◌+◌, ◌≤◌, ◌<◌, ◌^◌, ◌≡◌, List, [], ◌∷◌, Option, none, some, length, All, nat_eq,
}
use my_vault.Base.Results.{Result, ok, err}
use my_vault.Text.{Text}
use my_vault.Transfer.Intent.{Error, TransferIntent, VerifiedTransfer}
use my_vault.Transfer.Worker.{TransferStore, WorkOutcome, Worker}

pub data StoreCall : Type 0 where
  claim : ℕ → StoreCall
  begin : ℕ → ℕ → StoreCall
  complete : VerifiedTransfer → ℕ → StoreCall
  retry offline : ℕ → ℕ → Text → StoreCall
  auth reconcile : ℕ → Text → ℕ → StoreCall

-- The store with its calls recorded, the latest first.
abbrev pub traced : {S : Type 0} → TransferStore S → TransferStore (List StoreCall × S)
traced st = record {
  claim_due = λ now x. let (r, s) = st.claim_due now x.1 in (r, (claim now ∷ x.0, s));
  begin_local_publish =
      λ id now x. let (r, s) = st.begin_local_publish id now x.1 in (r, (begin id now ∷ x.0, s));
  complete_verified =
      λ v now x. let (r, s) = st.complete_verified v now x.1 in (r, (complete v now ∷ x.0, s));
  schedule_retry = λ id next code x.
      let (r, s) = st.schedule_retry id next code x.1 in (r, (retry id next code ∷ x.0, s));
  pause_offline = λ id next code x.
      let (r, s) = st.pause_offline id next code x.1 in (r, (offline id next code ∷ x.0, s));
  mark_auth_required = λ id code now x.
      let (r, s) = st.mark_auth_required id code now x.1 in (r, (auth id code now ∷ x.0, s));
  mark_needs_reconcile = λ id code now x.
      let (r, s) = st.mark_needs_reconcile id code now x.1 in (r, (reconcile id code now ∷ x.0, s));
}

-- The calls that settle an operation, with the outcome that each stands for.
abbrev pub settles : StoreCall → Option WorkOutcome
settles (claim now) = none
settles (begin id now) = none
settles (complete v now) = some (WorkOutcome.completed v.operation_id)
settles (retry id next code) = some (WorkOutcome.retry_scheduled id)
settles (offline id next code) = some (WorkOutcome.retry_scheduled id)
settles (auth id code now) = some (WorkOutcome.auth_required id)
settles (reconcile id code now) = some (WorkOutcome.needs_reconcile id)

-- A call that the round of intent `i` may make, where `now` is its completion time.
abbrev pub IsSafe : TransferIntent → ℕ → ℕ → StoreCall → Type 0
IsSafe i cutoff now (claim t) = t ≡ cutoff
IsSafe i cutoff now (begin id t) = (id ≡ i.operation_id) × (t ≡ cutoff)
IsSafe i cutoff now (complete v t) =
    (v.operation_id ≡ i.operation_id)
    × (v.sha256_hex ≡ i.sha256_hex)
    × (v.byte_len ≡ i.byte_len)
    × (t ≡ now)
IsSafe i cutoff now (retry id next code) =
    (id ≡ i.operation_id) × (now + 1000 ≤ next) × (next ≤ now + 900000) × (next < 2 ^ 64)
IsSafe i cutoff now (offline id next code) =
    (id ≡ i.operation_id) × (next ≡ now + 1000) × (next < 2 ^ 64)
IsSafe i cutoff now (auth id code t) = (id ≡ i.operation_id) × (t ≡ now)
IsSafe i cutoff now (reconcile id code t) = (id ≡ i.operation_id) × (t ≡ now)

-- The outcomes that a trace stands for, the latest first.
abbrev cons_some : Option WorkOutcome → List WorkOutcome → List WorkOutcome
cons_some none os = os
cons_some (some o) os = o ∷ os

abbrev pub outcomes : List StoreCall → List WorkOutcome
outcomes [] = []
outcomes (c ∷ cs) = cons_some (settles c) (outcomes cs)

-- A round reports what it settled: nothing when idle, else exactly one outcome; a round that fails
-- has settled at most once.
abbrev pub Settled : Result WorkOutcome Error → List WorkOutcome → Type 0
Settled (ok WorkOutcome.idle) os = os ≡ []
Settled (ok o) os = os ≡ o ∷ []
Settled (err e) os = length os ≤ 1

-- What is known of a round: its calls satisfy `P`, and it reports what it settled.
pub record Good {S E : Type 0} (P : StoreCall → Type 0)
    (x : Result WorkOutcome Error × Worker (List StoreCall × S) E) : Type 0 where
  pub calls : All P x.1.store.0
  pub settled : Settled x.0 (outcomes x.1.store.0)
