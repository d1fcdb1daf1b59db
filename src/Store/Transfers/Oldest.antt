-- ===== src/Store/Transfers/Oldest.antt =====
-- `claim_next_transfer` takes the oldest due transfer, and only it
-- (crates/myvault-sync-engine/src/store.rs).
use mathlib.Core.List.{Mem, mem-cons_self, mem-cons_of_mem}
use my_vault.Base.{
  nat_eq, ℕ, ◌≡◌, refl, sym, ap, subst, true, false, List, [], ◌∷◌, Option, none, some,
  if◌then◌else◌, Bool-cases, inl, inr, All, unwrap_or, arith,
}
use my_vault.Base.Results.{ok, ok-injective}
use my_vault.Text.Unicode.{Unicode}
use my_vault.Store.Table.{count, update}
use my_vault.Store.Transfers.Record.{phase_eq, TransferRecord}
use my_vault.Store.Transfers.Queue.{
  SyncStore, is_due, ordered_before, earlier, first_due, running_at, claim_row, claim_next_transfer,
}
use my_vault.Store.Transfers.Claims.{claimed, claim_loaded-ok, claim_next_transfer-ok, claim_row-ok}

-- No due row of the list comes before the row.
abbrev pub IsOldest : ℕ → TransferRecord → List TransferRecord → Type 0
IsOldest now r rs = All (λ x. is_due now x ≡ true → ordered_before x r ≡ false) rs

asymmetric : (a b : TransferRecord) → ordered_before a b ≡ true → ordered_before b a ≡ false
unfolding ordered_before
asymmetric a b h = ground arith

irreflexive : (a : TransferRecord) → ordered_before a a ≡ false
unfolding ordered_before
irreflexive a = ground arith

not_before_trans :
    (x r q : TransferRecord)
    → ordered_before x q ≡ false
    → ordered_before q r ≡ false
    → ordered_before x r ≡ false
unfolding ordered_before
not_before_trans x r q h k = ground arith

IsOldest-weaken :
    (now : ℕ) (r q : TransferRecord) (rs : List TransferRecord)
    → ordered_before q r ≡ false
    → IsOldest now q rs
    → IsOldest now r rs
IsOldest-weaken now r q [] h a = tt
IsOldest-weaken now r q (x ∷ rs) h (a, rest) =
    (λ d. not_before_trans x r q (a d) h, IsOldest-weaken now r q rs h rest)

none_due-IsOldest :
    (now : ℕ) (r : TransferRecord) (rs : List TransferRecord)
    → All (λ x. is_due now x ≡ false) rs
    → IsOldest now r rs
none_due-IsOldest now r [] a = tt
none_due-IsOldest now r (x ∷ rs) (a, rest) = (λ d. absurd cc, none_due-IsOldest now r rs rest)

pub first_due-none :
    (now : ℕ) (rs : List TransferRecord)
    → first_due now rs ≡ none
    → All (λ x. is_due now x ≡ false) rs
unfolding first_due
first_due-none now [] h = tt
first_due-none now (r ∷ rs) h = elim (Bool-cases (is_due now r)) [
  | inl e ↦
      let e₁ : some (earlier r (first_due now rs)) ≡ none = rw (e, if◌then◌else◌) at h in absurd cc
  | inr e ↦ (e, first_due-none now rs (rw (e, if◌then◌else◌) at h))
]

abbrev pub Oldest : ℕ → List TransferRecord → TransferRecord → Type 0
Oldest now rs r = Mem r rs × (is_due now r ≡ true) × IsOldest now r rs

earlier_first : (x q : TransferRecord) → ordered_before q x ≡ true → earlier x (some q) ≡ q
unfolding earlier
earlier_first x q b = rw (b, if◌then◌else◌) refl

earlier_second : (x q : TransferRecord) → ordered_before q x ≡ false → earlier x (some q) ≡ x
unfolding earlier
earlier_second x q b = rw (b, if◌then◌else◌) refl

earlier-Oldest :
    (now : ℕ) (x : TransferRecord) (rs : List TransferRecord) (rest : Option TransferRecord)
    → is_due now x ≡ true
    → first_due now rs ≡ rest
    → ((q : TransferRecord) → rest ≡ some q → Oldest now rs q)
    → Oldest now (x ∷ rs) (earlier x rest)
unfolding earlier
earlier-Oldest now x rs none d e h =
    (mem-cons_self, d, (λ b. irreflexive x, none_due-IsOldest now x rs (first_due-none now rs e)))
earlier-Oldest now x rs (some q) d e h =
    let (m, due, old) = h q refl in
    elim (Bool-cases (ordered_before q x)) [
      | inl b ↦
          subst (λ y. Oldest now (x ∷ rs) y) (sym (earlier_first x q b))
            (mem-cons_of_mem x m, due, (λ k. asymmetric q x b, old))
      | inr b ↦
          subst (λ y. Oldest now (x ∷ rs) y) (sym (earlier_second x q b))
            (mem-cons_self, d, (λ k. irreflexive x, IsOldest-weaken now x q rs b old))
    ]

pub first_due-Oldest :
    (now : ℕ) (rs : List TransferRecord) (r : TransferRecord)
    → first_due now rs ≡ some r
    → Oldest now rs r
unfolding first_due
first_due-Oldest now [] r h = absurd cc
first_due-Oldest now (x ∷ rs) r h = elim (Bool-cases (is_due now x)) [
  | inl e ↦
      let e₁ : some (earlier x (first_due now rs)) ≡ some r = rw (e, if◌then◌else◌) at h in
      let e₂ : earlier x (first_due now rs) ≡ r =
        ap (λ (o : Option TransferRecord). unwrap_or o x) e₁ in
      subst (λ y. Oldest now (x ∷ rs) y) e₂
        (earlier-Oldest now x rs (first_due now rs) e refl (λ q k. first_due-Oldest now rs q k))
  | inr e ↦
      let (m, d, o) = first_due-Oldest now rs r (rw (e, if◌then◌else◌) at h) in
      (mem-cons_of_mem x m, d, (λ k. absurd cc, o))
]

-- What a claim at `now` returns, and the store it leaves.
abbrev pub ClaimedFrom : ℕ → SyncStore → Option TransferRecord → SyncStore → Type 0
ClaimedFrom now s none s' = All (λ x. is_due now x ≡ false) s.transfers × (s' ≡ s)
ClaimedFrom now s (some r) s' =
    (row : TransferRecord) × Oldest now s.transfers row
    × (r ≡ running_at now row)
    × (count (claimed row.operation_id) s.transfers ≡ 1)
    × (s' ≡ record s { transfers = update (claimed row.operation_id) (running_at now) s.transfers })

module _ (u : Unicode) where
  claim_row-ClaimedFrom :
      (now : ℕ) (s : SyncStore) (row : Option TransferRecord) (o : Option TransferRecord)
      (s' : SyncStore)
      → first_due now s.transfers ≡ row
      → claim_row u now s row ≡ ok (o, s')
      → ClaimedFrom now s o s'
  unfolding claim_row
  claim_row-ClaimedFrom now s none o s' e h =
      let e₁ : (none, s) ≡ (o, s') = ok-injective h in
      subst (λ (x : Option TransferRecord × SyncStore). ClaimedFrom now s x.0 x.1) e₁
        (first_due-none now s.transfers e, refl)
  claim_row-ClaimedFrom now s (some row) o s' e h =
      let (e₁, e₂, one) = claim_loaded-ok now s row (claim_row-ok u now s row h) in
      subst (λ x. ClaimedFrom now s x s') (sym e₁)
        (row, first_due-Oldest now s.transfers row e, refl, one, e₂)

  -- A claim that succeeds returns the due transfer (pending or scheduled, its next attempt not
  -- after now) that was created first, with ties broken by the operation id; that row, and no
  -- other, becomes running. It returns none exactly where no transfer is due, and then changes
  -- nothing.
  pub claim_takes_oldest :
      (now : ℕ) (s : SyncStore) (o : Option TransferRecord) (s' : SyncStore)
      → claim_next_transfer u now s ≡ ok (o, s')
      → ClaimedFrom now s o s'
  claim_takes_oldest now s o s' h =
      claim_row-ClaimedFrom now s (first_due now s.transfers) o s' refl
        (claim_next_transfer-ok u now s h)
