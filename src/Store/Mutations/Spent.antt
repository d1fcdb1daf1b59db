-- ===== src/Store/Mutations/Spent.antt =====
-- A claimed mutation is never ready again (crates/myvault-sync-engine/src/store.rs).
use my_vault.Base.{
  nat_eq, ℕ, ◌+◌, ◌≤◌, ◌≡◌, ap, ◌∙◌, Bool, true, false, not, ◌&&◌, List, [], ◌∷◌, some,
  if◌then◌else◌, find, Bool-cases, inl, inr, arith,
}
use my_vault.Text.Digest.{Digest}
use my_vault.Text.Unicode.{Unicode}
use my_vault.Store.Table.{count, update}
use my_vault.Store.Table.Counts.{count-append}
use my_vault.Mutation.{phase_eq, MutationPhase, MutationState}
use my_vault.Store.Mutations.Machine.{MutationStore}
use my_vault.Store.Mutations.Transitions.{is_ready}
use my_vault.Store.Mutations.Steps.{
  of_operation, phase_follows, Write, kept, started, stepped, Writes, written, written_twice,
}
use my_vault.Store.Mutations.Operations.{MutationOp, perform, perform_all, perform-Writes}

-- The state is that of the operation and cannot be claimed.
abbrev pub is_spent : ℕ → MutationState → Bool
is_spent id r = of_operation id r && not (is_ready r.phase)

module _ {R : Type 0} where
  -- A row that is found by one test and fails a stronger one.
  pub count-find :
      (p q : R → Bool) (rs : List R) (x : R)
      → find p rs ≡ some x
      → q x ≡ false
      → count (λ r. p r && q r) rs + 1 ≤ count p rs
  count-find p q [] x h n = absurd cc
  count-find p q (r ∷ rs) x h n = elim (Bool-cases (p r)) [
    | inl e ↦
        let same : r ≡ x = some_injective (rw (e, if◌then◌else◌) at h) in
        let no : q r ≡ false = ap q same ∙ n in ground (arith, e, no, fewer rs)
    | inr e ↦
        let more = count-find p q rs x (rw (e, if◌then◌else◌) at h) n in ground (arith, e, more)
  ]
    where
      some_injective : {a b : R} → some a ≡ some b → a ≡ b
      some_injective i = cc

      fewer : (xs : List R) → count (λ y. p y && q y) xs ≤ count p xs
      fewer [] = omega arith
      fewer (y ∷ ys) = let k = fewer ys in ground (arith, k)

  pub count-found :
      (q : R → Bool) (rs : List R) (x : R) (p : R → Bool)
      → find p rs ≡ some x
      → q x ≡ true
      → 1 ≤ count q rs
  count-found q [] x p h y = absurd cc
  count-found q (r ∷ rs) x p h y = elim (Bool-cases (p r)) [
    | inl e ↦
        let same : r ≡ x = some_injective (rw (e, if◌then◌else◌) at h) in
        let yes : q r ≡ true = ap q same ∙ y in ground (arith, yes)
    | inr e ↦ let more = count-found q rs x p (rw (e, if◌then◌else◌) at h) y in ground (arith, more)
  ]
    where
      some_injective : {a b : R} → some a ≡ some b → a ≡ b
      some_injective i = cc

  count-update_more :
      (q p : R → Bool) (f : R → R)
      → ((r : R) → p r ≡ true → q r ≡ true → q (f r) ≡ true)
      → (rs : List R) → count q rs ≤ count q (update p f rs)
  count-update_more q p f k [] = omega arith
  count-update_more q p f k (r ∷ rs) =
      let more = count-update_more q p f k rs in
      elim (Bool-cases (p r)) [
        | inl e ↦ elim (Bool-cases (q r)) [
          | inl y ↦ let z = k r e y in ground (arith, e, y, z, more)
          | inr n ↦ ground (arith, e, n, more)
        ]
        | inr e ↦ ground (arith, e, more)
      ]

spent_follows : (p q : MutationPhase) → phase_follows p q ≡ true → is_ready q ≡ false
unfolding phase_follows is_ready
spent_follows p q h = ground arith

Write-spent :
    (id : ℕ) (s s' : MutationStore)
    → Write s s'
    → count (is_spent id) s.states ≤ count (is_spent id) s'.states
Write-spent id s s' (kept a b) = rw a (omega arith)
Write-spent id s s' (started r x n v p a b) =
    rw a (let h = count-append (is_spent id) s.states r in omega (arith, h))
Write-spent id s s' (stepped r r' x f m n a b) = rw a (
    count-update_more (is_spent id) _ (λ y. r')
      (λ y e k.
        let done = spent_follows r.phase r'.phase m.follows in
        let same = m.same in ground (arith, e, k, done, same))
      s.states)

Writes-spent :
    (id : ℕ) (s s' : MutationStore)
    → Writes s s'
    → count (is_spent id) s.states ≤ count (is_spent id) s'.states
Writes-spent id s s' (written w) = Write-spent id s s' w
Writes-spent id s s' (written_twice s₁ w w') =
    let a = Write-spent id s s₁ w in let b = Write-spent id s₁ s' w' in omega (arith, a, b)

pub perform_all-spent :
    (u : Unicode) (d : Digest) (id : ℕ) (ops : List MutationOp) (s : MutationStore)
    → count (is_spent id) s.states ≤ count (is_spent id) (perform_all u d ops s).states
unfolding perform_all
perform_all-spent u d id [] s = omega arith
perform_all-spent u d id (op ∷ ops) s =
    let a = Writes-spent id s (perform u d op s) (perform-Writes u d op s) in
    let b = perform_all-spent u d id ops (perform u d op s) in omega (arith, a, b)
