-- ===== src/Store/Mutations/Once.antt =====
-- A mutation is claimed once (crates/myvault-sync-engine/src/store.rs).
use my_vault.Base.{
  nat_eq, list_eq, option_eq, ℕ, ◌≡◌, ◌≤◌, ◌≢◌, ltb, is_some_and, refl, sym, ap, List, ◌∙◌, subst,
  true, not, ◌||◌, Option, none, some, ◌==◌, ◌!=◌, ==→≡, ==-refl, find, arith,
}
use my_vault.Base.Results.{ok, fail_if, fail_if-ok, ok-injective, >>-ok, >>=-ok}
use my_vault.Text.Digest.{Digest}
use my_vault.Text.Unicode.{Unicode}
use my_vault.Store.Validators.{Error}
use my_vault.Store.Table.{count, update}
use my_vault.Store.Table.Counts.{find-some, find-update_one}
use my_vault.Mutation.{kind_eq, phase_eq, disposition_eq, capture_eq, MutationState}
use my_vault.Store.Mutations.Machine.{
  MutationStore, insert_mutation_event, update_mutation_state, event_of,
}
use my_vault.Store.Mutations.Transitions.{
  is_ready, claimed_state, claim_state, claim_mutation, write_state,
}
use my_vault.Store.Mutations.Steps.{
  of_operation, at_version, update_mutation_state-ok, insert_mutation_event-ok,
}
use my_vault.Store.Mutations.Writes.{find-own, claim_state-Write}
use my_vault.Store.Mutations.Operations.{claim_mutation-state}
use my_vault.Store.Mutations.Operations.{MutationOp, perform_all}
use my_vault.Store.Mutations.Spent.{is_spent, count-find, count-found, perform_all-spent}
use my_vault.Store.Mutations.Log.{IsLogged, Write-IsLogged, perform_all-IsLogged}

write_state-find :
    (r next : MutationState) (evidence : Option ℕ) (s : MutationStore) {o : MutationState}
    {s' : MutationStore}
    → count (of_operation r.operation_id) s.states ≤ 1
    → next.operation_id ≡ r.operation_id
    → find (of_operation r.operation_id) s.states ≡ some r
    → write_state next r.state_version evidence s ≡ ok (o, s')
    → find (of_operation r.operation_id) s'.states ≡ some next
unfolding write_state
write_state-find r next evidence s {o} {s'} unique same f h =
    let (s₁, h₁, h₂) = >>=-ok (update_mutation_state next r.state_version s) _ h in
    let (s₂, h₃, h₄) = >>=-ok (insert_mutation_event (event_of next evidence) s₁) _ h₂ in
    let (n, e) = update_mutation_state-ok next r.state_version s h₁ in
    let e₁ = insert_mutation_event-ok (event_of next evidence) s₁ h₃ in
    let e₂ : s₂ ≡ s' = ap (λ (x : MutationState × MutationStore). x.1) (ok-injective h₄) in
    let rows : s'.states ≡ update (at_version r.operation_id r.state_version) (λ x. next) s.states =
      ap (λ (x : MutationStore). x.states) (sym e₂)
      ∙ ap (λ (x : MutationStore). x.states) (sym e₁)
      ∙ ap (λ (x : MutationStore). x.states) (sym e)
      ∙ ap (λ k. update (at_version k r.state_version) (λ x. next) s.states) same in
    let own : of_operation r.operation_id next ≡ true =
      ap (λ k. k == r.operation_id) same ∙ ==-refl r.operation_id in
    ap (find (of_operation r.operation_id)) rows
    ∙ find-update_one (of_operation r.operation_id) (λ x. x.state_version == r.state_version)
        (λ x. next) (λ x k. own) s.states r f unique
        (subst (λ k. count (at_version k r.state_version) s.states ≡ 1) same n)

claim_state-find :
    (expected now : ℕ) (s : MutationStore) (r : MutationState) {o : MutationState}
    {s' : MutationStore}
    → count (of_operation r.operation_id) s.states ≤ 1
    → find (of_operation r.operation_id) s.states ≡ some r
    → claim_state expected now s r ≡ ok (o, s')
    → find (of_operation r.operation_id) s'.states ≡ some (claimed_state now r)
unfolding claim_state claimed_state
claim_state-find expected now s r unique f h =
    let h₁ =
      (>>-ok (fail_if (r.state_version != expected) Error.mutation_state_version_mismatch) _ h).1 in
    let h₂ =
      (>>-ok
        (fail_if
          (not (is_ready r.phase) || is_some_and r.next_attempt_at_unix_ms (λ due. ltb now due))
          Error.invalid_state_transition)
        _ h₁).1 in
    write_state-find r (claimed_state now r) none s unique refl f h₂

claim_state-ready :
    (expected now : ℕ) (s : MutationStore) (r o : MutationState) (s' : MutationStore)
    → claim_state expected now s r ≡ ok (o, s')
    → is_ready r.phase ≡ true
unfolding claim_state
claim_state-ready expected now s r o s' h =
    let h₁ =
      (>>-ok (fail_if (r.state_version != expected) Error.mutation_state_version_mismatch) _ h).1 in
    let g =
      (>>-ok
        (fail_if
          (not (is_ready r.phase) || is_some_and r.next_attempt_at_unix_ms (λ due. ltb now due))
          Error.invalid_state_transition)
        _ h₁).0 in
    let b =
      fail_if-ok
        (not (is_ready r.phase) || is_some_and r.next_attempt_at_unix_ms (λ due. ltb now due))
        Error.invalid_state_transition g in
    ground (arith, b)

-- A mutation is claimed at its version, and once: where the tables are well-formed and a claim
-- succeeds, the state of the mutation had the version that the caller gave; and after it, whatever
-- registrations, claims and recorded outcomes come in between, no claim of that mutation succeeds,
-- at that version or any other.
pub claim_mutation_once :
    (u : Unicode) (d : Digest) (id expected now other later : ℕ) (ops : List MutationOp)
    (s : MutationStore) (o o' : MutationState) (s' s'' : MutationStore)
    → IsLogged s.states s.events
    → claim_mutation id expected now s ≡ ok (o, s')
    → ((r : MutationState) × (find (of_operation id) s.states ≡ some r)
        × (r.state_version ≡ expected))
      × (claim_mutation id other later (perform_all u d ops s') ≢ ok (o', s''))
unfolding claimed_state is_ready
claim_mutation_once u d id expected now other later ops s o o' s' s'' l h =
    let (r, f, c) = claim_mutation-state id expected now s o s' h in
    let own : r.operation_id ≡ id =
      ==→≡ r.operation_id id (find-some (of_operation id) s.states f) in
    let f₁ = find-own id s.states r f in
    let (v, e, w) = claim_state-Write expected now s r f₁ c in
    let after = claim_state-find expected now s r (l.ids r.operation_id) f₁ c in
    ((r, f, v), λ k. spent r own after (Write-IsLogged s s' w l) k)
  where
    spent :
        (r : MutationState)
        → r.operation_id ≡ id
        → find (of_operation r.operation_id) s'.states ≡ some (claimed_state now r)
        → IsLogged s'.states s'.events
        → claim_mutation id other later (perform_all u d ops s') ≢ ok (o', s'')
    spent r own after l' k =
        let t = perform_all u d ops s' in
        let (q, g, c') = claim_mutation-state id other later t o' s'' k in
        let ready = claim_state-ready other later t q o' s'' c' in
        let first : 1 ≤ count (is_spent id) s'.states =
          count-found (is_spent id) s'.states (claimed_state now r) (of_operation r.operation_id)
            after (ground (arith, ap (λ n. n == id) own, ==-refl id)) in
        let kept_spent = perform_all-spent u d id ops s' in
        let unique = (perform_all-IsLogged u d ops s' l').ids id in
        let more =
          count-find (of_operation id) (λ x. not (is_ready x.phase)) t.states q g
            (ground (arith, ready)) in
        absurd (omega (arith, first, kept_spent, unique, more))
