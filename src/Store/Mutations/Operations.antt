-- ===== src/Store/Mutations/Operations.antt =====
-- The calls on mutations as one step function, and runs of them
-- (crates/myvault-sync-engine/src/store.rs).
use my_vault.Base.{
  nat_eq, list_eq, option_eq, ℕ, ◌≡◌, refl, sym, ap, ◌∙◌, subst, false, ◌||◌, List, [], ◌∷◌, ◌++◌,
  Option, none, some, ◌==◌, ◌!=◌, any, find, arith,
}
use my_vault.Base.Results.{Result, ok, err, fail_if, fail_if-ok, ok-injective, >>-ok, >>=-ok}
use my_vault.Text.Digest.{Digest}
use my_vault.Text.Unicode.{Unicode}
use my_vault.Store.Validators.{Error, u64_to_i64}
use my_vault.Mutation.{
  kind_eq, phase_eq, MutationIntent, MutationState, MutationVerificationEvidence,
}
use my_vault.Store.Mutations.Evidence.{
  is_blocked, validate_mutation_intent, validate_mutation_evidence,
}
use my_vault.Store.Mutations.Machine.{
  MutationEvent, MutationStore, MutationRegistrationOutcome, MutationOutcomeTransition,
  found_mutation, require_mutation, insert_mutation_event, initial_state, event_of, insert_mutation,
  block_if, check_evidence, check_initial, register_mutation_over, register_mutation_intent,
}
use my_vault.Store.Mutations.Transitions.{claim_mutation, claim_state, record_mutation_outcome}
use my_vault.Store.Mutations.Steps.{
  of_operation, Write, kept, started, Writes, written, written_twice, insert_mutation_event-ok,
}
use my_vault.Store.Mutations.Writes.{
  require_mutation-ok, find-own, claim_state-Write, record_over-Write, block_mutation-Write,
}

insert_mutation-ok :
    (i : MutationIntent) (s : MutationStore) {s' : MutationStore}
    → insert_mutation i s ≡ ok s'
    → (any (of_operation i.operation_id) s.states ≡ false)
      × (s'.states ≡ s.states ++ initial_state i ∷ [])
      × (s'.events ≡ s.events)
unfolding insert_mutation
insert_mutation-ok i s {s'} h =
    let test =
      any (λ x. x.operation_id == i.operation_id) s.intents
      || any (of_operation i.operation_id) s.states in
    let (g, h₁) = >>-ok (fail_if test Error.database) _ h in
    let b = fail_if-ok test Error.database g in
    let e : record s { intents = s.intents ++ i ∷ []; states = s.states ++ initial_state i ∷ [] }
        ≡ s' =
      ok-injective h₁ in
    (
      ground (arith, b),
      ap (λ (x : MutationStore). x.states) (sym e),
      ap (λ (x : MutationStore). x.events) (sym e),
    )

block_if-Writes :
    (i : MutationIntent) (initial : Option MutationVerificationEvidence) (s s₂ : MutationStore)
    {s' : MutationStore}
    → any (of_operation i.operation_id) s.states ≡ false
    → s₂.states ≡ s.states ++ initial_state i ∷ []
    → Write s s₂
    → block_if i initial s₂ ≡ ok s'
    → Writes s s'
unfolding block_if
block_if-Writes i none s s₂ n e w h = written (subst (λ x. Write s x) (ok-injective h) w)
block_if-Writes i (some evidence) s s₂ n e w h =
    written_twice s₂ w (block_mutation-Write i evidence s s₂ n e h)

register_over-Writes :
    (i : MutationIntent) (initial : Option MutationVerificationEvidence) (s : MutationStore)
    (stored : Option MutationIntent) {o : MutationRegistrationOutcome} {s' : MutationStore}
    → register_mutation_over i initial s stored ≡ ok (o, s')
    → Writes s s'
unfolding register_mutation_over initial_state
register_over-Writes i initial s (some stored) {o} {s'} h =
    let h₁ =
      (>>-ok
        (fail_if
          (stored.intent_fingerprint != i.intent_fingerprint
            || stored.operation_marker != i.operation_marker)
          Error.mutation_collision)
        _ h).1 in
    let (r, h₂, h₃) = >>=-ok (require_mutation Error.invalid_schema s i.operation_id) _ h₁ in
    let e : s ≡ s' =
      ap (λ (x : MutationRegistrationOutcome × MutationStore). x.1) (ok-injective h₃) in
    written (
      kept (ap (λ (x : MutationStore). x.states) (sym e))
        (ap (λ (x : MutationStore). x.events) (sym e)))
register_over-Writes i initial s none {o} {s'} h =
    let h₁ =
      (>>-ok
        (fail_if (any (λ x. x.operation_marker == i.operation_marker) s.intents)
          Error.mutation_collision)
        _ h).1 in
    let (s₁, h₂, h₃) = >>=-ok (insert_mutation i s) _ h₁ in
    let (n, a, b) = insert_mutation-ok i s h₂ in
    let (s₂, h₄, h₅) = >>=-ok (insert_mutation_event (event_of (initial_state i) none) s₁) _ h₃ in
    let e = insert_mutation_event-ok (event_of (initial_state i) none) s₁ h₄ in
    let a₂ : s₂.states ≡ s.states ++ initial_state i ∷ [] =
      ap (λ (x : MutationStore). x.states) (sym e) ∙ a in
    let b₂ : s₂.events ≡ s.events ++ event_of (initial_state i) none ∷ [] =
      ap (λ (x : MutationStore). x.events) (sym e)
      ∙ ap (λ (es : List MutationEvent). es ++ event_of (initial_state i) none ∷ []) b in
    let w : Write s s₂ = started (initial_state i) none n refl refl a₂ b₂ in
    let (s₃, h₆, h₇) = >>=-ok (block_if i initial s₂) _ h₅ in
    let e₁ : s₃ ≡ s' =
      ap (λ (x : MutationRegistrationOutcome × MutationStore). x.1) (ok-injective h₇) in
    subst (λ x. Writes s x) e₁ (block_if-Writes i initial s s₂ n a₂ w h₆)

-- The calls that change the tables of mutations.
pub data MutationOp : Type 0 where
  register : MutationIntent → Option MutationVerificationEvidence → MutationOp
  claim : ℕ → ℕ → ℕ → MutationOp
  record_outcome : ℕ → ℕ → MutationVerificationEvidence → MutationOutcomeTransition → MutationOp

abbrev pub next_store :
    {A : Type 0} → Result (A × MutationStore) Error → MutationStore → MutationStore
next_store (ok (a, s')) s = s'
next_store (err _) s = s

next_store-Writes :
    {A : Type 0} (m : Result (A × MutationStore) Error) (s : MutationStore)
    → ((a : A) (s' : MutationStore) → m ≡ ok (a, s') → Writes s s')
    → Writes s (next_store m s)
next_store-Writes (ok (a, s')) s g = g a s' refl
next_store-Writes (err e) s g = written (kept refl refl)

pub claim_mutation-state :
    (id expected now : ℕ) (s : MutationStore) (o : MutationState) (s' : MutationStore)
    → claim_mutation id expected now s ≡ ok (o, s')
    → (r : MutationState) × (find (of_operation id) s.states ≡ some r)
      × (claim_state expected now s r ≡ ok (o, s'))
unfolding claim_mutation
claim_mutation-state id expected now s o s' h =
    let h₁ = (>>-ok (u64_to_i64 now) _ h).1 in
    let (i, h₂, h₃) =
      >>=-ok (found_mutation Error.mutation_not_found (find (λ x. x.operation_id == id) s.intents))
        _ h₁ in
    let h₄ = (>>-ok (fail_if (is_blocked i) Error.mutation_needs_reconcile) _ h₃).1 in
    let (r, h₅, h₆) = >>=-ok (require_mutation Error.mutation_not_found s id) _ h₄ in
    (r, require_mutation-ok Error.mutation_not_found s id h₅, h₆)

module _ (u : Unicode) (d : Digest) where
  register-Writes :
      (i : MutationIntent) (initial : Option MutationVerificationEvidence) (s : MutationStore)
      (o : MutationRegistrationOutcome) (s' : MutationStore)
      → register_mutation_intent u d i initial s ≡ ok (o, s')
      → Writes s s'
  unfolding register_mutation_intent
  register-Writes i initial s o s' h =
      let h₁ = (>>-ok (validate_mutation_intent u d i) _ h).1 in
      let h₂ = (>>-ok (check_evidence u d i initial) _ h₁).1 in
      let h₃ = (>>-ok (check_initial i initial) _ h₂).1 in
      register_over-Writes i initial s (find (λ x. x.operation_id == i.operation_id) s.intents) h₃

  claim-Writes :
      (id expected now : ℕ) (s : MutationStore) (o : MutationState) (s' : MutationStore)
      → claim_mutation id expected now s ≡ ok (o, s')
      → Writes s s'
  claim-Writes id expected now s o s' h =
      let (r, f, k) = claim_mutation-state id expected now s o s' h in
      let (v, e, w) = claim_state-Write expected now s r (find-own id s.states r f) k in written w

  record-Writes :
      (id expected : ℕ) (e : MutationVerificationEvidence) (t : MutationOutcomeTransition)
      (s : MutationStore) (o : MutationState) (s' : MutationStore)
      → record_mutation_outcome u d id expected e t s ≡ ok (o, s')
      → Writes s s'
  unfolding record_mutation_outcome
  record-Writes id expected e t s o s' h =
      let h₁ = (>>-ok (validate_mutation_evidence u d e) _ h).1 in
      let h₂ = (>>-ok (fail_if (e.operation_id != id) Error.mutation_collision) _ h₁).1 in
      let (r, h₃, h₄) = >>=-ok (require_mutation Error.mutation_not_found s id) _ h₂ in
      let f = require_mutation-ok Error.mutation_not_found s id h₃ in
      written (record_over-Write expected e t s r (find-own id s.states r f) h₄).1

  unfoldable pub perform : MutationOp → MutationStore → MutationStore
  unfolding register_mutation_intent claim_mutation record_mutation_outcome
  perform (MutationOp.register i initial) s =
      next_store (register_mutation_intent u d i initial s) s
  perform (MutationOp.claim id expected now) s = next_store (claim_mutation id expected now s) s
  perform (MutationOp.record_outcome id expected e t) s =
      next_store (record_mutation_outcome u d id expected e t s) s

  pub perform-Writes : (op : MutationOp) (s : MutationStore) → Writes s (perform op s)
  unfolding perform
  perform-Writes (MutationOp.register i initial) s =
      next_store-Writes (register_mutation_intent u d i initial s) s (register-Writes i initial s)
  perform-Writes (MutationOp.claim id expected now) s =
      next_store-Writes (claim_mutation id expected now s) s (claim-Writes id expected now s)
  perform-Writes (MutationOp.record_outcome id expected e t) s =
      next_store-Writes (record_mutation_outcome u d id expected e t s) s
        (record-Writes id expected e t s)

  -- Any sequence of calls, whatever each returns.
  unfoldable pub perform_all : List MutationOp → MutationStore → MutationStore
  unfolding perform
  perform_all [] s = s
  perform_all (op ∷ ops) s = perform_all ops (perform op s)
