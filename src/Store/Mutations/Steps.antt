-- ===== src/Store/Mutations/Steps.antt =====
-- What a call may do to the states of mutations, and the log of their events
-- (crates/myvault-sync-engine/src/store.rs).
use my_vault.Base.{
  nat_eq, list_eq, option_eq, ℕ, ◌+◌, ◌≡◌, sym, ap, ◌∙◌, subst, Bool, true, false, ◌&&◌, List, [],
  ◌∷◌, ◌++◌, Option, some, ◌==◌, any, find,
}
use my_vault.Base.Results.{ok, ok-injective, >>-ok, >>=-ok}
use my_vault.Store.Validators.{Error, validate_redacted_code, u64_to_i64, check_some}
use my_vault.Store.Table.{count, update, update_one, update_one-ok}
use my_vault.Mutation.{phase_eq, disposition_eq, MutationPhase, MutationState}
use my_vault.Store.Mutations.Machine.{
  MutationEvent, MutationStore, insert_mutation_event, update_mutation_state, event_of,
}
use my_vault.Store.Mutations.Transitions.{write_state}

abbrev pub of_operation : ℕ → MutationState → Bool
of_operation id r = r.operation_id == id

-- The state of an operation at a version.
abbrev pub at_version : ℕ → ℕ → MutationState → Bool
at_version id v r = r.operation_id == id && r.state_version == v

-- The state machine: which phase may follow which.
unfoldable pub phase_follows : MutationPhase → MutationPhase → Bool
phase_follows MutationPhase.intent_durable MutationPhase.running = true
phase_follows MutationPhase.retry_scheduled MutationPhase.running = true
phase_follows MutationPhase.intent_durable MutationPhase.needs_reconcile = true
phase_follows MutationPhase.running MutationPhase.completed = true
phase_follows MutationPhase.running MutationPhase.needs_reconcile = true
phase_follows MutationPhase.needs_reconcile MutationPhase.completed = true
phase_follows _ _ = false

pub record MutationStep (r r' : MutationState) : Type 0 where
  pub same : r'.operation_id ≡ r.operation_id
  pub version : r'.state_version ≡ r.state_version + 1
  pub follows : phase_follows r.phase r'.phase ≡ true

-- What one write does to the tables of states and events.
pub data Write (s s' : MutationStore) : Type 0 where
  kept : s'.states ≡ s.states → s'.events ≡ s.events → Write s s'
  started :
      (r : MutationState) (evidence : Option ℕ)
      → any (of_operation r.operation_id) s.states ≡ false
      → r.state_version ≡ 0
      → r.phase ≡ MutationPhase.intent_durable
      → s'.states ≡ s.states ++ r ∷ []
      → s'.events ≡ s.events ++ event_of r evidence ∷ []
      → Write s s'
  stepped :
      (r r' : MutationState) (evidence : Option ℕ)
      → find (of_operation r.operation_id) s.states ≡ some r
      → MutationStep r r'
      → count (at_version r.operation_id r.state_version) s.states ≡ 1
      → s'.states ≡ update (at_version r.operation_id r.state_version) (λ x. r') s.states
      → s'.events ≡ s.events ++ event_of r' evidence ∷ []
      → Write s s'

-- A registration that blocks its mutation writes twice.
pub data Writes (s s' : MutationStore) : Type 0 where
  written : Write s s' → Writes s s'
  written_twice : (s₁ : MutationStore) → Write s s₁ → Write s₁ s' → Writes s s'

pub insert_mutation_event-ok :
    (e : MutationEvent) (s : MutationStore) {s' : MutationStore}
    → insert_mutation_event e s ≡ ok s'
    → record s { events = s.events ++ e ∷ [] } ≡ s'
unfolding insert_mutation_event
insert_mutation_event-ok e s h =
    let h₁ = (>>-ok (check_some validate_redacted_code e.outcome_code) _ h).1 in
    let h₂ = (>>-ok (u64_to_i64 e.state_version) _ h₁).1 in
    let h₃ = (>>-ok (u64_to_i64 e.occurred_at_unix_ms) _ h₂).1 in ok-injective h₃

pub update_mutation_state-ok :
    (next : MutationState) (expected : ℕ) (s : MutationStore) {s' : MutationStore}
    → update_mutation_state next expected s ≡ ok s'
    → (count (at_version next.operation_id expected) s.states ≡ 1)
      × (record s { states = update (at_version next.operation_id expected) (λ x. next) s.states }
          ≡ s')
unfolding update_mutation_state
update_mutation_state-ok next expected s h =
    let h₁ = (>>-ok (u64_to_i64 next.state_version) _ h).1 in
    let h₂ = (>>-ok (u64_to_i64 next.updated_at_unix_ms) _ h₁).1 in
    let h₃ = (>>-ok (u64_to_i64 expected) _ h₂).1 in
    let (rows, h₄, h₅) =
      >>=-ok
        (update_one (at_version next.operation_id expected) (λ x. next)
          Error.mutation_state_version_mismatch s.states)
        _ h₃ in
    let (one, e) =
      update_one-ok (at_version next.operation_id expected) (λ x. next)
        Error.mutation_state_version_mismatch s.states h₄ in
    (one, ap (λ (x : List MutationState). record s { states = x }) (sym e) ∙ ok-injective h₅)

-- A state that is written over the state of its operation is a step, logged by its event.
pub write_state-Write :
    (r next : MutationState) (evidence : Option ℕ) (s : MutationStore) {o : MutationState}
    {s' : MutationStore}
    → find (of_operation r.operation_id) s.states ≡ some r
    → MutationStep r next
    → write_state next r.state_version evidence s ≡ ok (o, s')
    → (o ≡ next) × Write s s'
unfolding write_state
write_state-Write r next evidence s {o} {s'} f step h =
    let (s₁, h₁, h₂) = >>=-ok (update_mutation_state next r.state_version s) _ h in
    let (s₂, h₃, h₄) = >>=-ok (insert_mutation_event (event_of next evidence) s₁) _ h₂ in
    let (n, e) = update_mutation_state-ok next r.state_version s h₁ in
    let e₁ = insert_mutation_event-ok (event_of next evidence) s₁ h₃ in
    let e₂ : (next, s₂) ≡ (o, s') = ok-injective h₄ in
    let e₃ : s₂ ≡ s' = ap (λ (x : MutationState × MutationStore). x.1) e₂ in
    let chosen : (x : MutationState)
        → at_version next.operation_id r.state_version x
          ≡ at_version r.operation_id r.state_version x =
      λ x. ap (λ n. at_version n r.state_version x) step.same in
    (
      sym (ap (λ (x : MutationState × MutationStore). x.0) e₂),
      stepped r next evidence f step
          (subst (λ n. count (at_version n r.state_version) s.states ≡ 1) step.same n)
          (ap (λ (x : MutationStore). x.states) (sym e₃)
            ∙ ap (λ (x : MutationStore). x.states) (sym e₁)
            ∙ ap (λ (x : MutationStore). x.states) (sym e)
            ∙ ap (λ n. update (at_version n r.state_version) (λ x. next) s.states) step.same)
          (ap (λ (x : MutationStore). x.events) (sym e₃)
            ∙ ap (λ (x : MutationStore). x.events) (sym e₁)
            ∙ ap (λ (x : MutationStore). x.events ++ event_of next evidence ∷ []) (sym e)),
    )

-- A write that goes on from tables with the same states and events.
pub rebase :
    (s s₁ s' : MutationStore)
    → s₁.states ≡ s.states
    → s₁.events ≡ s.events
    → Write s₁ s'
    → Write s s'
rebase s s₁ s' e g (kept a b) = kept (a ∙ e) (b ∙ g)
rebase s s₁ s' e g (started r x n v p a b) =
    started r x (subst (λ rows. any (of_operation r.operation_id) rows ≡ false) e n) v p
      (a ∙ ap (λ (rows : List MutationState). rows ++ r ∷ []) e)
      (b ∙ ap (λ (es : List MutationEvent). es ++ event_of r x ∷ []) g)
rebase s s₁ s' e g (stepped r r' x f m n a b) =
    stepped r r' x (subst (λ rows. find (of_operation r.operation_id) rows ≡ some r) e f) m
      (subst (λ rows. count (at_version r.operation_id r.state_version) rows ≡ 1) e n)
      (a ∙ ap (update (at_version r.operation_id r.state_version) (λ x. r')) e)
      (b ∙ ap (λ (es : List MutationEvent). es ++ event_of r' x ∷ []) g)
