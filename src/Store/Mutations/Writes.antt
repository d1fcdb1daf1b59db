-- ===== src/Store/Mutations/Writes.antt =====
-- Each call on mutations as writes of states and events
-- (crates/myvault-sync-engine/src/store.rs).
use my_vault.Base.{
  nat_eq, list_eq, option_eq, ℕ, ◌≡◌, refl, sym, ap, ◌∙◌, subst, Bool, true, false, not, ◌&&◌, ◌||◌,
  List, [], ◌∷◌, ◌++◌, none, some, ltb, ◌==◌, ◌!=◌, ==→≡, ==-refl, Bool-cases, Option-cases, inl,
  inr, if◌then◌else◌, any, find, is_some, is_some_and, &&-eq-true, arith,
}
use my_vault.Base.Results.{ok, err, fail_if, fail_if-ok, ok-injective, ◌>>=◌, >>-ok, >>=-ok}
use my_vault.Store.Validators.{Error, u32_max, check_some, validate_redacted_code, u64_to_i64}
use my_vault.Store.Table.{count, update, update_one, update_one-ok}
use my_vault.Store.Table.Counts.{find-some, find-append, update-append, count-append_new}
use my_vault.Mutation.{
  kind_eq, phase_eq, disposition_eq, capture_eq, MutationPhase, MutationDisposition,
  MutationEvidenceCapturePhase, MutationIntent, MutationState, MutationVerificationEvidence,
}
use my_vault.Store.Mutations.Machine.{
  MutationEvent, MutationStore, MutationOutcomeTransition, row_to_mutation_state,
  load_mutation_state, found_mutation, require_mutation, insert_mutation_evidence, initial_state,
  event_of, blocked_state, block_mutation,
}
use my_vault.Store.Mutations.Transitions.{
  is_ready, is_open, claimed_state, claim_state, transition_target, check_transition,
  recorded_state, record_over,
}
use my_vault.Store.Mutations.Steps.{
  of_operation, at_version, phase_follows, Write, stepped, rebase, insert_mutation_event-ok,
  write_state-Write,
}

row_to_mutation_state-ok :
    (row : MutationState) {r : MutationState} → row_to_mutation_state row ≡ ok r → r ≡ row
unfolding row_to_mutation_state
row_to_mutation_state-ok row h =
    let h₁ = (>>-ok (fail_if (row.operation_id == 0) Error.invalid_schema) _ h).1 in
    let h₂ = (>>-ok (fail_if (ltb u32_max row.attempt_number) Error.invalid_schema) _ h₁).1 in
    let h₃ =
      (>>-ok (fail_if (is_some_and row.last_evidence_id (λ id. id == 0)) Error.invalid_schema) _
        h₂).1 in
    sym (ok-injective ((>>-ok (check_some validate_redacted_code row.outcome_code) _ h₃).1))

pub require_mutation-ok :
    (error : Error) (s : MutationStore) (id : ℕ) {r : MutationState}
    → require_mutation error s id ≡ ok r
    → find (of_operation id) s.states ≡ some r
unfolding require_mutation load_mutation_state found_mutation
require_mutation-ok error s id {r} h = elim (Option-cases (find (of_operation id) s.states)) [
  | inl e ↦ let e₁ : err error ≡ ok r = rw e at h in absurd cc
  | inr (x, e) ↦
      let (a, h₁, h₂) =
        >>=-ok (row_to_mutation_state x >>= λ y. ok (some y)) (found_mutation error) (rw e at h) in
      let (b, h₃, h₄) = >>=-ok (row_to_mutation_state x) (λ y. ok (some y)) h₁ in
      let e₁ : some b ≡ a = ok-injective h₄ in
      let e₂ : found_mutation error (some b) ≡ ok r =
        subst (λ y. found_mutation error y ≡ ok r) (sym e₁) h₂ in
      e ∙ ap some (sym (row_to_mutation_state-ok x h₃) ∙ ok-injective e₂)
]

-- The state that was found under an id has that id.
pub find-own :
    (id : ℕ) (rs : List MutationState) (r : MutationState)
    → find (of_operation id) rs ≡ some r
    → find (of_operation r.operation_id) rs ≡ some r
find-own id rs r h =
    let e : r.operation_id ≡ id = ==→≡ r.operation_id id (find-some (of_operation id) rs h) in
    subst (λ n. find (of_operation n) rs ≡ some r) (sym e) h

ready_follows :
    (p : MutationPhase) → is_ready p ≡ true → phase_follows p MutationPhase.running ≡ true
unfolding is_ready phase_follows
ready_follows p h = ground arith

pub claim_state-Write :
    (expected now : ℕ) (s : MutationStore) (r : MutationState) {o : MutationState}
    {s' : MutationStore}
    → find (of_operation r.operation_id) s.states ≡ some r
    → claim_state expected now s r ≡ ok (o, s')
    → (r.state_version ≡ expected) × (o ≡ claimed_state now r) × Write s s'
unfolding claim_state claimed_state
claim_state-Write expected now s r f h =
    let (g₁, h₁) =
      >>-ok (fail_if (r.state_version != expected) Error.mutation_state_version_mismatch) _ h in
    let v = fail_if-ok (r.state_version != expected) Error.mutation_state_version_mismatch g₁ in
    let (g₂, h₂) =
      >>-ok
        (fail_if
          (not (is_ready r.phase) || is_some_and r.next_attempt_at_unix_ms (λ due. ltb now due))
          Error.invalid_state_transition)
        _ h₁ in
    let b =
      fail_if-ok
        (not (is_ready r.phase) || is_some_and r.next_attempt_at_unix_ms (λ due. ltb now due))
        Error.invalid_state_transition g₂ in
    let ready : is_ready r.phase ≡ true = ground (arith, b) in
    let (e, w) =
      write_state-Write r (claimed_state now r) none s f
        (record { same = refl; version = refl; follows = ready_follows r.phase ready }) h₂ in
    (==→≡ r.state_version expected (ground (arith, v)), e, w)

abbrev applies : MutationPhase → MutationVerificationEvidence → Bool
applies p e =
    is_open p
    && e.disposition == MutationDisposition.verified_applied
    && e.capture_phase == MutationEvidenceCapturePhase.post_verify
    && not e.forbidden_side_effect

abbrev reconciles : MutationPhase → MutationVerificationEvidence → Bool
reconciles p e =
    p == MutationPhase.running
    && e.disposition == MutationDisposition.needs_reconcile
    && is_some e.outcome_code

open_completes :
    (p : MutationPhase) → is_open p ≡ true → phase_follows p MutationPhase.completed ≡ true
unfolding is_open phase_follows
open_completes p h = ground arith

running_stops :
    (p : MutationPhase)
    → (p == MutationPhase.running) ≡ true
    → phase_follows p MutationPhase.needs_reconcile ≡ true
unfolding phase_follows
running_stops p h = ground arith

insert_mutation_evidence-same :
    (e : MutationVerificationEvidence) (s : MutationStore) {s' : MutationStore}
    → insert_mutation_evidence e s ≡ ok s'
    → (s'.states ≡ s.states) × (s'.events ≡ s.events)
unfolding insert_mutation_evidence
insert_mutation_evidence-same e s {s'} h =
    let h₁ = (>>-ok (u64_to_i64 e.captured_at_unix_ms) _ h).1 in
    let h₂ =
      (>>-ok
        (fail_if
          (any (λ x. x.evidence_id == e.evidence_id) s.evidence
            || not (any (λ i. i.operation_id == e.operation_id) s.intents))
          Error.database)
        _ h₁).1 in
    let e₁ : record s { evidence = s.evidence ++ e ∷ [] } ≡ s' = ok-injective h₂ in
    (ap (λ (x : MutationStore). x.states) (sym e₁), ap (λ (x : MutationStore). x.events) (sym e₁))

transition_target-follows :
    (p : MutationPhase) (e : MutationVerificationEvidence) (t : MutationOutcomeTransition)
    (target : MutationPhase × MutationDisposition)
    → transition_target p e t ≡ ok target
    → phase_follows p target.0 ≡ true
unfolding transition_target phase_follows is_open
transition_target-follows p e MutationOutcomeTransition.verified_applied target h =
    elim (Bool-cases (applies p e)) [
      | inl b ↦
          let e₁ : (MutationPhase.completed, MutationDisposition.verified_applied) ≡ target =
            ok-injective (rw (b, if◌then◌else◌) at h) in
          let o : is_open p ≡ true = ground arith in
          subst (λ (x : MutationPhase × MutationDisposition). phase_follows p x.0 ≡ true) e₁
            (open_completes p o)
      | inr b ↦ absurd cc
    ]
transition_target-follows p e MutationOutcomeTransition.needs_reconcile target h =
    elim (Bool-cases (reconciles p e)) [
      | inl b ↦
          let e₁ : (MutationPhase.needs_reconcile, MutationDisposition.needs_reconcile) ≡ target =
            ok-injective (rw (b, if◌then◌else◌) at h) in
          let o : (p == MutationPhase.running) ≡ true = ground arith in
          subst (λ (x : MutationPhase × MutationDisposition). phase_follows p x.0 ≡ true) e₁
            (running_stops p o)
      | inr b ↦ absurd cc
    ]
transition_target-follows p e (MutationOutcomeTransition.verified_not_applied next) target h =
    absurd cc
transition_target-follows p e (MutationOutcomeTransition.retry_safe next reference) target h =
    absurd cc

pub record_over-Write :
    (expected : ℕ) (e : MutationVerificationEvidence) (t : MutationOutcomeTransition)
    (s : MutationStore) (r : MutationState) {o : MutationState} {s' : MutationStore}
    → find (of_operation r.operation_id) s.states ≡ some r
    → record_over expected e t s r ≡ ok (o, s')
    → (r.state_version ≡ expected) × Write s s'
unfolding record_over recorded_state
record_over-Write expected e t s r {o} {s'} f h =
    let (g₁, h₁) =
      >>-ok (fail_if (r.state_version != expected) Error.mutation_state_version_mismatch) _ h in
    let v = fail_if-ok (r.state_version != expected) Error.mutation_state_version_mismatch g₁ in
    let h₂ =
      (>>-ok
        (fail_if (e.attempt_number != r.attempt_number || not (is_open r.phase))
          Error.invalid_state_transition)
        _ h₁).1 in
    let h₃ = (>>-ok (check_transition t e s) _ h₂).1 in
    let (target, h₄, h₅) = >>=-ok (transition_target r.phase e t) _ h₃ in
    let (s₁, h₆, h₇) = >>=-ok (insert_mutation_evidence e s) _ h₅ in
    let (a, b) = insert_mutation_evidence-same e s h₆ in
    let (e₁, w) =
      write_state-Write r (recorded_state target.0 target.1 e r) (some e.evidence_id) s₁
        (subst (λ rows. find (of_operation r.operation_id) rows ≡ some r) (sym a) f)
        (record {
          same = refl;
          version = refl;
          follows = transition_target-follows r.phase e t target h₄;
        })
        h₇ in
    (==→≡ r.state_version expected (ground (arith, v)), rebase s s₁ s' a b w)

-- The second write of a blocked registration.
pub block_mutation-Write :
    (i : MutationIntent) (e : MutationVerificationEvidence) (s₀ s : MutationStore)
    {s' : MutationStore}
    → any (of_operation i.operation_id) s₀.states ≡ false
    → s.states ≡ s₀.states ++ initial_state i ∷ []
    → block_mutation i e s ≡ ok s'
    → Write s s'
unfolding block_mutation blocked_state initial_state phase_follows
block_mutation-Write i e s₀ s {s'} new rows h =
    let first = initial_state i in
    let p : MutationState → Bool = λ r.
      r.operation_id == i.operation_id
      && (r.state_version == 0 && r.phase == MutationPhase.intent_durable) in
    let (s₁, h₁, h₂) = >>=-ok (insert_mutation_evidence e s) _ h in
    let (a, b) = insert_mutation_evidence-same e s h₁ in
    let (changed, h₃, h₄) =
      >>=-ok (update_one p (blocked_state e) Error.mutation_state_version_mismatch s₁.states) _
        h₂ in
    let (n, h₅) =
      update_one-ok p (blocked_state e) Error.mutation_state_version_mismatch s₁.states h₃ in
    let e₁ =
      insert_mutation_event-ok (event_of (blocked_state e first) (some e.evidence_id))
        (record s₁ { states = changed }) h₄ in
    let own : (of_operation i.operation_id first) ≡ true = ==-refl i.operation_id in
    let here : p first ≡ true = ground (arith, own) in
    let here' : at_version i.operation_id 0 first ≡ true = ground (arith, own) in
    let k : (r : MutationState) → p r ≡ true → of_operation i.operation_id r ≡ true =
      λ r g. (&&-eq-true (r.operation_id == i.operation_id) _ g).0 in
    let k' : (r : MutationState)
        → at_version i.operation_id 0 r ≡ true
        → of_operation i.operation_id r ≡ true =
      λ r g. (&&-eq-true (r.operation_id == i.operation_id) _ g).0 in
    let left : changed ≡ s₀.states ++ blocked_state e first ∷ [] =
      h₅
      ∙ ap (update p (blocked_state e)) (a ∙ rows)
      ∙ update-append (of_operation i.operation_id) p (blocked_state e) k s₀.states first new
          here in
    let right : update (at_version i.operation_id 0) (λ x. blocked_state e first) s.states
        ≡ s₀.states ++ blocked_state e first ∷ [] =
      ap (update (at_version i.operation_id 0) (λ x. blocked_state e first)) rows
      ∙ update-append (of_operation i.operation_id) (at_version i.operation_id 0)
          (λ x. blocked_state e first) k' s₀.states first new here' in
    stepped first (blocked_state e first) (some e.evidence_id)
      (ap (find (of_operation i.operation_id)) rows
        ∙ find-append (of_operation i.operation_id) s₀.states first new own)
      (record { same = refl; version = refl; follows = refl })
      (ap (count (at_version i.operation_id 0)) rows
        ∙ count-append_new (of_operation i.operation_id) (at_version i.operation_id 0) k' s₀.states
            first new here')
      (ap (λ (x : MutationStore). x.states) (sym e₁) ∙ left ∙ sym right)
      (ap (λ (x : MutationStore). x.events) (sym e₁)
        ∙ ap
            (λ (es : List MutationEvent).
              es ++ event_of (blocked_state e first) (some e.evidence_id) ∷ [])
            b)
