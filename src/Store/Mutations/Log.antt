-- ===== src/Store/Mutations/Log.antt =====
-- The events of mutations are the log of their states
-- (crates/myvault-sync-engine/src/store.rs).
use my_vault.Base.{
  nat_eq, list_eq, option_eq, ℕ, ◌+◌, ◌≤◌, ◌≡◌, refl, sym, ap, ◌∙◌, subst, Bool, true, false, not,
  ◌&&◌, ◌||◌, List, [], ◌∷◌, ◌++◌, Option, leb, ◌==◌, ==-refl, if◌then◌else◌, any, arith,
}
use my_vault.Text.Digest.{Digest}
use my_vault.Text.Unicode.{Unicode}
use my_vault.Store.Table.{count, update}
use my_vault.Store.Table.Counts.{
  count-append, count-update, count_none, count-update_zero, count-any, count-ext, insert_unique,
}
use my_vault.Mutation.{phase_eq, disposition_eq, MutationPhase, MutationState}
use my_vault.Store.Mutations.Machine.{MutationEvent, MutationStore, event_of}
use my_vault.Store.Mutations.Steps.{
  of_operation, at_version, phase_follows, MutationStep, Write, kept, started, stepped, Writes,
  written, written_twice,
}
use my_vault.Store.Mutations.Operations.{MutationOp, perform, perform_all, perform-Writes}

abbrev pub event_at : ℕ → ℕ → MutationEvent → Bool
event_at id v e = e.operation_id == id && e.state_version == v

-- The state has reached the version.
abbrev pub reached : ℕ → ℕ → MutationState → Bool
reached id v r = r.operation_id == id && leb v r.state_version

abbrev pub is_retrying : MutationState → Bool
is_retrying r = r.phase == MutationPhase.retry_scheduled

-- The event tells what the state holds.
abbrev pub tells : MutationState → MutationEvent → Bool
tells r e =
    e.operation_id == r.operation_id
    && e.state_version == r.state_version
    && e.attempt_number == r.attempt_number
    && e.phase == r.phase
    && e.disposition == r.disposition
    && e.outcome_code == r.outcome_code
    && e.occurred_at_unix_ms == r.updated_at_unix_ms

abbrev pub untold : List MutationEvent → MutationState → Bool
untold events r = not (any (tells r) events)

-- One state to an operation; one event to each version that a state has reached, and no other; the
-- state that an operation is in is told by an event; no state is a scheduled retry.
pub record IsLogged (states : List MutationState) (events : List MutationEvent) : Type 0 where
  pub ids : (id : ℕ) → count (of_operation id) states ≤ 1
  pub log : (id v : ℕ) → count (event_at id v) events ≡ count (reached id v) states
  pub told : count (untold events) states ≡ 0
  pub no_retry : count is_retrying states ≡ 0

not_retrying :
    (p q : MutationPhase) → phase_follows p q ≡ true → (q == MutationPhase.retry_scheduled) ≡ false
unfolding phase_follows
not_retrying p q h = ground arith

event-tells : (r : MutationState) (x : Option ℕ) → tells r (event_of r x) ≡ true
unfolding event_of
event-tells r x = ground (
  arith,
  ==-refl r.operation_id,
  ==-refl r.state_version,
  ==-refl r.attempt_number,
  ==-refl r.phase,
  ==-refl r.disposition,
  ==-refl r.outcome_code,
  ==-refl r.updated_at_unix_ms,
)

any-append :
    {A : Type 0} (p : A → Bool) (xs : List A) (x : A) → any p (xs ++ x ∷ []) ≡ (any p xs || p x)
any-append p [] x = ground arith
any-append p (y ∷ xs) x = ground (arith, any-append p xs x)

-- A longer log leaves no more untold.
told-append :
    (events : List MutationEvent) (e : MutationEvent) (rs : List MutationState)
    → count (untold events) rs ≡ 0
    → count (untold (events ++ e ∷ [])) rs ≡ 0
told-append events e [] h = refl
told-append events e (r ∷ rs) h =
    let a = any-append (tells r) events e in
    let b = told-append events e rs (ground arith) in ground (arith, a, b)

started-IsLogged :
    (r : MutationState) (x : Option ℕ) (states : List MutationState) (events : List MutationEvent)
    → any (of_operation r.operation_id) states ≡ false
    → r.state_version ≡ 0
    → r.phase ≡ MutationPhase.intent_durable
    → IsLogged states events
    → IsLogged (states ++ r ∷ []) (events ++ event_of r x ∷ [])
unfolding event_of
started-IsLogged r x states events n v p l = record {
  ids = λ id.
      insert_unique (λ y. y.operation_id) states r id
        (count-any (of_operation r.operation_id) states n) (l.ids id);
  log = λ id k.
      let a = count-append (reached id k) states r in
      let b = count-append (event_at id k) events (event_of r x) in
      ground (arith, a, b, v, l.log id k);
  told =
      let a = count-append (untold (events ++ event_of r x ∷ [])) states r in
      let b = told-append events (event_of r x) states l.told in
      let c = any-append (tells r) events (event_of r x) in
      ground (arith, a, b, c, event-tells r x);
  no_retry =
      let a = count-append is_retrying states r in
      ground (arith, a, l.no_retry, ap (λ q. q == MutationPhase.retry_scheduled) p);
}

-- The row of a step: how many rows pass a test after it.
step-count :
    (q : MutationState → Bool) (r r' : MutationState) (states : List MutationState)
    → ((x : MutationState) → at_version r.operation_id r.state_version x ≡ true → q x ≡ q r)
    → count (at_version r.operation_id r.state_version) states ≡ 1
    → count q (update (at_version r.operation_id r.state_version) (λ x. r') states)
        + (if q r then 1 else 0)
      ≡ count q states + (if q r' then 1 else 0)
step-count q r r' states same n =
    let p = at_version r.operation_id r.state_version in
    let total = count-update q p (λ x. r') states in
    let before : count (λ x. p x && q x) states ≡ (if q r then 1 else 0) =
      counted (λ x. p x && q x) (q r) (λ x. ground (arith, same x)) in
    let after : count (λ x. p x && q r') states ≡ (if q r' then 1 else 0) =
      counted (λ x. p x && q r') (q r') (λ x. refl) in
    ground (arith, total, before, after)
  where
    counted :
        (t : MutationState → Bool) (b : Bool)
        → ((x : MutationState) → t x ≡ (at_version r.operation_id r.state_version x && b))
        → count t states ≡ (if b then 1 else 0)
    counted t true e =
        count-ext t (at_version r.operation_id r.state_version) (λ x. ground (arith, e x)) states
        ∙ n
    counted t false e = count_none t states (λ x. ground (arith, e x))

stepped-IsLogged :
    (r r' : MutationState) (x : Option ℕ) (states : List MutationState)
    (events : List MutationEvent)
    → MutationStep r r'
    → count (at_version r.operation_id r.state_version) states ≡ 1
    → IsLogged states events
    → IsLogged
        (update (at_version r.operation_id r.state_version) (λ y. r') states)
        (events ++ event_of r' x ∷ [])
unfolding event_of
stepped-IsLogged r r' x states events step n l = record {
  ids = λ id.
      let a = step-count (of_operation id) r r' states (λ y e. ground arith) n in
      ground (arith, a, step.same, l.ids id);
  log = λ id k.
      let a = step-count (reached id k) r r' states (λ y e. ground arith) n in
      let b = count-append (event_at id k) events (event_of r' x) in
      ground (arith, a, b, step.same, step.version, l.log id k);
  told =
      let c = any-append (tells r') events (event_of r' x) in
      count-update_zero (untold (events ++ event_of r' x ∷ []))
        (at_version r.operation_id r.state_version) (λ y. r')
        (λ y e h. ground (arith, c, event-tells r' x)) states
        (told-append events (event_of r' x) states l.told);
  no_retry =
      count-update_zero is_retrying (at_version r.operation_id r.state_version) (λ y. r')
        (λ y e h. not_retrying r.phase r'.phase step.follows) states l.no_retry;
}

carry :
    {rows rows' : List MutationState} {events events' : List MutationEvent}
    → rows' ≡ rows
    → events' ≡ events
    → IsLogged rows events
    → IsLogged rows' events'
carry {rows} {rows'} {events} {events'} a b l =
    subst (λ x. IsLogged x events') (sym a) (subst (λ x. IsLogged rows x) (sym b) l)

pub Write-IsLogged :
    (s s' : MutationStore) → Write s s' → IsLogged s.states s.events → IsLogged s'.states s'.events
Write-IsLogged s s' (kept a b) l = carry a b l
Write-IsLogged s s' (started r x n v p a b) l =
    carry a b (started-IsLogged r x s.states s.events n v p l)
Write-IsLogged s s' (stepped r r' x f m n a b) l =
    carry a b (stepped-IsLogged r r' x s.states s.events m n l)

Writes-IsLogged :
    (s s' : MutationStore) → Writes s s' → IsLogged s.states s.events → IsLogged s'.states s'.events
Writes-IsLogged s s' (written w) l = Write-IsLogged s s' w l
Writes-IsLogged s s' (written_twice s₁ w w') l = Write-IsLogged s₁ s' w' (Write-IsLogged s s₁ w l)

-- Over any sequence of registrations, claims and recorded outcomes of mutations, the events stay the
-- log of the states: an operation has one state, and exactly one event for every version that its
-- state has reached, from 0 up, and none beyond; the event of its current version tells its
-- attempt, phase, disposition, code and time; and no state ever is a scheduled retry.
pub perform_all-IsLogged :
    (u : Unicode) (d : Digest) (ops : List MutationOp) (s : MutationStore)
    → IsLogged s.states s.events
    → IsLogged (perform_all u d ops s).states (perform_all u d ops s).events
unfolding perform_all
perform_all-IsLogged u d [] s l = l
perform_all-IsLogged u d (op ∷ ops) s l =
    perform_all-IsLogged u d ops (perform u d op s)
      (Writes-IsLogged s (perform u d op s) (perform-Writes u d op s) l)
