-- ===== src/Store/Transfers/Steps.antt =====
-- What one operation may do to a row: the transitions of `TransferPhase`
-- (crates/myvault-sync-engine/src/store.rs) and the fields that never change.
use my_vault.Base.{
  nat_eq, list_eq, option_eq, ◌≤◌, ◌≡◌, refl, ap, ◌∙◌, Bool, true, false, Option, none, some, ◌==◌,
  arith,
}
use my_vault.Text.{Text}
use my_vault.Store.Transfers.Record.{phase_eq, TransferPhase, TransferRecord}
use my_vault.Store.Transfers.Moves.{is_retryable, is_publishable}
use my_vault.Store.Transfers.Queue.{is_claimable}

-- The state machine: which phase may follow which in one step.
unfoldable pub may_follow : TransferPhase → TransferPhase → Bool
may_follow TransferPhase.pending TransferPhase.running = true
may_follow TransferPhase.retry_scheduled TransferPhase.running = true
may_follow TransferPhase.running TransferPhase.retry_scheduled = true
may_follow TransferPhase.running TransferPhase.auth_required = true
may_follow TransferPhase.running TransferPhase.needs_reconcile = true
may_follow TransferPhase.running TransferPhase.completed = true
may_follow TransferPhase.auth_required TransferPhase.retry_scheduled = true
may_follow TransferPhase.needs_reconcile TransferPhase.retry_scheduled = true
may_follow TransferPhase.needs_reconcile TransferPhase.completed = true
may_follow old new = old == new

-- The fields that a registration fixes; the others are reset.
unfoldable pub identity : TransferRecord → TransferRecord
identity r = record r {
  remote_file_id = none;
  base_reference = none;
  phase = TransferPhase.pending;
  attempt_count = 0;
  next_attempt_at_unix_ms = 0;
  updated_at_unix_ms = 0;
  last_error_code = none;
  verified_local_revision = none;
  verified_remote_revision = none;
}

-- A value that is there stays.
abbrev pub Keeps : Option Text → Option Text → Type 0
Keeps old new = (x : Text) → old ≡ some x → new ≡ some x

-- What a row may become in one step.
pub record RowStep (r r' : TransferRecord) : Type 0 where
  pub follows : may_follow r.phase r'.phase ≡ true
  pub identified : identity r' ≡ identity r
  pub attempts : r.attempt_count ≤ r'.attempt_count
  pub remote : Keeps r.remote_file_id r'.remote_file_id
  pub base : Keeps r.base_reference r'.base_reference
  pub final : (r.phase == TransferPhase.completed) ≡ true → r' ≡ r

-- The same over any number of steps.
pub record RowPath (r r' : TransferRecord) : Type 0 where
  pub identified : identity r' ≡ identity r
  pub attempts : r.attempt_count ≤ r'.attempt_count
  pub remote : Keeps r.remote_file_id r'.remote_file_id
  pub base : Keeps r.base_reference r'.base_reference
  pub started :
      (r'.phase == TransferPhase.pending) ≡ true → (r.phase == TransferPhase.pending) ≡ true
  pub final : (r.phase == TransferPhase.completed) ≡ true → r' ≡ r

-- A step of a row that stays open, with what the completion proves left as it was.
pub record QuietStep (r r' : TransferRecord) : Type 0 where
  pub follows : may_follow r.phase r'.phase ≡ true
  pub was_open : (r.phase == TransferPhase.completed) ≡ false
  pub still_open : (r'.phase == TransferPhase.completed) ≡ false
  pub identified : identity r' ≡ identity r
  pub attempts : r.attempt_count ≤ r'.attempt_count
  pub remote : r'.remote_file_id ≡ r.remote_file_id
  pub base : Keeps r.base_reference r'.base_reference
  pub local_revision : r'.verified_local_revision ≡ r.verified_local_revision
  pub remote_revision : r'.verified_remote_revision ≡ r.verified_remote_revision

pub may_follow_refl : (p : TransferPhase) → may_follow p p ≡ true
unfolding may_follow
may_follow_refl p = ground arith

pub pending_is_first :
    (p q : TransferPhase)
    → may_follow p q ≡ true
    → (q == TransferPhase.pending) ≡ true
    → (p == TransferPhase.pending) ≡ true
unfolding may_follow
pending_is_first p q h e = ground arith

pub RowStep-refl : (r : TransferRecord) → RowStep r r
RowStep-refl r = record {
  follows = may_follow_refl r.phase;
  identified = refl;
  attempts = omega arith;
  remote = λ x h. h;
  base = λ x h. h;
  final = λ h. refl;
}

pub QuietStep→RowStep : (r r' : TransferRecord) → QuietStep r r' → RowStep r r'
QuietStep→RowStep r r' q = record {
  follows = q.follows;
  identified = q.identified;
  attempts = q.attempts;
  remote = λ x h. q.remote ∙ h;
  base = q.base;
  final = λ h. let e = q.was_open in absurd cc;
}

pub RowStep→RowPath : (r r' : TransferRecord) → RowStep r r' → RowPath r r'
RowStep→RowPath r r' s = record {
  identified = s.identified;
  attempts = s.attempts;
  remote = s.remote;
  base = s.base;
  started = pending_is_first r.phase r'.phase s.follows;
  final = s.final;
}

pub RowPath-refl : (r : TransferRecord) → RowPath r r
RowPath-refl r = RowStep→RowPath r r (RowStep-refl r)

pub RowPath-trans : (r r' r'' : TransferRecord) → RowPath r r' → RowPath r' r'' → RowPath r r''
RowPath-trans r r' r'' a b = record {
  identified = b.identified ∙ a.identified;
  attempts = omega (arith, a.attempts, b.attempts);
  remote = λ x h. b.remote x (a.remote x h);
  base = λ x h. b.base x (a.base x h);
  started = λ h. a.started (b.started h);
  final = λ h.
      b.final (ap (λ (y : TransferRecord). y.phase == TransferPhase.completed) (a.final h) ∙ h)
      ∙ a.final h;
}

pub claimable_runs :
    (p : TransferPhase) → is_claimable p ≡ true → may_follow p TransferPhase.running ≡ true
unfolding may_follow is_claimable
claimable_runs p h = ground arith

pub claimable_open :
    (p : TransferPhase) → is_claimable p ≡ true → (p == TransferPhase.completed) ≡ false
unfolding is_claimable
claimable_open p h = ground arith

pub retryable_retries :
    (p : TransferPhase) → is_retryable p ≡ true → may_follow p TransferPhase.retry_scheduled ≡ true
unfolding may_follow is_retryable
retryable_retries p h = ground arith

pub retryable_open :
    (p : TransferPhase) → is_retryable p ≡ true → (p == TransferPhase.completed) ≡ false
unfolding is_retryable
retryable_open p h = ground arith

pub publishable_open :
    (p : TransferPhase) → is_publishable p ≡ true → (p == TransferPhase.completed) ≡ false
unfolding is_publishable
publishable_open p h = ground arith

pub publishable_completes :
    (p : TransferPhase) → is_publishable p ≡ true → may_follow p TransferPhase.completed ≡ true
unfolding may_follow is_publishable
publishable_completes p h = ground arith
