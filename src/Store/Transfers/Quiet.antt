-- ===== src/Store/Transfers/Quiet.antt =====
-- Every `UPDATE` that leaves a transfer open makes a quiet step of its rows
-- (crates/myvault-sync-engine/src/store.rs).
use my_vault.Base.{
  nat_eq, list_eq, option_eq, ℕ, ◌≡◌, refl, ap, ◌∙◌, true, false, ◌&&◌, ◌||◌, leb, ◌==◌, is_none,
  ==→≡, &&-eq-true, arith,
}
use my_vault.Text.{Text}
use my_vault.Store.Transfers.Record.{phase_eq, TransferPhase, TransferRecord}
use my_vault.Store.Transfers.Queue.{is_claimable, running_at}
use my_vault.Store.Transfers.Moves.{
  is_retryable, is_publishable, retry_row, pause_row, stop_row, base_row, interrupted_row,
}
use my_vault.Store.Transfers.Verified.{publish_row}
use my_vault.Store.Transfers.Steps.{
  identity, may_follow, may_follow_refl, QuietStep, claimable_runs, claimable_open,
  retryable_retries, retryable_open, publishable_open,
}

pub running_at-QuietStep :
    (now : ℕ) (r : TransferRecord) → is_claimable r.phase ≡ true → QuietStep r (running_at now r)
unfolding identity running_at
running_at-QuietStep now r e = record {
  follows = claimable_runs r.phase e;
  was_open = claimable_open r.phase e;
  still_open = refl;
  identified = refl;
  attempts = omega arith;
  remote = refl;
  base = λ x h. h;
  local_revision = refl;
  remote_revision = refl;
}

pub retry_row-QuietStep :
    (next updated : ℕ) (code : Text) (r : TransferRecord)
    → is_retryable r.phase ≡ true
    → QuietStep r (retry_row next updated code r)
unfolding identity retry_row
retry_row-QuietStep next updated code r e = record {
  follows = retryable_retries r.phase e;
  was_open = retryable_open r.phase e;
  still_open = refl;
  identified = refl;
  attempts = omega arith;
  remote = refl;
  base = λ x h. h;
  local_revision = refl;
  remote_revision = refl;
}

running_follows :
    (p q : TransferPhase)
    → (p == TransferPhase.running) ≡ true
    → (may_follow TransferPhase.running q) ≡ true
    → may_follow p q ≡ true
running_follows p q e h =
    ap (λ (x : TransferPhase). may_follow x q) (==→≡ p TransferPhase.running e) ∙ h

pub running_open :
    (p : TransferPhase)
    → (p == TransferPhase.running) ≡ true
    → (p == TransferPhase.completed) ≡ false
running_open p e = ground arith

pub pause_row-QuietStep :
    (next updated : ℕ) (code : Text) (r : TransferRecord)
    → (r.phase == TransferPhase.running) ≡ true
    → QuietStep r (pause_row next updated code r)
unfolding identity pause_row may_follow
pause_row-QuietStep next updated code r e = record {
  follows = running_follows r.phase TransferPhase.retry_scheduled e refl;
  was_open = running_open r.phase e;
  still_open = refl;
  identified = refl;
  attempts = omega arith;
  remote = refl;
  base = λ x h. h;
  local_revision = refl;
  remote_revision = refl;
}

stopped_follows :
    (target : TransferPhase)
    → (target == TransferPhase.auth_required || target == TransferPhase.needs_reconcile) ≡ true
    → may_follow TransferPhase.running target ≡ true
unfolding may_follow
stopped_follows target h = ground arith

stopped_open :
    (target : TransferPhase)
    → (target == TransferPhase.auth_required || target == TransferPhase.needs_reconcile) ≡ true
    → (target == TransferPhase.completed) ≡ false
stopped_open target h = ground arith

pub stop_row-QuietStep :
    (target : TransferPhase) (updated : ℕ) (code : Text) (r : TransferRecord)
    → (target == TransferPhase.auth_required || target == TransferPhase.needs_reconcile) ≡ true
    → (r.phase == TransferPhase.running) ≡ true
    → QuietStep r (stop_row target updated code r)
unfolding identity stop_row may_follow
stop_row-QuietStep target updated code r a e = record {
  follows = running_follows r.phase target e (stopped_follows target a);
  was_open = running_open r.phase e;
  still_open = stopped_open target a;
  identified = refl;
  attempts = omega arith;
  remote = refl;
  base = λ x h. h;
  local_revision = refl;
  remote_revision = refl;
}

pub base_row-QuietStep :
    (base : Text) (updated : ℕ) (r : TransferRecord)
    → (is_publishable r.phase && is_none r.base_reference) ≡ true
    → QuietStep r (base_row base updated r)
unfolding identity base_row
base_row-QuietStep base updated r e = record {
  follows = may_follow_refl r.phase;
  was_open =
      publishable_open r.phase (&&-eq-true (is_publishable r.phase) (is_none r.base_reference) e).0;
  still_open =
      publishable_open r.phase (&&-eq-true (is_publishable r.phase) (is_none r.base_reference) e).0;
  identified = refl;
  attempts = omega arith;
  remote = refl;
  base = λ x h.
      let e₁ = (&&-eq-true (is_publishable r.phase) (is_none r.base_reference) e).1 in absurd cc;
  local_revision = refl;
  remote_revision = refl;
}

pub publish_row-QuietStep :
    (now : ℕ) (r : TransferRecord)
    → (is_publishable r.phase && leb r.updated_at_unix_ms now) ≡ true
    → QuietStep r (publish_row now r)
unfolding identity publish_row
publish_row-QuietStep now r e = record {
  follows = may_follow_refl r.phase;
  was_open =
      publishable_open r.phase
        (&&-eq-true (is_publishable r.phase) (leb r.updated_at_unix_ms now) e).0;
  still_open =
      publishable_open r.phase
        (&&-eq-true (is_publishable r.phase) (leb r.updated_at_unix_ms now) e).0;
  identified = refl;
  attempts = omega arith;
  remote = refl;
  base = λ x h. h;
  local_revision = refl;
  remote_revision = refl;
}

pub interrupted_row-QuietStep :
    (r : TransferRecord)
    → (r.phase == TransferPhase.running) ≡ true
    → QuietStep r (interrupted_row r)
unfolding identity interrupted_row may_follow
interrupted_row-QuietStep r e = record {
  follows = running_follows r.phase TransferPhase.needs_reconcile e refl;
  was_open = running_open r.phase e;
  still_open = refl;
  identified = refl;
  attempts = omega arith;
  remote = refl;
  base = λ x h. h;
  local_revision = refl;
  remote_revision = refl;
}
