-- ===== src/Store/Transfers/Lifecycle.antt =====
-- The life of a transfer over the calls of the store on its transfers: its phases, its identity, its end
-- (crates/myvault-sync-engine/src/store.rs).
use my_vault.Base.{
  nat_eq, list_eq, option_eq, ℕ, ◌≡◌, refl, sym, ap, ◌∙◌, subst, true, false, ◌||◌, List, [], ◌∷◌,
  ◌++◌, All, Option, none, some, if◌then◌else◌, unwrap_or, Bool-cases, ◌==◌, ◌!=◌, ==→≡, inl, inr,
  find, is_some, &&-eq-true, arith,
}
use my_vault.Base.Results.{Result, ok, err, fail_if-ok, >>-ok}
use my_vault.Text.{Text}
use my_vault.Text.Unicode.{Unicode}
use my_vault.Store.Validators.{Error}
use my_vault.Store.Table.{
  Extends, Extends-refl, Extends-append, Extends-extend, Extends-update, Extends-trans,
}
use my_vault.Store.Table.Counts.{Extends-update_found, find-some}
use my_vault.Store.Transfers.Record.{
  direction_eq, phase_eq, TransferPhase, TransferRecord, TransferCompletion, validate,
  validate_new_transfer,
}
use my_vault.Store.Transfers.Queue.{SyncStore}
use my_vault.Store.Transfers.Moves.{is_publishable}
use my_vault.Store.Transfers.Completion.{differs, may_complete, completed_row}
use my_vault.Store.Transfers.Steps.{
  identity, Keeps, RowStep, RowPath, RowStep-refl, QuietStep→RowStep, RowStep→RowPath, RowPath-refl,
  RowPath-trans, publishable_open, publishable_completes,
}
use my_vault.Store.Transfers.Change.{
  Change, Adds, kept, added, extended, moved, finished, has_id, completes,
}
use my_vault.Store.Transfers.Operations.{Op, state_after, apply, run, apply-Change}

-- A row that a call has added.
abbrev pub IsPending : TransferRecord → Type 0
IsPending r = (r.phase == TransferPhase.pending) ≡ true

abbrev pub IsRow : TransferRecord → Type 0
IsRow _ = Unit

pub may_complete-parts :
    (c : TransferCompletion) (r : TransferRecord)
    → may_complete c r ≡ true
    → (is_publishable r.phase ≡ true)
      × (differs r.remote_file_id c.remote_file_id ≡ false)
      × (differs r.base_reference c.base_reference ≡ false)
unfolding may_complete
may_complete-parts c r h = (ground arith, ground arith, ground arith)

differs-Keeps : (old : Option Text) (x : Text) → differs old x ≡ false → Keeps old (some x)
unfolding differs
differs-Keeps none x h y e = absurd cc
differs-Keeps (some z) x h y e = ap some (sym (==→≡ z x (ground (arith, h))) ∙ some_injective e)
  where
    some_injective : {a b : Text} → some a ≡ some b → a ≡ b
    some_injective p = cc

completed_row-RowStep :
    (c : TransferCompletion) (r : TransferRecord)
    → may_complete c r ≡ true
    → RowStep r (completed_row c r)
unfolding identity completed_row
completed_row-RowStep c r h =
    let (p, d, b) = may_complete-parts c r h in
    record {
      follows = publishable_completes r.phase p;
      identified = refl;
      attempts = omega arith;
      remote = differs-Keeps r.remote_file_id c.remote_file_id d;
      base = differs-Keeps r.base_reference c.base_reference b;
      final = λ e. let e₁ = publishable_open r.phase p in absurd cc;
    }

pub validate_new_transfer-parts :
    (u : Unicode) (t : TransferRecord)
    → validate_new_transfer u t ≡ ok tt
    → IsPending t
      × (is_some t.verified_local_revision ≡ false)
      × (is_some t.verified_remote_revision ≡ false)
unfolding validate_new_transfer
validate_new_transfer-parts u t h =
    let h₁ = (>>-ok (validate u t) _ h).1 in
    let e =
      fail_if-ok
        (t.phase != TransferPhase.pending
          || t.attempt_count != 0
          || is_some t.last_error_code
          || is_some t.verified_local_revision
          || is_some t.verified_remote_revision)
        Error.invalid_transfer_evidence h₁ in
    (ground (arith, e), ground (arith, e), ground (arith, e))

module _ (u : Unicode) where
  Adds-IsPending : (rows ts : List TransferRecord) → Adds u rows ts → All IsPending ts
  Adds-IsPending rows [] n = tt
  Adds-IsPending rows (t ∷ ts) (v, _, _, n) =
      ((validate_new_transfer-parts u t v).0, Adds-IsPending (rows ++ t ∷ []) ts n)

  Change-Extends :
      (s s' : SyncStore) → Change u s s' → Extends RowStep IsPending s.transfers s'.transfers
  Change-Extends s s' (kept a b) =
      subst (λ rows. Extends RowStep IsPending s.transfers rows) (sym a)
        (Extends-refl RowStep IsPending RowStep-refl s.transfers)
  Change-Extends s s' (added t v n m a b) =
      subst (λ rows. Extends RowStep IsPending s.transfers rows) (sym a)
        (Extends-append RowStep IsPending RowStep-refl t (validate_new_transfer-parts u t v).0
          s.transfers)
  Change-Extends s s' (extended ts n a b) =
      subst (λ rows. Extends RowStep IsPending s.transfers rows) (sym a)
        (Extends-extend RowStep IsPending RowStep-refl ts s.transfers
          (Adds-IsPending s.transfers ts n))
  Change-Extends s s' (moved p f q a b) =
      subst (λ rows. Extends RowStep IsPending s.transfers rows) (sym a)
        (Extends-update RowStep IsPending p f RowStep-refl
          (λ r e. QuietStep→RowStep r (f r) (q r e)) s.transfers)
  Change-Extends s s' (finished id c r n m o h a b) =
      let (p, d, e) = may_complete-parts c r m in
      let i : (r.operation_id == id) ≡ true = find-some (has_id id) s.transfers n in
      let both : completes id r ≡ true = ground (arith, p, i) in
      subst (λ rows. Extends RowStep IsPending s.transfers rows) (sym a)
        (Extends-update_found RowStep IsPending (completes id) (has_id id) (completed_row c)
          RowStep-refl (λ x g. (&&-eq-true (x.operation_id == id) (is_publishable x.phase) g).0)
          s.transfers r n both (completed_row-RowStep c r m) o)

  same_row : (r r' : TransferRecord) → RowPath r r' → r'.operation_id ≡ r.operation_id
  unfolding identity
  same_row r r' p = ap (λ (x : TransferRecord). x.operation_id) p.identified

  find-Extends :
      (id : ℕ) (rs rs' : List TransferRecord) (r : TransferRecord)
      → Extends RowPath IsRow rs rs'
      → find (has_id id) rs ≡ some r
      → (r' : TransferRecord) × (find (has_id id) rs' ≡ some r') × RowPath r r'
  find-Extends id [] rs' r e h = absurd cc
  find-Extends id (x ∷ rs) [] r e h = absurd e
  find-Extends id (x ∷ rs) (x' ∷ rs') r (e, es) h =
      let same : has_id id x' ≡ has_id id x = ap (λ n. n == id) (same_row x x' e) in
      elim (Bool-cases (has_id id x)) [
        | inl b ↦
            let e₁ : x ≡ r = some_row (rw (b, if◌then◌else◌) at h) in
            let e₂ : find (has_id id) (x' ∷ rs') ≡ some x' = rw (same ∙ b, if◌then◌else◌) refl in
            (x', e₂, subst (λ y. RowPath y x') e₁ e)
        | inr b ↦
            let (r', f, p) = find-Extends id rs rs' r es (rw (b, if◌then◌else◌) at h) in
            let e₂ : find (has_id id) (x' ∷ rs') ≡ some r' = rw (same ∙ b, if◌then◌else◌) f in
            (r', e₂, p)
      ]
    where
      some_row : {a b : TransferRecord} → some a ≡ some b → a ≡ b
      some_row p = ap (λ (o : Option TransferRecord). unwrap_or o x) p

module _ (u : Unicode) (uuid_text : ℕ → Text) where
  -- A call of the store on its transfers that returns a value (a registration, a claim, a retry, a
  -- pause, a stop, a resumption, a requeue, the publication of a base, the begin of a local
  -- publication, a verified completion, a page of changes with its downloads, the reopening) takes
  -- every row of the table, in place, by at most one step of the state machine of phases: its
  -- registered identity stays, its count of attempts does not fall, a remote id or base reference
  -- that is there stays, and a completed row is left as it is. Every row that the call adds is
  -- pending.
  pub apply_follows :
      (op : Op) (s : SyncStore) {s' : SyncStore}
      → apply u uuid_text op s ≡ ok s'
      → Extends RowStep IsPending s.transfers s'.transfers
  apply_follows op s {s'} h = Change-Extends u s s' (apply-Change u uuid_text op s h)

  weaken :
      (rs rs' : List TransferRecord)
      → Extends RowStep IsPending rs rs'
      → Extends RowPath IsRow rs rs'
  weaken [] [] e = tt
  weaken [] (r' ∷ rs') (e, es) = (tt, weaken [] rs' es)
  weaken (r ∷ rs) [] e = absurd e
  weaken (r ∷ rs) (r' ∷ rs') (e, es) = (RowStep→RowPath r r' e, weaken rs rs' es)

  pub state_after-Extends :
      (op : Op) (s : SyncStore) (m : Result SyncStore Error)
      → apply u uuid_text op s ≡ m
      → Extends RowPath IsRow s.transfers (state_after m s).transfers
  state_after-Extends op s (ok s') h = weaken s.transfers s'.transfers (apply_follows op s h)
  state_after-Extends op s (err e) h = Extends-refl RowPath IsRow RowPath-refl s.transfers

  pub run-Extends :
      (ops : List Op) (s : SyncStore)
      → Extends RowPath IsRow s.transfers (run u uuid_text ops s).transfers
  unfolding run
  run-Extends [] s = Extends-refl RowPath IsRow RowPath-refl s.transfers
  run-Extends (op ∷ ops) s =
      let m = apply u uuid_text op s in
      Extends-trans RowPath IsRow RowPath-trans (λ r r' p f. tt) s.transfers
        (state_after m s).transfers (run u uuid_text ops (state_after m s)).transfers
        (state_after-Extends op s m refl) (run-Extends ops (state_after m s))

  -- Over any sequence of registrations, claims, retries, pauses, stops, resumptions, requeues,
  -- publications of a base, begins of a local publication, verified completions, pages of changes
  -- with their downloads and reopenings, whatever each returns, a transfer that is there stays
  -- there under its id, with the identity it was registered with; its attempts do not fall, its
  -- remote id and base reference are never replaced, it never returns to pending, and once it is
  -- completed its row never changes.
  pub transfer_persists :
      (ops : List Op) (s : SyncStore) (id : ℕ) (r : TransferRecord)
      → find (has_id id) s.transfers ≡ some r
      → (r' : TransferRecord) × (find (has_id id) (run u uuid_text ops s).transfers ≡ some r')
        × RowPath r r'
  transfer_persists ops s id r h =
      find-Extends u id s.transfers (run u uuid_text ops s).transfers r (run-Extends ops s) h
