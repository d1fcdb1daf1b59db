-- ===== src/Store/Transfers/Invariant.antt =====
-- Well-formedness of the tables of transfers, kept by every operation on them
-- (crates/myvault-sync-engine/src/store.rs).
use my_vault.Base.{
  nat_eq, list_eq, option_eq, ℕ, ◌+◌, ◌≤◌, ◌≡◌, refl, sym, ap, ◌∙◌, subst, Bool, true, false, ◌&&◌,
  ◌||◌, List, [], ◌∷◌, ◌++◌, none, if◌then◌else◌, ◌==◌, ◌!=◌, Bool-cases, inl, inr, is_some, any,
  find, arith,
}
use my_vault.Base.Results.{Result, ok, err}
use my_vault.Text.{Text}
use my_vault.Text.Unicode.{Unicode}
use my_vault.Store.Validators.{Error}
use my_vault.Store.Table.{count, update}
use my_vault.Store.Table.Counts.{
  count-append, count-update, count_none, count-update_same, count-update_zero, count-any,
  find-none, count-ext, insert_unique,
}
use my_vault.Store.Transfers.Record.{
  direction_eq, phase_eq, TransferPhase, TransferRecord, TransferCompletion, lacks_evidence,
  validate_new_transfer,
}
use my_vault.Store.Transfers.Queue.{SyncStore, TransferHistory}
use my_vault.Store.Transfers.Moves.{is_publishable}
use my_vault.Store.Transfers.Completion.{completed_row}
use my_vault.Store.Transfers.Steps.{identity, publishable_open}
use my_vault.Store.Transfers.Change.{
  Change, Adds, append_nil, append_assoc, kept, added, extended, moved, finished, Quiet, has_id,
  has_marker, completes, history_of,
}
use my_vault.Store.Transfers.Operations.{Op, state_after, apply, run, apply-Change}
use my_vault.Store.Transfers.Lifecycle.{validate_new_transfer-parts}

-- A completed row without its evidence, or an open row with the evidence of a completion.
abbrev pub ill_formed : TransferRecord → Bool
ill_formed r =
    lacks_evidence r
    || (r.phase != TransferPhase.completed
        && (is_some r.verified_local_revision || is_some r.verified_remote_revision))

abbrev pub completed_at : ℕ → ℕ → TransferRecord → Bool
completed_at id at r =
    r.operation_id == id && (r.phase == TransferPhase.completed && r.updated_at_unix_ms == at)

abbrev pub occurred_at : ℕ → ℕ → TransferHistory → Bool
occurred_at id at h = h.operation_id == id && h.occurred_at_unix_ms == at

-- Ids and markers are unique; the completed rows and the history tell of the same completions, at
-- the same times; a row holds the evidence of a completion exactly where it is completed.
pub record ValidTables (rows : List TransferRecord) (events : List TransferHistory) : Type 0 where
  pub ids : (id : ℕ) → count (has_id id) rows ≤ 1
  pub markers : (marker : Text) → count (has_marker marker) rows ≤ 1
  pub history : (id at : ℕ) → count (occurred_at id at) events ≡ count (completed_at id at) rows
  pub evidence : count ill_formed rows ≡ 0

abbrev pub IsValid : SyncStore → Type 0
IsValid s = ValidTables s.transfers s.transfer_history

pub same_id :
    (p : TransferRecord → Bool) (f : TransferRecord → TransferRecord)
    → Quiet p f
    → (id : ℕ) (r : TransferRecord) → p r ≡ true
    → has_id id (f r) ≡ has_id id r
unfolding identity
same_id p f q id r e =
    ap (λ n. n == id) (ap (λ (x : TransferRecord). x.operation_id) (q r e).identified)

same_marker :
    (p : TransferRecord → Bool) (f : TransferRecord → TransferRecord)
    → Quiet p f
    → (m : Text) (r : TransferRecord) → p r ≡ true
    → has_marker m (f r) ≡ has_marker m r
unfolding identity
same_marker p f q m r e =
    ap (λ n. n == m) (ap (λ (x : TransferRecord). x.operation_marker) (q r e).identified)

same_completed :
    (p : TransferRecord → Bool) (f : TransferRecord → TransferRecord)
    → Quiet p f
    → (id at : ℕ) (r : TransferRecord) → p r ≡ true
    → completed_at id at (f r) ≡ completed_at id at r
same_completed p f q id at r e =
    let a = (q r e).was_open in let b = (q r e).still_open in ground (arith, a, b)

same_ill_formed :
    (p : TransferRecord → Bool) (f : TransferRecord → TransferRecord)
    → Quiet p f
    → (r : TransferRecord) → p r ≡ true
    → ill_formed r ≡ false
    → ill_formed (f r) ≡ false
unfolding lacks_evidence
same_ill_formed p f q r e h =
    let a = (q r e).was_open in
    let b = (q r e).still_open in
    let l : is_some (f r).verified_local_revision ≡ is_some r.verified_local_revision =
      ap is_some (q r e).local_revision in
    let m : is_some (f r).verified_remote_revision ≡ is_some r.verified_remote_revision =
      ap is_some (q r e).remote_revision in
    ground (arith, a, b, l, m)

-- The one row that a completion changes was open and is then completed at its time.
completes-history :
    (id : ℕ) (c : TransferCompletion) (i at : ℕ) (rs : List TransferRecord)
    → count (completes id) rs ≡ 1
    → count (completed_at i at) (update (completes id) (completed_row c) rs)
      ≡ count (completed_at i at) rs + (if occurred_at i at (history_of id c) then 1 else 0)
unfolding completed_row
completes-history id c i at rs one =
    let p = completes id in
    let q = completed_at i at in
    let total = count-update q p (completed_row c) rs in
    let before : count (λ r. p r && q r) rs ≡ 0 = count_none (λ r. p r && q r) rs (λ r. apart r) in
    let after : count (λ r. p r && q (completed_row c r)) rs
        ≡ (if occurred_at i at (history_of id c) then 1 else 0) =
      elim (Bool-cases (occurred_at i at (history_of id c))) [
        | inl e ↦
            let same : count (λ r. p r && q (completed_row c r)) rs ≡ count p rs =
              count-ext (λ r. p r && q (completed_row c r)) p (λ r. chosen r e) rs in
            rw (e, if◌then◌else◌) (same ∙ one)
        | inr e ↦
            rw (e, if◌then◌else◌)
              (count_none (λ r. p r && q (completed_row c r)) rs (λ r. not_chosen r e))
      ] in
    ground (arith, total, before, after)
  where
    apart : (r : TransferRecord) → (completes id r && completed_at i at r) ≡ false
    apart r = elim (Bool-cases (is_publishable r.phase)) [
      | inl e ↦ let o = publishable_open r.phase e in ground (arith, o)
      | inr e ↦ ground (arith, e)
    ]

    chosen :
        (r : TransferRecord)
        → occurred_at i at (history_of id c) ≡ true
        → (completes id r && completed_at i at (completed_row c r)) ≡ completes id r
    chosen r e = ground arith

    not_chosen :
        (r : TransferRecord)
        → occurred_at i at (history_of id c) ≡ false
        → (completes id r && completed_at i at (completed_row c r)) ≡ false
    not_chosen r e = ground arith

update-ValidTables :
    (p : TransferRecord → Bool) (f : TransferRecord → TransferRecord)
    → Quiet p f
    → (rows : List TransferRecord) (events : List TransferHistory) → ValidTables rows events
    → ValidTables (update p f rows) events
update-ValidTables p f q rows events v = record {
  ids = λ id.
      let e = count-update_same (has_id id) p f (same_id p f q id) rows in
      omega (arith, e, v.ids id);
  markers = λ k.
      let e = count-update_same (has_marker k) p f (same_marker p f q k) rows in
      omega (arith, e, v.markers k);
  history = λ id at.
      v.history id at
      ∙ sym (count-update_same (completed_at id at) p f (same_completed p f q id at) rows);
  evidence = count-update_zero ill_formed p f (same_ill_formed p f q) rows v.evidence;
}

append-ValidTables :
    (u : Unicode) (t : TransferRecord) (rows : List TransferRecord) (events : List TransferHistory)
    → validate_new_transfer u t ≡ ok tt
    → find (has_id t.operation_id) rows ≡ none
    → any (has_marker t.operation_marker) rows ≡ false
    → ValidTables rows events
    → ValidTables (rows ++ t ∷ []) events
unfolding lacks_evidence
append-ValidTables u t rows events w n m v =
    let (pend, l, r) = validate_new_transfer-parts u t w in
    let open_row : (t.phase == TransferPhase.completed) ≡ false = ground (arith, pend) in
    record {
      ids = λ id.
          insert_unique (λ x. x.operation_id) rows t id (find-none (has_id t.operation_id) rows n)
            (v.ids id);
      markers = λ k.
          insert_unique (λ x. x.operation_marker) rows t k
            (count-any (has_marker t.operation_marker) rows m) (v.markers k);
      history = λ id at.
          let e = count-append (completed_at id at) rows t in
          ground (arith, e, v.history id at, open_row);
      evidence =
          let e = count-append ill_formed rows t in ground (arith, e, v.evidence, open_row, l, r);
    }

extend-ValidTables :
    (u : Unicode) (ts rows : List TransferRecord) (events : List TransferHistory)
    → Adds u rows ts
    → ValidTables rows events
    → ValidTables (rows ++ ts) events
extend-ValidTables u [] rows events n v =
    subst (λ x. ValidTables x events) (sym (append_nil rows)) v
extend-ValidTables u (t ∷ ts) rows events (w, i, m, n) v =
    subst (λ x. ValidTables x events) (append_assoc rows t ts)
      (extend-ValidTables u ts (rows ++ t ∷ []) events n
        (append-ValidTables u t rows events w i m v))

finish-ValidTables :
    (id : ℕ) (c : TransferCompletion) (rows : List TransferRecord) (events : List TransferHistory)
    → count (completes id) rows ≡ 1
    → ValidTables rows events
    → ValidTables (update (completes id) (completed_row c) rows) (events ++ history_of id c ∷ [])
unfolding completed_row lacks_evidence
finish-ValidTables id c rows events one v = record {
  ids = λ i.
      let e = count-update_same (has_id i) (completes id) (completed_row c) (λ r h. refl) rows in
      omega (arith, e, v.ids i);
  markers = λ k.
      let e =
        count-update_same (has_marker k) (completes id) (completed_row c) (λ r h. refl) rows in
      omega (arith, e, v.markers k);
  history = λ i at.
      count-append (occurred_at i at) events (history_of id c)
      ∙ ap (λ n. n + (if occurred_at i at (history_of id c) then 1 else 0)) (v.history i at)
      ∙ sym (completes-history id c i at rows one);
  evidence =
      count-update_zero ill_formed (completes id) (completed_row c) (λ r h e. refl) rows v.evidence;
}

carry :
    {rows rows' : List TransferRecord} {events events' : List TransferHistory}
    → rows' ≡ rows
    → events' ≡ events
    → ValidTables rows events
    → ValidTables rows' events'
carry {rows} {rows'} {events} {events'} a b v =
    subst (λ x. ValidTables x events') (sym a) (subst (λ x. ValidTables rows x) (sym b) v)

pub Change-IsValid : (u : Unicode) (s s' : SyncStore) → Change u s s' → IsValid s → IsValid s'
Change-IsValid u s s' (kept a b) v = carry a b v
Change-IsValid u s s' (added t w n m a b) v =
    carry a b (append-ValidTables u t s.transfers s.transfer_history w n m v)
Change-IsValid u s s' (extended ts n a b) v =
    carry a b (extend-ValidTables u ts s.transfers s.transfer_history n v)
Change-IsValid u s s' (moved p f q a b) v =
    carry a b (update-ValidTables p f q s.transfers s.transfer_history v)
Change-IsValid u s s' (finished id c r n m o h a b) v =
    carry a b (finish-ValidTables id c s.transfers s.transfer_history o v)

module _ (u : Unicode) (uuid_text : ℕ → Text) where
  state_after-IsValid :
      (op : Op) (s : SyncStore) (m : Result SyncStore Error)
      → apply u uuid_text op s ≡ m
      → IsValid s
      → IsValid (state_after m s)
  state_after-IsValid op s (ok s') h v = Change-IsValid u s s' (apply-Change u uuid_text op s h) v
  state_after-IsValid op s (err e) h v = v

  -- Every sequence of registrations, claims, retries, pauses, stops, resumptions, requeues,
  -- publications of a base, begins of a local publication, verified completions, pages of changes
  -- with their downloads and reopenings keeps the tables of transfers well-formed: operation ids
  -- and markers are unique, every completed transfer has exactly one entry of history, with the
  -- time of its completion, and there is no other entry, and the evidence of a completion stands in
  -- completed rows, whole, and in no other.
  pub run-IsValid : (ops : List Op) (s : SyncStore) → IsValid s → IsValid (run u uuid_text ops s)
  unfolding run
  run-IsValid [] s v = v
  run-IsValid (op ∷ ops) s v =
      let m = apply u uuid_text op s in
      run-IsValid ops (state_after m s) (state_after-IsValid op s m refl v)
