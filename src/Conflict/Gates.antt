-- ===== src/Conflict/Gates.antt =====
-- What every plan of the classifier satisfies, whatever its input.
use my_vault.Base.{
  ◌≡◌, ◌≢◌, ◌⊎◌, inl, inr, ◌↔◌, Bool, true, false, [], some, arith, Option-cases, any,
}
use my_vault.Conflict.Cells.{ConflictOutcome, ConflictDraft, CursorGate, ConflictPlan}
use my_vault.Conflict.Facts.{BoundaryAssessment, ReplayAssessment, ConflictCase, ConflictInput}
use my_vault.Conflict.Classify.{
  classify_boundary, classify_replay, classify_fresh_case, classify_conflict,
}

abbrev is_blocked_draft : ConflictDraft → Bool
is_blocked_draft ConflictDraft.remote_existing_blocked = true
is_blocked_draft _ = false

abbrev is_publication : ConflictDraft → Bool
is_publication ConflictDraft.local_content_publish = true
is_publication ConflictDraft.merge_publish = true
is_publication _ = false

abbrev is_base_draft : ConflictDraft → Bool
is_base_draft ConflictDraft.base_publish = true
is_base_draft _ = false

-- How the cursor gate of a plan follows from its outcome and its drafts.
pub record IsGated (p : ConflictPlan) : Type 0 where
  pub verified :
      (p.cursor_gate ≡ CursorGate.exact_verification) ↔ (p.outcome ≡ ConflictOutcome.no_op_verified)
  pub verified_idle : p.outcome ≡ ConflictOutcome.no_op_verified → p.drafts ≡ []
  pub published : p.cursor_gate ≡ CursorGate.all_local_publications ↔ (
      (p.outcome ≡ ConflictOutcome.guarded_local_replace)
      ⊎ (p.outcome ≡ ConflictOutcome.preserve_both_local))
  pub blocked : any is_blocked_draft p.drafts ≡ true → p.cursor_gate ≡ CursorGate.needs_reconcile
  pub based : any is_base_draft p.drafts ≡ true → any is_publication p.drafts ≡ true

fresh-IsGated : (c : ConflictCase) → IsGated (classify_fresh_case c)
unfolding classify_fresh_case
fresh-IsGated (ConflictCase.remote_content_changed g) = ground arith
fresh-IsGated _ = ground arith

boundary-IsGated :
    (b : BoundaryAssessment) (p : ConflictPlan) → classify_boundary b ≡ some p → IsGated p
unfolding classify_boundary
boundary-IsGated b p h = ground arith

replay-IsGated : (r : ReplayAssessment) (p : ConflictPlan) → classify_replay r ≡ some p → IsGated p
unfolding classify_replay
replay-IsGated r p h = ground arith

-- In every plan the cursor gate follows from the outcome and the drafts: exact verification is the
-- gate of exactly the verified no-ops, which draft nothing; the gate of all local publications is
-- that of exactly the guarded replacements and the preserve-both plans; a plan that blocks a
-- remote mutation forbids the cursor to advance; and a new base is only published beside a local
-- or a merge publication.
pub classify_conflict-IsGated : (input : ConflictInput) → IsGated (classify_conflict input).0
unfolding classify_conflict
classify_conflict-IsGated input = elim (Option-cases (classify_boundary input.boundary)) [
  | inr (p, e) ↦ rw (e, classify_conflict) (boundary-IsGated input.boundary p e)
  | inl e ↦ elim (Option-cases (classify_replay input.replay)) [
    | inr (p, r) ↦ rw (e, r, classify_conflict) (replay-IsGated input.replay p r)
    | inl r ↦ rw (e, r, classify_conflict) (fresh-IsGated input.case)
  ]
]

-- A boundary that is not approved decides the plan alone: whatever the prior outcome and the case,
-- the plan drafts nothing and forbids the cursor to advance; and it is the same plan for any two
-- inputs with that boundary.
pub boundary_decides :
    (x y : ConflictInput)
    → x.boundary ≢ BoundaryAssessment.approved
    → y.boundary ≡ x.boundary
    → let p = (classify_conflict x).0 in
      (p.drafts ≡ []) × (p.cursor_gate ≡ CursorGate.needs_reconcile) × ((classify_conflict y).0 ≡ p)
unfolding classify_conflict
boundary_decides x y n e = ground arith
