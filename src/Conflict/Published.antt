-- ===== src/Conflict/Published.antt =====
-- What a plan that drafts the publication of remote content over the local object rests on
-- (crates/myvault-sync-engine/src/conflict/classifier.rs).
use my_vault.Base.{
  nat_eq, list_eq, option_eq, ◌≡◌, ◌≢◌, refl, ap, sym, ◌∙◌, Bool, true, false, is_some, any, subst,
  option_beq_iff, arith, ◌⊎◌, inl, inr,
}
use my_vault.Base.Results.{ok}
use my_vault.Text.Digest.{Digest}
use my_vault.Text.Unicode.{Unicode}
use my_vault.Conflict.Cells.{ConflictOutcome, ConflictDraft, CursorGate, ConflictPlan}
use my_vault.Conflict.Facts.{
  fingerprint_eq, BoundaryAssessment, ReplayAssessment, ClassificationEvidence,
  ClassificationEvidenceFacts, ConflictCase, ConflictInput, GuardedLocalCapability,
}
use my_vault.Conflict.Validate.{required_content, require_content, validate_content_predicates}
use my_vault.Conflict.Input.{new_input}
use my_vault.Conflict.Accepted.{Checked, new_input-Checked}
use my_vault.Conflict.Classify.{
  classify_boundary, classify_replay, classify_fresh_case, classify_conflict,
}

-- The facts that let a plan replace local content: it is still the base, and remote is not.
pub record CanReplace (f : ClassificationEvidenceFacts) : Type 0 where
  pub unchanged : f.local ≡ f.base
  pub changed : f.remote ≢ f.base
  pub local_known : is_some f.local ≡ true
  pub remote_known : is_some f.remote ≡ true

abbrev is_local_publish : ConflictDraft → Bool
is_local_publish ConflictDraft.local_content_publish = true
is_local_publish _ = false

-- The plan drafts the publication of remote content over the local object.
abbrev pub publishes_local : ConflictPlan → Bool
publishes_local plan = any is_local_publish plan.drafts

abbrev pub plan_of : ConflictInput → ConflictPlan
plan_of input = (classify_conflict input).0

-- The cases that draft the publication while local has its own deletion, rename or move.
abbrev pub is_diverged : ConflictCase → Bool
is_diverged ConflictCase.local_delete_remote_edited = true
is_diverged ConflictCase.local_rename_remote_edited = true
is_diverged ConflictCase.local_move_remote_edited = true
is_diverged _ = false

-- What a plan that drafts the publication has: it replaces local content that is still the base,
-- or the cursor is stopped, with the remote content captured.
abbrev pub IsPublication : ClassificationEvidenceFacts → ConflictCase → ConflictPlan → Type 0
IsPublication f c plan =
    ((plan.outcome ≡ ConflictOutcome.guarded_local_replace) × CanReplace f)
    ⊎ ((is_diverged c ≡ true)
        × (is_some f.remote ≡ true)
        × (plan.cursor_gate ≡ CursorGate.needs_reconcile))

replace_case :
    (e : ClassificationEvidence) (g : GuardedLocalCapability)
    → Checked e ReplayAssessment.fresh (ConflictCase.remote_content_changed g)
    → publishes_local (classify_fresh_case (ConflictCase.remote_content_changed g)) ≡ true
    → ((classify_fresh_case (ConflictCase.remote_content_changed g)).outcome
        ≡ ConflictOutcome.guarded_local_replace)
      × CanReplace e.facts
unfolding classify_fresh_case required_content require_content validate_content_predicates
replace_case e g k h = (
  ground (arith, h),
  ground (
    arith,
    k.predicates,
    k.content,
    option_beq_iff e.facts.local e.facts.base,
    option_beq_iff e.facts.remote e.facts.base,
  ),
)

publish_case :
    (e : ClassificationEvidence) (c : ConflictCase)
    → Checked e ReplayAssessment.fresh c
    → publishes_local (classify_fresh_case c) ≡ true
    → IsPublication e.facts c (classify_fresh_case c)
unfolding classify_fresh_case required_content require_content
publish_case e (ConflictCase.remote_content_changed g) k h = inl (replace_case e g k h)
publish_case e ConflictCase.local_delete_remote_edited k h =
    inr (refl, ground (arith, k.content), refl)
publish_case e ConflictCase.local_rename_remote_edited k h =
    inr (refl, ground (arith, k.content), refl)
publish_case e ConflictCase.local_move_remote_edited k h =
    inr (refl, ground (arith, k.content), refl)
publish_case e _ k h = absurd (ground arith)

-- A refused boundary drafts nothing.
fresh_plan :
    (e : ClassificationEvidence) (b : BoundaryAssessment) (c : ConflictCase)
    → publishes_local
        (plan_of (record { evidence = e; boundary = b; replay = ReplayAssessment.fresh; case = c }))
      ≡ true
    → (b ≡ BoundaryAssessment.approved)
      × (plan_of (record { evidence = e; boundary = b; replay = ReplayAssessment.fresh; case = c })
          ≡ classify_fresh_case c)
unfolding classify_conflict classify_boundary classify_replay
fresh_plan e BoundaryAssessment.approved c n = (refl, refl)
fresh_plan e _ c n = absurd (ground arith)

module _ (d : Digest) (u : Unicode) where
  -- When the plan of an accepted fresh input drafts the publication of remote content over the
  -- local object, then either its outcome is the guarded replacement, the local content was
  -- captured and is still the base, and the remote content was captured and is not; or its case is
  -- that local was deleted, renamed or moved while remote was edited, the remote content was
  -- captured, and the plan's gate stops the cursor for reconciliation.
  pub publish_proved :
      (e : ClassificationEvidence) (b : BoundaryAssessment) (c : ConflictCase)
      (input : ConflictInput)
      → new_input d u e b ReplayAssessment.fresh c ≡ ok input
      → publishes_local (plan_of input) ≡ true
      → IsPublication e.facts c (plan_of input)
  publish_proved e b c input h p =
      let (same, checked) = new_input-Checked d u e b ReplayAssessment.fresh c input h in
      let (approved, plan) =
        fresh_plan e b c (sym (ap (λ x. publishes_local (plan_of x)) same) ∙ p) in
      let whole : plan_of input ≡ classify_fresh_case c = ap plan_of same ∙ plan in
      subst (IsPublication e.facts c) (sym whole)
        (publish_case e c (checked approved) (sym (ap publishes_local whole) ∙ p))
