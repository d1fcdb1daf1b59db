-- ===== src/Conflict/Safety.antt =====
-- What the evidence of an accepted fresh input holds, by the outcome that it is given
-- (crates/myvault-sync-engine/src/conflict/classifier.rs).
use my_vault.Base.{
  nat_eq, list_eq, option_eq, ◌≡◌, ◌≢◌, refl, ap, sym, ◌∙◌, Bool, true, false, is_some,
  option_beq_iff, arith, ◌⊎◌, inl, inr,
}
use my_vault.Base.Results.{ok}
use my_vault.Text.Digest.{Digest}
use my_vault.Text.Unicode.{Unicode}
use my_vault.Conflict.Cells.{ConflictOutcome}
use my_vault.Conflict.Facts.{
  fingerprint_eq, BoundaryAssessment, ReplayAssessment, ClassificationEvidence, ConflictCase,
  ConflictInput, DeletedFinalStateProof,
}
use my_vault.Conflict.Validate.{
  required_content, require_content, validate_content_predicates, semantic_target_matches,
}
use my_vault.Conflict.Input.{new_input, lacks_semantic_proof}
use my_vault.Conflict.Accepted.{Checked, new_input-Checked}
use my_vault.Conflict.Classify.{
  classify_boundary, classify_replay, classify_fresh_case, classify_conflict,
}

abbrev pub outcome_of : ConflictInput → ConflictOutcome
outcome_of input = (classify_conflict input).0.outcome

-- Both sides are captured and differ from the base, and the merge was computed.
pub record CanMerge (e : ClassificationEvidence) : Type 0 where
  pub local_changed : e.facts.local ≢ e.facts.base
  pub remote_changed : e.facts.remote ≢ e.facts.base
  pub captured :
      (is_some e.facts.base ≡ true)
      × (is_some e.facts.local ≡ true)
      × (is_some e.facts.remote ≡ true)
  pub merged : is_some e.verified_markdown_merge ≡ true

merge_case :
    (e : ClassificationEvidence) (c : ConflictCase)
    → Checked e ReplayAssessment.fresh c
    → (classify_fresh_case c).outcome ≡ ConflictOutcome.safe_text_merge_local
    → CanMerge e
unfolding classify_fresh_case required_content require_content validate_content_predicates
merge_case e (ConflictCase.remote_content_changed g) k h = ground arith
merge_case e ConflictCase.non_overlapping_markdown_changes k h = ground (
  arith,
  k.predicates,
  k.content,
  k.merge,
  option_beq_iff e.facts.local e.facts.base,
  option_beq_iff e.facts.remote e.facts.base,
)
merge_case e _ k h = ground arith

preserve_case :
    (e : ClassificationEvidence) (c : ConflictCase)
    → Checked e ReplayAssessment.fresh c
    → (classify_fresh_case c).outcome ≡ ConflictOutcome.preserve_both_local
    → (is_some e.facts.local ≡ true) × (is_some e.facts.remote ≡ true)
unfolding classify_fresh_case required_content require_content
preserve_case e (ConflictCase.remote_content_changed g) k h = ground arith
preserve_case e _ k h = ground (arith, k.content)

-- The sealed proofs that let a plan do nothing.
abbrev pub IsVerified : ClassificationEvidence → ConflictCase → Type 0
IsVerified e c =
    ((c ≡ ConflictCase.both_deleted DeletedFinalStateProof.verified)
      × (e.verified_deleted_final_state ≡ true))
    ⊎ ((c ≡ ConflictCase.same_exact_rename)
        × (semantic_target_matches e.verified_same_rename e.facts ≡ true))
    ⊎ ((c ≡ ConflictCase.same_exact_move)
        × (semantic_target_matches e.verified_same_move e.facts ≡ true))

no_op_case :
    (e : ClassificationEvidence) (c : ConflictCase)
    → Checked e ReplayAssessment.fresh c
    → (classify_fresh_case c).outcome ≡ ConflictOutcome.no_op_verified
    → IsVerified e c
unfolding classify_fresh_case lacks_semantic_proof
no_op_case e (ConflictCase.both_deleted DeletedFinalStateProof.verified) k h =
    inl (refl, ground (arith, k.semantic))
no_op_case e (ConflictCase.both_deleted DeletedFinalStateProof.not_verified) k h = cc
no_op_case e ConflictCase.same_exact_rename k h = inr (inl (refl, ground (arith, k.semantic)))
no_op_case e ConflictCase.same_exact_move k h = inr (inr (refl, ground (arith, k.semantic)))
no_op_case e _ k h = absurd (ground arith)

-- A refused boundary never replaces, merges, preserves or concludes.
abbrev is_refusal : ConflictOutcome → Bool
is_refusal ConflictOutcome.unsupported_protected = true
is_refusal ConflictOutcome.needs_reconcile = true
is_refusal _ = false

fresh_outcome :
    (e : ClassificationEvidence) (b : BoundaryAssessment) (c : ConflictCase)
    → is_refusal (
        outcome_of
          (record { evidence = e; boundary = b; replay = ReplayAssessment.fresh; case = c }))
      ≡ false
    → (b ≡ BoundaryAssessment.approved)
      × (outcome_of
            (record { evidence = e; boundary = b; replay = ReplayAssessment.fresh; case = c })
          ≡ (classify_fresh_case c).outcome)
unfolding classify_conflict classify_boundary classify_replay
fresh_outcome e BoundaryAssessment.approved c n = (refl, refl)
fresh_outcome e _ c n = absurd (ground arith)

module _ (d : Digest) (u : Unicode) where
  -- An accepted fresh input that is not refused was approved and has passed the checks, and its
  -- outcome is that of its case.
  fresh_accepted :
      (e : ClassificationEvidence) (b : BoundaryAssessment) (c : ConflictCase)
      (input : ConflictInput)
      → new_input d u e b ReplayAssessment.fresh c ≡ ok input
      → is_refusal (outcome_of input) ≡ false
      → Checked e ReplayAssessment.fresh c × (outcome_of input ≡ (classify_fresh_case c).outcome)
  fresh_accepted e b c input h n =
      let (same, checked) = new_input-Checked d u e b ReplayAssessment.fresh c input h in
      let (approved, outcome) =
        fresh_outcome e b c (sym (ap (λ x. is_refusal (outcome_of x)) same) ∙ n) in
      (checked approved, ap outcome_of same ∙ outcome)

  -- When the plan of an accepted fresh input publishes a merge, base, local and remote content
  -- were captured, local and remote both differ from the base, and the merge was computed.
  pub merge_proved :
      (e : ClassificationEvidence) (b : BoundaryAssessment) (c : ConflictCase)
      (input : ConflictInput)
      → new_input d u e b ReplayAssessment.fresh c ≡ ok input
      → outcome_of input ≡ ConflictOutcome.safe_text_merge_local
      → CanMerge e
  merge_proved e b c input h o =
      let (checked, outcome) = fresh_accepted e b c input h (ap is_refusal o) in
      merge_case e c checked (sym outcome ∙ o)

  -- When the plan of an accepted fresh input preserves both sides, both were captured.
  pub preserve_proved :
      (e : ClassificationEvidence) (b : BoundaryAssessment) (c : ConflictCase)
      (input : ConflictInput)
      → new_input d u e b ReplayAssessment.fresh c ≡ ok input
      → outcome_of input ≡ ConflictOutcome.preserve_both_local
      → (is_some e.facts.local ≡ true) × (is_some e.facts.remote ≡ true)
  preserve_proved e b c input h o =
      let (checked, outcome) = fresh_accepted e b c input h (ap is_refusal o) in
      preserve_case e c checked (sym outcome ∙ o)

  -- The flags and targets that a plan to do nothing rests on.
  pub no_op_proved :
      (e : ClassificationEvidence) (b : BoundaryAssessment) (c : ConflictCase)
      (input : ConflictInput)
      → new_input d u e b ReplayAssessment.fresh c ≡ ok input
      → outcome_of input ≡ ConflictOutcome.no_op_verified
      → IsVerified e c
  no_op_proved e b c input h o =
      let (checked, outcome) = fresh_accepted e b c input h (ap is_refusal o) in
      no_op_case e c checked (sym outcome ∙ o)
