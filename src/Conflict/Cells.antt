-- ===== src/Conflict/Cells.antt =====
-- Cells, outcomes and plans of the conflict matrix
-- (crates/myvault-sync-engine/src/conflict/classifier.rs).
pub mod Spelling
use my_vault.Base.{
  ℕ, nat_beq, Bool, true, false, ◌≡◌, ◌↔◌, refl, List, Option, none, some, Eq, arith,
}
use my_vault.Text.{Text, codes}

pub data ConflictCell : Type 0 where
  c01 c02 c03 c04 c05 c06a c06b c07 c08 c09 c10 c11 c12 c13 c14a c14b c14c c15 c16 c17 c18 c19 c20
        c21 c22a c22b c23 c24 c25 c26 c27 c28a c28b c29 c30 c31 c32 c33a c33b c34 :
      ConflictCell

abbrev pub cell_str : ConflictCell → Text
cell_str c01 = codes "C01"
cell_str c02 = codes "C02"
cell_str c03 = codes "C03"
cell_str c04 = codes "C04"
cell_str c05 = codes "C05"
cell_str c06a = codes "C06a"
cell_str c06b = codes "C06b"
cell_str c07 = codes "C07"
cell_str c08 = codes "C08"
cell_str c09 = codes "C09"
cell_str c10 = codes "C10"
cell_str c11 = codes "C11"
cell_str c12 = codes "C12"
cell_str c13 = codes "C13"
cell_str c14a = codes "C14a"
cell_str c14b = codes "C14b"
cell_str c14c = codes "C14c"
cell_str c15 = codes "C15"
cell_str c16 = codes "C16"
cell_str c17 = codes "C17"
cell_str c18 = codes "C18"
cell_str c19 = codes "C19"
cell_str c20 = codes "C20"
cell_str c21 = codes "C21"
cell_str c22a = codes "C22a"
cell_str c22b = codes "C22b"
cell_str c23 = codes "C23"
cell_str c24 = codes "C24"
cell_str c25 = codes "C25"
cell_str c26 = codes "C26"
cell_str c27 = codes "C27"
cell_str c28a = codes "C28a"
cell_str c28b = codes "C28b"
cell_str c29 = codes "C29"
cell_str c30 = codes "C30"
cell_str c31 = codes "C31"
cell_str c32 = codes "C32"
cell_str c33a = codes "C33a"
cell_str c33b = codes "C33b"
cell_str c34 = codes "C34"

pub data ConflictOutcome : Type 0 where
  no_op_verified guarded_local_replace safe_text_merge_local preserve_both_local
        remote_mutation_blocked unsupported_protected needs_reconcile :
      ConflictOutcome

abbrev pub outcome_str : ConflictOutcome → Text
outcome_str no_op_verified = codes "no_op_verified"
outcome_str guarded_local_replace = codes "guarded_local_replace"
outcome_str safe_text_merge_local = codes "safe_text_merge_local"
outcome_str preserve_both_local = codes "preserve_both_local"
outcome_str remote_mutation_blocked = codes "remote_mutation_blocked"
outcome_str unsupported_protected = codes "unsupported_protected"
outcome_str needs_reconcile = codes "needs_reconcile"

-- Pure operation drafts.
pub data ConflictDraft : Type 0 where
  local_content_publish merge_publish conflict_copy_publish base_publish remote_existing_blocked
        guarded_local_rename guarded_local_move guarded_local_rename_move :
      ConflictDraft

-- What the materializer must not discard.
pub data RetainedEvidence : Type 0 where
  local_bytes remote_bytes delete_intent local_rename_intent remote_rename_intent move_intent
        local_identity remote_identity parent_lineage destination_identity provider_metadata
        preserve_both_evidence :
      RetainedEvidence

-- What must be complete before a consumer may advance its cursor.
pub data CursorGate : Type 0 where
  exact_verification all_local_publications needs_reconcile : CursorGate

-- `ConflictPlan` before it is bound to the evidence of its input.
pub record ConflictPlan : Type 0 where
  pub cell : ConflictCell
  pub outcome : ConflictOutcome
  pub drafts : List ConflictDraft
  pub retained : List RetainedEvidence
  pub cursor_gate : CursorGate
