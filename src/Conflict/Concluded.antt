-- ===== src/Conflict/Concluded.antt =====
-- What lets a plan do nothing, down to the sealing calls
-- (crates/myvault-sync-engine/src/conflict/classifier.rs).
use my_vault.Base.{nat_eq, list_eq, option_eq, ◌≡◌, true, some, ◌⊎◌}
use my_vault.Text.{is_remote_id}
use my_vault.Text.Digest.{Digest}
use my_vault.Text.Unicode.{Unicode}
use my_vault.Markdown.Edits.{Diff}
use my_vault.Conflict.Facts.{
  ClassificationEvidence, ConflictCase, DeletedFinalStateProof, VerifiedSemanticTarget,
}
use my_vault.Conflict.Paths.{is_exact_content_path}
use my_vault.Conflict.Evidence.{verify_same_rename, verify_same_move}
use my_vault.Conflict.Seals.{IsDeleted, IsAgreed}
use my_vault.Conflict.Sealed.{Sealed}

module _ (d : Digest) (u : Unicode) (diff : Diff) where
  -- What sealed evidence proves of the final state.
  record Proves (e : ClassificationEvidence) : Type 0 where
    deletion : e.verified_deleted_final_state ≡ true → IsDeleted e.facts
    rename :
        (t : VerifiedSemanticTarget)
        → e.verified_same_rename ≡ some t
        → IsAgreed (verify_same_rename u) (is_exact_content_path u) e.facts t
    move :
        (t : VerifiedSemanticTarget)
        → e.verified_same_move ≡ some t
        → IsAgreed verify_same_move is_remote_id e.facts t

  -- Nothing is left to do: both sides are deleted, or made the same rename, or the same move.
  abbrev pub IsConcluded : ClassificationEvidence → ConflictCase → Type 0
  IsConcluded e c =
      ((c ≡ ConflictCase.both_deleted DeletedFinalStateProof.verified) × IsDeleted e.facts)
      ⊎ ((c ≡ ConflictCase.same_exact_rename)
          × ((t : VerifiedSemanticTarget) × (e.verified_same_rename ≡ some t)
              × IsAgreed (verify_same_rename u) (is_exact_content_path u) e.facts t))
      ⊎ ((c ≡ ConflictCase.same_exact_move)
          × ((t : VerifiedSemanticTarget) × (e.verified_same_move ≡ some t)
              × IsAgreed verify_same_move is_remote_id e.facts t))
