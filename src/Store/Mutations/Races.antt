-- ===== src/Store/Mutations/Races.antt =====
-- What an applied outcome has proved
-- (crates/myvault-sync-engine/src/store.rs).
use my_vault.Base.{
  nat_eq, list_eq, option_eq, ℕ, ◌≡◌, sym, ap, ◌∙◌, subst, true, false, not, ◌&&◌, ◌||◌, Option,
  none, some, ◌==◌, ◌!=◌, Eq, ==→≡, find, is_some, or_else, arith,
}
use my_vault.Base.Results.{ok, fail_if, fail_if-ok, ok-injective, >>-ok, >>=-ok}
use my_vault.Text.Digest.{Digest}
use my_vault.Text.Unicode.{Unicode}
use my_vault.Store.Validators.{Error}
use my_vault.Mutation.{
  kind_eq, phase_eq, disposition_eq, capture_eq, MutationEvidenceCapturePhase, MutationIntent,
  MutationState, MutationVerificationEvidence,
}
use my_vault.Store.Mutations.Evidence.{
  validate_mutation_evidence, require_expected_match, validate_applied_for,
}
use my_vault.Store.Mutations.Machine.{
  MutationStore, MutationOutcomeTransition, found_mutation, require_mutation,
}
use my_vault.Store.Mutations.Transitions.{
  is_open, check_transition, validate_verified_applied_evidence, record_over,
  record_mutation_outcome,
}

-- Where the intent expects a value, the evidence observed it.
abbrev pub Observed {ℓ} : {A : Type ℓ} → Option A → Option A → Type ℓ
Observed {A} expected observed = (x : A) → expected ≡ some x → observed ≡ some x

require_expected_match-Observed :
    {A : Type 0} ⦃e : Eq A⦄ (expected observed : Option A)
    → require_expected_match expected observed ≡ ok tt
    → Observed expected observed
unfolding require_expected_match
require_expected_match-Observed expected observed h x k =
    let b =
      fail_if-ok (is_some expected && expected != observed) Error.invalid_transfer_evidence h in
    let s : is_some expected ≡ true = ap is_some k in
    sym (==→≡ expected observed (ground (arith, b, s))) ∙ k

-- The evidence observed every identity that the intent expects, and its marker.
pub record IsProof (i : MutationIntent) (e : MutationVerificationEvidence) : Type 0 where
  pub account : Observed i.account_id e.observed_account_id
  pub root : Observed i.remote_root_id e.observed_remote_root_id
  pub file : Observed i.remote_file_id e.observed_remote_file_id
  pub parent : Observed (or_else i.destination_parent_id i.source_parent_id) e.observed_parent_id
  pub path : Observed (or_else i.destination_path i.source_path) e.observed_path
  pub local_revision : Observed i.expected_local_revision e.observed_local_revision
  pub remote_revision : Observed i.expected_remote_revision e.observed_remote_revision
  pub local_sha256 : Observed i.expected_local_sha256 e.observed_sha256
  pub local_length : Observed i.expected_local_byte_length e.observed_byte_length
  pub remote_sha256 : Observed i.expected_remote_sha256 e.observed_sha256
  pub remote_length : Observed i.expected_remote_byte_length e.observed_byte_length
  pub marker : e.observed_operation_marker ≡ some i.operation_marker

validate_applied_for-IsProof :
    (i : MutationIntent) (e : MutationVerificationEvidence)
    → validate_applied_for i e ≡ ok tt
    → IsProof i e
unfolding validate_applied_for
validate_applied_for-IsProof i e h =
    let (a₁, h₁) = >>-ok (require_expected_match i.account_id e.observed_account_id) _ h in
    let (a₂, h₂) = >>-ok (require_expected_match i.remote_root_id e.observed_remote_root_id) _ h₁ in
    let (a₃, h₃) = >>-ok (require_expected_match i.remote_file_id e.observed_remote_file_id) _ h₂ in
    let (a₄, h₄) =
      >>-ok
        (require_expected_match (or_else i.destination_parent_id i.source_parent_id)
          e.observed_parent_id)
        _ h₃ in
    let (a₅, h₅) =
      >>-ok (require_expected_match (or_else i.destination_path i.source_path) e.observed_path) _
        h₄ in
    let (a₆, h₆) =
      >>-ok (require_expected_match i.expected_local_revision e.observed_local_revision) _ h₅ in
    let (a₇, h₇) =
      >>-ok (require_expected_match i.expected_remote_revision e.observed_remote_revision) _ h₆ in
    let (a₈, h₈) = >>-ok (require_expected_match i.expected_local_sha256 e.observed_sha256) _ h₇ in
    let (a₉, h₉) =
      >>-ok (require_expected_match i.expected_local_byte_length e.observed_byte_length) _ h₈ in
    let (b₁, g₁) = >>-ok (require_expected_match i.expected_remote_sha256 e.observed_sha256) _ h₉ in
    let (b₂, g₂) =
      >>-ok (require_expected_match i.expected_remote_byte_length e.observed_byte_length) _ g₁ in
    let m =
      fail_if-ok (e.observed_operation_marker != some i.operation_marker)
        Error.invalid_transfer_evidence g₂ in
    record {
      account = require_expected_match-Observed i.account_id e.observed_account_id a₁;
      root = require_expected_match-Observed i.remote_root_id e.observed_remote_root_id a₂;
      file = require_expected_match-Observed i.remote_file_id e.observed_remote_file_id a₃;
      parent =
          require_expected_match-Observed (or_else i.destination_parent_id i.source_parent_id)
            e.observed_parent_id a₄;
      path =
          require_expected_match-Observed (or_else i.destination_path i.source_path) e.observed_path
            a₅;
      local_revision =
          require_expected_match-Observed i.expected_local_revision e.observed_local_revision a₆;
      remote_revision =
          require_expected_match-Observed i.expected_remote_revision e.observed_remote_revision a₇;
      local_sha256 = require_expected_match-Observed i.expected_local_sha256 e.observed_sha256 a₈;
      local_length =
          require_expected_match-Observed i.expected_local_byte_length e.observed_byte_length a₉;
      remote_sha256 = require_expected_match-Observed i.expected_remote_sha256 e.observed_sha256 b₁;
      remote_length =
          require_expected_match-Observed i.expected_remote_byte_length e.observed_byte_length b₂;
      marker = ==→≡ e.observed_operation_marker (some i.operation_marker) (ground (arith, m));
    }

found-ok :
    {A : Type 0} (error : Error) (o : Option A) {a : A} → found_mutation error o ≡ ok a → o ≡ some a
unfolding found_mutation
found-ok error none h = absurd cc
found-ok error (some x) h = ap some (ok-injective h)

module _ (u : Unicode) (d : Digest) where
  -- An outcome is recorded as applied only on evidence, captured after the change and free of any
  -- forbidden side effect, that observed the operation marker and every account, root, file,
  -- parent, path, revision, digest and length that the durable intent of that operation expects.
  pub applied_is_proved :
      (id expected : ℕ) (e : MutationVerificationEvidence) (s : MutationStore) (o : MutationState)
      (s' : MutationStore)
      → record_mutation_outcome u d id expected e MutationOutcomeTransition.verified_applied s
        ≡ ok (o, s')
      → (i : MutationIntent) × (find (λ x. x.operation_id == id) s.intents ≡ some i)
        × IsProof i e
        × ((e.capture_phase == MutationEvidenceCapturePhase.post_verify) ≡ true)
        × (e.forbidden_side_effect ≡ false)
  unfolding record_mutation_outcome record_over check_transition validate_verified_applied_evidence
  applied_is_proved id expected e s o s' h =
      let h₁ = (>>-ok (validate_mutation_evidence u d e) _ h).1 in
      let (g, h₂) = >>-ok (fail_if (e.operation_id != id) Error.mutation_collision) _ h₁ in
      let own : e.operation_id ≡ id =
        let b = fail_if-ok (e.operation_id != id) Error.mutation_collision g in
        ==→≡ e.operation_id id (ground (arith, b)) in
      let (r, h₃, h₄) = >>=-ok (require_mutation Error.mutation_not_found s id) _ h₂ in
      let h₅ =
        (>>-ok (fail_if (r.state_version != expected) Error.mutation_state_version_mismatch) _
          h₄).1 in
      let h₆ =
        (>>-ok
          (fail_if (e.attempt_number != r.attempt_number || not (is_open r.phase))
            Error.invalid_state_transition)
          _ h₅).1 in
      let (c, h₇) = >>-ok (validate_verified_applied_evidence e s) _ h₆ in
      let (b, c₁) =
        >>-ok
          (fail_if
            (e.capture_phase != MutationEvidenceCapturePhase.post_verify || e.forbidden_side_effect)
            Error.invalid_transfer_evidence)
          _ c in
      let guard =
        fail_if-ok
          (e.capture_phase != MutationEvidenceCapturePhase.post_verify || e.forbidden_side_effect)
          Error.invalid_transfer_evidence b in
      let (i, c₂, c₃) =
        >>=-ok
          (found_mutation Error.mutation_not_found
            (find (λ x. x.operation_id == e.operation_id) s.intents))
          _ c₁ in
      let f =
        found-ok Error.mutation_not_found (find (λ x. x.operation_id == e.operation_id) s.intents)
          c₂ in
      (
        i,
        subst (λ n. find (λ (x : MutationIntent). x.operation_id == n) s.intents ≡ some i) own f,
        validate_applied_for-IsProof i e c₃,
        ground (arith, guard),
        ground (arith, guard),
      )
