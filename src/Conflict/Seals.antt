-- ===== src/Conflict/Seals.antt =====
-- What the sealing methods of evidence show and keep
-- (crates/myvault-sync-engine/src/conflict/classifier.rs).
use my_vault.Base.{
  nat_eq, list_eq, option_eq, ℕ, ◌≡◌, sym, ap, ◌∙◌, subst, Bool, true, false, ◌||◌, not, some,
  arith, ◌!=◌, ==→≡,
}
use my_vault.Base.Results.{Result, ok, fail_if, >>-ok, fail_if-ok, ok-injective}
use my_vault.Text.{Text, is_remote_id}
use my_vault.Text.Digest.{Digest}
use my_vault.Text.Unicode.{Unicode}
use my_vault.Markdown.{MarkdownMergeOutcome}
use my_vault.Markdown.Edits.{Diff}
use my_vault.Markdown.Merge.{merge_markdown_three_way}
use my_vault.Conflict.Facts.{
  ClassificationEvidence, ClassificationEvidenceFacts, VerifiedSemanticTarget,
}
use my_vault.Conflict.Paths.{is_exact_content_path}
use my_vault.Conflict.Evidence.{
  ClassificationProofFailure, attach_merge, is_other_identity, target_of,
  verify_deleted_final_state, verify_same_rename, verify_same_move, verify_markdown_merge,
}

-- The facts name this account, root, object and state version.
pub record IsIdentity (f : ClassificationEvidenceFacts) (account root object : Text) (version : ℕ)
    : Type 0 where
  pub of_account : f.account_id ≡ some account
  pub of_root : f.remote_root_id ≡ some root
  pub of_object : f.object_identity ≡ some object
  pub of_version : f.durable_state_version ≡ version

-- Both sides were reported deleted for the identity of the facts.
pub record IsDeleted (f : ClassificationEvidenceFacts) : Type 0 where
  pub account : Text
  pub root : Text
  pub object : Text
  pub version : ℕ
  pub local_deleted : Bool
  pub remote_deleted : Bool
  pub before : ClassificationEvidence
  pub after : ClassificationEvidence
  pub of_facts : before.facts ≡ f
  pub sealed :
      verify_deleted_final_state before account root object version local_deleted remote_deleted
      ≡ ok after
  pub both : (local_deleted ≡ true) × (remote_deleted ≡ true)
  pub identity : IsIdentity f account root object version

-- A method of the evidence that seals what both sides intend.
abbrev pub Sealing : Type 0
Sealing =
    ClassificationEvidence
    → Text
    → Text
    → Text
    → ℕ
    → Text
    → Text
    → Result ClassificationEvidence ClassificationProofFailure

-- Both sides were reported to intend this target for the identity of the facts.
pub record IsAgreed (sealing : Sealing) (allowed : Text → Bool) (f : ClassificationEvidenceFacts)
    (t : VerifiedSemanticTarget) : Type 0 where
  pub account : Text
  pub root : Text
  pub object : Text
  pub version : ℕ
  pub local_target : Text
  pub remote_target : Text
  pub before : ClassificationEvidence
  pub after : ClassificationEvidence
  pub of_facts : before.facts ≡ f
  pub sealed : sealing before account root object version local_target remote_target ≡ ok after
  pub named : t ≡ target_of account root object version local_target
  pub agreed : local_target ≡ remote_target
  pub exact : allowed local_target ≡ true
  pub identity : IsIdentity f account root object version

other-IsIdentity :
    (f : ClassificationEvidenceFacts) (account root object : Text) (version : ℕ)
    → is_other_identity f account root object version ≡ false
    → IsIdentity f account root object version
unfolding is_other_identity
other-IsIdentity f account root object version h = record {
  of_account = ==→≡ f.account_id (some account) (ground (arith, h));
  of_root = ==→≡ f.remote_root_id (some root) (ground (arith, h));
  of_object = ==→≡ f.object_identity (some object) (ground (arith, h));
  of_version = ==→≡ f.durable_state_version version (ground (arith, h));
}

-- What the sealing of a deletion shows, and what it keeps.
pub seal_deletion :
    (e e' : ClassificationEvidence) (account root object : Text) (version : ℕ) (l r : Bool)
    → verify_deleted_final_state e account root object version l r ≡ ok e'
    → IsDeleted e'.facts
      × (e'.facts ≡ e.facts)
      × (e'.verified_same_rename ≡ e.verified_same_rename)
      × (e'.verified_same_move ≡ e.verified_same_move)
unfolding verify_deleted_final_state
seal_deletion e e' account root object version l r h =
    let (g, k) =
      >>-ok
        (fail_if (is_other_identity e.facts account root object version || not l || not r)
          ClassificationProofFailure.evidence_mismatch)
        _ h in
    let b = fail_if-ok _ ClassificationProofFailure.evidence_mismatch g in
    let same : e.facts ≡ e'.facts = ap (λ (x : ClassificationEvidence). x.facts) (ok-injective k) in
    let own = other-IsIdentity e.facts account root object version (ground (arith, b)) in
    (
      record {
        account = account;
        root = root;
        object = object;
        version = version;
        local_deleted = l;
        remote_deleted = r;
        before = e;
        after = e';
        of_facts = same;
        sealed = h;
        both = (ground (arith, b), ground (arith, b));
        identity = subst (λ f. IsIdentity f account root object version) same own;
      },
      sym same,
      ap (λ (x : ClassificationEvidence). x.verified_same_rename) (sym (ok-injective k)),
      ap (λ (x : ClassificationEvidence). x.verified_same_move) (sym (ok-injective k)),
    )

some_injective : {A : Type 0} {a b : A} → some a ≡ some b → a ≡ b
some_injective e = cc

-- What the sealing of a rename or a move shows, and what it keeps.
pub renamed-IsAgreed :
    (u : Unicode) (e e' : ClassificationEvidence) (account root object : Text) (version : ℕ)
    (l r : Text)
    → verify_same_rename u e account root object version l r ≡ ok e'
    → ((t : VerifiedSemanticTarget)
        → e'.verified_same_rename ≡ some t
        → IsAgreed (verify_same_rename u) (is_exact_content_path u) e'.facts t)
      × (e'.facts ≡ e.facts)
      × (e'.verified_deleted_final_state ≡ e.verified_deleted_final_state)
      × (e'.verified_same_move ≡ e.verified_same_move)
unfolding verify_same_rename
renamed-IsAgreed u e e' account root object version l r h =
    let (g, k) =
      >>-ok
        (fail_if
          (is_other_identity e.facts account root object version
            || l != r
            || not (is_exact_content_path u l))
          ClassificationProofFailure.evidence_mismatch)
        _ h in
    let b = fail_if-ok _ ClassificationProofFailure.evidence_mismatch g in
    let same : e.facts ≡ e'.facts = ap (λ (x : ClassificationEvidence). x.facts) (ok-injective k) in
    let own = other-IsIdentity e.facts account root object version (ground (arith, b)) in
    let held : some (target_of account root object version l) ≡ e'.verified_same_rename =
      ap (λ (x : ClassificationEvidence). x.verified_same_rename) (ok-injective k) in
    (
      λ t n. record {
        account = account;
        root = root;
        object = object;
        version = version;
        local_target = l;
        remote_target = r;
        before = e;
        after = e';
        of_facts = same;
        sealed = h;
        named = some_injective (sym n ∙ sym held);
        agreed = ==→≡ l r (ground (arith, b));
        exact = ground (arith, b);
        identity = subst (λ f. IsIdentity f account root object version) same own;
      },
      sym same,
      ap (λ (x : ClassificationEvidence). x.verified_deleted_final_state) (sym (ok-injective k)),
      ap (λ (x : ClassificationEvidence). x.verified_same_move) (sym (ok-injective k)),
    )

pub moved-IsAgreed :
    (e e' : ClassificationEvidence) (account root object : Text) (version : ℕ) (l r : Text)
    → verify_same_move e account root object version l r ≡ ok e'
    → ((t : VerifiedSemanticTarget)
        → e'.verified_same_move ≡ some t
        → IsAgreed verify_same_move is_remote_id e'.facts t)
      × (e'.facts ≡ e.facts)
      × (e'.verified_deleted_final_state ≡ e.verified_deleted_final_state)
      × (e'.verified_same_rename ≡ e.verified_same_rename)
unfolding verify_same_move
moved-IsAgreed e e' account root object version l r h =
    let (g, k) =
      >>-ok
        (fail_if
          (is_other_identity e.facts account root object version || l != r || not (is_remote_id l))
          ClassificationProofFailure.evidence_mismatch)
        _ h in
    let b = fail_if-ok _ ClassificationProofFailure.evidence_mismatch g in
    let same : e.facts ≡ e'.facts = ap (λ (x : ClassificationEvidence). x.facts) (ok-injective k) in
    let own = other-IsIdentity e.facts account root object version (ground (arith, b)) in
    let held : some (target_of account root object version l) ≡ e'.verified_same_move =
      ap (λ (x : ClassificationEvidence). x.verified_same_move) (ok-injective k) in
    (
      λ t n. record {
        account = account;
        root = root;
        object = object;
        version = version;
        local_target = l;
        remote_target = r;
        before = e;
        after = e';
        of_facts = same;
        sealed = h;
        named = some_injective (sym n ∙ sym held);
        agreed = ==→≡ l r (ground (arith, b));
        exact = ground (arith, b);
        identity = subst (λ f. IsIdentity f account root object version) same own;
      },
      sym same,
      ap (λ (x : ClassificationEvidence). x.verified_deleted_final_state) (sym (ok-injective k)),
      ap (λ (x : ClassificationEvidence). x.verified_same_rename) (sym (ok-injective k)),
    )

pub merged_keeps :
    (d : Digest) (diff : Diff) (e e' : ClassificationEvidence) (base local remote : Text)
    → verify_markdown_merge d diff e base local remote ≡ ok e'
    → (e'.facts ≡ e.facts)
      × (e'.verified_deleted_final_state ≡ e.verified_deleted_final_state)
      × (e'.verified_same_rename ≡ e.verified_same_rename)
      × (e'.verified_same_move ≡ e.verified_same_move)
unfolding verify_markdown_merge
merged_keeps d diff e e' base local remote h =
    attached (merge_markdown_three_way d diff base local remote) ((>>-ok (fail_if _ _) _ h).1)
  where
    attached :
        (o : MarkdownMergeOutcome)
        → attach_merge d diff e o ≡ ok e'
        → (e'.facts ≡ e.facts)
          × (e'.verified_deleted_final_state ≡ e.verified_deleted_final_state)
          × (e'.verified_same_rename ≡ e.verified_same_rename)
          × (e'.verified_same_move ≡ e.verified_same_move)
    attached (MarkdownMergeOutcome.merged m) k =
        unfold attach_merge in (ground arith, ground arith, ground arith, ground arith)
    attached (MarkdownMergeOutcome.preserve_both issue) k = unfold attach_merge in cc
