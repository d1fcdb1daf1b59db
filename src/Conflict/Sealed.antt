-- ===== src/Conflict/Sealed.antt =====
-- What sealed evidence proves, down to the texts, through to the plan.
use mathlib.Core.Path.{ap₂}
use my_vault.Base.{
  nat_eq, list_eq, option_eq, ℕ, ◌≡◌, refl, sym, ap, ◌∙◌, Bool, true, ◌||◌, Option, some, is_some,
  arith, ◌==◌, ◌!=◌, ==→≡,
}
use my_vault.Base.Results.{ok, fail_if, >>-ok, fail_if-ok}
use my_vault.Text.{Text, bytes, len}
use my_vault.Text.Digest.{Digest}
use my_vault.Text.Unicode.{Unicode}
use my_vault.Markdown.{MarkdownMergeIssue, MergedMarkdown, MarkdownMergeOutcome}
use my_vault.Markdown.Edits.{Diff}
use my_vault.Markdown.Merge.{merge_markdown_three_way}
use my_vault.Markdown.Merged.{merged-fingerprint}
use my_vault.Conflict.Cells.{ConflictOutcome}
use my_vault.Conflict.Facts.{
  ContentFingerprint, fingerprint_eq, BoundaryAssessment, ReplayAssessment, ClassificationEvidence,
  ClassificationEvidenceFacts, ConflictCase, ConflictInput,
}
use my_vault.Conflict.Input.{new_input}
use my_vault.Conflict.Evidence.{
  attach_merge, new_evidence, verify_deleted_final_state, verify_same_rename, verify_same_move,
  fingerprint_bytes, verify_markdown_merge,
}
use my_vault.Conflict.Safety.{outcome_of, merge_proved}

module _ (d : Digest) (u : Unicode) (diff : Diff) where
  -- Evidence as the public interface makes it.
  pub data Sealed : ClassificationEvidence → Type 0 where
    fresh : (f : ClassificationEvidenceFacts) → Sealed (new_evidence f)
    merged :
        (e e' : ClassificationEvidence) (base local remote : Text)
        → Sealed e
        → verify_markdown_merge d diff e base local remote ≡ ok e'
        → Sealed e'
    deleted :
        (e e' : ClassificationEvidence) (account root object : Text) (version : ℕ) (l r : Bool)
        → Sealed e
        → verify_deleted_final_state e account root object version l r ≡ ok e'
        → Sealed e'
    renamed :
        (e e' : ClassificationEvidence) (account root object : Text) (version : ℕ) (l r : Text)
        → Sealed e
        → verify_same_rename u e account root object version l r ≡ ok e'
        → Sealed e'
    moved :
        (e e' : ClassificationEvidence) (account root object : Text) (version : ℕ) (l r : Text)
        → Sealed e
        → verify_same_move e account root object version l r ≡ ok e'
        → Sealed e'

  abbrev content_of : Text → Option ContentFingerprint
  content_of text = some (fingerprint_bytes d diff (bytes text))

  -- Texts with the fingerprints of the facts that merge into the text that the evidence names.
  pub record MergeOf (e : ClassificationEvidence) : Type 0 where
    pub base : Text
    pub local : Text
    pub remote : Text
    pub result : MergedMarkdown
    pub of_base : e.facts.base ≡ content_of base
    pub of_local : e.facts.local ≡ content_of local
    pub of_remote : e.facts.remote ≡ content_of remote
    pub computed :
        merge_markdown_three_way d diff base local remote ≡ MarkdownMergeOutcome.merged result
    pub named : e.verified_markdown_merge ≡ content_of result.content

  -- What an attached merge leaves.
  attach_merge-merged :
      (e e' : ClassificationEvidence) (o : MarkdownMergeOutcome)
      → attach_merge d diff e o ≡ ok e'
      → (m : MergedMarkdown) × (o ≡ MarkdownMergeOutcome.merged m)
        × (e'.facts ≡ e.facts)
        × (e'.verified_markdown_merge
            ≡ some (record { sha256 = m.sha256; byte_length = m.byte_length }))
  unfolding attach_merge
  attach_merge-merged e e' (MarkdownMergeOutcome.merged m) h = (m, refl, ground arith, ground arith)
  attach_merge-merged e e' (MarkdownMergeOutcome.preserve_both issue) h = cc

  matching :
      (x : Option ContentFingerprint) (text : Text)
      → (x == content_of text) ≡ true
      → x ≡ content_of text
  matching x text h = ==→≡ x (content_of text) h

  merged-MergeOf :
      (e e' : ClassificationEvidence) (base local remote : Text)
      → verify_markdown_merge d diff e base local remote ≡ ok e'
      → MergeOf e'
  unfolding verify_markdown_merge fingerprint_bytes len
  merged-MergeOf e e' base local remote h =
      let (same, attached) =
        >>-ok
          (fail_if
            (e.facts.base != content_of base
              || e.facts.local != content_of local
              || e.facts.remote != content_of remote)
            MarkdownMergeIssue.evidence_fingerprint_mismatch)
          _ h in
      let clear = fail_if-ok _ MarkdownMergeIssue.evidence_fingerprint_mismatch same in
      let (result, computed, kept, named) = attach_merge-merged e e' _ attached in
      let (sha, size) = merged-fingerprint d diff base local remote result computed in
      record {
        base = base;
        local = local;
        remote = remote;
        result = result;
        of_base = rw kept (matching e.facts.base base (ground arith));
        of_local = rw kept (matching e.facts.local local (ground arith));
        of_remote = rw kept (matching e.facts.remote remote (ground arith));
        computed = computed;
        named =
            named
            ∙ ap some (ap₂ (λ (s : Text) (n : ℕ). record { sha256 = s; byte_length = n }) sha size);
      }

  -- A step that keeps the facts and the merge keeps what the merge is of.
  same-MergeOf :
      (e e' : ClassificationEvidence)
      → e'.facts ≡ e.facts
      → e'.verified_markdown_merge ≡ e.verified_markdown_merge
      → (is_some e.verified_markdown_merge ≡ true → MergeOf e)
      → is_some e'.verified_markdown_merge ≡ true
      → MergeOf e'
  same-MergeOf e e' f v k n =
      let m = k (rw (sym v) n) in
      record {
        base = m.base;
        local = m.local;
        remote = m.remote;
        result = m.result;
        of_base = rw f m.of_base;
        of_local = rw f m.of_local;
        of_remote = rw f m.of_remote;
        computed = m.computed;
        named = v ∙ m.named;
      }

  deleted_keeps :
      (e e' : ClassificationEvidence) (account root object : Text) (version : ℕ) (l r : Bool)
      → verify_deleted_final_state e account root object version l r ≡ ok e'
      → (e'.facts ≡ e.facts) × (e'.verified_markdown_merge ≡ e.verified_markdown_merge)
  unfolding verify_deleted_final_state
  deleted_keeps e e' account root object version l r h = (ground arith, ground arith)

  renamed_keeps :
      (e e' : ClassificationEvidence) (account root object : Text) (version : ℕ) (l r : Text)
      → verify_same_rename u e account root object version l r ≡ ok e'
      → (e'.facts ≡ e.facts) × (e'.verified_markdown_merge ≡ e.verified_markdown_merge)
  unfolding verify_same_rename
  renamed_keeps e e' account root object version l r h = (ground arith, ground arith)

  moved_keeps :
      (e e' : ClassificationEvidence) (account root object : Text) (version : ℕ) (l r : Text)
      → verify_same_move e account root object version l r ≡ ok e'
      → (e'.facts ≡ e.facts) × (e'.verified_markdown_merge ≡ e.verified_markdown_merge)
  unfolding verify_same_move
  moved_keeps e e' account root object version l r h = (ground arith, ground arith)

  Sealed-MergeOf :
      (e : ClassificationEvidence) → Sealed e → is_some e.verified_markdown_merge ≡ true → MergeOf e
  Sealed-MergeOf e (fresh f) n = absurd (unfold new_evidence in cc)
  Sealed-MergeOf e (merged e0 e' base local remote s h) n = merged-MergeOf e0 e base local remote h
  Sealed-MergeOf e (deleted e0 e' account root object version l r s h) n =
      let (f, v) = deleted_keeps e0 e account root object version l r h in
      same-MergeOf e0 e f v (Sealed-MergeOf e0 s) n
  Sealed-MergeOf e (renamed e0 e' account root object version l r s h) n =
      let (f, v) = renamed_keeps e0 e account root object version l r h in
      same-MergeOf e0 e f v (Sealed-MergeOf e0 s) n
  Sealed-MergeOf e (moved e0 e' account root object version l r s h) n =
      let (f, v) = moved_keeps e0 e account root object version l r h in
      same-MergeOf e0 e f v (Sealed-MergeOf e0 s) n

  -- When the plan of an accepted fresh input with sealed evidence publishes a merge, there are
  -- three texts with the fingerprints of the base, local and remote content of the evidence, whose
  -- three-way merge succeeds, and the fingerprint that the evidence holds is that of its content.
  pub Sealed-merge_proved :
      (e : ClassificationEvidence) (b : BoundaryAssessment) (c : ConflictCase)
      (input : ConflictInput)
      → Sealed e
      → new_input d u e b ReplayAssessment.fresh c ≡ ok input
      → outcome_of input ≡ ConflictOutcome.safe_text_merge_local
      → MergeOf e
  Sealed-merge_proved e b c input s h o =
      let m = merge_proved d u e b c input h o in Sealed-MergeOf e s m.merged
