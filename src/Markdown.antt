-- ===== src/Markdown.antt =====
-- crates/myvault-sync-engine/src/conflict/markdown.rs: the three-way merge of Markdown texts.
pub mod Parse
pub mod Edits
pub mod Merge
pub mod Merged
pub mod RoundTrip
pub mod Render
pub mod Version
pub mod Unchanged
pub mod Sorted
pub mod Union
pub mod Combined
mod Tests
use my_vault.Base.{ℕ, nat_beq, ◌*◌, ◌≡◌, ◌↔◌, Bool, true, List, Option, Eq, arith}
use my_vault.Text.{Text}

abbrev pub max_markdown_version_bytes : ℕ
max_markdown_version_bytes = 4 * 1024 * 1024

abbrev pub max_markdown_combined_bytes : ℕ
max_markdown_combined_bytes = 12 * 1024 * 1024

abbrev pub max_markdown_logical_lines : ℕ
max_markdown_logical_lines = 100000

abbrev pub max_markdown_diff_work : ℕ
max_markdown_diff_work = 100000000

pub data MarkdownVersion : Type 0 where
  base local remote : MarkdownVersion

pub data NewlineStyle : Type 0 where
  plain lf cr_lf : NewlineStyle

pub data MarkdownMergeIssue : Type 0 where
  evidence_fingerprint_mismatch : MarkdownMergeIssue
  version_too_large : MarkdownVersion → MarkdownMergeIssue
  combined_input_too_large : MarkdownMergeIssue
  too_many_logical_lines byte_order_mark bare_carriage_return mixed_newlines unclosed_frontmatter :
      MarkdownVersion → MarkdownMergeIssue
  divergent_frontmatter overlapping_edits divergent_newline_style divergent_final_newline
        invalid_edit_script diff_complexity_limit :
      MarkdownMergeIssue

pub record MergedMarkdown : Type 0 where
  pub content : Text
  pub sha256 : Text
  pub byte_length : ℕ
  pub newline_style : NewlineStyle
  pub final_newline : Bool

pub data MarkdownMergeOutcome : Type 0 where
  merged : MergedMarkdown → MarkdownMergeOutcome
  preserve_both : MarkdownMergeIssue → MarkdownMergeOutcome

pub record ParsedMarkdown : Type 0 where
  pub lines : List Text
  pub newline_style : NewlineStyle
  pub final_newline : Bool
  pub frontmatter_end : Option ℕ

pub record Edit : Type 0 where
  pub start : ℕ
  pub end : ℕ
  pub replacement : List Text

abbrev pub style_index : NewlineStyle → ℕ
style_index NewlineStyle.plain = 0
style_index NewlineStyle.lf = 1
style_index NewlineStyle.cr_lf = 2

pub style_beq_iff :
    (a b : NewlineStyle) → (nat_beq (style_index a) (style_index b) ≡ true) ↔ (a ≡ b)
style_beq_iff a b = ground arith

instance abbrev pub style_eq : Eq NewlineStyle
style_eq = record { beq = λ a b. nat_beq (style_index a) (style_index b); beq_iff = style_beq_iff }
