-- ===== src/Markdown/Tests.antt =====
-- A line changed on one side, and two edits that lie apart. The diff of these runs replaces
-- everything when the texts differ.
use my_vault.Base.{
  nat_eq, list_eq, ==-refl, ℕ, ◌≡◌, refl, Bool, true, ◌++◌, none, List, [], ◌∷◌, some, ◌==◌, length,
  All, arith,
}
use my_vault.Text.{Text, codes, bytes, starts_with, ends_with, split, len}
use my_vault.Text.Digest.{Digest}
use my_vault.Markdown.{MarkdownVersion, MarkdownMergeOutcome, NewlineStyle, ParsedMarkdown, Edit}
use my_vault.Markdown.Parse.{parse_markdown, render}
use my_vault.Markdown.Edits.{Diff, DiffOp, edits_from_myers}
use my_vault.Markdown.Merge.{merge_markdown_three_way}
use my_vault.Markdown.Render.{render-parse_markdown}
use my_vault.Markdown.Unchanged.{merge-remote_unchanged}

abbrev digest : Digest
digest = record { sha256_hex = λ bs. bs; uuid_text = λ n. [] }

abbrev op : Bool → ℕ → ℕ → DiffOp
op same old new = record {
  is_equal = same;
  old_start = 0;
  old_end = old;
  new_start = 0;
  new_end = new;
}

abbrev diff : Diff
diff xs ys = op (xs == ys) (length xs) (length ys) ∷ []

diff_self : (xs : List Text) → All (λ o. o.is_equal ≡ true) (diff xs xs)
diff_self xs = (==-refl xs, tt)

-- With CRLF and a final newline.
abbrev base : Text
base = codes "a" ++ (0x0D ∷ 0x0A ∷ codes "b") ++ (0x0D ∷ 0x0A ∷ [])

abbrev local : Text
local = codes "a" ++ (0x0D ∷ 0x0A ∷ codes "cc") ++ (0x0D ∷ 0x0A ∷ [])

abbrev parsed : Text → ParsedMarkdown
parsed second = record {
  lines = codes "a" ∷ second ∷ [];
  newline_style = NewlineStyle.cr_lf;
  final_newline = true;
  frontmatter_end = none;
}

abbrev edit : ℕ → ℕ → List Text → Edit
edit start end replacement = record { start = start; end = end; replacement = replacement }

render-parse_markdown_example :
    render (parsed (codes "b")).lines NewlineStyle.cr_lf true ≡ some base
unfolding parse_markdown len starts_with ends_with split
render-parse_markdown_example =
    render-parse_markdown MarkdownVersion.base base (parsed (codes "b")) refl

merge-remote_unchanged_example :
    merge_markdown_three_way digest diff base local base
    ≡ MarkdownMergeOutcome.merged (record {
      content = local;
      sha256 = bytes local;
      byte_length = len local;
      newline_style = NewlineStyle.cr_lf;
      final_newline = true;
    })
unfolding parse_markdown edits_from_myers len starts_with ends_with split
merge-remote_unchanged_example =
    merge-remote_unchanged digest diff base local (parsed (codes "b")) (parsed (codes "cc"))
      (edit 0 2 (codes "a" ∷ codes "cc" ∷ []) ∷ []) diff_self refl refl refl (omega arith)
      (omega arith)

abbrev three : List Text
three = codes "a" ∷ codes "b" ∷ codes "c" ∷ []

abbrev trimmed : List Edit
trimmed = edit 0 1 [] ∷ edit 2 3 (codes "d" ∷ []) ∷ []
