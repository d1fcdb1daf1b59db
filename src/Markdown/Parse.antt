-- ===== src/Markdown/Parse.antt =====
-- `parse_markdown` and `render` (crates/myvault-sync-engine/src/conflict/markdown.rs).
use my_vault.Base.{
  nat_eq, list_eq, ℕ, ◌+◌, Bool, true, false, ◌&&◌, ◌||◌, List, [], ◌∷◌, ◌++◌, map, Option, none,
  some, if◌then◌else◌, ◌==◌, ◌!=◌, ltb, length, is_empty, option_eq,
}
use my_vault.Base.Results.{Result, ok, err, fail_if, ◌>>=◌, ◌>>◌}
use my_vault.Text.{Text, codes, len, split, join, starts_with, ends_with}
use my_vault.Markdown.{
  max_markdown_version_bytes, max_markdown_logical_lines, MarkdownVersion, NewlineStyle,
  MarkdownMergeIssue, ParsedMarkdown, style_eq,
}

-- The `while` loop. `\r` and `\n` are single bytes of UTF-8 that no other character's encoding
-- holds, so that the characters are read in place of the bytes. `after_cr`: a `\r` has just been
-- read, which only `\n` may follow. The result is `saw_lf` and `saw_crlf`.
unfoldable pub scan : Bool → Text → Bool → Bool → Option (Bool × Bool)
scan true [] saw_lf saw_crlf = none
scan true (c ∷ s) saw_lf saw_crlf =
    let rest = scan false s saw_lf true in if c == 0x0A then rest else none
scan false [] saw_lf saw_crlf = some (saw_lf, saw_crlf)
scan false (c ∷ s) saw_lf saw_crlf = scan (c == 0x0D) s (saw_lf || c == 0x0A) saw_crlf

-- `line.strip_suffix('\r').unwrap_or(line)`
unfoldable pub strip_cr : Text → Text
strip_cr [] = []
strip_cr (c ∷ []) = if c == 0x0D then [] else c ∷ []
strip_cr (c ∷ d ∷ s) = c ∷ strip_cr (d ∷ s)

-- `Vec::pop`: what it returns and what it leaves
unfoldable pub pop : List Text → Option Text × List Text
pop [] = (none, [])
pop (x ∷ []) = (some x, [])
pop (x ∷ y ∷ ys) = let (last, rest) = pop (y ∷ ys) in (last, x ∷ rest)

unfoldable pub style_of : Bool → Bool → NewlineStyle
style_of saw_lf saw_crlf =
    if saw_crlf then NewlineStyle.cr_lf else if saw_lf then NewlineStyle.lf else NewlineStyle.plain

-- The lines, without the empty one after a final newline.
unfoldable pub trim_lines :
    MarkdownVersion → Text → List Text → Result (List Text) MarkdownMergeIssue
unfolding pop
trim_lines version input lines =
    if ends_with 0x0A input
    then if (pop lines).0 != some []
      then err (MarkdownMergeIssue.bare_carriage_return version)
      else ok (pop lines).1
    else if is_empty input
    then ok []
    else ok lines

-- `iter().position(|line| *line == "---")`
position : List Text → Option ℕ
position [] = none
position (line ∷ lines) =
    if line == codes "---"
    then some 0
    else (elim (position lines) [ none ↦ none | some n ↦ some (n + 1) ])

closing : MarkdownVersion → Option ℕ → Result (Option ℕ) MarkdownMergeIssue
closing version none = err (MarkdownMergeIssue.unclosed_frontmatter version)
closing version (some relative) = ok (some (relative + 2))

unfoldable pub find_frontmatter : MarkdownVersion → List Text → Result (Option ℕ) MarkdownMergeIssue
unfolding position closing
find_frontmatter version [] = ok none
find_frontmatter version (line ∷ lines) =
    if line == codes "---" then closing version (position lines) else ok none

-- After the scan.
unfoldable pub parse_scanned :
    MarkdownVersion → Text → Option (Bool × Bool) → Result ParsedMarkdown MarkdownMergeIssue
unfolding strip_cr trim_lines style_of find_frontmatter
parse_scanned version input none = err (MarkdownMergeIssue.bare_carriage_return version)
parse_scanned version input (some (saw_lf, saw_crlf)) = do
  fail_if (saw_lf && saw_crlf) (MarkdownMergeIssue.mixed_newlines version)
  lines ← trim_lines version input (map strip_cr (split 0x0A input))
  fail_if (ltb max_markdown_logical_lines (length lines))
      (MarkdownMergeIssue.too_many_logical_lines version)
  frontmatter_end ← find_frontmatter version lines
  ok (record {
    lines = lines;
    newline_style = style_of saw_lf saw_crlf;
    final_newline = ends_with 0x0A input;
    frontmatter_end = frontmatter_end;
  })

unfoldable pub parse_markdown : Text → MarkdownVersion → Result ParsedMarkdown MarkdownMergeIssue
unfolding parse_scanned scan
parse_markdown input version = do
  fail_if (ltb max_markdown_version_bytes (len input))
      (MarkdownMergeIssue.version_too_large version)
  fail_if (starts_with 0xFEFF input) (MarkdownMergeIssue.byte_order_mark version)
  parse_scanned version input (scan false input false false)

abbrev pub separator : NewlineStyle → Text
separator NewlineStyle.plain = []
separator NewlineStyle.lf = 0x0A ∷ []
separator NewlineStyle.cr_lf = 0x0D ∷ 0x0A ∷ []

unfoldable pub render : List Text → NewlineStyle → Bool → Option Text
render lines style final_newline =
    if style == NewlineStyle.plain && (ltb 1 (length lines) || final_newline)
    then none
    else some (join (separator style) lines ++ (if final_newline then separator style else []))
