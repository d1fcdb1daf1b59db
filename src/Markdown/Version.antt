-- ===== src/Markdown/Version.antt =====
-- The version that a parse is told changes its issues only.
use my_vault.Base.{
  nat_eq, list_eq, option_eq, ℕ, ◌≡◌, Bool, ◌&&◌, List, [], ◌∷◌, map, Option, none, some, arith,
  length, ltb,
}
use my_vault.Base.Results.{ok, fail_if, >>-ok, >>=-ok, fail_if-ok}
use my_vault.Text.{Text, len, starts_with, split}
use my_vault.Markdown.{
  MarkdownVersion, MarkdownMergeIssue, ParsedMarkdown, style_eq, max_markdown_logical_lines,
  max_markdown_version_bytes,
}
use my_vault.Markdown.Parse.{strip_cr, trim_lines, find_frontmatter, parse_scanned, parse_markdown}

-- The version that a parse names matters to its issues alone.
find_frontmatter-version :
    (v v' : MarkdownVersion) (lines : List Text) (o : Option ℕ)
    → find_frontmatter v lines ≡ ok o
    → find_frontmatter v' lines ≡ ok o
unfolding find_frontmatter
find_frontmatter-version v v' [] o h = h
find_frontmatter-version v v' (line ∷ lines) o h = ground arith

trim_lines-version :
    (v v' : MarkdownVersion) (s : Text) (xs lines : List Text)
    → trim_lines v s xs ≡ ok lines
    → trim_lines v' s xs ≡ ok lines
unfolding trim_lines
trim_lines-version v v' s xs lines h = ground arith

parse_scanned-version :
    (v v' : MarkdownVersion) (s : Text) (o : Option (Bool × Bool)) (p : ParsedMarkdown)
    → parse_scanned v s o ≡ ok p
    → parse_scanned v' s o ≡ ok p
unfolding parse_scanned
parse_scanned-version v v' s none p h = cc
parse_scanned-version v v' s (some (saw_lf, saw_crlf)) p h =
    let (pure, h1) =
      >>-ok (fail_if (saw_lf && saw_crlf) (MarkdownMergeIssue.mixed_newlines v)) _ h in
    let (lines, trimmed, h2) = >>=-ok (trim_lines v s (map strip_cr (split 0x0A s))) _ h1 in
    let (few, h3) =
      >>-ok
        (fail_if (ltb max_markdown_logical_lines (length lines))
          (MarkdownMergeIssue.too_many_logical_lines v))
        _ h2 in
    let (front, found, h4) = >>=-ok (find_frontmatter v lines) _ h3 in
    rw
      (
        fail_if-ok _ (MarkdownMergeIssue.mixed_newlines v) pure,
        trim_lines-version v v' s _ lines trimmed,
        fail_if-ok _ (MarkdownMergeIssue.too_many_logical_lines v) few,
        find_frontmatter-version v v' lines front found,
      )
      h4

pub parse_markdown-version :
    (v v' : MarkdownVersion) (s : Text) (p : ParsedMarkdown)
    → parse_markdown s v ≡ ok p
    → parse_markdown s v' ≡ ok p
unfolding parse_markdown
parse_markdown-version v v' s p h =
    let (small, h1) = >>-ok (fail_if _ (MarkdownMergeIssue.version_too_large v)) _ h in
    let (plain, h2) = >>-ok (fail_if _ (MarkdownMergeIssue.byte_order_mark v)) _ h1 in
    rw
      (
        fail_if-ok (ltb max_markdown_version_bytes (len s)) (MarkdownMergeIssue.version_too_large v)
            small,
        fail_if-ok (starts_with 0xFEFF s) (MarkdownMergeIssue.byte_order_mark v) plain,
      )
      (parse_scanned-version v v' s _ p h2)
