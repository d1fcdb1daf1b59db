-- ===== src/Markdown/Merged.antt =====
-- What a merge says of its content.
use mathlib.Core.Path.{subst}
use my_vault.Base.{◌≡◌, refl, leb, ◌^◌, ltb, arith, nat_eq, bool_eq, option_eq, list_eq, ◌+◌}
use my_vault.Base.Results.{Result, ok, err, fail_if, >>-ok, >>=-ok}
use my_vault.Text.{Text, bytes, len}
use my_vault.Text.Digest.{Digest}
use my_vault.Markdown.{
  MarkdownMergeOutcome, MarkdownMergeIssue, MergedMarkdown, ParsedMarkdown, style_eq,
  MarkdownVersion, max_markdown_combined_bytes, max_markdown_diff_work,
}
use my_vault.Markdown.Parse.{parse_markdown, render}
use my_vault.Markdown.Edits.{Diff, edits_from_myers, combine_edits, apply_edits}
use my_vault.Markdown.Merge.{
  select_three_way, diff_work, divergent_frontmatter, merge_parsed, merge_texts,
  merge_markdown_three_way, or_issue, outcome_of_merge,
}

ok-inj :
    (a b : MergedMarkdown) (x : Result MergedMarkdown MarkdownMergeIssue)
    → x ≡ ok a
    → x ≡ ok b
    → a ≡ b
ok-inj a b x h k = ground arith

outcome_of_merge-ok :
    (x : Result MergedMarkdown MarkdownMergeIssue) (m : MergedMarkdown)
    → outcome_of_merge x ≡ MarkdownMergeOutcome.merged m
    → x ≡ ok m
unfolding outcome_of_merge
outcome_of_merge-ok (ok a) m h = ground arith
outcome_of_merge-ok (err e) m h = cc

module _ (d : Digest) (diff : Diff) where
  -- The fingerprint of a merge is that of its content.
  abbrev Fingerprinted : MergedMarkdown → Type 0
  Fingerprinted m = (m.sha256 ≡ d.sha256_hex (bytes m.content)) × (m.byte_length ≡ len m.content)

  merge_parsed-Fingerprinted :
      (b l r : ParsedMarkdown) (m : MergedMarkdown)
      → merge_parsed d diff b l r ≡ ok m
      → Fingerprinted m
  unfolding merge_parsed
  merge_parsed-Fingerprinted b l r m h =
      let h1 =
        (>>-ok
          (fail_if (ltb max_markdown_diff_work (diff_work b l r))
            MarkdownMergeIssue.diff_complexity_limit)
          _ h).1 in
      let h2 =
        (>>-ok (fail_if (divergent_frontmatter b l r) MarkdownMergeIssue.divergent_frontmatter) _
          h1).1 in
      let (style, _, h3) =
        >>=-ok
          (or_issue (select_three_way b.newline_style l.newline_style r.newline_style)
            MarkdownMergeIssue.divergent_newline_style)
          _ h2 in
      let (final, _, h4) =
        >>=-ok
          (or_issue (select_three_way b.final_newline l.final_newline r.final_newline)
            MarkdownMergeIssue.divergent_final_newline)
          _ h3 in
      let (le, _, h5) = >>=-ok (edits_from_myers diff b.lines l.lines) _ h4 in
      let (re, _, h6) = >>=-ok (edits_from_myers diff b.lines r.lines) _ h5 in
      let (edits, _, h7) = >>=-ok (combine_edits le re) _ h6 in
      let (lines, _, h8) =
        >>=-ok (or_issue (apply_edits b.lines edits) MarkdownMergeIssue.invalid_edit_script) _ h7 in
      let (content, _, h9) =
        >>=-ok (or_issue (render lines style final) MarkdownMergeIssue.invalid_edit_script) _ h8 in
      let h10 =
        (>>-ok (fail_if (leb (2 ^ 64) (len content)) MarkdownMergeIssue.invalid_edit_script) _
          h9).1 in
      subst Fingerprinted (ok-inj _ m _ refl h10) (refl, refl)

  merge_texts-Fingerprinted :
      (b l r : Text) (m : MergedMarkdown)
      → outcome_of_merge (merge_texts d diff b l r) ≡ MarkdownMergeOutcome.merged m
      → Fingerprinted m
  unfolding merge_texts
  merge_texts-Fingerprinted b l r m o =
      let h = outcome_of_merge-ok (merge_texts d diff b l r) m o in
      let h1 =
        (>>-ok
          (fail_if (ltb max_markdown_combined_bytes (len b + len l + len r))
            MarkdownMergeIssue.combined_input_too_large)
          _ h).1 in
      let (pb, _, h2) = >>=-ok (parse_markdown b MarkdownVersion.base) _ h1 in
      let (pl, _, h3) = >>=-ok (parse_markdown l MarkdownVersion.local) _ h2 in
      let (pr, _, h4) = >>=-ok (parse_markdown r MarkdownVersion.remote) _ h3 in
      merge_parsed-Fingerprinted pb pl pr m h4

  pub merged-fingerprint :
      (b l r : Text) (m : MergedMarkdown)
      → merge_markdown_three_way d diff b l r ≡ MarkdownMergeOutcome.merged m
      → (m.sha256 ≡ d.sha256_hex (bytes m.content)) × (m.byte_length ≡ len m.content)
  unfolding merge_markdown_three_way
  merged-fingerprint b l r m h = merge_texts-Fingerprinted b l r m h
