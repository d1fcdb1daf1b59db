-- ===== src/Markdown/Merge.antt =====
-- `merge_markdown_three_way` (crates/myvault-sync-engine/src/conflict/markdown.rs).
use my_vault.Base.{
  nat_eq, list_eq, option_eq, bool_eq, ℕ, ◌+◌, ◌-◌, ◌*◌, ◌^◌, min, max, Bool, ◌&&◌, List, Option,
  none, some, if◌then◌else◌, ◌==◌, ◌!=◌, Eq, ltb, leb, length, take,
}
use my_vault.Base.Results.{Result, ok, err, fail_if, ◌>>=◌, ◌>>◌}
use my_vault.Text.{Text, bytes, len}
use my_vault.Text.Digest.{Digest}
use my_vault.Markdown.{
  max_markdown_combined_bytes, max_markdown_diff_work, MarkdownVersion, style_eq,
  MarkdownMergeIssue, MergedMarkdown, MarkdownMergeOutcome, ParsedMarkdown,
}
use my_vault.Markdown.Parse.{parse_markdown, render}
use my_vault.Markdown.Edits.{Diff, edits_from_myers, combine_edits, apply_edits}

unfoldable pub select_three_way : {T : Type 0} ⦃e : Eq T⦄ → T → T → T → Option T
select_three_way base local remote =
    if local == remote
    then some local
    else if local == base
    then some remote
    else if remote == base
    then some local
    else none

-- `frontmatter_end.map(|end| &parsed.lines[..end])`
frontmatter_to : List Text → Option ℕ → Option (List Text)
frontmatter_to lines none = none
frontmatter_to lines (some end) = some (take end lines)

unfoldable pub frontmatter : ParsedMarkdown → Option (List Text)
unfolding frontmatter_to
frontmatter parsed = frontmatter_to parsed.lines parsed.frontmatter_end

unfoldable pub divergent_frontmatter : ParsedMarkdown → ParsedMarkdown → ParsedMarkdown → Bool
unfolding frontmatter
divergent_frontmatter base local remote =
    frontmatter local != frontmatter base && frontmatter remote != frontmatter base

-- `let Some(value) = option else { return preserve(issue) }`
abbrev pub or_issue : {A : Type 0} → Option A → MarkdownMergeIssue → Result A MarkdownMergeIssue
or_issue none issue = err issue
or_issue (some a) issue = ok a

-- `usize::saturating_mul`
unfoldable pub diff_work : ParsedMarkdown → ParsedMarkdown → ParsedMarkdown → ℕ
diff_work base local remote =
    min (length base.lines * max (length local.lines) (length remote.lines)) (2 ^ 64 - 1)

unfoldable pub outcome_of_merge : Result MergedMarkdown MarkdownMergeIssue → MarkdownMergeOutcome
outcome_of_merge (ok merged) = MarkdownMergeOutcome.merged merged
outcome_of_merge (err issue) = MarkdownMergeOutcome.preserve_both issue

module _ (d : Digest) (diff : Diff) where
  -- The merge of the three parsed texts.
  unfoldable pub merge_parsed :
      ParsedMarkdown → ParsedMarkdown → ParsedMarkdown → Result MergedMarkdown MarkdownMergeIssue
  unfolding diff_work divergent_frontmatter select_three_way
  merge_parsed base local remote = do
    fail_if (ltb max_markdown_diff_work (diff_work base local remote))
        MarkdownMergeIssue.diff_complexity_limit
    fail_if (divergent_frontmatter base local remote) MarkdownMergeIssue.divergent_frontmatter
    newline_style ←
        or_issue (select_three_way base.newline_style local.newline_style remote.newline_style)
          MarkdownMergeIssue.divergent_newline_style
    final_newline ←
        or_issue (select_three_way base.final_newline local.final_newline remote.final_newline)
          MarkdownMergeIssue.divergent_final_newline
    local_edits ← edits_from_myers diff base.lines local.lines
    remote_edits ← edits_from_myers diff base.lines remote.lines
    edits ← combine_edits local_edits remote_edits
    merged_lines ← or_issue (apply_edits base.lines edits) MarkdownMergeIssue.invalid_edit_script
    content ←
        or_issue (render merged_lines newline_style final_newline)
          MarkdownMergeIssue.invalid_edit_script
    fail_if (leb (2 ^ 64) (len content)) MarkdownMergeIssue.invalid_edit_script
    ok (record {
      content = content;
      sha256 = d.sha256_hex (bytes content);
      byte_length = len content;
      newline_style = newline_style;
      final_newline = final_newline;
    })

  -- The bounds on the inputs, which an overflow of their sum exceeds as well, the three parses and
  -- the merge.
  unfoldable pub merge_texts : Text → Text → Text → Result MergedMarkdown MarkdownMergeIssue
  unfolding merge_parsed
  merge_texts base local remote = do
    fail_if (ltb max_markdown_combined_bytes (len base + len local + len remote))
        MarkdownMergeIssue.combined_input_too_large
    base ← parse_markdown base MarkdownVersion.base
    local ← parse_markdown local MarkdownVersion.local
    remote ← parse_markdown remote MarkdownVersion.remote
    merge_parsed base local remote

  unfoldable pub merge_markdown_three_way : Text → Text → Text → MarkdownMergeOutcome
  unfolding outcome_of_merge merge_texts
  merge_markdown_three_way base local remote = outcome_of_merge (merge_texts base local remote)
