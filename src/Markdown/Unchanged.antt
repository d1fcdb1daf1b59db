-- ===== src/Markdown/Unchanged.antt =====
-- A merge in which one side is the base gives the other side.
use my_vault.Base.{
  nat_eq, list_eq, option_eq, bool_eq, Eq, ==-refl, ℕ, ◌+◌, ◌*◌, ◌≤◌, ◌^◌, max, ◌≡◌, refl, sym, ap,
  ◌∙◌, true, false, List, [], ◌∷◌, none, some, arith, if◌then◌else◌, ◌==◌, ==→≡, Bool-cases,
  Option-cases, inl, inr, length, ltb, leb, All,
}
use my_vault.Base.Results.{ok}
use my_vault.Text.{Text, bytes, len}
use my_vault.Text.Digest.{Digest}
use my_vault.Markdown.{
  MarkdownVersion, MarkdownMergeOutcome, ParsedMarkdown, Edit, style_eq,
  max_markdown_combined_bytes, max_markdown_diff_work,
}
use my_vault.Markdown.Parse.{parse_markdown, render}
use my_vault.Markdown.Render.{render-parse_markdown}
use my_vault.Markdown.Version.{parse_markdown-version}
use my_vault.Markdown.Edits.{
  Diff, DiffOp, collect_edits, apply_from, apply_edits, edits_from_myers, combine_edits,
  sort_by_key, insert_by_key, key_leb,
}
use my_vault.Markdown.Merge.{
  select_three_way, frontmatter, divergent_frontmatter, diff_work, merge_parsed,
  merge_markdown_three_way,
}

-- An accepted script gives the changed lines.
pub apply-edits_from_myers :
    (diff : Diff) (base changed : List Text) (edits : List Edit)
    → edits_from_myers diff base changed ≡ ok edits
    → apply_edits base edits ≡ some changed
unfolding edits_from_myers
apply-edits_from_myers diff base changed edits h =
    elim (Bool-cases
      (apply_edits base (collect_edits changed (diff base changed) none) == some changed)) [
        | inl same ↦
            let found : collect_edits changed (diff base changed) none ≡ edits = ground arith in
            ap (apply_edits base) (sym found) ∙ ==→≡ _ (some changed) same
        | inr other ↦ ground arith
      ]

collect_edits-equal :
    (changed : List Text) (ops : List DiffOp)
    → All (λ op. op.is_equal ≡ true) ops
    → collect_edits changed ops none ≡ []
unfolding collect_edits
collect_edits-equal changed [] h = refl
collect_edits-equal changed (op ∷ ops) h =
    rw (h.0, if◌then◌else◌) (collect_edits-equal changed ops h.1)

edits_from_myers_self :
    (diff : Diff) (xs : List Text)
    → All (λ op. op.is_equal ≡ true) (diff xs xs)
    → edits_from_myers diff xs xs ≡ ok []
unfolding edits_from_myers apply_edits
edits_from_myers_self diff xs h =
    rw (collect_edits-equal xs (diff xs xs) h, ==-refl (some xs), if◌then◌else◌) refl

key_leb-next :
    (base : List Text) (cursor : ℕ) (edit next : Edit) (edits : List Edit) (out : List Text)
    → apply_from base cursor (edit ∷ next ∷ edits) ≡ some out
    → key_leb edit next ≡ true
unfolding apply_from key_leb
key_leb-next base cursor edit next edits out h = ground arith

apply_from-tail :
    (base : List Text) (cursor : ℕ) (edit : Edit) (edits : List Edit) (out : List Text)
    → apply_from base cursor (edit ∷ edits) ≡ some out
    → (rest : List Text) × (apply_from base edit.end edits ≡ some rest)
unfolding apply_from
apply_from-tail base cursor edit edits out h =
    elim (Option-cases (apply_from base edit.end edits)) [
      | inl e ↦ absurd (ground (arith, e, h))
      | inr (rest, e) ↦ (rest, e)
    ]

-- Edits that apply in their order are sorted.
sort_by_key-applied :
    (base : List Text) (cursor : ℕ) (edits : List Edit) (out : List Text)
    → apply_from base cursor edits ≡ some out
    → sort_by_key edits ≡ edits
unfolding sort_by_key
sort_by_key-applied base cursor [] out h = refl
sort_by_key-applied base cursor (edit ∷ []) out h = unfold insert_by_key in refl
sort_by_key-applied base cursor (edit ∷ next ∷ edits) out h =
    let (rest, e) = apply_from-tail base cursor edit (next ∷ edits) out h in
    ap (insert_by_key edit) (sort_by_key-applied base edit.end (next ∷ edits) rest e)
    ∙ (unfold insert_by_key in
        rw (key_leb-next base cursor edit next edits out h, if◌then◌else◌) refl)

select_three_way-unchanged :
    {T : Type 0} ⦃e : Eq T⦄ (base local : T) → select_three_way base local base ≡ some local
unfolding select_three_way
select_three_way-unchanged base local = elim (Bool-cases (local == base)) [
  | inl same ↦ rw (same, if◌then◌else◌) refl
  | inr other ↦ rw (other, ==-refl base, if◌then◌else◌) refl
]

-- The edits of one side, combined with none, are those of that side.
combine_edits-alone :
    (base out : List Text) (edits : List Edit)
    → apply_edits base edits ≡ some out
    → combine_edits edits [] ≡ ok edits
unfolding combine_edits apply_edits
combine_edits-alone base out edits h = ap ok (sort_by_key-applied base 0 edits out h)

module _ (d : Digest) (diff : Diff) where
  pub merge_parsed-unchanged :
      (base local : ParsedMarkdown) (text : Text)
      → All (λ op. op.is_equal ≡ true) (diff base.lines base.lines)
      → (edits : List Edit) → edits_from_myers diff base.lines local.lines ≡ ok edits
      → length base.lines * max (length local.lines) (length base.lines) ≤ max_markdown_diff_work
      → render local.lines local.newline_style local.final_newline ≡ some text
      → len text ≤ max_markdown_combined_bytes
      → merge_parsed d diff base local base
        ≡ ok (record {
          content = text;
          sha256 = d.sha256_hex (bytes text);
          byte_length = len text;
          newline_style = local.newline_style;
          final_newline = local.final_newline;
        })
  unfolding merge_parsed
  merge_parsed-unchanged base local text same edits found work rendered small =
      let w : ltb max_markdown_diff_work (diff_work base local base) ≡ false =
        unfold diff_work in ground arith in
      let f : divergent_frontmatter base local base ≡ false =
        unfold divergent_frontmatter in rw (==-refl (frontmatter base)) (ground arith) in
      let applied = apply-edits_from_myers diff base.lines local.lines edits found in
      let fits : leb (2 ^ 64) (len text) ≡ false = ground arith in
      rw
        (
          w,
          f,
          select_three_way-unchanged base.newline_style local.newline_style,
          select_three_way-unchanged base.final_newline local.final_newline,
          found,
          edits_from_myers_self diff base.lines same,
          combine_edits-alone base.lines local.lines edits applied,
          applied,
          rendered,
          fits,
        )
        refl

  -- When remote is the base, the merge is local, character for character: for any diff that finds
  -- nothing changed between equal texts and a script from base to local, and for texts that parse
  -- and are within the bounds on the sizes and on the work of the diff.
  pub merge-remote_unchanged :
      (base local : Text) (b l : ParsedMarkdown) (edits : List Edit)
      → ((xs : List Text) → All (λ op. op.is_equal ≡ true) (diff xs xs))
      → edits_from_myers diff b.lines l.lines ≡ ok edits
      → parse_markdown base MarkdownVersion.base ≡ ok b
      → parse_markdown local MarkdownVersion.local ≡ ok l
      → len base + len local + len base ≤ max_markdown_combined_bytes
      → length b.lines * max (length l.lines) (length b.lines) ≤ max_markdown_diff_work
      → merge_markdown_three_way d diff base local base
        ≡ MarkdownMergeOutcome.merged (record {
          content = local;
          sha256 = d.sha256_hex (bytes local);
          byte_length = len local;
          newline_style = l.newline_style;
          final_newline = l.final_newline;
        })
  unfolding merge_markdown_three_way
  merge-remote_unchanged base local b l edits same found parsed_b parsed_l small work =
      let again =
        parse_markdown-version MarkdownVersion.base MarkdownVersion.remote base b parsed_b in
      let rendered = render-parse_markdown MarkdownVersion.local local l parsed_l in
      let fits : ltb max_markdown_combined_bytes (len base + len local + len base) ≡ false =
        ground arith in
      rw
        (
          fits,
          parsed_b,
          parsed_l,
          again,
          merge_parsed-unchanged b l local (same b.lines) edits found work rendered (omega arith),
        )
        refl
