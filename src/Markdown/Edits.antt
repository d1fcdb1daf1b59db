-- ===== src/Markdown/Edits.antt =====
-- Edit scripts: `edits_from_myers`, `combine_edits`, `apply_edits`
-- (crates/myvault-sync-engine/src/conflict/markdown.rs). The diff itself is the `similar` crate's,
-- a parameter; its ranges lie within the two sequences.
use my_vault.Base.{
  nat_eq, list_eq, option_eq, ℕ, ◌-◌, min, max, Bool, true, false, not, ◌&&◌, ◌||◌, List, [], ◌∷◌,
  ◌++◌, Option, none, some, if◌then◌else◌, ◌==◌, ◌!=◌, ltb, leb, length, take, drop, any,
}
use my_vault.Base.Results.{Result, ok, err, ◌>>=◌}
use my_vault.Text.{Text}
use my_vault.Markdown.{MarkdownMergeIssue, Edit}

-- `DiffOp`: whether its tag is `Equal`, its old range and its new range
pub record DiffOp : Type 0 where
  pub is_equal : Bool
  pub old_start : ℕ
  pub old_end : ℕ
  pub new_start : ℕ
  pub new_end : ℕ

-- `TextDiff::configure().algorithm(Algorithm::Myers).diff_slices(base, changed).ops()`
abbrev pub Diff : Type 0
Diff = List Text → List Text → List DiffOp

-- `&xs[start..end]`, in range
abbrev pub slice : ℕ → ℕ → List Text → List Text
slice start end xs = take (end - start) (drop start xs)

-- `pending.get_or_insert_with(..)`
pending_or_new : DiffOp → Option Edit → Edit
pending_or_new op none = record { start = op.old_start; end = op.old_start; replacement = [] }
pending_or_new op (some edit) = edit

extend : List Text → DiffOp → Edit → Edit
extend changed op edit = record edit {
  end = op.old_end;
  replacement = edit.replacement ++ slice op.new_start op.new_end changed;
}

-- `if let Some(edit) = pending { edits.push(edit); }`
flush : Option Edit → List Edit → List Edit
flush none edits = edits
flush (some edit) edits = edit ∷ edits

unfoldable pub collect_edits : List Text → List DiffOp → Option Edit → List Edit
unfolding flush extend pending_or_new
collect_edits changed [] pending = flush pending []
collect_edits changed (op ∷ ops) pending =
    let rest =
      collect_edits changed ops
        (if op.is_equal then none else some (extend changed op (pending_or_new op pending))) in
    if op.is_equal then flush pending rest else rest

-- The loop of `apply_edits` from `cursor` on.
unfoldable pub apply_from : List Text → ℕ → List Edit → Option (List Text)
apply_from base cursor [] = some (drop cursor base)
apply_from base cursor (edit ∷ edits) =
    let rest = apply_from base edit.end edits in
    if ltb edit.start cursor || ltb edit.end edit.start || ltb (length base) edit.end
    then none
    else (elim rest [
      | none ↦ none
      | some output ↦ some (slice cursor edit.start base ++ (edit.replacement ++ output))
    ])

unfoldable pub apply_edits : List Text → List Edit → Option (List Text)
unfolding apply_from
apply_edits base edits = apply_from base 0 edits

unfoldable pub edits_from_myers :
    Diff → List Text → List Text → Result (List Edit) MarkdownMergeIssue
unfolding collect_edits apply_edits
edits_from_myers diff base changed =
    let edits = collect_edits changed (diff base changed) none in
    if apply_edits base edits != some changed
    then err MarkdownMergeIssue.invalid_edit_script
    else ok edits

unfoldable pub same_edit : Edit → Edit → Bool
same_edit left right =
    left.start == right.start && left.end == right.end && left.replacement == right.replacement

overlap_by : Bool → Bool → Edit → Edit → Bool
overlap_by true true left right = left.start == right.start
overlap_by true false left right = leb right.start left.start && leb left.start right.end
overlap_by false true left right = leb left.start right.start && leb right.start left.end
overlap_by false false left right = ltb (max left.start right.start) (min left.end right.end)

unfoldable pub edits_overlap : Edit → Edit → Bool
unfolding overlap_by
edits_overlap left right = overlap_by (left.start == left.end) (right.start == right.end) left right

-- `edit.start, edit.end` in lexicographic order
unfoldable pub key_leb : Edit → Edit → Bool
key_leb left right =
    ltb left.start right.start || (left.start == right.start && leb left.end right.end)

unfoldable pub insert_by_key : Edit → List Edit → List Edit
unfolding key_leb
insert_by_key edit [] = edit ∷ []
insert_by_key edit (next ∷ edits) =
    let rest = insert_by_key edit edits in
    if key_leb edit next then edit ∷ next ∷ edits else next ∷ rest

-- `sort_by_key`, which is stable
unfoldable pub sort_by_key : List Edit → List Edit
unfolding insert_by_key
sort_by_key [] = []
sort_by_key (edit ∷ edits) = insert_by_key edit (sort_by_key edits)

-- The loop of `combine_edits`.
unfoldable pub combine_into : List Edit → List Edit → Result (List Edit) MarkdownMergeIssue
unfolding same_edit edits_overlap
combine_into combined [] = ok combined
combine_into combined (candidate ∷ remote) =
    let known = any (λ edit. same_edit edit candidate) combined in
    let rest = combine_into (if known then combined else combined ++ (candidate ∷ [])) remote in
    if not known && any (λ edit. edits_overlap edit candidate) combined
    then err MarkdownMergeIssue.overlapping_edits
    else rest

unfoldable pub combine_edits : List Edit → List Edit → Result (List Edit) MarkdownMergeIssue
unfolding combine_into sort_by_key
combine_edits local remote = do combined ← combine_into local remote; ok (sort_by_key combined)
