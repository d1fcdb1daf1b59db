-- ===== src/Conflict/Cells/Spelling.antt =====
-- The persisted spellings of cells and outcomes are distinct.
use my_vault.Base.{
  nat_eq, list_eq, ◌==◌, ◌≡◌, refl, ap, sym, ◌∙◌, List, [], ◌∷◌, Option, some, find,
}
use my_vault.Text.{Text}
use my_vault.Conflict.Cells.{ConflictCell, ConflictOutcome, cell_str, outcome_str}

abbrev all_cells : List ConflictCell
all_cells =
    ConflictCell.c01 ∷ ConflictCell.c02 ∷ ConflictCell.c03 ∷ ConflictCell.c04 ∷ ConflictCell.c05
    ∷ ConflictCell.c06a ∷ ConflictCell.c06b ∷ ConflictCell.c07 ∷ ConflictCell.c08 ∷ ConflictCell.c09
    ∷ ConflictCell.c10 ∷ ConflictCell.c11 ∷ ConflictCell.c12 ∷ ConflictCell.c13 ∷ ConflictCell.c14a
    ∷ ConflictCell.c14b ∷ ConflictCell.c14c ∷ ConflictCell.c15 ∷ ConflictCell.c16 ∷ ConflictCell.c17
    ∷ ConflictCell.c18 ∷ ConflictCell.c19 ∷ ConflictCell.c20 ∷ ConflictCell.c21 ∷ ConflictCell.c22a
    ∷ ConflictCell.c22b ∷ ConflictCell.c23 ∷ ConflictCell.c24 ∷ ConflictCell.c25 ∷ ConflictCell.c26
    ∷ ConflictCell.c27 ∷ ConflictCell.c28a ∷ ConflictCell.c28b ∷ ConflictCell.c29 ∷ ConflictCell.c30
    ∷ ConflictCell.c31 ∷ ConflictCell.c32 ∷ ConflictCell.c33a ∷ ConflictCell.c33b ∷ ConflictCell.c34
    ∷ []

abbrev all_outcomes : List ConflictOutcome
all_outcomes =
    ConflictOutcome.no_op_verified ∷ ConflictOutcome.guarded_local_replace
    ∷ ConflictOutcome.safe_text_merge_local ∷ ConflictOutcome.preserve_both_local
    ∷ ConflictOutcome.remote_mutation_blocked ∷ ConflictOutcome.unsupported_protected
    ∷ ConflictOutcome.needs_reconcile ∷ []

-- The cell, or the outcome, that a text spells.
read_cell : Text → Option ConflictCell
read_cell s = find (λ c. cell_str c == s) all_cells

read_outcome : Text → Option ConflictOutcome
read_outcome s = find (λ o. outcome_str o == s) all_outcomes

read_cell-str : (c : ConflictCell) → read_cell (cell_str c) ≡ some c
unfolding read_cell
read_cell-str ConflictCell.c01 = refl
read_cell-str ConflictCell.c02 = refl
read_cell-str ConflictCell.c03 = refl
read_cell-str ConflictCell.c04 = refl
read_cell-str ConflictCell.c05 = refl
read_cell-str ConflictCell.c06a = refl
read_cell-str ConflictCell.c06b = refl
read_cell-str ConflictCell.c07 = refl
read_cell-str ConflictCell.c08 = refl
read_cell-str ConflictCell.c09 = refl
read_cell-str ConflictCell.c10 = refl
read_cell-str ConflictCell.c11 = refl
read_cell-str ConflictCell.c12 = refl
read_cell-str ConflictCell.c13 = refl
read_cell-str ConflictCell.c14a = refl
read_cell-str ConflictCell.c14b = refl
read_cell-str ConflictCell.c14c = refl
read_cell-str ConflictCell.c15 = refl
read_cell-str ConflictCell.c16 = refl
read_cell-str ConflictCell.c17 = refl
read_cell-str ConflictCell.c18 = refl
read_cell-str ConflictCell.c19 = refl
read_cell-str ConflictCell.c20 = refl
read_cell-str ConflictCell.c21 = refl
read_cell-str ConflictCell.c22a = refl
read_cell-str ConflictCell.c22b = refl
read_cell-str ConflictCell.c23 = refl
read_cell-str ConflictCell.c24 = refl
read_cell-str ConflictCell.c25 = refl
read_cell-str ConflictCell.c26 = refl
read_cell-str ConflictCell.c27 = refl
read_cell-str ConflictCell.c28a = refl
read_cell-str ConflictCell.c28b = refl
read_cell-str ConflictCell.c29 = refl
read_cell-str ConflictCell.c30 = refl
read_cell-str ConflictCell.c31 = refl
read_cell-str ConflictCell.c32 = refl
read_cell-str ConflictCell.c33a = refl
read_cell-str ConflictCell.c33b = refl
read_cell-str ConflictCell.c34 = refl

read_outcome-str : (o : ConflictOutcome) → read_outcome (outcome_str o) ≡ some o
unfolding read_outcome
read_outcome-str ConflictOutcome.no_op_verified = refl
read_outcome-str ConflictOutcome.guarded_local_replace = refl
read_outcome-str ConflictOutcome.safe_text_merge_local = refl
read_outcome-str ConflictOutcome.preserve_both_local = refl
read_outcome-str ConflictOutcome.remote_mutation_blocked = refl
read_outcome-str ConflictOutcome.unsupported_protected = refl
read_outcome-str ConflictOutcome.needs_reconcile = refl

some_inj : {A : Type 0} {a b : A} → some a ≡ some b → a ≡ b
some_inj e = cc

-- The texts that stand for cells and outcomes in durable evidence are distinct: equal spellings
-- come from equal cells, and from equal outcomes.
pub str-injective :
    ((c d : ConflictCell) → cell_str c ≡ cell_str d → c ≡ d)
    × ((o p : ConflictOutcome) → outcome_str o ≡ outcome_str p → o ≡ p)
str-injective = (
  λ c d e. some_inj (sym (read_cell-str c) ∙ ap read_cell e ∙ read_cell-str d),
  λ o p e. some_inj (sym (read_outcome-str o) ∙ ap read_outcome e ∙ read_outcome-str p),
)
