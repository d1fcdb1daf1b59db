-- ===== src/Text/Unicode.antt =====
-- The Unicode tables that the crates take from outside: `nfkc` (unicode-normalization),
-- `case_fold` (unicode-casefold) and `str::to_uppercase`.
use my_vault.Text.{Text}

pub record Unicode : Type 0 where
  pub nfkc : Text → Text
  pub case_fold : Text → Text
  pub to_uppercase : Text → Text
