-- ===== src/Markdown/Combined.antt =====
-- Two edit scripts that combine apply together.
use my_vault.Base.{nat_eq, list_eq}
use my_vault.Text.{Text}
