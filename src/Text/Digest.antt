-- ===== src/Text/Digest.antt =====
-- What the crates take from outside to name things: SHA-256 (sha2), as lower-case hexadecimal
-- text, and the canonical text of a `Uuid`.
use my_vault.Base.{ℕ, List}
use my_vault.Text.{Text}

pub record Digest : Type 0 where
  pub sha256_hex : List ℕ → Text
  pub uuid_text : ℕ → Text
