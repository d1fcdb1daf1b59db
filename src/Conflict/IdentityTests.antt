-- ===== src/Conflict/IdentityTests.antt =====
-- The identity of a conflict over one note, under a digest that keeps its input.
use my_vault.Base.{
  ◌^◌, ◌≡◌, ◌≢◌, ap, arith, refl, Bool, true, ◌&&◌, &&-eq-true, ltb, ltb→lt, List, [], ◌∷◌, Option,
  none, some, all, All, length,
}
use my_vault.Text.{Text, codes, bytes}
use my_vault.Text.Digest.{Digest}
use my_vault.Text.Unicode.{Unicode}
use my_vault.Conflict.Cells.{ConflictCell, ConflictOutcome}
use my_vault.Conflict.Naming.{conflict_naming_version}
use my_vault.Conflict.Identity.{
  ConflictIdentityInput, IsShort, identity_fields, push_fields, derive_conflict_id,
}
use my_vault.Conflict.Identified.{derive_conflict_id_separates}

abbrev unicode : Unicode
unicode = record { nfkc = λ s. s; case_fold = λ s. s; to_uppercase = λ s. s }

abbrev digest : Digest
digest = record { sha256_hex = λ s. s; uuid_text = λ n. [] }

abbrev input : ConflictIdentityInput
input = record {
  account_id = codes "account";
  remote_root_id = codes "root";
  object_identity = codes "object";
  cell = ConflictCell.c21;
  outcome = ConflictOutcome.no_op_verified;
  canonical_identity_path = codes "a.md";
  target_parent_id = codes "parent";
  base = none;
  local = some (record {
    sha256 = codes "aaaaaaaaaaaaaaaaaaaaaaaaaaaaaaaaaaaaaaaaaaaaaaaaaaaaaaaaaaaaaaaa";
    byte_length = 12;
  });
  remote = none;
  naming_version = conflict_naming_version;
}

abbrev fits : Text × Option Text → Bool
fits (name, none) = ltb (length (bytes name)) (2 ^ 64)
fits (name, some value) = ltb (length (bytes name)) (2 ^ 64) && ltb (length (bytes value)) (2 ^ 64)

fits-IsShort : (f : Text × Option Text) → fits f ≡ true → IsShort f
fits-IsShort (name, none) h = ltb→lt (length (bytes name)) (2 ^ 64) h
fits-IsShort (name, some value) h =
    let (a, b) =
      &&-eq-true (ltb (length (bytes name)) (2 ^ 64)) (ltb (length (bytes value)) (2 ^ 64)) h in
    (ltb→lt (length (bytes name)) (2 ^ 64) a, ltb→lt (length (bytes value)) (2 ^ 64) b)

all-IsShort : (fs : List (Text × Option Text)) → all fits fs ≡ true → All IsShort fs
all-IsShort [] h = tt
all-IsShort (f ∷ fs) h =
    let (a, b) = &&-eq-true (fits f) (all fits fs) h in (fits-IsShort f a, all-IsShort fs b)

input-fits : all fits (identity_fields input) ≡ true
unfolding identity_fields bytes my_vault.Text.Decimal.decimal
input-fits = refl

-- The same conflict in another account.
abbrev elsewhere : ConflictIdentityInput
elsewhere = record input { account_id = codes "accounts" }

elsewhere-fits : all fits (identity_fields elsewhere) ≡ true
unfolding identity_fields bytes my_vault.Text.Decimal.decimal
elsewhere-fits = refl

derive_conflict_id_separates_example :
    push_fields (identity_fields input) ≢ push_fields (identity_fields elsewhere)
unfolding derive_conflict_id my_vault.Conflict.Paths.is_exact_content_path
    my_vault.Path.from_portable my_vault.Text.starts_with my_vault.Text.split my_vault.Text.len
    my_vault.Text.ends_with my_vault.Text.is_control my_vault.Text.join
    my_vault.Path.component_collision_key my_vault.Text.is_remote_id
    my_vault.Conflict.Naming.valid_fingerprint my_vault.Text.is_lower_hex_64
derive_conflict_id_separates_example =
    derive_conflict_id_separates unicode digest input elsewhere
      (push_fields (identity_fields input)) (push_fields (identity_fields elsewhere)) (λ e. e)
      (all-IsShort (identity_fields input) input-fits)
      (all-IsShort (identity_fields elsewhere) elsewhere-fits) refl refl
      (λ s. let e = ap length s.account in absurd (unfold bytes in omega (arith, e)))
