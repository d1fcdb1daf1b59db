-- ===== src/Conflict/Identified.antt =====
-- Conflicts that differ have different identities
-- (crates/myvault-sync-engine/src/conflict/identity.rs).
use my_vault.Base.{
  nat_eq, list_eq, not, ◌!=◌, ◌^◌, ◌<◌, ◌≡◌, ◌≢◌, refl, sym, ap, ◌∙◌, true, false, Option, none,
  some, ltb, All, all, arith,
}
use my_vault.Base.Results.{ok, ok-injective, fail_if, fail_if-ok, >>-ok}
use my_vault.Text.{Text, bytes}
use my_vault.Text.Plain.{IsPlain, all-IsPlain, plain_bytes}
use my_vault.Text.Decimal.{decimal, decimal-injective, decimal-IsPlain}
use my_vault.Text.Digest.{Digest}
use my_vault.Text.Unicode.{Unicode}
use my_vault.Conflict.Cells.{ConflictCell, ConflictOutcome, cell_str, outcome_str}
use my_vault.Conflict.Cells.Spelling.{str-injective}
use my_vault.Conflict.Facts.{ContentFingerprint}
use my_vault.Conflict.Identity.{
  ConflictIdentityInput, IsShort, SameFields, SameValue, sha256_of, byte_length_of, identity_fields,
  push_fields, push_fields-injective, validate_identity_input, derive_conflict_id, is_unprinted,
}
use my_vault.Conflict.Naming.{conflict_naming_version, valid_fingerprint}
use my_vault.Conflict.Paths.{ConflictNameFailure, is_exact_content_path}

-- The same text, byte for byte.
abbrev pub SameText : Text → Text → Type 0
SameText s t = bytes s ≡ bytes t

-- The same digest and length, or both absent.
abbrev pub SameContent : Option ContentFingerprint → Option ContentFingerprint → Type 0
SameContent none none = Unit
SameContent (some f) (some g) = SameText f.sha256 g.sha256 × (f.byte_length ≡ g.byte_length)
SameContent _ _ = ⊥

-- The two inputs say the same of every field.
pub record SameIdentity (i j : ConflictIdentityInput) : Type 0 where
  pub account : SameText i.account_id j.account_id
  pub root : SameText i.remote_root_id j.remote_root_id
  pub object : SameText i.object_identity j.object_identity
  pub cell : i.cell ≡ j.cell
  pub outcome : i.outcome ≡ j.outcome
  pub path : SameText i.canonical_identity_path j.canonical_identity_path
  pub parent : SameText i.target_parent_id j.target_parent_id
  pub base : SameContent i.base j.base
  pub local : SameContent i.local j.local
  pub remote : SameContent i.remote j.remote
  pub naming : SameText i.naming_version j.naming_version

abbrev IsLength : Option ContentFingerprint → Type 0
IsLength none = Unit
IsLength (some f) = f.byte_length < 2 ^ 64

-- A valid fingerprint has a length that fits a `u64`.
printed_bound : (f : Option ContentFingerprint) → is_unprinted f ≡ false → IsLength f
unfolding valid_fingerprint
printed_bound none h = tt
printed_bound (some f) h = ground (arith, h)

-- What an accepted input has of its fingerprints.
accepted-IsLength :
    (u : Unicode) (i : ConflictIdentityInput)
    → validate_identity_input u i ≡ ok tt
    → IsLength i.base × IsLength i.local × IsLength i.remote
unfolding validate_identity_input
accepted-IsLength u i h =
    let h₁ =
      (>>-ok
        (fail_if (i.naming_version != conflict_naming_version)
          ConflictNameFailure.unsupported_naming_version)
        _ h).1 in
    let h₂ =
      (>>-ok
        (fail_if (not (is_exact_content_path u i.canonical_identity_path))
          ConflictNameFailure.invalid_source_path)
        _ h₁).1 in
    let b = fail_if-ok _ ConflictNameFailure.invalid_identity_field h₂ in
    (
      printed_bound i.base (ground (arith, b)),
      printed_bound i.local (ground (arith, b)),
      printed_bound i.remote (ground (arith, b)),
    )

cell_plain : (c : ConflictCell) → all (λ x. ltb x 128) (cell_str c) ≡ true
cell_plain ConflictCell.c01 = refl
cell_plain ConflictCell.c02 = refl
cell_plain ConflictCell.c03 = refl
cell_plain ConflictCell.c04 = refl
cell_plain ConflictCell.c05 = refl
cell_plain ConflictCell.c06a = refl
cell_plain ConflictCell.c06b = refl
cell_plain ConflictCell.c07 = refl
cell_plain ConflictCell.c08 = refl
cell_plain ConflictCell.c09 = refl
cell_plain ConflictCell.c10 = refl
cell_plain ConflictCell.c11 = refl
cell_plain ConflictCell.c12 = refl
cell_plain ConflictCell.c13 = refl
cell_plain ConflictCell.c14a = refl
cell_plain ConflictCell.c14b = refl
cell_plain ConflictCell.c14c = refl
cell_plain ConflictCell.c15 = refl
cell_plain ConflictCell.c16 = refl
cell_plain ConflictCell.c17 = refl
cell_plain ConflictCell.c18 = refl
cell_plain ConflictCell.c19 = refl
cell_plain ConflictCell.c20 = refl
cell_plain ConflictCell.c21 = refl
cell_plain ConflictCell.c22a = refl
cell_plain ConflictCell.c22b = refl
cell_plain ConflictCell.c23 = refl
cell_plain ConflictCell.c24 = refl
cell_plain ConflictCell.c25 = refl
cell_plain ConflictCell.c26 = refl
cell_plain ConflictCell.c27 = refl
cell_plain ConflictCell.c28a = refl
cell_plain ConflictCell.c28b = refl
cell_plain ConflictCell.c29 = refl
cell_plain ConflictCell.c30 = refl
cell_plain ConflictCell.c31 = refl
cell_plain ConflictCell.c32 = refl
cell_plain ConflictCell.c33a = refl
cell_plain ConflictCell.c33b = refl
cell_plain ConflictCell.c34 = refl

outcome_plain : (o : ConflictOutcome) → all (λ x. ltb x 128) (outcome_str o) ≡ true
outcome_plain ConflictOutcome.no_op_verified = refl
outcome_plain ConflictOutcome.guarded_local_replace = refl
outcome_plain ConflictOutcome.safe_text_merge_local = refl
outcome_plain ConflictOutcome.preserve_both_local = refl
outcome_plain ConflictOutcome.remote_mutation_blocked = refl
outcome_plain ConflictOutcome.unsupported_protected = refl
outcome_plain ConflictOutcome.needs_reconcile = refl

same_plain : (s t : Text) → IsPlain s → IsPlain t → bytes s ≡ bytes t → s ≡ t
same_plain s t p q e = sym (plain_bytes s p) ∙ e ∙ plain_bytes t q

same_cell : (c d : ConflictCell) → bytes (cell_str c) ≡ bytes (cell_str d) → c ≡ d
same_cell c d e = str-injective.0 c d (
    same_plain (cell_str c) (cell_str d) (all-IsPlain (cell_str c) (cell_plain c))
      (all-IsPlain (cell_str d) (cell_plain d)) e)

same_outcome : (o p : ConflictOutcome) → bytes (outcome_str o) ≡ bytes (outcome_str p) → o ≡ p
same_outcome o p e = str-injective.1 o p (
    same_plain (outcome_str o) (outcome_str p) (all-IsPlain (outcome_str o) (outcome_plain o))
      (all-IsPlain (outcome_str p) (outcome_plain p)) e)

same_content :
    (f g : Option ContentFingerprint)
    → IsLength f
    → IsLength g
    → SameValue (sha256_of f) (sha256_of g)
    → SameValue (byte_length_of f) (byte_length_of g)
    → SameContent f g
same_content none none a b h k = tt
same_content none (some g) a b h k = absurd h
same_content (some f) none a b h k = absurd h
same_content (some f) (some g) a b h k = (
  h,
  decimal-injective f.byte_length g.byte_length a b (
      same_plain (decimal f.byte_length) (decimal g.byte_length) (decimal-IsPlain f.byte_length)
        (decimal-IsPlain g.byte_length) k),
)

same_fields :
    (i j : ConflictIdentityInput)
    → IsLength i.base × IsLength i.local × IsLength i.remote
    → IsLength j.base × IsLength j.local × IsLength j.remote
    → SameFields (identity_fields i) (identity_fields j)
    → SameIdentity i j
unfolding identity_fields
same_fields i j a b h =
    let (_, _, r0) = h in
    let (_, account, r1) = r0 in
    let (_, root, r2) = r1 in
    let (_, object, r3) = r2 in
    let (_, cell, r4) = r3 in
    let (_, outcome, r5) = r4 in
    let (_, path, r6) = r5 in
    let (_, parent, r7) = r6 in
    let (_, base, r8) = r7 in
    let (_, base_length, r9) = r8 in
    let (_, local, r10) = r9 in
    let (_, local_length, r11) = r10 in
    let (_, remote, r12) = r11 in
    let (_, remote_length, r13) = r12 in
    let (_, naming, r14) = r13 in
    record {
      account = account;
      root = root;
      object = object;
      cell = same_cell i.cell j.cell cell;
      outcome = same_outcome i.outcome j.outcome outcome;
      path = path;
      parent = parent;
      base = same_content i.base j.base a.0 b.0 base base_length;
      local = same_content i.local j.local a.1 b.1 local local_length;
      remote = same_content i.remote j.remote a.2 b.2 remote remote_length;
      naming = naming;
    }

-- Where SHA-256 tells the two hashed texts apart unless they are equal, and every field is shorter
-- than 2^64 bytes, two accepted inputs with one conflict id say the same.
derive_conflict_id-injective :
    (u : Unicode) (d : Digest) (i j : ConflictIdentityInput) (id : Text)
    → (d.sha256_hex (push_fields (identity_fields i))
          ≡ d.sha256_hex (push_fields (identity_fields j))
        → push_fields (identity_fields i) ≡ push_fields (identity_fields j))
    → All IsShort (identity_fields i)
    → All IsShort (identity_fields j)
    → derive_conflict_id u d i ≡ ok id
    → derive_conflict_id u d j ≡ ok id
    → SameIdentity i j
unfolding derive_conflict_id
derive_conflict_id-injective u d i j id apart a b h k =
    let (p, e) = >>-ok (validate_identity_input u i) _ h in
    let (q, g) = >>-ok (validate_identity_input u j) _ k in
    same_fields i j (accepted-IsLength u i p) (accepted-IsLength u j q) (
      push_fields-injective (identity_fields i) (identity_fields j) a b
        (apart (ok-injective e ∙ sym (ok-injective g))))

-- Where SHA-256 tells the two hashed texts apart unless they are equal, and every field is shorter
-- than 2^64 bytes, two accepted inputs that differ in the account, the root, the object, the cell,
-- the outcome, the path, the parent, a fingerprint or the naming version have different conflict
-- ids.
pub derive_conflict_id_separates :
    (u : Unicode) (d : Digest) (i j : ConflictIdentityInput) (a b : Text)
    → (d.sha256_hex (push_fields (identity_fields i))
          ≡ d.sha256_hex (push_fields (identity_fields j))
        → push_fields (identity_fields i) ≡ push_fields (identity_fields j))
    → All IsShort (identity_fields i)
    → All IsShort (identity_fields j)
    → derive_conflict_id u d i ≡ ok a
    → derive_conflict_id u d j ≡ ok b
    → ¬ SameIdentity i j
    → a ≢ b
derive_conflict_id_separates u d i j a b apart m n h k other e =
    other (derive_conflict_id-injective u d i j a apart m n h (k ∙ ap ok (sym e)))
