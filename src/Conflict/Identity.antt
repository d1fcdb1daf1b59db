-- ===== src/Conflict/Identity.antt =====
-- The identities of conflicts and of their operations
-- (crates/myvault-sync-engine/src/conflict/identity.rs).
use my_vault.Base.{
  nat_eq, list_eq, ℕ, ◌^◌, ◌<◌, ◌≡◌, refl, Bool, not, ◌||◌, List, [], ◌∷◌, ◌++◌, Option, none, some,
  ◌!=◌, is_some_and, length, take, All, arith,
}
use my_vault.Base.Results.{Result, ok, fail_if, ◌>>◌}
use my_vault.Text.{Text, codes, bytes, is_remote_id}
use my_vault.Text.Decimal.{decimal}
use my_vault.Text.Digest.{Digest}
use my_vault.Text.Unicode.{Unicode}
use my_vault.Mutation.Fingerprint.{be_bytes}
use my_vault.Conflict.Cells.{ConflictCell, ConflictOutcome, cell_str, outcome_str}
use my_vault.Conflict.Facts.{ContentFingerprint}
use my_vault.Conflict.Paths.{ConflictNameFailure, is_exact_content_path}
use my_vault.Conflict.Naming.{conflict_naming_version, valid_fingerprint}
use my_vault.Conflict.Framing.{cons_injective, be_bytes-injective, append_cancel}

pub record ConflictIdentityInput : Type 0 where
  pub account_id : Text
  pub remote_root_id : Text
  pub object_identity : Text
  pub cell : ConflictCell
  pub outcome : ConflictOutcome
  pub canonical_identity_path : Text
  pub target_parent_id : Text
  pub base : Option ContentFingerprint
  pub local : Option ContentFingerprint
  pub remote : Option ContentFingerprint
  pub naming_version : Text

pub data ConflictOperationDomain : Type 0 where
  conflict_copy merge_publish base_publish local_publish remote_existing_blocked
        guarded_local_rename guarded_local_move guarded_local_rename_move :
      ConflictOperationDomain

abbrev pub domain_str : ConflictOperationDomain → Text
domain_str ConflictOperationDomain.conflict_copy = codes "conflict-copy"
domain_str ConflictOperationDomain.merge_publish = codes "merge-publish"
domain_str ConflictOperationDomain.base_publish = codes "base-publish"
domain_str ConflictOperationDomain.local_publish = codes "local-publish"
domain_str ConflictOperationDomain.remote_existing_blocked = codes "remote-existing-blocked"
domain_str ConflictOperationDomain.guarded_local_rename = codes "guarded-local-rename"
domain_str ConflictOperationDomain.guarded_local_move = codes "guarded-local-move"
domain_str ConflictOperationDomain.guarded_local_rename_move = codes "guarded-local-rename-move"

abbrev pub conflict_id_version : Text
conflict_id_version = codes "myvault-r3-conflict-id-v1"

-- A name or value as `push_field` writes it: its length, then its bytes.
unfoldable pub sized : Text → List ℕ
sized s = be_bytes (length (bytes s)) ++ bytes s

-- What `push_field` writes of a value.
unfoldable pub value_bytes : Option Text → List ℕ
unfolding sized
value_bytes none = 0 ∷ be_bytes 0
value_bytes (some value) = 1 ∷ sized value

-- The calls of `push_field`, in order.
unfoldable pub push_fields : List (Text × Option Text) → List ℕ
unfolding sized value_bytes
push_fields [] = []
push_fields ((name, value) ∷ fields) = sized name ++ (value_bytes value ++ push_fields fields)

abbrev pub sha256_of : Option ContentFingerprint → Option Text
sha256_of none = none
sha256_of (some f) = some f.sha256

abbrev pub byte_length_of : Option ContentFingerprint → Option Text
byte_length_of none = none
byte_length_of (some f) = some (decimal f.byte_length)

unfoldable pub identity_fields : ConflictIdentityInput → List (Text × Option Text)
identity_fields i =
    (codes "identity_version", some conflict_id_version)
    ∷ (codes "account_id", some i.account_id)
    ∷ (codes "remote_root_id", some i.remote_root_id)
    ∷ (codes "object_identity", some i.object_identity)
    ∷ (codes "stable_cell_id", some (cell_str i.cell))
    ∷ (codes "classification_code", some (outcome_str i.outcome))
    ∷ (codes "canonical_identity_path", some i.canonical_identity_path)
    ∷ (codes "target_parent_identity", some i.target_parent_id)
    ∷ (codes "base_sha256", sha256_of i.base)
    ∷ (codes "base_byte_length", byte_length_of i.base)
    ∷ (codes "local_sha256", sha256_of i.local)
    ∷ (codes "local_byte_length", byte_length_of i.local)
    ∷ (codes "remote_sha256", sha256_of i.remote)
    ∷ (codes "remote_byte_length", byte_length_of i.remote)
    ∷ (codes "naming_version", some i.naming_version)
    ∷ []

abbrev pub is_unprinted : Option ContentFingerprint → Bool
is_unprinted f = is_some_and f (λ x. not (valid_fingerprint x))

module _ (u : Unicode) where
  unfoldable pub validate_identity_input : ConflictIdentityInput → Result Unit ConflictNameFailure
  validate_identity_input i = do
    fail_if (i.naming_version != conflict_naming_version)
        ConflictNameFailure.unsupported_naming_version
    fail_if (not (is_exact_content_path u i.canonical_identity_path))
        ConflictNameFailure.invalid_source_path
    fail_if
        (not (is_remote_id i.account_id)
          || not (is_remote_id i.remote_root_id)
          || not (is_remote_id i.object_identity)
          || not (is_remote_id i.target_parent_id)
          || is_unprinted i.local
          || is_unprinted i.remote
          || is_unprinted i.base)
        ConflictNameFailure.invalid_identity_field

  unfoldable pub derive_conflict_id :
      Digest → ConflictIdentityInput → Result Text ConflictNameFailure
  unfolding validate_identity_input push_fields identity_fields
  derive_conflict_id d i = do
    validate_identity_input i
    ok (d.sha256_hex (push_fields (identity_fields i)))

-- `Uuid::new_v5` of the fixed namespace is a parameter.
unfoldable pub derive_operation_id : (List ℕ → ℕ) → ConflictOperationDomain → Text → ℕ
derive_operation_id new_v5 domain conflict_id =
    new_v5 (bytes (domain_str domain) ++ (0 ∷ bytes conflict_id))

unfoldable pub operation_marker : ConflictOperationDomain → Text → Text
operation_marker domain conflict_id =
    codes "r3." ++ (domain_str domain ++ (b'.' ∷ take 32 conflict_id))

-- Every length fits a `u64`.
abbrev pub IsShort : Text × Option Text → Type 0
IsShort (name, none) = length (bytes name) < 2 ^ 64
IsShort (name, some value) = (length (bytes name) < 2 ^ 64) × (length (bytes value) < 2 ^ 64)

abbrev pub SameValue : Option Text → Option Text → Type 0
SameValue none none = Unit
SameValue (some v) (some w) = bytes v ≡ bytes w
SameValue _ _ = ⊥

-- The same names, in order, with the same values.
abbrev pub SameFields : List (Text × Option Text) → List (Text × Option Text) → Type 0
SameFields [] [] = Unit
SameFields ((n, v) ∷ fs) ((m, w) ∷ gs) = (bytes n ≡ bytes m) × SameValue v w × SameFields fs gs
SameFields _ _ = ⊥

sized-injective :
    (s t : Text) (xs ys : List ℕ)
    → length (bytes s) < 2 ^ 64
    → length (bytes t) < 2 ^ 64
    → sized s ++ xs ≡ sized t ++ ys
    → (bytes s ≡ bytes t) × (xs ≡ ys)
unfolding sized be_bytes
sized-injective s t xs ys a b h =
    let (l, r) =
      be_bytes-injective (length (bytes s)) (length (bytes t)) (bytes s ++ xs) (bytes t ++ ys) a b
        h in
    append_cancel (bytes s) (bytes t) xs ys l r

short_name : (n : Text) (v : Option Text) → IsShort (n, v) → length (bytes n) < 2 ^ 64
short_name n none h = h
short_name n (some v) h = h.0

value_bytes-injective :
    (n m : Text) (v w : Option Text) (xs ys : List ℕ)
    → IsShort (n, v)
    → IsShort (m, w)
    → value_bytes v ++ xs ≡ value_bytes w ++ ys
    → SameValue v w × (xs ≡ ys)
unfolding value_bytes be_bytes
value_bytes-injective n m none none xs ys a b h =
    (tt, (append_cancel (value_bytes none) (value_bytes none) xs ys refl h).1)
value_bytes-injective n m none (some w) xs ys a b h =
    absurd (omega (arith, (cons_injective 0 1 (be_bytes 0 ++ xs) (sized w ++ ys) h).0))
value_bytes-injective n m (some v) none xs ys a b h =
    absurd (omega (arith, (cons_injective 1 0 (sized v ++ xs) (be_bytes 0 ++ ys) h).0))
value_bytes-injective n m (some v) (some w) xs ys a b h =
    sized-injective v w xs ys a.1 b.1 (cons_injective 1 1 (sized v ++ xs) (sized w ++ ys) h).1

pub push_fields-injective :
    (fs gs : List (Text × Option Text))
    → All IsShort fs
    → All IsShort gs
    → push_fields fs ≡ push_fields gs
    → SameFields fs gs
unfolding push_fields sized be_bytes
push_fields-injective [] [] a b h = tt
push_fields-injective [] ((m, w) ∷ gs) a b h = absurd cc
push_fields-injective ((n, v) ∷ fs) [] a b h = absurd cc
push_fields-injective ((n, v) ∷ fs) ((m, w) ∷ gs) (a, a_rest) (b, b_rest) h =
    let (e, h₁) =
      sized-injective n m (value_bytes v ++ push_fields fs) (value_bytes w ++ push_fields gs)
        (short_name n v a) (short_name m w b) h in
    let (e₁, h₂) = value_bytes-injective n m v w (push_fields fs) (push_fields gs) a b h₁ in
    (e, e₁, push_fields-injective fs gs a_rest b_rest h₂)
