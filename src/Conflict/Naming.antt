-- ===== src/Conflict/Naming.antt =====
-- `resolve_conflict_copy_name` (crates/myvault-sync-engine/src/conflict/identity.rs).
use my_vault.Base.{
  nat_eq, list_eq, ℕ, ◌^◌, Bool, true, not, ◌&&◌, ◌||◌, List, [], ◌∷◌, ◌++◌, Option, none, some,
  if◌then◌else◌, ◌==◌, ◌!=◌, ltb, length, take, all, any, is_some_and, unwrap_or,
}
use my_vault.Base.Results.{Result, ok, err}
use my_vault.Text.{Text, codes, is_lower_hex_64, is_remote_id, split}
use my_vault.Text.Digest.{Digest}
use my_vault.Text.Unicode.{Unicode}
use my_vault.Path.{VaultPath}
use my_vault.Conflict.Facts.{ContentFingerprint, fingerprint_eq}
use my_vault.Conflict.Paths.{
  ConflictNameFailure, exact_vault_path, is_exact_content_path, normalized_collision_key,
}

abbrev pub conflict_naming_version : Text
conflict_naming_version = codes "r3-conflict-name-v1-nfkc17-casefold9-nfkc"

pub record OccupiedConflictCopy : Type 0 where
  pub normalized_collision_key : Text
  pub conflict_id : Text
  pub expected_content : ContentFingerprint
  pub destination_path : Text
  pub object_id : Text

pub record ConflictCopyNameRequest : Type 0 where
  pub conflict_id : Text
  pub source_path : Text
  pub destination_parent_path : Option Text
  pub expected_content : ContentFingerprint
  pub naming_version : Text
  pub occupied : List OccupiedConflictCopy

pub record ConflictCopyName : Type 0 where
  pub destination_path : Text
  pub normalized_collision_key : Text
  pub id_prefix_length : ℕ
  pub existing_object_id : Option Text

pub data ConflictCopyNameOutcome : Type 0 where
  create reuse : ConflictCopyName → ConflictCopyNameOutcome
  needs_reconcile : ConflictNameFailure → ConflictCopyNameOutcome

unfoldable pub valid_fingerprint : ContentFingerprint → Bool
valid_fingerprint value = is_lower_hex_64 value.sha256 && ltb value.byte_length (2 ^ 63)

-- The text before the last `.` and the text from it on, when there is one: `rfind('.')`
split_last_dot : Text → Option (Text × Text)
split_last_dot [] = none
split_last_dot (c ∷ s) = elim (split_last_dot s) [
  | some p ↦ some (c ∷ p.0, p.1)
  | none ↦ if c == b'.' then some ([], c ∷ s) else none
]

-- An extension needs a stem, and more than the dot.
extension_or_none : Text → Option (Text × Text) → Text × Text
extension_or_none name none = (name, [])
extension_or_none name (some ([], ext)) = (name, [])
extension_or_none name (some (c ∷ stem, [])) = (name, [])
extension_or_none name (some (c ∷ stem, d ∷ [])) = (name, [])
extension_or_none name (some (c ∷ stem, d ∷ e ∷ ext)) = (c ∷ stem, d ∷ e ∷ ext)

unfoldable pub split_extension : Text → Text × Text
unfolding extension_or_none split_last_dot
split_extension name = extension_or_none name (split_last_dot name)

-- `rsplit('/').next().unwrap_or(whole)`
last_part : Text → List Text → Text
last_part whole [] = whole
last_part whole (x ∷ []) = x
last_part whole (x ∷ y ∷ ys) = last_part whole (y ∷ ys)

unfoldable pub name_parts : VaultPath → Text × Text
unfolding split_extension last_part
name_parts source = split_extension (last_part source.as_str (split b'/' source.as_str))

reverse_onto : Text → Text → Text
reverse_onto [] s = s
reverse_onto (c ∷ r) s = reverse_onto r (c ∷ s)

candidate_text : Option Text → Text → Text
candidate_text none component = component
candidate_text (some parent) component = parent ++ (b'/' ∷ component)

-- The occupied entries with a key.
unfoldable pub collisions : Text → List OccupiedConflictCopy → List OccupiedConflictCopy
collisions key [] = []
collisions key (o ∷ os) =
    let rest = collisions key os in if o.normalized_collision_key == key then o ∷ rest else rest

-- What the colliding entries decide; `none` goes on to a longer prefix.
unfoldable pub decide_collisions :
    ConflictCopyNameRequest
    → ConflictCopyName
    → List OccupiedConflictCopy
    → Option ConflictCopyNameOutcome
decide_collisions request name [] = some (create name)
decide_collisions request name (o ∷ os) =
    if all
      (λ x. x.conflict_id == request.conflict_id && x.expected_content == request.expected_content)
      (o ∷ os)
    then if any (λ x. x.object_id != o.object_id || x.destination_path != name.destination_path)
        (o ∷ os)
      then some (needs_reconcile ConflictNameFailure.invalid_occupied_evidence)
      else some (reuse (record name { existing_object_id = some o.object_id }))
    else none

-- `(12..=64).step_by(4)`
abbrev pub prefix_lengths : List ℕ
prefix_lengths = 12 ∷ 16 ∷ 20 ∷ 24 ∷ 28 ∷ 32 ∷ 36 ∷ 40 ∷ 44 ∷ 48 ∷ 52 ∷ 56 ∷ 60 ∷ 64 ∷ []

module _ (u : Unicode) (d : Digest) where
  some_path : Result VaultPath Unit → Option VaultPath → Option VaultPath
  some_path (ok path) other = some path
  some_path (err _) other = other

  -- The loop of `build_candidate_path`, on the stem's characters from its end.
  build_from : Option Text → Text → Text → Option VaultPath
  unfolding some_path candidate_text reverse_onto
  build_from parent [] tail = some_path (exact_vault_path u (candidate_text parent tail)) none
  build_from parent (c ∷ stem) tail =
      let shorter = build_from parent stem tail in
      some_path (exact_vault_path u (candidate_text parent (reverse_onto (c ∷ stem) tail))) shorter

  unfoldable pub build_candidate_path : Option Text → Text → Text → Text → Option VaultPath
  unfolding build_from reverse_onto
  build_candidate_path parent stem extension suffix =
      build_from parent (reverse_onto stem []) (suffix ++ extension)

  unfoldable pub decide_key :
      ConflictCopyNameRequest
      → ℕ
      → VaultPath
      → Result Text ConflictNameFailure
      → Option ConflictCopyNameOutcome
  unfolding collisions decide_collisions
  decide_key request prefix_length path (err failure) = some (needs_reconcile failure)
  decide_key request prefix_length path (ok key) =
      decide_collisions request
        (record {
          destination_path = path.as_str;
          normalized_collision_key = key;
          id_prefix_length = prefix_length;
          existing_object_id = none;
        })
        (collisions key request.occupied)

  unfoldable pub decide_candidate :
      ConflictCopyNameRequest → ℕ → Option VaultPath → Option ConflictCopyNameOutcome
  unfolding decide_key
  decide_candidate request prefix_length none =
      some (needs_reconcile ConflictNameFailure.invalid_destination_parent)
  decide_candidate request prefix_length (some path) =
      decide_key request prefix_length path (normalized_collision_key u d path.as_str)

  -- The `for` loop.
  unfoldable pub resolve_from :
      ConflictCopyNameRequest → Text × Text → List ℕ → ConflictCopyNameOutcome
  unfolding decide_candidate build_candidate_path
  resolve_from request parts [] = needs_reconcile ConflictNameFailure.exhausted_conflict_id
  resolve_from request parts (n ∷ ns) =
      let suffix = codes " (conflict " ++ (take n request.conflict_id ++ codes ")") in
      let candidate = build_candidate_path request.destination_parent_path parts.0 parts.1 suffix in
      unwrap_or (decide_candidate request n candidate) (resolve_from request parts ns)

  key_mismatch : Result Text ConflictNameFailure → Text → Bool
  key_mismatch (ok found) key = found != key
  key_mismatch (err _) key = true

  unfoldable pub is_bad_occupied : OccupiedConflictCopy → Bool
  unfolding valid_fingerprint key_mismatch
  is_bad_occupied o =
      not (is_lower_hex_64 o.normalized_collision_key)
      || not (is_lower_hex_64 o.conflict_id)
      || not (valid_fingerprint o.expected_content)
      || not (is_remote_id o.object_id)
      || key_mismatch (normalized_collision_key u d o.destination_path) o.normalized_collision_key

  unfoldable pub resolve_source :
      ConflictCopyNameRequest → Result VaultPath Unit → ConflictCopyNameOutcome
  unfolding resolve_from name_parts
  resolve_source request (err _) = needs_reconcile ConflictNameFailure.invalid_source_path
  resolve_source request (ok source) =
      if is_some_and request.destination_parent_path
        (λ parent. not (is_exact_content_path u parent))
      then needs_reconcile ConflictNameFailure.invalid_destination_parent
      else resolve_from request (name_parts source) prefix_lengths

  unfoldable pub resolve_conflict_copy_name : ConflictCopyNameRequest → ConflictCopyNameOutcome
  unfolding resolve_source is_bad_occupied valid_fingerprint
  resolve_conflict_copy_name request =
      if request.naming_version != conflict_naming_version
      then needs_reconcile ConflictNameFailure.unsupported_naming_version
      else if not (is_lower_hex_64 request.conflict_id)
      then needs_reconcile ConflictNameFailure.invalid_conflict_id
      else if not (valid_fingerprint request.expected_content)
      then needs_reconcile ConflictNameFailure.invalid_content_fingerprint
      else if ltb 4096 (length request.occupied) || any is_bad_occupied request.occupied
      then needs_reconcile ConflictNameFailure.invalid_occupied_evidence
      else resolve_source request (exact_vault_path u request.source_path)
