-- ===== src/Conflict/Paths.antt =====
-- Exact content paths and collision keys
-- (crates/myvault-sync-engine/src/conflict/identity.rs).
use my_vault.Base.{
  nat_eq, list_eq, ℕ, Bool, true, false, not, ◌&&◌, ◌||◌, List, [], ◌∷◌, ◌++◌, if◌then◌else◌, ◌==◌,
  any, is_empty,
}
use my_vault.Base.Results.{Result, ok, err, ◌>>=◌}
use my_vault.Text.{Text, codes, bytes, len, split, is_control}
use my_vault.Text.Unicode.{Unicode}
use my_vault.Text.Digest.{Digest}
use my_vault.Path.{VaultPath, PathError, from_portable, component_collision_key}
use my_vault.Mutation.Fingerprint.{be_bytes}

pub data ConflictNameFailure : Type 0 where
  unsupported_naming_version invalid_conflict_id invalid_content_fingerprint invalid_source_path
        invalid_destination_parent invalid_normalized_component invalid_identity_field
        invalid_occupied_evidence exhausted_conflict_id :
      ConflictNameFailure

abbrev is_ok : {A E : Type 0} → Result A E → Bool
is_ok (ok a) = true
is_ok (err e) = false

module _ (u : Unicode) where
  -- The first component names `.obsidian` or `.trash`, up to case and compatibility forms.
  is_protected : List Text → Bool
  is_protected [] = false
  is_protected (component ∷ _) =
      let key = component_collision_key u component in
      key == codes ".obsidian" || key == codes ".trash"

  check_exact : Text → Result VaultPath PathError → Result VaultPath Unit
  unfolding is_protected
  check_exact value (err e) = err tt
  check_exact value (ok path) =
      if path.as_str == value && not (is_protected (split b'/' path.as_str))
      then ok path
      else err tt

  unfoldable pub exact_vault_path : Text → Result VaultPath Unit
  unfolding check_exact
  exact_vault_path value = check_exact value (from_portable u value)

  unfoldable pub is_exact_content_path : Text → Bool
  unfolding exact_vault_path
  is_exact_content_path value = is_ok (exact_vault_path value)

  -- `VaultPath::from_portable(&normalized).is_ok_and(..)`
  is_self_portable : Text → Result VaultPath PathError → Bool
  is_self_portable normalized (ok path) = path.as_str == normalized
  is_self_portable normalized (err e) = false

  unfoldable pub key_bytes : List Text → Result (List ℕ) ConflictNameFailure
  unfolding is_self_portable
  key_bytes [] = ok []
  key_bytes (component ∷ rest) =
      let tail = key_bytes rest in
      let normalized = component_collision_key u component in
      if is_empty normalized
        || any (λ c. c == b'/' || c == 0 || is_control c) normalized
        || not (is_self_portable normalized (from_portable u normalized))
      then err invalid_normalized_component
      else (do more ← tail; ok (be_bytes (len normalized) ++ (bytes normalized ++ more)))

  key_of : Digest → Result VaultPath Unit → Result Text ConflictNameFailure
  unfolding key_bytes
  key_of d (err _) = err invalid_source_path
  key_of d (ok path) = do stream ← key_bytes (split b'/' path.as_str); ok (d.sha256_hex stream)

  unfoldable pub normalized_collision_key : Digest → Text → Result Text ConflictNameFailure
  unfolding key_of exact_vault_path
  normalized_collision_key d path = key_of d (exact_vault_path path)
