-- ===== src/Path.antt =====
-- crates/myvault-core/src/path.rs: portable paths relative to a vault root.
pub mod Canonical
mod Tests
use my_vault.Base.{
  nat_eq, list_eq, ℕ, ◌+◌, Bool, true, false, not, ◌&&◌, ◌||◌, List, [], ◌∷◌, ◌++◌, map, Option,
  none, some, ltb, leb, ◌==◌, if◌then◌else◌, any, is_empty,
}
use my_vault.Base.Results.{Result, ok, err}
use my_vault.Text.{Text, codes, len, is_control, split, join, starts_with, ends_with, contains}
use my_vault.Text.Unicode.{Unicode}

abbrev pub max_component_bytes : ℕ
max_component_bytes = 255

abbrev pub max_component_utf16_units : ℕ
max_component_utf16_units = 255

abbrev pub max_path_bytes : ℕ
max_path_bytes = 4096

abbrev pub max_path_utf16_units : ℕ
max_path_utf16_units = 4096

-- `CoreError::InvalidRelativePath`
pub data PathError : Type 0 where
  invalid_relative_path : PathError

-- A validated path: its canonical text.
pub record VaultPath : Type 0 where
  pub as_str : Text

pub data VaultPathClass : Type 0 where
  content obsidian_metadata trash : VaultPathClass

-- `encode_utf16().count()`
pub utf16_count : Text → ℕ
utf16_count [] = 0
utf16_count (c ∷ s) = (if ltb c 0x10000 then 1 else 2) + utf16_count s

-- The characters that no component may hold.
pub is_forbidden_char : ℕ → Bool
is_forbidden_char c =
    is_control c
    || c == b'<'
    || c == b'>'
    || c == b':'
    || c == 0x22
    || c == b'|'
    || c == b'?'
    || c == b'*'
    || c == 0x5C

-- `str::strip_prefix`
pub strip_prefix : Text → Text → Option Text
strip_prefix [] s = some s
strip_prefix (c ∷ p) [] = none
strip_prefix (c ∷ p) (d ∷ s) = if c == d then strip_prefix p s else none

abbrev is_one_of : Text → List Text → Bool
is_one_of s xs = any (λ x. s == x) xs

reserved_suffix : Option Text → Bool
reserved_suffix none = false
reserved_suffix (some suffix) = is_one_of suffix (
    codes "1"
    ∷ codes "2"
    ∷ codes "3"
    ∷ codes "4"
    ∷ codes "5"
    ∷ codes "6"
    ∷ codes "7"
    ∷ codes "8"
    ∷ codes "9"
    ∷ (0xB9 ∷ [])
    ∷ (0xB2 ∷ [])
    ∷ (0xB3 ∷ [])
    ∷ [])

reserved_numbered_name : Text → Text → Bool
unfolding reserved_suffix strip_prefix
reserved_numbered_name value prefix = reserved_suffix (strip_prefix prefix value)

-- `component.split('.').next().unwrap_or(component)`
stem_of : Text → List Text → Text
stem_of component [] = component
stem_of component (stem ∷ _) = stem

-- `push` of each portable component; the empty ones and `.` are dropped.
pub collect : (Text → Bool) → List Text → Result (List Text) PathError
collect is_portable [] = ok []
collect is_portable (component ∷ rest) =
    let tail = collect is_portable rest in
    if is_empty component || component == codes "."
    then tail
    else if component == codes ".." || not (is_portable component)
    then err invalid_relative_path
    else (elim tail [ ok components ↦ ok (component ∷ components) | err e ↦ err e ])

pub from_components : List Text → Result VaultPath PathError
unfolding utf16_count
from_components [] = err invalid_relative_path
from_components (c ∷ cs) =
    let canonical = join (b'/' ∷ []) (c ∷ cs) in
    if ltb max_path_bytes (len canonical) || ltb max_path_utf16_units (utf16_count canonical)
    then err invalid_relative_path
    else ok (record { as_str = canonical })

-- `value.starts_with("./")`
starts_with_dot_slash : Text → Bool
starts_with_dot_slash (c ∷ d ∷ s) = c == b'.' && d == b'/'
starts_with_dot_slash _ = false

module _ (u : Unicode) where
  is_windows_reserved_name : Text → Bool
  unfolding reserved_numbered_name
  is_windows_reserved_name stem =
      let uppercase = u.to_uppercase stem in
      is_one_of uppercase (
        codes "CON"
        ∷ codes "PRN"
        ∷ codes "AUX"
        ∷ codes "NUL"
        ∷ codes "CONIN$"
        ∷ codes "CONOUT$"
        ∷ codes "CLOCK$"
        ∷ [])
      || reserved_numbered_name uppercase (codes "COM")
      || reserved_numbered_name uppercase (codes "LPT")

  unfoldable pub is_portable_component : Text → Bool
  unfolding is_windows_reserved_name utf16_count is_forbidden_char stem_of
  is_portable_component component =
      if ltb max_component_bytes (len component)
        || ltb max_component_utf16_units (utf16_count component)
        || ends_with b'.' component
        || ends_with 0x20 component
        || any is_forbidden_char component
      then false
      else not (is_windows_reserved_name (stem_of component (split b'.' component)))

  from_parts : Result (List Text) PathError → Result VaultPath PathError
  unfolding from_components
  from_parts (ok components) = from_components components
  from_parts (err e) = err e

  unfoldable pub from_portable : Text → Result VaultPath PathError
  unfolding from_parts starts_with_dot_slash collect is_portable_component
  from_portable value =
      if is_empty value
        || starts_with b'/' value
        || starts_with_dot_slash value
        || contains 0x5C value
      then err invalid_relative_path
      else from_parts (collect is_portable_component (split b'/' value))

  unfoldable pub component_collision_key : Text → Text
  component_collision_key component = u.nfkc (u.case_fold (u.nfkc component))

  unfoldable pub collision_key : VaultPath → Text
  unfolding component_collision_key
  collision_key path = join (b'/' ∷ []) (map component_collision_key (split b'/' path.as_str))

  unfoldable pub classify_component : Text → VaultPathClass
  unfolding component_collision_key
  classify_component component =
      let key = component_collision_key component in
      if key == codes ".obsidian"
      then obsidian_metadata
      else if key == codes ".trash"
      then trash
      else content

  classify_first : List Text → VaultPathClass
  unfolding classify_component
  classify_first [] = content
  classify_first (component ∷ _) = classify_component component

  unfoldable pub classify : VaultPath → VaultPathClass
  unfolding classify_first
  classify path = classify_first (split b'/' path.as_str)
