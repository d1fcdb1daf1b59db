-- ===== src/Path/Tests.antt =====
-- A relative path with an empty component and a `.`, parsed.
use my_vault.Base.{◌≤◌, ◌≡◌, refl, All}
use my_vault.Base.Results.{ok}
use my_vault.Text.{codes, starts_with, split, len, ends_with, is_control, join}
use my_vault.Text.Unicode.{Unicode}
use my_vault.Path.{VaultPath, from_portable, is_portable_component, max_path_bytes}
use my_vault.Path.Canonical.{IsComponent, from_portable_idem, from_portable-components}

abbrev unicode : Unicode
unicode = record { nfkc = λ s. s; case_fold = λ s. s; to_uppercase = λ s. s }

abbrev note : VaultPath
note = record { as_str = codes "notes/daily/a.md" }

from_portable_idem_example : from_portable unicode note.as_str ≡ ok note
unfolding from_portable starts_with split len ends_with is_control join
from_portable_idem_example = from_portable_idem unicode (codes "notes//daily/./a.md") note refl

from_portable-components_example :
    All (IsComponent (is_portable_component unicode)) (split b'/' note.as_str)
    × (len note.as_str ≤ max_path_bytes)
unfolding from_portable starts_with split len ends_with is_control join
from_portable-components_example =
    from_portable-components unicode (codes "notes//daily/./a.md") note refl
