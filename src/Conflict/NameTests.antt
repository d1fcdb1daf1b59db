-- ===== src/Conflict/NameTests.antt =====
-- A conflict copy whose name is taken by itself, with a digest that never tells paths apart.
use my_vault.Base.{[], ◌∷◌, some}
use my_vault.Text.{Text, codes}
use my_vault.Text.Digest.{Digest}
use my_vault.Text.Unicode.{Unicode}
use my_vault.Conflict.Facts.{ContentFingerprint}
use my_vault.Conflict.Naming.{
  OccupiedConflictCopy, ConflictCopyNameRequest, conflict_naming_version,
  resolve_conflict_copy_name,
}
use my_vault.Conflict.Named.{IsSafeName, resolve_conflict_copy_name-IsSafeName}

abbrev unicode : Unicode
unicode = record { nfkc = λ s. s; case_fold = λ s. s; to_uppercase = λ s. s }

abbrev hex : Text
hex = codes "aaaaaaaaaaaaaaaaaaaaaaaaaaaaaaaaaaaaaaaaaaaaaaaaaaaaaaaaaaaaaaaa"

abbrev digest : Digest
digest = record { sha256_hex = λ bs. hex; uuid_text = λ n. [] }

abbrev content : ContentFingerprint
content = record { sha256 = hex; byte_length = 12 }

abbrev copy : OccupiedConflictCopy
copy = record {
  normalized_collision_key = hex;
  conflict_id = hex;
  expected_content = content;
  destination_path = codes "notes/a (conflict aaaaaaaaaaaa).md";
  object_id = codes "file-9";
}

abbrev request : ConflictCopyNameRequest
request = record {
  conflict_id = hex;
  source_path = codes "notes/a.md";
  destination_parent_path = some (codes "notes");
  expected_content = content;
  naming_version = conflict_naming_version;
  occupied = copy ∷ [];
}

resolve_conflict_copy_name-IsSafeName_example :
    IsSafeName unicode digest request (resolve_conflict_copy_name unicode digest request)
resolve_conflict_copy_name-IsSafeName_example =
    resolve_conflict_copy_name-IsSafeName unicode digest request
