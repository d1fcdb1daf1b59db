-- ===== src/Store/Transfers/Pages.antt =====
-- A page of remote changes and the downloads that it needs
-- (crates/myvault-sync-engine/src/store.rs, and src/lib.rs beside it).
use my_vault.Base.{
  nat_eq, list_eq, option_eq, ℕ, Bool, true, false, not, ◌&&◌, ◌||◌, List, [], ◌∷◌, ◌++◌, Option,
  none, some, leb, ◌==◌, ◌!=◌, if◌then◌else◌, all, any, find, is_some, is_some_and, is_none_or,
}
use my_vault.Base.Results.{Result, ok, err, fail_if, ◌>>◌, ◌>>=◌}
use my_vault.Text.{Text, codes, bytes, len, is_ascii_digit}
use my_vault.Text.Unicode.{Unicode}
use my_vault.Store.Validators.{
  Error, validate_remote_id, validate_remote_token, validate_content_path,
}
use my_vault.Store.Table.{update}
use my_vault.Store.Transfers.Queue.{RemoteEntry, RemoteEntryKind}
use my_vault.Store.Transfers.Completion.{is_file}

pub data RemoteHashAlgorithm : Type 0 where
  md5 sha1 sha256 : RemoteHashAlgorithm

abbrev pub hash_str : RemoteHashAlgorithm → Text
hash_str RemoteHashAlgorithm.md5 = codes "md5"
hash_str RemoteHashAlgorithm.sha1 = codes "sha1"
hash_str RemoteHashAlgorithm.sha256 = codes "sha256"

abbrev pub expected_hex_len : RemoteHashAlgorithm → ℕ
expected_hex_len RemoteHashAlgorithm.md5 = 32
expected_hex_len RemoteHashAlgorithm.sha1 = 40
expected_hex_len RemoteHashAlgorithm.sha256 = 64

abbrev pub is_sha256 : RemoteHashAlgorithm → Bool
is_sha256 algorithm = expected_hex_len algorithm == 64

pub record RemoteContentHash : Type 0 where
  pub algorithm : RemoteHashAlgorithm
  pub hex : Text

-- `RemoteEntry` of src/lib.rs, which a page carries and a row of `remote_entries` persists.
pub record PageEntry : Type 0 where
  pub file_id : Text
  pub parent_id : Text
  pub path : Text
  pub kind : RemoteEntryKind
  pub content_hash : Option RemoteContentHash
  pub remote_revision : Text

pub data RemoteChange : Type 0 where
  upsert : PageEntry → RemoteChange
  removed : Text → RemoteChange

unfoldable pub validate_hash : RemoteContentHash → Result Unit Error
validate_hash hash =
    fail_if
      (len hash.hex != expected_hex_len hash.algorithm
        || not (all (λ b. is_ascii_digit b || (leb b'a' b && leb b b'f')) (bytes hash.hex)))
      Error.invalid_remote_entry

check_hash : Option RemoteContentHash → Result Unit Error
unfolding validate_hash
check_hash none = ok tt
check_hash (some hash) = validate_hash hash

abbrev same_kind : RemoteEntryKind → RemoteEntryKind → Bool
same_kind RemoteEntryKind.file kind = is_file kind
same_kind RemoteEntryKind.folder kind = not (is_file kind)

-- `content_hash` of two entries is the same.
same_hash : Option RemoteContentHash → Option RemoteContentHash → Bool
same_hash none none = true
same_hash (some a) (some b) =
    expected_hex_len a.algorithm == expected_hex_len b.algorithm && a.hex == b.hex
same_hash _ _ = false

algorithm_of : Text → Result RemoteHashAlgorithm Error
algorithm_of name =
    if name == codes "md5"
    then ok RemoteHashAlgorithm.md5
    else if name == codes "sha1"
    then ok RemoteHashAlgorithm.sha1
    else if name == codes "sha256"
    then ok RemoteHashAlgorithm.sha256
    else err Error.invalid_schema

hash_of : Option Text → Option Text → Result (Option RemoteContentHash) Error
unfolding algorithm_of validate_hash
hash_of none none = ok none
hash_of (some name) (some hex) = do
  algorithm ← algorithm_of name
  validate_hash (record { algorithm = algorithm; hex = hex })
  ok (some (record { algorithm = algorithm; hex = hex }))
hash_of _ _ = err Error.invalid_schema

module _ (u : Unicode) where
  unfoldable pub validate_entry : PageEntry → Result Unit Error
  unfolding check_hash
  validate_entry entry = do
    validate_remote_id entry.file_id
    validate_remote_id entry.parent_id
    validate_content_path u entry.path
    validate_remote_token entry.remote_revision
    check_hash entry.content_hash
    fail_if (not (is_file entry.kind) && is_some entry.content_hash) Error.invalid_remote_entry

  unfoldable pub validate_change : RemoteChange → Result Unit Error
  unfolding validate_entry
  validate_change (RemoteChange.upsert entry) = validate_entry entry
  validate_change (RemoteChange.removed file_id) = validate_remote_id file_id

  load_entry_row : Option RemoteEntry → Result (Option PageEntry) Error
  unfolding hash_of validate_entry
  load_entry_row none = ok none
  load_entry_row (some row) = do
    hash ← hash_of row.content_hash_algorithm row.content_hash
    let entry : PageEntry = record {
      file_id = row.file_id;
      parent_id = row.parent_id;
      path = row.portable_path;
      kind = row.kind;
      content_hash = hash;
      remote_revision = row.remote_revision;
    } in
        validate_entry entry >> ok (some entry)

  unfoldable pub load_remote_entry : List RemoteEntry → Text → Result (Option PageEntry) Error
  unfolding load_entry_row
  load_remote_entry rows file_id = load_entry_row (find (λ r. r.file_id == file_id) rows)

  new_row : PageEntry → RemoteEntry
  new_row entry = record {
    file_id = entry.file_id;
    parent_id = entry.parent_id;
    portable_path = entry.path;
    kind = entry.kind;
    content_hash_algorithm = elim entry.content_hash [
      | none ↦ none
      | some h ↦ some (hash_str h.algorithm)
    ];
    content_hash = elim entry.content_hash [ none ↦ none | some h ↦ some h.hex ];
    remote_revision = entry.remote_revision;
    base_local_revision = none;
    base_remote_revision = none;
    base_content_hash = none;
    base_byte_length = none;
  }

  -- `ON CONFLICT(file_id) DO UPDATE`: the columns of the base stay.
  updated_row : PageEntry → RemoteEntry → RemoteEntry
  unfolding new_row
  updated_row entry row = record (new_row entry) {
    base_local_revision = row.base_local_revision;
    base_remote_revision = row.base_remote_revision;
    base_content_hash = row.base_content_hash;
    base_byte_length = row.base_byte_length;
  }

  unfoldable pub upsert_remote_entry :
      List RemoteEntry → PageEntry → Result (List RemoteEntry) Error
  unfolding validate_entry new_row updated_row
  upsert_remote_entry rows entry = do
    validate_entry entry
    ok (
        if any (λ r. r.file_id == entry.file_id) rows
        then update (λ r. r.file_id == entry.file_id) (updated_row entry) rows
        else rows ++ new_row entry ∷ [])

  -- The file needs a download: it is new, or has another revision or hash.
  needs_download : Option PageEntry → PageEntry → Bool
  unfolding same_hash
  needs_download existing entry =
      is_file entry.kind
      && is_none_or existing (λ previous.
        previous.remote_revision != entry.remote_revision
        || not (same_hash previous.content_hash entry.content_hash))

  -- The file was moved or changed its kind.
  was_moved : Option PageEntry → PageEntry → Bool
  was_moved existing entry = is_some_and existing (λ previous.
      previous.path != entry.path
      || previous.parent_id != entry.parent_id
      || not (same_kind previous.kind entry.kind))

  -- The loop over the changes: the files that need a download; `seen` are the ids before.
  unfoldable pub required_downloads :
      List RemoteEntry → List Text → List RemoteChange → Result (List Text) Error
  unfolding load_remote_entry needs_download was_moved
  required_downloads rows seen [] = ok []
  required_downloads rows seen (RemoteChange.removed file_id ∷ changes) =
      err Error.unsupported_transfer_change
  required_downloads rows seen (RemoteChange.upsert entry ∷ changes) = do
    fail_if (any (λ id. id == entry.file_id) seen) Error.invalid_remote_entry
    existing ← load_remote_entry rows entry.file_id
    fail_if (was_moved existing entry) Error.unsupported_transfer_change
    fail_if (any (λ r. r.portable_path == entry.path && r.file_id != entry.file_id) rows)
        Error.unsupported_transfer_change
    rest ← required_downloads rows (entry.file_id ∷ seen) changes
    ok (if needs_download existing entry then entry.file_id ∷ rest else rest)
