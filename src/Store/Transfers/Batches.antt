-- ===== src/Store/Transfers/Batches.antt =====
-- `begin_transfer_change_batch`: a page of remote changes with the downloads that it needs
-- (crates/myvault-sync-engine/src/store.rs).
use my_vault.Base.{
  nat_eq, list_eq, option_eq, ℕ, Bool, true, false, not, ◌&&◌, ◌||◌, List, [], ◌∷◌, ◌++◌, Option,
  none, some, ltb, ◌==◌, ◌!=◌, if◌then◌else◌, all, any, is_some, is_none, is_some_and, length,
}
use my_vault.Base.Results.{Result, ok, err, fail_if, ◌>>◌, ◌>>=◌}
use my_vault.Text.{Text}
use my_vault.Text.Unicode.{Unicode}
use my_vault.Store.Validators.{Error, validate_remote_token}
use my_vault.Store.Transfers.Record.{
  direction_eq, phase_eq, TransferDirection, TransferPhase, TransferRecord, same_registration,
  validate_new_transfer,
}
use my_vault.Store.Transfers.Queue.{
  SyncStore, SyncPhase, LocalMutationState, RemoteEntry, require_state, load_transfer,
}
use my_vault.Store.Transfers.Completion.{is_file, load_change_batch}
use my_vault.Store.Transfers.Pages.{
  RemoteContentHash, PageEntry, RemoteChange, is_sha256, validate_change, upsert_remote_entry,
  required_downloads,
}

abbrev pub max_scan_page_entries : ℕ
max_scan_page_entries = 1000

found_or : {A : Type 0} → Error → Option A → Result A Error
found_or error none = err error
found_or error (some a) = ok a

-- `changes.iter().find_map(..)`
find_upsert : Text → List RemoteChange → Option PageEntry
find_upsert file_id [] = none
find_upsert file_id (RemoteChange.removed _ ∷ changes) = find_upsert file_id changes
find_upsert file_id (RemoteChange.upsert entry ∷ changes) =
    if entry.file_id == file_id then some entry else find_upsert file_id changes

-- The download is not that of the entry.
is_other_download : TransferRecord → PageEntry → Bool
is_other_download transfer entry =
    not (is_file entry.kind)
    || transfer.portable_path != entry.path
    || transfer.remote_parent_id != entry.parent_id
    || transfer.expected_remote_revision != some entry.remote_revision
    || is_some_and entry.content_hash
        (λ (hash : RemoteContentHash). is_sha256 hash.algorithm && hash.hex != transfer.sha256)

-- The loop over the downloads: the files that they supply, after those of `seen`.
unfoldable pub supplied_downloads :
    List RemoteChange → List Text → List TransferRecord → Result (List Text) Error
unfolding found_or find_upsert is_other_download
supplied_downloads changes seen [] = ok seen
supplied_downloads changes seen (transfer ∷ downloads) = do
  file_id ← found_or Error.transfer_change_mismatch transfer.remote_file_id
  fail_if (any (λ id. id == file_id) seen) Error.transfer_change_mismatch
  entry ← found_or Error.transfer_change_mismatch (find_upsert file_id changes)
  fail_if (is_other_download transfer entry) Error.transfer_change_mismatch
  supplied_downloads changes (file_id ∷ seen) downloads

-- Two sets, as lists.
same_set : List Text → List Text → Bool
same_set xs ys = all (λ x. any (λ y. y == x) ys) xs && all (λ y. any (λ x. x == y) xs) ys

unfoldable pub register_in_over :
    TransferRecord → SyncStore → Option TransferRecord → Result SyncStore Error
register_in_over transfer s (some existing) = do
  fail_if (not (same_registration existing transfer) || existing.phase == TransferPhase.completed)
      Error.transfer_collision
  ok s
register_in_over transfer s none = do
  fail_if (any (λ r. r.operation_marker == transfer.operation_marker) s.transfers)
      Error.transfer_collision
  ok (record s { transfers = s.transfers ++ transfer ∷ [] })

-- `INSERT INTO change_batch_mutations`, whose key is the batch and the mutation
unfoldable pub declare_mutation : ℕ → Text → SyncStore → Result SyncStore Error
declare_mutation batch mutation s = do
  fail_if (any (λ m. m.batch_id == batch && m.mutation_id == mutation) s.change_batch_mutations)
      Error.database
  ok (record s {
    change_batch_mutations =
        s.change_batch_mutations
        ++ record { batch_id = batch; mutation_id = mutation; state = LocalMutationState.pending }
          ∷ [];
  })

abbrev pub is_ready : SyncPhase → Bool
is_ready SyncPhase.ready = true
is_ready _ = false

module _ (u : Unicode) where
  unfoldable pub validate_resolved_transfer_changes :
      List RemoteEntry → List RemoteChange → List TransferRecord → Result Unit Error
  unfolding required_downloads supplied_downloads same_set
  validate_resolved_transfer_changes rows changes downloads = do
    required ← required_downloads u rows [] changes
    supplied ← supplied_downloads changes [] downloads
    fail_if (not (same_set supplied required)) Error.transfer_change_mismatch

  unfoldable pub register_transfer_in_transaction :
      TransferRecord → SyncStore → Result SyncStore Error
  unfolding load_transfer register_in_over
  register_transfer_in_transaction transfer s =
      load_transfer u s.transfers transfer.operation_id >>= register_in_over transfer s

  unfoldable pub validate_changes : List RemoteChange → Result Unit Error
  unfolding validate_change
  validate_changes [] = ok tt
  validate_changes (change ∷ changes) = do validate_change u change; validate_changes changes

  unfoldable pub validate_downloads : List TransferRecord → Result Unit Error
  unfolding validate_new_transfer
  validate_downloads [] = ok tt
  validate_downloads (transfer ∷ downloads) = do
    validate_new_transfer u transfer
    fail_if
        (transfer.direction != TransferDirection.download
          || is_none transfer.expected_remote_revision)
        Error.transfer_change_mismatch
    validate_downloads downloads

  unfoldable pub upsert_all : List RemoteChange → List RemoteEntry → Result (List RemoteEntry) Error
  unfolding upsert_remote_entry
  upsert_all [] rows = ok rows
  upsert_all (RemoteChange.removed _ ∷ changes) rows = upsert_all changes rows
  upsert_all (RemoteChange.upsert entry ∷ changes) rows = do
    rows' ← upsert_remote_entry u rows entry
    upsert_all changes rows'

module _ (u : Unicode) (uuid_text : ℕ → Text) where
  unfoldable pub register_downloads : ℕ → List TransferRecord → SyncStore → Result SyncStore Error
  unfolding register_transfer_in_transaction declare_mutation
  register_downloads batch [] s = ok s
  register_downloads batch (transfer ∷ downloads) s = do
    s₁ ← register_transfer_in_transaction u transfer s
    s₂ ← declare_mutation batch (uuid_text transfer.operation_id) s₁
    register_downloads batch downloads s₂

  unfoldable pub begin_transfer_change_batch :
      ℕ → Text → Text → List RemoteChange → List TransferRecord → SyncStore → Result SyncStore Error
  unfolding validate_changes validate_downloads require_state load_change_batch
      validate_resolved_transfer_changes upsert_all register_downloads
  begin_transfer_change_batch batch_id expected_cursor next_cursor changes downloads s = do
    fail_if (batch_id == 0) Error.invalid_state_transition
    validate_remote_token expected_cursor
    validate_remote_token next_cursor
    fail_if (ltb max_scan_page_entries (length changes)) Error.invalid_remote_entry
    validate_changes u changes
    validate_downloads u downloads
    state ← require_state s
    fail_if (not (is_ready state.phase) || state.durable_cursor != some expected_cursor)
        Error.cursor_mismatch
    active ← load_change_batch s
    fail_if (is_some active) Error.batch_already_active
    validate_resolved_transfer_changes u s.remote_entries changes downloads
    entries ← upsert_all u changes s.remote_entries
    register_downloads batch_id downloads (record s {
      change_batch = some (record {
        batch_id = batch_id;
        expected_cursor = expected_cursor;
        next_cursor = next_cursor;
      });
      remote_entries = entries;
    })
