-- ===== src/Store/Tests.antt =====
-- Two registered transfers, an upload and an older download, claimed, completed and reported.
use my_vault.Base.{ℕ, ◌+◌, ◌≡◌, refl, subst, List, [], ◌∷◌, none, some, find, arith}
use my_vault.Base.Results.{ok}
use my_vault.Text.{
  Text, codes, starts_with, split, len, ends_with, is_control, join, bytes, is_ascii_alphanumeric,
  is_ascii_digit, is_ascii_lowercase, is_lower_hex_64, is_remote_id,
}
use my_vault.Path.{is_portable_component}
use my_vault.Text.Unicode.{Unicode}
use my_vault.Transfer.Intent.{
  Error, TransferIntent, VerifiedTransfer, ExecutionFailure, ExecutionFailureKind,
}
use my_vault.Transfer.Worker.{
  Execution, publish, finish, Worker, WorkOutcome, run_once_with_completion_clock,
}
use my_vault.Store.Table.{Extends}
use my_vault.Store.Transfers.Record.{
  TransferDirection, TransferMimeClass, TransferPhase, TransferRecord, TransferCompletion,
}
use my_vault.Store.Transfers.Pages.{PageEntry, RemoteChange}
use my_vault.Store.Transfers.Batches.{begin_transfer_change_batch}
use my_vault.Store.Transfers.Queue.{
  RemoteEntryKind, LocalMutationState, SyncPhase, SyncStore, claim_next_transfer,
}
use my_vault.Store.Transfers.Steps.{RowStep, RowPath}
use my_vault.Store.Transfers.Change.{has_id}
use my_vault.Store.Transfers.Operations.{Op, apply, run}
use my_vault.Store.Transfers.Lifecycle.{IsPending, apply_follows, transfer_persists}
use my_vault.Store.Transfers.Invariant.{IsValid, run-IsValid}
use my_vault.Store.Transfers.Oldest.{ClaimedFrom, claim_takes_oldest}
use my_vault.Store.Transfers.Moves.{transfer_summary, transfer_count, recover_interrupted_transfers}
use my_vault.Store.Transfers.Recovery.{
  IsReopened, IsAdded, interrupted_summary, transfer_summary-recover_interrupted_transfers,
  transfer_count-transfer_summary,
}
use my_vault.Store.Adapter.{sync_store}
use my_vault.Store.Adapter.Reports.{Recorded}
use my_vault.Store.Adapter.Outcomes.{run_once-Recorded}

abbrev unicode : Unicode
unicode = record { nfkc = λ s. s; case_fold = λ s. s; to_uppercase = λ s. s }

abbrev uuid_text : ℕ → Text
uuid_text n = (b'a' + n) ∷ []

abbrev hex : Text
hex = codes "aaaaaaaaaaaaaaaaaaaaaaaaaaaaaaaaaaaaaaaaaaaaaaaaaaaaaaaaaaaaaaaa"

abbrev upload : TransferRecord
upload = record {
  operation_id = 7;
  direction = TransferDirection.upload;
  portable_path = codes "notes/a.md";
  remote_parent_id = codes "folder-1";
  remote_file_id = none;
  display_name = codes "a.md";
  expected_local_revision = some hex;
  expected_remote_revision = none;
  sha256 = hex;
  byte_length = 12;
  mime_class = TransferMimeClass.markdown;
  operation_marker = codes "marker-7";
  stage_reference = some (codes "stage-7");
  base_reference = none;
  phase = TransferPhase.pending;
  attempt_count = 0;
  next_attempt_at_unix_ms = 50;
  created_at_unix_ms = 50;
  updated_at_unix_ms = 50;
  last_error_code = none;
  verified_local_revision = none;
  verified_remote_revision = none;
}

abbrev download : TransferRecord
download = record upload {
  operation_id = 3;
  direction = TransferDirection.download;
  remote_file_id = some (codes "file-3");
  operation_marker = codes "marker-3";
  stage_reference = none;
  next_attempt_at_unix_ms = 40;
  created_at_unix_ms = 40;
  updated_at_unix_ms = 40;
}

abbrev completion : TransferCompletion
completion = record {
  remote_file_id = codes "file-3";
  remote_revision = codes "rev-3";
  local_revision = hex;
  base_reference = codes "base-3";
  outcome_code = codes "downloaded";
  occurred_at_unix_ms = 120;
}

abbrev empty : SyncStore
empty = record {
  vault_state = ok (some (record { phase = SyncPhase.ready; durable_cursor = some (codes "c1") }));
  transfers = [];
  transfer_history = [];
  change_batch = none;
  change_batch_mutations = [];
  remote_entries = [];
}

abbrev calls : List Op
calls = Op.claim 100 ∷ Op.complete 3 completion ∷ Op.claim 130 ∷ Op.reopen ∷ Op.requeue 7 140 ∷ []

abbrev queued : SyncStore
queued = record empty { transfers = upload ∷ download ∷ [] }

empty-IsValid : IsValid empty
empty-IsValid = record {
  ids = λ id. omega arith;
  markers = λ marker. omega arith;
  history = λ id at. refl;
  evidence = refl;
}

abbrev session : List Op
session = Op.register upload ∷ Op.register download ∷ calls

-- A page with one new file, whose download it registers.
abbrev page_entry : PageEntry
page_entry = record {
  file_id = codes "file-3";
  parent_id = codes "folder-1";
  path = codes "notes/a.md";
  kind = RemoteEntryKind.file;
  content_hash = none;
  remote_revision = codes "rev-3";
}

abbrev page_download : TransferRecord
page_download = record download { expected_remote_revision = some (codes "rev-3") }

page_registers :
    begin_transfer_change_batch unicode uuid_text 9
      (codes "c1")
      (codes "c2")
      (RemoteChange.upsert page_entry ∷ [])
      (page_download ∷ [])
      empty
    ≡ ok (record empty {
      transfers = page_download ∷ [];
      change_batch =
          some (record { batch_id = 9; expected_cursor = codes "c1"; next_cursor = codes "c2" });
      change_batch_mutations =
          record { batch_id = 9; mutation_id = uuid_text 3; state = LocalMutationState.pending }
          ∷ [];
      remote_entries =
          record {
            file_id = codes "file-3";
            parent_id = codes "folder-1";
            portable_path = codes "notes/a.md";
            kind = RemoteEntryKind.file;
            content_hash_algorithm = none;
            content_hash = none;
            remote_revision = codes "rev-3";
            base_local_revision = none;
            base_remote_revision = none;
            base_content_hash = none;
            base_byte_length = none;
          }
          ∷ [];
    })
unfolding begin_transfer_change_batch my_vault.Store.Validators.validate_remote_token len
    my_vault.Text.is_ascii_control my_vault.Store.Validators.validate_remote_id
    my_vault.Store.Validators.validate_content_path my_vault.Path.from_portable starts_with split
    ends_with is_control join my_vault.Path.classify my_vault.Path.collision_key
    my_vault.Store.Transfers.Queue.required my_vault.Store.Transfers.Record.lacks_evidence
    my_vault.Store.Transfers.Record.row_to_transfer
    my_vault.Store.Transfers.Record.same_registration my_vault.Store.Transfers.Record.validate
    my_vault.Store.Transfers.Record.validate_new_transfer my_vault.Store.Validators.u64_to_i64
    my_vault.Store.Validators.validate_private_reference
    my_vault.Store.Validators.validate_redacted_code bytes my_vault.Text.cons_head
    is_ascii_alphanumeric is_ascii_digit is_ascii_lowercase my_vault.Text.is_ascii_uppercase
    is_remote_id is_lower_hex_64 is_portable_component my_vault.Store.Transfers.Record.file_name
    my_vault.Store.Validators.check_some my_vault.Store.Validators.validate_revision
page_registers = refl

run-IsValid_example : IsValid (run unicode uuid_text session empty)
run-IsValid_example = run-IsValid unicode uuid_text session empty empty-IsValid

session_registers :
    (run unicode uuid_text (Op.register upload ∷ Op.register download ∷ []) empty) ≡ queued
unfolding run starts_with split len ends_with is_control join bytes is_ascii_alphanumeric
    is_lower_hex_64 is_remote_id is_portable_component
    my_vault.Store.Transfers.Record.validate_new_transfer
    my_vault.Store.Validators.validate_content_path my_vault.Path.from_portable
    my_vault.Path.classify my_vault.Path.collision_key my_vault.Store.Transfers.Record.file_name
    my_vault.Store.Validators.validate_remote_id my_vault.Store.Validators.check_some
    my_vault.Store.Validators.validate_revision my_vault.Store.Validators.u64_to_i64
    my_vault.Store.Validators.validate_private_reference
session_registers = refl

abbrev claimed_download : TransferRecord
claimed_download = record download { phase = TransferPhase.running; updated_at_unix_ms = 100 }

abbrev claimed : SyncStore
claimed = record empty { transfers = upload ∷ claimed_download ∷ [] }

apply_follows_example : Extends RowStep IsPending queued.transfers claimed.transfers
unfolding apply starts_with split len ends_with is_control join bytes is_ascii_alphanumeric
    is_lower_hex_64 is_remote_id is_portable_component
    my_vault.Store.Transfers.Record.validate_new_transfer
    my_vault.Store.Validators.validate_content_path my_vault.Path.from_portable
    my_vault.Path.classify my_vault.Path.collision_key my_vault.Store.Transfers.Record.file_name
    my_vault.Store.Validators.validate_remote_id my_vault.Store.Validators.check_some
    my_vault.Store.Validators.validate_revision my_vault.Store.Validators.u64_to_i64
    my_vault.Store.Validators.validate_private_reference
    my_vault.Store.Transfers.Record.row_to_transfer
apply_follows_example = apply_follows unicode uuid_text (Op.claim 100) queued refl

claim_takes_oldest_example : ClaimedFrom 100 queued (some claimed_download) claimed
unfolding claim_next_transfer starts_with split len ends_with is_control join bytes
    is_ascii_alphanumeric is_lower_hex_64 is_remote_id is_portable_component
    my_vault.Store.Transfers.Record.validate_new_transfer
    my_vault.Store.Validators.validate_content_path my_vault.Path.from_portable
    my_vault.Path.classify my_vault.Path.collision_key my_vault.Store.Transfers.Record.file_name
    my_vault.Store.Validators.validate_remote_id my_vault.Store.Validators.check_some
    my_vault.Store.Validators.validate_revision my_vault.Store.Validators.u64_to_i64
    my_vault.Store.Validators.validate_private_reference
    my_vault.Store.Transfers.Record.row_to_transfer
claim_takes_oldest_example =
    claim_takes_oldest unicode 100 queued (some claimed_download) claimed refl

abbrev completed_download : TransferRecord
completed_download = record download {
  base_reference = some (codes "base-3");
  phase = TransferPhase.completed;
  next_attempt_at_unix_ms = 120;
  updated_at_unix_ms = 120;
  verified_local_revision = some hex;
  verified_remote_revision = some (codes "rev-3");
}

abbrev finished : SyncStore
finished = record empty {
  transfers = upload ∷ completed_download ∷ [];
  transfer_history =
      record { operation_id = 3; outcome_code = codes "downloaded"; occurred_at_unix_ms = 120 }
      ∷ [];
}

download_completes :
    run unicode uuid_text (Op.claim 100 ∷ Op.complete 3 completion ∷ Op.reopen ∷ []) queued
    ≡ finished
unfolding run starts_with split len ends_with is_control join bytes is_ascii_alphanumeric
    is_lower_hex_64 is_remote_id is_portable_component
    my_vault.Store.Transfers.Record.validate_new_transfer
    my_vault.Store.Validators.validate_content_path my_vault.Path.from_portable
    my_vault.Path.classify my_vault.Path.collision_key my_vault.Store.Transfers.Record.file_name
    my_vault.Store.Validators.validate_remote_id my_vault.Store.Validators.check_some
    my_vault.Store.Validators.validate_revision my_vault.Store.Validators.u64_to_i64
    my_vault.Store.Validators.validate_private_reference
    my_vault.Store.Validators.validate_redacted_code my_vault.Store.Transfers.Record.row_to_transfer
    my_vault.Store.Transfers.Queue.found_transfer
download_completes = refl

transfer_persists_example :
    (r : TransferRecord) × (find (has_id 3) (run unicode uuid_text calls finished).transfers
      ≡ some r)
    × RowPath completed_download r
transfer_persists_example =
    transfer_persists unicode uuid_text calls finished 3 completed_download refl

abbrev evidence : VerifiedTransfer
evidence = record {
  operation_id = 3;
  remote_file_id = codes "file-3";
  remote_revision = codes "rev-3";
  local_revision = some hex;
  sha256_hex = hex;
  byte_len = 12;
  base_ref = codes "base-3";
  outcome_code = codes "downloaded";
}

-- An executor that publishes once and proves the download.
abbrev execute : ℕ → TransferIntent → Execution ℕ
execute n i = publish (λ r. finish (ok evidence) (n + 1))

abbrev worker : SyncStore → ℕ → Worker SyncStore ℕ
worker s n = record { store = s; executor = n; auth_refresh_required = none }

empty_tables_hold : IsValid queued
empty_tables_hold = subst IsValid session_registers (
    run-IsValid unicode uuid_text (Op.register upload ∷ Op.register download ∷ []) empty
      empty-IsValid)

run_once-Recorded_example : Recorded (WorkOutcome.completed 3) finished
unfolding run_once_with_completion_clock starts_with split len ends_with is_control join bytes
    is_ascii_alphanumeric is_lower_hex_64 is_remote_id is_portable_component
    my_vault.Store.Transfers.Record.validate_new_transfer
    my_vault.Store.Validators.validate_content_path my_vault.Path.from_portable
    my_vault.Path.classify my_vault.Path.collision_key my_vault.Store.Transfers.Record.file_name
    my_vault.Store.Validators.validate_remote_id my_vault.Store.Validators.check_some
    my_vault.Store.Validators.validate_revision my_vault.Store.Validators.u64_to_i64
    my_vault.Store.Validators.validate_private_reference
    my_vault.Store.Validators.validate_redacted_code my_vault.Transfer.Intent.validate
    my_vault.Transfer.Intent.validate_portable_path my_vault.Transfer.Intent.validate_opaque
    my_vault.Transfer.Intent.validate_optional my_vault.Transfer.Intent.validate_sha256
    my_vault.Transfer.Intent.has_protected_head my_vault.Transfer.Intent.is_traversal_part
    my_vault.Transfer.Intent.is_hex_byte my_vault.Transfer.Intent.eq_ignore_ascii_case
    is_ascii_digit is_ascii_lowercase sync_store my_vault.Store.Transfers.Record.row_to_transfer
    my_vault.Store.Transfers.Queue.found_transfer
run_once-Recorded_example =
    run_once-Recorded unicode uuid_text execute 100 120 (worker queued 0) (WorkOutcome.completed 3)
      (worker finished 1) empty_tables_hold refl

transfer_summary-recover_interrupted_transfers_example :
    Extends IsReopened IsAdded claimed.transfers (recover_interrupted_transfers claimed).transfers
    × (transfer_summary (recover_interrupted_transfers claimed)
        ≡ interrupted_summary (transfer_summary claimed))
transfer_summary-recover_interrupted_transfers_example =
    transfer_summary-recover_interrupted_transfers claimed

transfer_count-transfer_summary_example :
    (transfer_count claimed
      ≡ (transfer_summary claimed).pending
        + (transfer_summary claimed).running
        + (transfer_summary claimed).retry_scheduled
        + (transfer_summary claimed).auth_required
        + (transfer_summary claimed).needs_reconcile)
    × (transfer_count (recover_interrupted_transfers claimed) ≡ transfer_count claimed)
transfer_count-transfer_summary_example = transfer_count-transfer_summary claimed
