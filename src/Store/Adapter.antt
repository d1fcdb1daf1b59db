-- ===== src/Store/Adapter.antt =====
-- `impl TransferStore for SyncStore` (crates/myvault-transfer/src/lib.rs): the store of
-- crates/myvault-sync-engine/src/store.rs as the worker uses it.
pub mod Phases
pub mod Reports
pub mod Endings
pub mod Outcomes
use my_vault.Base.{
  nat_eq, list_eq, ℕ, Bool, true, false, not, ◌&&◌, List, [], ◌∷◌, Option, none, some, ◌==◌, any,
  if◌then◌else◌,
}
use my_vault.Base.Results.{Result, ok, err, ◌>>◌, ◌>>=◌}
use my_vault.Text.{Text}
use my_vault.Text.Unicode.{Unicode}
use my_vault.Transfer.Intent.{Error, TransferIntent, ContentKind, VerifiedTransfer, new_intent}
use my_vault.Transfer.Intent as Intent
use my_vault.Transfer.Worker.{TransferStore}
use my_vault.Store.Validators.{validate_redacted_code}
use my_vault.Store.Validators as Validators
use my_vault.Store.Transfers.Record.{
  TransferMimeClass, TransferDirection, TransferRecord, TransferCompletion, new_completion,
}
use my_vault.Store.Transfers.Queue.{SyncStore, ChangeBatch, LocalMutation, claim_next_transfer}
use my_vault.Store.Transfers.Moves.{
  schedule_transfer_retry, pause_transfer_offline, mark_transfer_auth_required,
  mark_transfer_needs_reconcile,
}
use my_vault.Store.Transfers.Completion.{TransferCompletionOutcome, load_change_batch}
use my_vault.Store.Transfers.Verified.{begin_transfer_local_publish, complete_verified_transfer}

-- `.map_err(|_| Error::Store)`: the store is as before the refused call.
abbrev pub stored : Result SyncStore Validators.Error → SyncStore → Result Unit Error × SyncStore
stored (ok s') s = (ok tt, s')
stored (err _) s = (err Error.store, s)

abbrev pub intent_direction : TransferDirection → Intent.TransferDirection
intent_direction TransferDirection.upload = Intent.TransferDirection.upload
intent_direction TransferDirection.download = Intent.TransferDirection.download

abbrev pub content_kind : TransferMimeClass → ContentKind
content_kind TransferMimeClass.markdown = ContentKind.markdown
content_kind TransferMimeClass.blob = ContentKind.blob

unfoldable pub intent_of : TransferRecord → TransferIntent
intent_of r = record {
  operation_id = r.operation_id;
  direction = intent_direction r.direction;
  path = r.portable_path;
  parent_id = r.remote_parent_id;
  remote_file_id = r.remote_file_id;
  expected_local_revision = r.expected_local_revision;
  expected_remote_revision = r.expected_remote_revision;
  sha256_hex = r.sha256;
  byte_len = r.byte_length;
  content_kind = content_kind r.mime_class;
  operation_marker = r.operation_marker;
  stage_ref = r.stage_reference;
  base_ref = r.base_reference;
  attempt_count = r.attempt_count;
}

-- The claimed row as an intent; its validation may fail after the claim is committed.
unfoldable pub claimed_intent :
    SyncStore
    → Result (Option TransferRecord × SyncStore) Validators.Error
    → Result (Option TransferIntent) Error × SyncStore
unfolding intent_of new_intent
claimed_intent s (err _) = (err Error.store, s)
claimed_intent s (ok (none, s')) = (ok none, s')
claimed_intent s (ok (some r, s')) = (new_intent (intent_of r) >>= λ i. ok (some i), s')

-- `load_local_mutations`
unfoldable pub checked_mutations :
    ℕ → List LocalMutation → Result (List LocalMutation) Validators.Error
checked_mutations batch [] = ok []
checked_mutations batch (m ∷ ms) =
    let rest = checked_mutations batch ms in
    if m.batch_id == batch
    then validate_redacted_code m.mutation_id >> (rest >>= λ r. ok (m ∷ r))
    else rest

-- `completion`, built from evidence that has a local revision
unfoldable pub completion_of : VerifiedTransfer → Text → ℕ → TransferCompletion
completion_of v local now = record {
  remote_file_id = v.remote_file_id;
  remote_revision = v.remote_revision;
  local_revision = local;
  base_reference = v.base_ref;
  outcome_code = v.outcome_code;
  occurred_at_unix_ms = now;
}

unfoldable pub complete_stored :
    SyncStore
    → Result (TransferCompletionOutcome × SyncStore) Validators.Error
    → Result Unit Error × SyncStore
complete_stored s (ok (_, s')) = (ok tt, s')
complete_stored s (err _) = (err Error.store, s)

module _ (u : Unicode) (uuid_text : ℕ → Text) where
  -- A mutation that the active batch does not declare is no concern of the store.
  unfoldable pub publish_declared :
      ℕ
      → ℕ
      → SyncStore
      → Result (List LocalMutation) Validators.Error
      → Result Unit Error × SyncStore
  unfolding begin_transfer_local_publish
  publish_declared id now s (err _) = (err Error.store, s)
  publish_declared id now s (ok ms) =
      if any (λ m. m.mutation_id == uuid_text id) ms
      then stored (begin_transfer_local_publish u uuid_text id now s) s
      else (ok tt, s)

  unfoldable pub publish_in :
      ℕ
      → ℕ
      → SyncStore
      → Result (Option ChangeBatch) Validators.Error
      → Result Unit Error × SyncStore
  unfolding publish_declared checked_mutations
  publish_in id now s (err _) = (err Error.store, s)
  publish_in id now s (ok none) = (ok tt, s)
  publish_in id now s (ok (some b)) =
      publish_declared id now s (checked_mutations b.batch_id s.change_batch_mutations)

  unfoldable pub complete_checked :
      ℕ → SyncStore → Result TransferCompletion Validators.Error → Result Unit Error × SyncStore
  unfolding complete_stored complete_verified_transfer
  complete_checked id s (ok c) = complete_stored s (complete_verified_transfer u uuid_text id c s)
  complete_checked id s (err _) = (err Error.invalid_evidence, s)

  unfoldable pub complete_evidence :
      VerifiedTransfer → ℕ → Option Text → SyncStore → Result Unit Error × SyncStore
  unfolding complete_checked new_completion completion_of
  complete_evidence v now none s = (err Error.invalid_evidence, s)
  complete_evidence v now (some local) s =
      complete_checked v.operation_id s (new_completion (completion_of v local now))

  unfoldable pub sync_store : TransferStore SyncStore
  unfolding claimed_intent claim_next_transfer publish_in load_change_batch complete_evidence
      schedule_transfer_retry pause_transfer_offline mark_transfer_auth_required
      mark_transfer_needs_reconcile
  sync_store = record {
    claim_due = λ now s. claimed_intent s (claim_next_transfer u now s);
    begin_local_publish = λ id now s. publish_in id now s (load_change_batch s);
    complete_verified = λ v now s. complete_evidence v now v.local_revision s;
    schedule_retry = λ id next code s. stored (schedule_transfer_retry u id next code next s) s;
    pause_offline = λ id next code s. stored (pause_transfer_offline u id next code next s) s;
    mark_auth_required = λ id code now s. stored (mark_transfer_auth_required u id code now s) s;
    mark_needs_reconcile =
        λ id code now s. stored (mark_transfer_needs_reconcile u id code now s) s;
  }
