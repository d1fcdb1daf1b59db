-- ===== src/Transfer/Worker/Tests.antt =====
-- One upload through a store that holds the queue of due intents and the number of calls it has
-- taken, with an executor that publishes once and then finishes as it is told to.
use my_vault.Base.{ℕ, ◌+◌, ◌*◌, ◌≤◌, ◌<◌, max, ◌≡◌, refl, All, List, [], ◌∷◌, Option, none, some}
use my_vault.Base.Results.{Result, ok, err}
use my_vault.Text.{Text, codes}
use my_vault.Transfer.Intent.{
  Error, TransferDirection, ContentKind, TransferIntent, VerifiedTransfer, ExecutionFailureKind,
  ExecutionFailure,
}
use my_vault.Transfer.Backoff.{base_backoff_ms, retry_delay_ms, exponential_ms, retry_delay_bounds}
use my_vault.Transfer.Worker.{
  TransferStore, Execution, publish, finish, Worker, run_once_with_completion_clock,
}
use my_vault.Transfer.Worker.Trace.{IsSafe, traced}
use my_vault.Transfer.Worker.Rounds.{recording, rounds, run_once_calls-IsSafe, auth_required_holds}

abbrev hex : Text
hex = codes "aaaaaaaaaaaaaaaaaaaaaaaaaaaaaaaaaaaaaaaaaaaaaaaaaaaaaaaaaaaaaaaa"

abbrev intent : TransferIntent
intent = record {
  operation_id = 7;
  direction = TransferDirection.upload;
  path = codes "notes/a.md";
  parent_id = codes "folder-1";
  remote_file_id = none;
  expected_local_revision = some (codes "local-1");
  expected_remote_revision = none;
  sha256_hex = hex;
  byte_len = 12;
  content_kind = ContentKind.markdown;
  operation_marker = codes "marker-7";
  stage_ref = some (codes "stage-7");
  base_ref = none;
  attempt_count = 2;
}

abbrev evidence : VerifiedTransfer
evidence = record {
  operation_id = 7;
  remote_file_id = codes "file-1";
  remote_revision = codes "rev-1";
  local_revision = some (codes "local-1");
  sha256_hex = hex;
  byte_len = 12;
  base_ref = codes "base-7";
  outcome_code = codes "uploaded";
}

abbrev State : Type 0
State = List TransferIntent × ℕ

abbrev accept : State → Result Unit Error × State
accept s = (ok tt, (s.0, s.1 + 1))

abbrev claim_first : State → Result (Option TransferIntent) Error × State
claim_first ([], n) = (ok none, ([], n))
claim_first (i ∷ is, n) = (ok (some i), (is, n + 1))

abbrev store : TransferStore State
store = record {
  claim_due = λ now s. claim_first s;
  begin_local_publish = λ id now s. accept s;
  complete_verified = λ v now s. accept s;
  schedule_retry = λ id next code s. accept s;
  pause_offline = λ id next code s. accept s;
  mark_auth_required = λ id code now s. accept s;
  mark_needs_reconcile = λ id code now s. accept s;
}

-- The executor's state is its next outcome.
abbrev execute :
    Result VerifiedTransfer ExecutionFailure
    → TransferIntent
    → Execution (Result VerifiedTransfer ExecutionFailure)
execute r i = publish (λ _. finish r r)

abbrev due : State
due = (intent ∷ [], 0)

abbrev expired : Result VerifiedTransfer ExecutionFailure
expired = err (record {
  kind = ExecutionFailureKind.auth_required;
  code = codes "token_expired";
  retry_after = none;
})

retry_delay_bounds_example :
    (exponential_ms 3 ≤ retry_delay_ms 7 3)
    × (4 * retry_delay_ms 7 3 < 5 * exponential_ms 3)
    × (base_backoff_ms ≤ retry_delay_ms 7 3)
    × (retry_delay_ms 7 3 < 640000)
retry_delay_bounds_example = retry_delay_bounds 7 3

run_once_calls-IsSafe_example :
    All
      (IsSafe intent 5000 (max 5100 5000))
      (run_once_with_completion_clock
        (traced store)
        execute
        5000
        5100
        (recording store execute (ok evidence) due)).1.store.0
run_once_calls-IsSafe_example =
    run_once_calls-IsSafe store execute 5000 5100 (ok evidence) due intent refl

abbrev worker : Worker State (Result VerifiedTransfer ExecutionFailure)
worker = record { store = due; executor = expired; auth_refresh_required = none }

auth_required_holds_example :
    let w' = (run_once_with_completion_clock store execute 5000 5100 worker).1 in
    (w'.auth_refresh_required ≡ some 7)
    × (rounds store execute ((6000, 6000) ∷ (7000, 7100) ∷ []) w' ≡ w')
unfolding run_once_with_completion_clock
auth_required_holds_example =
    auth_required_holds store execute 5000 5100 worker 7 ((6000, 6000) ∷ (7000, 7100) ∷ []) refl
