-- ===== src/Lib.antt =====
-- A model of the core of myVault, a local-first Markdown vault that synchronises with a remote
-- folder: how content is transferred under guard, how conflicts between a vault and its remote are
-- classified and merged, how conflict copies are named, and which paths are portable; with the
-- theorems that make these parts correct.
--
-- How the parts work together. A worker (crates/myvault-transfer) claims transfer intents from a
-- store, hands each to an executor and settles it in the store. The durable store (the SyncStore of
-- crates/myvault-sync-engine) keeps the queue of transfers and the guarded mutations of the vault,
-- with their histories, in tables of SQLite. Where local and remote content have
-- both moved, the synchronisation engine (crates/myvault-sync-engine) collects facts, seals proofs
-- about them (a Markdown merge, a deletion, a same rename or move), and the classifier turns facts,
-- boundary and prior outcome into a plan: its outcome, its drafts, what must be retained, and the
-- gate of the synchronisation cursor. Both read paths as crates/myvault-core validates them.
--
-- Which file models what:
--   Base             helpers: tests on numbers, equality, lists, and Rust's Result with `?`
--   Text             str as code points with their UTF-8 bytes; split, join, the byte tests
--   Text/Plain       ASCII text
--   Text/Unicode     the Unicode tables: a parameter
--   Text/Digest      SHA-256 as hexadecimal text and the text of a Uuid: a parameter
--   Path             crates/myvault-core/src/path.rs: VaultPath::from_portable, its limits, reserved
--                    names, collision_key, classify. Path/Canonical: its proofs
--   Transfer/Intent  crates/myvault-transfer/src/lib.rs: TransferIntent, VerifiedTransfer,
--                    ExecutionFailure, with the validation of their constructors
--   Transfer/Backoff the same file: retry_delay_ms, checked_add_ms
--   Transfer/Worker  the same file: Worker::run_once_with_completion_clock, handle_failure, over any
--                    TransferStore (a record of state-passing operations) and any executor (a tree
--                    of its calls of before_local_publish). Worker/Trace records a store's calls,
--                    Worker/Good and Worker/Rounds state what a round does
--   Mutation         crates/myvault-sync-engine/src/store.rs: MutationIntent, MutationState,
--                    MutationVerificationEvidence; Mutation/Fingerprint: canonical_fingerprint
--   Store            crates/myvault-sync-engine/src/store.rs. Validators: those of src/lib.rs beside it.
--                    Table: tables as lists of rows, UPDATE .. WHERE as update and count.
--   Store/Transfers  Record: TransferRecord, TransferCompletion. Queue: register_transfer,
--                    claim_next_transfer. Moves: retries, pauses, stops, reconciliation, counts,
--                    recovery. Completion and Verified: begin_transfer_local_publish,
--                    complete_verified_transfer. Pages and Batches:
--                    begin_transfer_change_batch. Operations: all of them as one step, and runs.
--                    Steps, Quiet, Change, Changes, Claims, Untouched, Commits, BatchChanges: what
--                    each does to the tables. Lifecycle, Invariant, Oldest, Recovery: the theorems
--   Store/Adapter    crates/myvault-transfer/src/lib.rs: TransferStore for SyncStore. Phases, Reports,
--                    Endings, Outcomes: the worker on this store
--   Store/Mutations  Evidence: the validation of intents and evidence. Machine:
--                    register_mutation_intent. Transitions: claim_mutation, record_mutation_outcome.
--                    Steps, Writes, Operations: what each writes. Spent: claimed
--                    mutations. Log, Races, Once: the theorems
--   Conflict         crates/myvault-sync-engine/src/conflict/classifier.rs and identity.rs. Cells and
--                    Facts: the types. Classify: classify_conflict. Validate and Input: the checks of
--                    ConflictInput::new. Evidence: the sealing verify_* methods. Replay: ReplayProof.
--                    Paths: normalized_collision_key. Naming: resolve_conflict_copy_name. Identity:
--                    derive_conflict_id, derive_operation_id, operation_marker; Framing: their fields.
--                    Seals: what the sealing methods show. Accepted, Gates, Safety, Published, Sealed,
--                    Concluded, Named, Identified: the proofs
--   Markdown         crates/myvault-sync-engine/src/conflict/markdown.rs. Parse: parse_markdown and
--                    render. Edits: edit scripts and combine_edits. Merge: merge_markdown_three_way.
--                    RoundTrip, Render, Version, Unchanged, Sorted, Union, Combined, Merged:
--                    proofs
-- The files named Tests run the definitions on concrete inputs.
--
-- Conventions. A String is the list of its code points; its length is that of its UTF-8 bytes. A Uuid
-- is its 128-bit value, the nil one 0. u64, u32 and usize values are natural numbers; where the code
-- saturates, checks an overflow or compares with a bound, the bound is written out. Every loop is a
-- structural recursion, so there is no fuel. A function that fails returns its error as a value.
-- The private fields of ClassificationEvidence are set by the constructor and the sealing methods
-- alone, which is what the predicate Sealed of Conflict/Sealed states.
--
-- A table of the store is the list of its rows, in the order they were put in. A method of the store
-- is a function from the tables to its result and the next tables; an error drops the transaction, so
-- it leaves the tables as they were. PRIMARY KEY and UNIQUE are checked where rows go in; the other
-- CHECK clauses hold of every row that the modelled methods write. The texts of Uuid columns are
-- compared as values: they have one length and lowercase digits, so the order is the same.
--
-- Parameters, which stand for code outside the repository or behind a trait: the Unicode tables, the
-- digest, UUID v5, the diff of the similar crate (its ranges are taken to lie within its inputs), the
-- transfer store and the executor. The theorems hold for every choice of them; where one asks something of the
-- diff or of the store, it is a hypothesis of the theorem.
--
-- Not modelled: SQLite itself, the other tables of the store (the old queue of jobs, the change
-- batches and the remote entries but for what transfers need of them, the conflict evidence) and
-- the recovery of running mutations when the store is opened; the initial and incremental
-- synchronisation, materialization, evidence codes, retention, snapshots and recovery, the file-system
-- and access-control layers, the Drive client, the authentication, and the application with its
-- plugins. They are effects on files, processes, network
-- or databases, or code that the modelled parts only call.
mod Base
pub mod Text
pub mod Transfer
pub mod Path
pub mod Store
pub mod Mutation
pub mod Conflict
pub mod Markdown
