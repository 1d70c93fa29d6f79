-- ===== src/Lib.antt =====
-- Textify turns a video URL into a transcript. Its HTTP interface admits Transcription Jobs into a
-- PostgreSQL store; a reconciler publishes Job Dispatches of the queued jobs to a message broker and
-- recovers lost work; worker processes claim the dispatches, keep their claims alive by heartbeats
-- and publish one terminal outcome of each job; clients poll and cancel jobs by a public identifier.
-- All of them meet in the job store, and the promises of the system (each job ends once, at most one
-- worker owns it, cancellation wins, capacity is bounded) are promises of its transactions.
--
-- Files and what they model (paths from the repository's root):
--   Errors                    src/textify/errors.py: PublicErrorCode, ErrorDetail
--   Texts                     Python's str as a list of code points; the Unicode tables are a parameter
--   Identifiers               src/textify/identifiers.py: parse_canonical_uuid4, and what it uses of uuid
--   Transcription/Fields      src/textify/transcription/types.py and schemas.py: field paths and the
--                             response records with the tests of their pydantic adapter
--   Transcription/Response    src/textify/transcription/types.py and schemas.py: the domain result and
--                             build_transcription_response
--   Transcription/Faults      how the functions of src/textify/transcription fail: a public code, or a
--                             ValueError or TypeError
--   Transcription/Normalizing src/textify/transcription/types.py: normalize_transcript and the
--                             validations of Segment, Transcript and TimedTranscript
--   Transcription/Inspection/*
--                             src/textify/transcription/inspection.py: Hosts (the host tables), Urls
--                             (_parse_url and its tests), Identities (the video identifier of each
--                             platform), Classifying (classify_submitted_url), Metadata
--                             (normalize_processed_metadata; Objects, its Python values; Formats,
--                             _validate_social_formats), Metadata/Canonical
--                             (_canonical_social_url), Timeouts (_is_timeout_exception)
--   Transcription/Retries     src/textify/transcription/util.py: extract_info_with_retries and the
--                             progress hook
--   Transcription/Captions    src/textify/transcription/acquisition.py: acquire_transcript and the
--                             ranking of the caption tracks
--   Transcription/Ownership   the class TranscriptionOwnership of acquisition.py
--   Jobs/Types                src/textify/jobs/types.py, and the exceptions of jobs/contracts.py as Error
--   Jobs/Schema               the tables of src/textify/jobs/repository.py; a job row carries its child
--                             rows (attempt, idempotency key, exclusions, result, segments), so a join
--                             on job_id is a field; schema_check is the conjunction of all constraints
--   Jobs/Tx                   what the methods use of SQLAlchemy and PostgreSQL: UPDATE with its row
--                             count, RETURNING, SELECT, ORDER BY, DELETE, and transactions
--   Jobs/Rows                 the module functions of repository.py between rows and snapshots
--   Jobs/Repository/*         the methods of PostgresTranscriptionJobRepository: Admission
--                             (create_queued), Dispatching (expire_queued_jobs, lease_due_dispatches,
--                             record_dispatch_published, release_dispatch_leases), Claiming
--                             (claim_dispatch, heartbeat_claims), Recovery (recover_expired_claims,
--                             delete_expired_terminal_jobs), Cancelling (request_cancellation),
--                             Publishing (publish_cancelled, publish_success, publish_failure),
--                             Reading (get_job); Policy holds __init__ and the shared SQL guards
--   Jobs/Repository/Steps     one call of any method by any process, and the stores calls lead to
--   Jobs/Repository/Admittance, Expiry, Grants, Heartbeats, Leases, Successes, Published, Refusals
--                             what claim_dispatch, expire_queued_jobs, heartbeat_claims,
--                             lease_due_dispatches and the publications answer, on success and on refusal
--   Jobs/Rows/RoundTrip, Projection, Exclusions
--                             the storage of a response as columns and rows, and its reading back
--   Jobs/Payloads             JobDispatch.to_payload and from_payload of src/textify/jobs/types.py
--   Jobs/Claims               src/textify/jobs/claim_manager.py: ExecutionClaimManager; Steps interleaves
--                             what runs between two awaits of its coroutines
--   Jobs/Service              src/textify/jobs/service.py: TranscriptionJobService over the repository,
--                             the URL classification and the capability parser; Steps interleaves the
--                             locked part of each call and the latch that a failure of the store sets
--   Jobs/Reconciler           src/textify/jobs/reconciler.py: reconcile_once and cleanup_once over the
--                             repository
--   Jobs/Repository/Lifecycle the abstract state machine of a job row, and the proof that every
--                             method refines it; History: what holds over every sequence of calls
--
-- State and time. A method is a function of its arguments, its clock reading and the store, to its
-- result or exception and the store after it. A datetime is a number of microseconds, a timedelta
-- likewise, a UUID is its 128-bit number, and a time within a transcript is a number of a fixed unit.
-- The clock and uuid4() are not under the program's control: their values are arguments, and the
-- calls of a history may read the clock in any order. Whether the database answers, whether the
-- broker accepts a dispatch, and what a provider returns or raises are arguments as well.
--
-- Parameters. The Unicode tables, the functions of urllib.parse beside urlsplit, langcodes and the
-- primary language of a tag are given as functions; the theorems name the laws they need, and the
-- tests fill them with the tables of ASCII.
--
-- Fuel. The search for a typed timeout has four rounds for each exception of the heap and one more,
-- which suffice. The loops of the reconciler that end lost and overdue jobs need one round more than
-- there are unfinished jobs. Its publication loop has no such bound, since a clock that jumps makes
-- published dispatches due again. The retries are
-- the ten rounds of the source. Nothing else needs fuel.
--
-- What the model simplifies. A transaction runs alone (the advisory lock serialises the lifecycle methods;
-- row locks and SKIP LOCKED of the others are not modelled). A constraint is tested at commit, which
-- gives the same answer as a test at the statement, because a broken constraint always ends in
-- store_unavailable and a rollback. A sequence value drawn by a failed insert is drawn again. An outage
-- of the database is the call outage of Steps. Enumerations are typed, so the branches for an
-- unknown status, outcome, platform or field path in a row have no counterpart, nor have the
-- isinstance tests. The cutoff now - retention is written as finished_at + retention <= now.
--
-- The reconciler runs alone during a pass, and other processes between two passes. Logging, tasks and
-- their cancellation, and the isinstance tests of arguments are left out.
--
-- Not modelled: the worker process and the processor, the readiness heartbeats, the loop of
-- TranscriptionJobReconciler.run around its passes, the HTTP interface, which is framework glue over
-- the service, the process setup, and of the media pipeline what works on files, subprocesses and
-- third-party downloads: the media probe and its size tests, the adapters of the caption library, of
-- yt-dlp and of the speech model, and the acquirer around the model.
pub mod Prelude
pub mod Errors
pub mod Texts
pub mod Identifiers
pub mod Transcription
pub mod Jobs
