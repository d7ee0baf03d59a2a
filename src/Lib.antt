-- ===== src/Lib.antt =====
-- The core of a data warehouse that ingests reports of the Fincloud service: sessions with the service,
-- the runs of ingestion jobs and their lifecycle, and the guards around the database and the login.
--
-- The parts and how they interact. A worker claims a queued run, keeps it alive with heartbeats while it
-- loads data through a session of the Fincloud service, and ends it. Recovery takes runs from workers that
-- gave no sign of life; a "Run All" parent releases its children one after another. The transactions run
-- under a retry loop.
--
-- The files:
-- - Fincloud/Auth and Fincloud/Lane: internal/fincloud/session_coordinator.go, `sessionLane`. A lane is the
--   record `Lane`; `acquire`, `cancel`, `release_once`, `invalidate` and `close` are its methods, each under the
--   lane's mutex, so that an execution is a list of calls (`Call`, `step`, `run`). The loop of
--   `grantLocked` has the length of the queue as fuel: every round that goes on answers a waiter.
-- - Fincloud/Coordinator: `SessionCoordinator` of the same file, a map from users to lanes.
-- - Ingestion/Dates and Ingestion/Catalog: internal/ingestion/date.go and catalog.go. Go's calendar is the
--   parameter `Calendar` with the laws `CalendarLaws`.
-- - Runs/Json: `decodeCanonical` of internal/ingestionrun/params.go and the JSON methods of `CalendarDate`. `encoding/json`,
--   `crypto/sha256` and `time.Parse` are the parameter `Codec`.
-- - Runs/Params: the rest of internal/ingestionrun/params.go. The loop of `inclusiveDates` has one more than the number of the calendar's last day as fuel.
-- - Runs/Model and Runs/Table: internal/ingestionrun/model.go, and the statements of repository.go as
--   functions on the rows of the table.
-- - Runs/Diagnostics: `MapperDiagnostics` of internal/ingestionrun/model.go, and `IsSafeMapperDiagnostic` of
--   internal/ingestion/detail.go; `sort.Slice` is the parameter `sort_slice`.
-- - Common/Transactions and Runs/Tx: a transaction is a function from a store to a result; an error leaves the store as it was.
-- - Runs/Submit, Execute, Recover, Cancel, Reconcile and Settings: the methods of `Repository` in
--   internal/ingestionrun/repository.go, named as there.
-- - Runs/Lifecycle: the diagram of a run's states, and that each transaction follows it. `Call` lists the
--   transactions; a history is a list of them.
-- - Database/Retry: internal/database/retry.go.
-- - Browserauth/Failures: internal/browserauth/security.go, `loginFailures`.
-- - Mfa/Totp: internal/mfa/totp.go; base32 and HMAC are the parameter `Crypto`.
-- - Mfa/Model, Challenges, Inspection, Verify, Actor and Reset: the methods of `Store` in internal/mfa/store.go on the
--   tables of users, challenges, enrollments, recovery codes and sessions, and the parts of
--   internal/auth/repository.go that they call. `inspect` is what `Verify` reads before it writes. What is drawn
--   at random is the record `Draws`, and the readings of the clock are arguments.
-- - Mfa/Kept: what the operations keep, for any relation on stores that their statements keep; Mfa/Kept/Credentials for
--   relations on the enrollments and the recovery codes.
-- - Mfa/Lifecycle: the operations as steps, the promise `Spec` of a challenge, and that the steps refine it.
-- - Mfa/Replay: that codes are used up.
-- - Scheduler/Occurrences: `parametersForOccurrence` and `retryDelay` of internal/scheduler/model.go, and
--   `ResolvePreviousCalendarDayJakarta` of internal/ingestion/date.go.
-- - Scheduler/Definitions: policies, cron expressions and definitions of internal/scheduler/model.go; the cron parser and
--   the time zones are in the parameter `Rules`.
-- - Scheduler/Model: the rows of internal/scheduler/service.go and its statements.
-- - Scheduler/Process: `processTransaction` of that file; Process/Turn says what a delivery means.
-- - Scheduler/States: `Create`, `Update`, `Enable`, `Disable` and `Archive` of that file; States/Revision says what a
--   revision guards.
-- - Scheduler/Many: `CreateMany` of that file.
-- - Scheduler/Soundness: the check of the database on cursors, and that the transactions keep it. Soundness/History has
--   the transactions as the type `Operation`.
-- - Common/Tables: the statements of SQL on lists of rows.
-- - Common: names of the libraries, and lemmas on lists, options, maps and Boolean tests.
--
-- Bounds. Identities, counts and times are natural numbers; a time is a count of microseconds (for logins
-- of nanoseconds) and `none` is NULL or the zero time. Which rows another transaction has locked
-- (`SKIP LOCKED`) is an argument of the calls that skip them. MySQL's `RowsAffected` is read as the number of
-- rows that match. The loop of `RecoverOneStale` is modelled by its rounds.
-- The length of a text is its number of characters; Go counts bytes, which is the same on ASCII. That the row that
-- `Claim` reads back at its end may hold diagnostics that do not decode is left out.
--
-- Not modelled: network and file I/O, the web application, SQL generation for the warehouse, the
-- scheduler's changes of the state of many schedules at once, its sweep and its audit, reports and access
-- control; failures of the database itself, which end a transaction with an error and without effect.
mod Common
pub mod Fincloud
pub mod Ingestion
pub mod Mfa
pub mod Runs
pub mod Database
pub mod Browserauth
pub mod Scheduler
