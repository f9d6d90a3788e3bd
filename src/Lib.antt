-- ===== src/Lib.antt =====
-- The library of verification for lofi-bot, a Telegram bot that keeps an OBS stream running.
--
-- The bot polls Telegram for updates. Each update is claimed in a durable journal, handled, and
-- finished there; the polling offset moves past it when its row is done or dead. Loops that fail
-- wait by an
-- exponential backoff and log a sample of their failures.
-- The supervisor watches the liveness of five fixed workers, each with a sequence that only its own
-- loop advances. What OBS played is written to a trace, which another command verifies. The media
-- library is chosen by the period of the day.
--
-- Which file models which part:
-- - Retry.Backoff: Policy, NewBackoff, Failure, Reset, jitter and scaleDuration of
--   internal/retry/retry.go. Durations are nanoseconds; the int64 and uint64 arithmetic keeps its
--   wrap-around. The loop of Failure is recursion on the number of failures, which is the bound the
--   source gives it. The draw of Random is an argument. Growth, Jitter and Bounds hold the proofs.
-- - Retry.Sampler: Sampler of the same file. Accounting and Rate hold the proofs.
-- - Journal.Rows: the tables of internal/journalstore/journal.go as a record Db, with an optional
--   checkpoint row and a list of attempts, the constants, and the errors. A time is its number of
--   nanoseconds since 1970; text_key orders times the way SQLite orders the texts of formatTime
--   (internal/journalstore/store.go).
-- - Journal.Labels: the checks of arguments.
-- - Journal.Attempts: Statements (the UPDATEs that operations share), Begin (BeginUpdateAttempt) and
--   Finish (CompleteUpdateAttempt, AbortUpdateAttempt, FailUpdateAttempt). An operation takes the
--   time and the tables, and returns the tables and a result; `transact` commits a success and rolls
--   back a failure.
-- - Journal.Maintenance: the migration, LoadUpdateCheckpoint, ConfirmUpdateOffset,
--   PruneTelegramUpdateJournal and the two batch statements they share.
-- - Journal.Invariant, Effects, Fencing, Poison, Finality, Pruning, Retention, Runs and Settled hold the
--   proofs:
--   the invariant Inv of the tables, who may finish an update, how often it may fail, which
--   rows are final or deleted, any history of calls, and what the results of calls tell.
-- - Liveness.Worker: workerState and the methods of Worker and ScopeHandle in
--   internal/liveness/liveness.go. The bytes Phase, WorkerID and Owner are numbers; the published
--   value keeps the phase above 56 bits of sequence. Each method runs under one mutex, so
--   concurrent calls are a sequence of them. Invariant, Progress and Scopes hold the proofs.
-- - Liveness.Registry: Registry of the same file; Liveness.Registry.Owners holds the proofs.
-- - AsyncLog.Core: core of internal/asynclog/asynclog.go. Handle, Abort and beginDrain are a step
--   each, under their mutex; the writer goroutine is a program counter whose steps are the channel
--   operations and counters of run, drainQueue, discardQueued and emit, with a choice for each
--   select. Accounting and Draining hold the proofs.
-- - Library.Period: internal/library/period.go, with a local time as a day and its seconds. The date
--   arithmetic of Go's time package is that of days of 86,400 seconds: changes of the offset (summer
--   time) are left out.
-- - Telegram.Handling: handleUpdateBounded, the leases, the offsets and the bounded error text of
--   internal/telegram/service.go and journal.go. Which branch each select took is data.
-- - Telegram.Metadata: metadataForUpdate of internal/telegram/journal.go. What the Telegram library
--   reads as a command, or that it panics, is data.
-- - Telegram.Poller: Run of internal/telegram/service.go over any UpdateJournal, one response and one
--   update after the other; an error of the loop ends a life of the service. What a run of a turn's
--   handler does to the state is a parameter, applied where the source starts the handler. Contract
--   states what the loop relies on, Settling holds its proofs over any such journal, Durable shows that
--   the store is one. World puts a journal beside a world that only handlers change (Effects), and
--   Unhandled follows that world; Restarts puts all of it together, over any sequence of lives.
-- - Evidence.Records, Search, Checks, Verify and Writer: internal/obsevidence/trace.go and
--   verify.go, with the
--   normalised version of monitor.go. The decoder and encoder of JSON and the format of timestamps are
--   parameters. Numbers of a record are natural, since every check refuses a negative one. Correlation
--   says what a verdict claims; Sound, Ends, Found, Reading and Accepted prove it; Bookkeeping and
--   Closing are
--   about the writer.
-- - Library.State: internal/library/state.go, with the tables as lists of rows in Store, and the
--   statements on a row with a key in Rows. Overrides, Restoring and Pruning hold the proofs.
-- - Liveness.Frames: EncodeFrame of internal/liveness/reporter.go. A number has at most 20 digits,
--   enough for 64 bits.
-- - Library.Selection: internal/library/select.go, over the assets of internal/library/assets.go.
-- - Prelude: numbers, integers, texts, and tables with a primary key.
-- - The Tests modules apply the theorems to concrete policies, tables and histories.
--
-- Parameters: `julianday` of SQLite, a function from times to numbers, of which nothing is assumed;
-- JSON's decoder and encoder; what a run of a handler changes outside the journal; what the file took
-- of a line of a trace; `last_rune_width`, the width that utf8.DecodeLastRuneInString gives.
--
-- Bounds: the columns next_offset, attempt_count and failure_count are unbounded numbers; an update
-- id has a successor below 2^63, which the code checks. A cutoff `now - age` stops at 1970.
--
-- Not modelled: errors of the database driver, cancelled contexts, the opening of the database, log
-- sinks, the OBS client, the HTTP client of Telegram, the bot's commands, the file system, and the
-- application that connects them.
pub mod AsyncLog
pub mod Evidence
pub mod Journal
pub mod Library
pub mod Liveness
pub mod Prelude
pub mod Retry
pub mod Telegram
