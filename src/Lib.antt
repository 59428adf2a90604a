-- ===== src/Lib.antt =====
-- Relaybox receives webhooks, keeps each in an append-only log, and forwards it to local targets
-- with leases and retries. This library is about its store, internal/store, the service around
-- the store, internal/app, the flags of its command, cmd/relaybox, and the check of a distribution,
-- internal/distcheck. The service calls
-- the store's operations, and a forwarding worker is between two of them while it waits for a
-- target; the check of a distribution stands alone.
--
-- - Store/Model, Store/Options, Store/Errors, Store/State: internal/store/model.go and the types
--   `Options`, `recordRef` and `Store` of internal/store/store.go. `Store.image` is what a log
--   determines (`seq` and the maps of Store/Tables); the rest is the file, the health of the
--   store and its subscribers. `file` is what the open descriptor reads and `at_path` what stands
--   under the path, which is what a restart reads.
-- - Store/Env: the JSON codec and the SHA-256 digest, which are parameters. `IsExact` says of one
--   event that the decoder gives it back from its line and that its encoding has no newline.
-- - Store/Validate: `validateRecoveredEvent`, `validateStateLocked` and what they call.
-- - Store/Apply: `apply`, `appendRing`, `removeRequest`, `removeJob`. Below it, Ring is about the
--   catch-up ring, the others are about the tables.
-- - Store/Append: `appendLocked` and the part of `compactLocked` from the rename on. Each call
--   takes a `Disk`: what the clock, the hooks, `Write`, `Sync` and the compaction answer in it.
--   Below it, Line, Outcome, Durable and Recovery relate the log to the image, and Effect says
--   what an append does to the tables.
-- - Store/Compact: `snapshotRecordsLocked`, `hydrateSnapshotEventLocked`, `readEventAt` and the
--   loop of `compactLocked`.
-- - Store/Recover: `recover` and `readRecord`, over the bytes of the file.
-- - Store/Accept: `Accept`, `duplicateLocked`, `discoverableJobLocked`, `captureEvictionsLocked`.
--   Below it, Outcome, Repeats, Repair and Retention are about what a call has done.
-- - Store/Jobs: `Enqueue`, `ClaimNextJob`, `RecoverLeases`, `RecordAttempt`,
--   `FinishWithoutAttempt`.
-- - Store/Subscribe: `SubscribeFrom`, `Close` and the queries on jobs.
-- - Store/Queries: `Load`, `ListSummaries` and `Health`; below it, Counts has `JobCounts`.
-- - Store/Redact: `RedactHeaders` and what it calls.
-- - App/Auth: `verify`, `operator`, `sameOrigin` and `session` of internal/app/app.go.
-- - App/Headers: the policy on sensitive headers, what is redacted, and `forwardHeaders`.
-- - App/Target: `blockedIP`, the choice of an address to dial, and `validateTarget`.
-- - App/Ingest: the handlers `ingest` and `replay`, with `schedule`. A handler is a function from
--   the store to a response, the store it leaves and whether it wakes a worker.
-- - App/Retry and App/Forward: `parseRetry`, the verdict on an answer, and `forward`. What other
--   goroutines do to the store while a target is asked is an argument, `World.meanwhile`.
-- - App/Read: `list`, `get`, the cursor and the loop of `events`, and the two probes.
-- - App/Limits: the numbers that `New` puts in force.
-- - Dist/Version, Dist/Archives, Dist/Checksums: `ValidateTag`, `discoverArchives` and
--   `verifyChecksums` of internal/distcheck/distcheck.go.
-- - Dist/Contents, Dist/Zip: `inspectArchive` with what it calls, and `zipEndsAtEOF`.
-- - Dist/Verify: `Verify`, which puts these together.
-- - Cmd/Serve: the flags of `serve` in cmd/relaybox/main.go.
-- - Store/Tests, App/Tests, Dist/Tests, Cmd/Tests: examples.
-- - Prelude and Map: lists, texts, numbers, sorting, and Go's maps as association lists. Space and
--   case are those of ASCII.
--
-- An operation of the store is a function from the store before it to the store after it, and what
-- goroutines do is a sequence of such steps, since it holds its lock from start to end. `Load` does
-- so only for what it takes from the tables: it reads the file, and poisons the store if that fails,
-- after it has released the lock, and `load_amid` has what others do meanwhile as an argument.
-- Handlers and workers here use `load`, where nothing comes in between.
-- Texts and bodies are lists of bytes. A time is a number of nanoseconds with 0 for the zero
-- time; a lease lasts a natural number of them. Sequence numbers wrap at 2^64 as `uint64` does.
-- Sorting is stable, and a loop over a map takes the entries in the order of the list, where Go
-- leaves both open. Loops are structural recursions; the one that has fuel prints a number, and
-- its twenty digits are enough for 64 bits. HMAC, base64, the parsers of URLs and addresses, the
-- resolver and the HTTP client are parameters.
--
-- Not modelled: of the service, the routes, the loop of a worker, `App.backoff` (a parameter, since
-- it computes with floating-point numbers) and shutting down; of internal/distcheck, reading files
-- and running an executable; of the commands, parsing flags and serving; the
-- page (internal/web) and the example receiver; of the store, opening and locking the file, errors
-- of reading it, and the order of steps that compaction takes on Windows.
pub mod Prelude
pub mod Map
pub mod Store
pub mod App
pub mod Dist
pub mod Cmd
