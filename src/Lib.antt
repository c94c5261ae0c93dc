-- ===== src/Lib.antt =====
-- Umleiter mirrors the mail of one IMAP server to another. A pass of the reconciler
-- (internal/reconcile/reconcile.go, `Run`) scans the memberships of the source's watched folders, puts
-- mail that was copied under another configuration in its place (backfill), copies what is new window
-- by window of UIDs, and applies the queued moves and keyword changes. The store
-- (internal/state/store.go) keeps the keys of the copied messages, the memberships, the queue and the
-- marks up to which folders were scanned. The servers are reached by two IMAP connections
-- (internal/imapx/client.go), which a session of a mirror (internal/mirror/mirror.go) sets up as its
-- configuration (internal/config/config.go) says. A process (cmd/umleiter/main.go) runs a session loop
-- for each mirror.
--
-- Files:
-- - Base: names of the libraries passed on, tests, lists, texts and decimal notation; `Base.Exec` is
--   the monad of the code that changes state and returns errors, `Base.Keeps` and `Base.Hoare` are
--   rules for invariants and for conditions before and after an action.
-- - Key: internal/reconcile/key.go and the message types of internal/imapx/client.go.
-- - Labels: internal/reconcile/labels.go.
-- - State: internal/state/store.go; `State.Tables` has the tables and the SQL statements, `State.Store`
--   the methods, with failures of the driver.
-- - Env: the interfaces `Source` and `Dest`, the options, the summary, and the state of a pass.
-- - Windows: `New` and `scanWindows` of internal/reconcile/reconcile.go.
-- - Routing, Membership, Propagate, Backfill: the parts of internal/reconcile/membership.go.
-- - Mirror: `mirrorWindow` and `guard`; Mirror.Pipeline: `copyPipeline`, with its goroutines in
--   Mirror.Channel.
-- - Reconcile: `Run` and `SeedFromDest`.
-- - Imap: internal/imapx/client.go over an interface of go-imap (`Imap.Wire`); `Imap.Link` makes the
--   clients the two endpoints of `Env`, `Imap.Laws` states what is asked of the wire,
--   `Imap.Listing` what FETCH shows of the messages of a folder.
-- - State.Migrate: internal/state/migrate.go.
-- - Config: internal/config/config.go from the decoded file on; `Config.Paths` has `filepath.Clean` and
--   `Join` on Unix.
-- - Session: `Run` and `runSession` of internal/mirror/mirror.go.
-- - Process: the exit codes and /healthz of cmd/umleiter/main.go, `Acquire` of internal/lock/lock.go.
-- - Runtime: `backoff` and `maybeSeed` of internal/mirror/mirror.go.
-- - Safety: what is asked of the servers, and the proof that the record is never ahead of the
--   destination; each other component's theorems stand in its own child modules.
-- - Tests: servers in memory, and each property with conditions applied to them.
--
-- How the code is modelled:
-- - Functions keep their names in snake case, and each is a definition with the guards and returns of
--   the source. A step of code that changes state takes the state and returns it beside its result,
--   after an error too.
-- - A Go string is a list of code points; invalid UTF-8 is not modelled. `ToLower` and `EqualFold` act on
--   ASCII; that of the configuration also on the two other characters that become ASCII letters. The text
--   that wraps an error is dropped. uint32 arithmetic keeps its wrap-around.
-- - The database driver's failures, the context and the clock are functions of the number of calls made
--   so far, so a theorem holds for every pattern of failures.
-- - A Go map is a list in the order of insertion, a table a list of rows.
-- - The goroutines of `copyPipeline` are one producer and one consumer on a channel that keeps the order.
--   The consumer alone touches the store and the destination, and drops what arrives after its first
--   error, so `copy_pipeline` runs it on the list of what the producer sends. `Mirror.Channel` has the
--   two goroutines with the bounded channel as a step relation, in any interleaving.
-- - What the server shows of a watched folder is a relation between UIDs and keys, with the answers that
--   go with it as hypotheses (`Membership.Tracks`); a folder of the destination is the same, with the
--   moves that were confirmed (`Backfill.Folder`, `Backfill.Moves`).
-- - Loops: a scan gets one round more than `uid_next`, the draining of the ring as many rounds as the
--   ring is long, `propagate` one page more than there are queued operations. `diverged` marks a loop
--   whose rounds were not enough; it is no error of the program. The search for Message-IDs gets a round
--   for each text and one for each step of the chunk's size, since a round finishes a span or halves the
--   chunk. The loop of a session is modelled for any number of its first rounds, that of `Run` for any
--   number of its first sessions.
--
-- Not modelled: progress reports, logging, the heartbeat and timers; go-imap, go-message, YAML, flock,
-- database/sql, SQLite and the hash, which are parameters or the tables' own definitions; TLS and the
-- login, the notifications of IDLE and the closing of connections (internal/imapx/client.go);
-- the reading of the environment and of the file (`Path` and `LoadFile` of internal/config/config.go);
-- the passing of time between sessions (internal/mirror/mirror.go); goroutines, signals and the
-- HTTP server of cmd/umleiter/main.go. These are input and output.
pub mod Base
pub mod Key
pub mod State
pub mod Env
pub mod Imap
pub mod Config
pub mod Labels
pub mod Routing
pub mod Windows
pub mod Mirror
pub mod Propagate
pub mod Membership
pub mod Backfill
pub mod Reconcile
pub mod Safety
pub mod Runtime
pub mod Session
pub mod Process
pub mod Tests
