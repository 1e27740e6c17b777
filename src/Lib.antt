-- ===== src/Lib.antt =====
-- A model of Keyro Core, the local daemon that maps the controls of a macro pad to actions.
--
-- The program takes JSON lines from a client (crates/core-ipc, crates/core-protocol), turns them
-- into commands of the service (crates/core-app), which works on the domain types
-- (crates/core-domain) and on a repository in SQLite (crates/core-storage-sqlite). The process
-- (crates/keyro-core) runs a worker for each connection, eight at most.
--
-- * Domain models crates/core-domain/src/lib.rs: Layout (`PageIndex`, `KeyIndex`, `EncoderIndex`,
--   `ControlId`), Ids (`ProfileId`), Urls (`SafeUrl`), Profiles (`Profile`,
--   `ensure_exactly_one_active`), Assignments (`Action`, `Assignment`), Errors (`DomainError`).
-- * App models crates/core-app/src/lib.rs: Model (`CoreCommand`, `CoreResponse`, `CoreEvent` and
--   the snapshot), Ports (the traits `ProfileRepository`, `UrlOpener` and `EventSink`, as records
--   of methods over one shared state), Service (`CoreService`), Errors (`AppError`). App.Routing
--   relates the calls of a virtual control input, with their answers, to its result.
-- * Protocol models crates/core-protocol/src/lib.rs: Messages and Codec.
-- * Ipc models crates/core-ipc/src/lib.rs: Convert (the `_from_dto` and `_to_dto` functions),
--   Commands (`command_from_message`), Replies (replies, events and errors), Session
--   (`ProtocolSession`), Errors (`IpcError`).
-- * Storage models crates/core-storage-sqlite/src/lib.rs: Database (tables, failing statements,
--   transactions), Statements (each SQL statement with the constraints of the schema), Columns and
--   Rows (`encode_control`, `decode_control`, `decode_action` and the row closures), Queries (the
--   reading methods), Repository (the writing methods and the trait implementation). Its other
--   modules hold the proofs.
-- * Platform models crates/core-platform/src/lib.rs: `SystemUrlOpener` on each target system, with
--   the process call as a parameter.
-- * Host models crates/keyro-core/src: Workers (`DevConnections::accept` of main.rs with its reaping
--   loop, over worker handles), Connection (`handle_dev_connection_inner`, `IpcEventSink` and
--   `write_protocol_message` of main.rs, over a stream that writes lines), Listener (`run_dev_ipc`
--   of main.rs and `run` of windows_ipc.rs, on the rounds that have come), Startup (`main`), Instance
--   (single_instance.rs, the lock file, with the processes around it in Instance.Processes) and Logs
--   (logging.rs: Disk is the directory and the calls of std::fs, Retention `cleanup_logs` and
--   `rotate_logs`, Writer `LogState` and `RotatingLogWriter`).
-- * Examples runs the theorems on small instances of the crates.
--
-- A method is a function from the state to its result or error and the new state (Common.Exec). The
-- mutex around the connection makes each method of the repository one step; rename_profile locks
-- twice and is two methods in sequence, which Storage.Renames interleaves with others. Storage.Board
-- is the abstract state that the repository refines. Rust's u8, u16, u64 and i64 are numbers with
-- the range checks and the saturation that the code has; a UUID is the number it stands for.
--
-- The crates uuid, url, serde_json and rusqlite are instance arguments (`UuidCrate`, `UrlCrate`,
-- `JsonCrate`, `RusqliteCrate`); the one law that is used of them, that the text of a UUID parses to
-- it, is `UuidLaws`. SQL statements are read as the SQL standard documents them, and `Database` has
-- a list of the failures that the environment chooses for the statements to come.
--
-- Where std or the operating system is called (files, locks, sockets, pipes), the calls are modelled
-- as documented, on records with the list of the failures that the environment chooses. An instance
-- of a Windows pipe is there until the last handle to it is closed, also a client's.
--
-- The only fuel is that of the reaping loop: one unit for each worker, as each turn removes a
-- worker or moves the index on. Not modelled: panics and poisoned locks, the statements of
-- `migrate`, whose tables and constraints Storage.Database and Storage.Statements take over, the
-- lines that tracing writes and its set-up, the security descriptor of the Windows pipe, the timer
-- of the log maintenance, and the TypeScript bindings.
pub mod Common
pub mod Domain
pub mod App
pub mod Protocol
pub mod Ipc
pub mod Storage
pub mod Platform
pub mod Host
mod Examples
