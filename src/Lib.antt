-- ===== src/Lib.antt =====
-- OpenDownloadManager: a model of the download manager and of the parts that it stands on.
--
-- The program is a Rust workspace. The command line enqueues downloads with the manager, which
-- keeps them in a store, queues them, starts as many at a time as its configuration allows and
-- drives each through a lifecycle; a backend makes the transfer in a task of its own, reports
-- progress and answers once. File names and paths pass validators first.
--
-- Core models crates/core:
--   Core/State            state.rs: the states, the legal transitions and the stored forms;
--                         Core/State/Lifecycle holds the diagram as a relation
--   Core/Error            error.rs: the errors, `Result` and the operator `?` as a bind
--   Core/Display          the messages of the errors
--   Core/Backend          backend.rs: kinds, ids, tasks and outcomes
--   Core/Model            model.rs: requests, resources and progress
--   Core/Event            events.rs
--   Core/Libs             what is taken from the libraries for URLs, JSON and UUIDs, a parameter
--   Core/Word             the bounds of the machine integers
--   Core/Float            the f64 arithmetic of the token bucket, a parameter
-- Manager models crates/download-manager:
--   Manager/Queue         queue.rs
--   Manager/Scheduler     scheduler.rs
--   Manager/Bandwidth     bandwidth.rs: the policy and the token bucket
--   Manager/Config        config.rs
--   Manager/Download      the record of persistence.rs, and the store as an interface
--   Manager/Persistence   persistence.rs: `Persistence` over SQLite, a parameter, with the columns
--                         of a row in Manager/Persistence/Columns
--   Manager/Inner         the state of the manager of manager.rs
--   Manager/Transition    manager.rs: `transition_state` and `on_progress`
--   Manager/Schedule      manager.rs: `begin_download` and `schedule`
--   Manager/Calls         manager.rs: the public calls, from `enqueue` to `shutdown`
--   Manager/Task          manager.rs: `run_download`
--   Manager/Recover       manager.rs: `open` and `recover`
--   Manager/Invariant     the invariant, and the lemmas that keep it
--   Manager/Reach         the histories of a manager whose calls run one after the other
--   Manager/Threads       the histories of a manager on which several threads work at a time
-- Storage models crates/storage:
--   Storage/Chars         text as code points, and bytes
--   Storage/Utf8          `OsStr::to_str`, `from_utf8_lossy` and the bytes of a text
--   Storage/Filename      `validate_filename` and `sanitize_filename`
--   Storage/Path          path.rs: `validate_path` and `validate_output_path`, and what the crate
--                         uses of `std::path`
--   Storage/Fs            the file system, a parameter
--   Storage/PartFile      storage.rs: partial files, with `ensure_parent_dir` of path.rs
-- Engine models crates/download-engine:
--   Engine/Storage        what the engine uses of partial files, an interface with what the engine
--                         relies on
--   Engine/Download       engine.rs: `validate_request`, `verify_length` and `download`
--   Engine/Naming         naming.rs
--   Engine/Backend        backend.rs: the engine as a backend of the manager
-- Http models crates/http-client:
--   Http/Text             what the parsers use of `str`
--   Http/Disposition      inspect.rs: the name in a `Content-Disposition` header
--   Http/Client           inspect.rs and stream.rs: requests over `reqwest`, a parameter
-- Cli models binaries/cli:
--   Cli/Exit              exit.rs
--   Cli/Download          cli/download.rs and main.rs, for the download subcommand
-- Prelude holds the shared helpers, with `HashMap` as an association list; Tests holds concrete
-- inputs.
--
-- The manager's state is the record `ManagerInner`. An operation takes it and returns it with the
-- result of the call. The events stand in it in the order of their publication, and the clock is a
-- sequence of readings. A signal is a number, and so is the handle of a task; `running` lists the
-- downloads whose task has not ended. A task is two steps, up to the call of its backend and from
-- the backend's answer on; progress reports come between them. In Manager/Reach, a history is any
-- sequence of calls and of such steps, each run to its end before the next. The code holds its locks
-- for shorter stretches than a call: in Manager/Threads a step is what a thread does in one hold of
-- the lock on the downloads, or between two, and the steps of several threads come in any order. There
-- the test for room and the start of a download are two steps, and the store, the events and the
-- other fields may change between any two. A task that `shutdown` aborts takes no further step. The
-- ids of new downloads are arguments, taken to be fresh.
--
-- The loop of `schedule` runs on fuel, one more than the queue's length: each round takes an id off
-- the queue. A save, list or removal of the store may fail, and then leaves the store as it was.
-- Numbers are natural numbers, and the counts of bytes stop at the bounds of u64 and i64 where the
-- source's do; no other operation that is modelled comes near a bound but through counts of entries.
-- A path is a list of bytes of a Unix host, a file name and the text of a header are lists of code
-- points.
--
-- A download of the engine takes the response of the HTTP client as an argument, with all that
-- arrives in the rounds of its loop: cancellation signals, chunks and errors. The state of the
-- storage is passed from call to call. The file system, SQLite and reqwest are records of operations,
-- one for each call or statement of the source; what the source relies on of the first two is a record
-- of laws beside them, and Tests holds an instance of each that keeps its laws.
--
-- Not modelled: how the HTTP client is built, the parsing of arguments, the log, and the progress line
-- of the command line. The broadcast channel of the event bus, which drops events for slow receivers,
-- is left out, and so are the waits of the rate limiter inside a download. Symbolic links, other
-- programs that write to the same files, and the durability of a rename are left to the file system.
pub mod Prelude
pub mod Core
pub mod Manager
pub mod Storage
pub mod Engine
pub mod Http
pub mod Cli
pub mod Tests
