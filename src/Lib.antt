-- ===== src/Lib.antt =====
-- d-lmdb: a replicated key-value store in Rust that keeps its data and its Raft log in LMDB.
--
-- The program. The crate `d-lmdb` gives the Raft engine `d_engine` a state machine
-- (d-lmdb/src/state_machine.rs) and a log store (d-lmdb/src/storage_engine.rs), each in an LMDB
-- environment of its own, and wraps engine and state machine in the handle `DLmdb`
-- (d-lmdb/src/db.rs). A write is encoded (d-lmdb/src/wire/values.rs: a tag, and an expiry for a
-- value with a time to live), proposed through the engine's client, stored in the log of each node,
-- and applied by `apply_chunk` on each node. A read takes the raw bytes from the local state
-- machine, or from the engine where it is to be confirmed, decodes them against the clock, and
-- deletes a value that it finds expired from the local environment. Scans decode in the state
-- machine's loop through a filter that `DLmdb` hands to it. Snapshots copy an environment to a file
-- and load it elsewhere. `DLmdb::open` takes a lock on the data directory (d-lmdb/src/lock.rs)
-- before it opens anything in it. The server d-lmdb-server/src/http puts the handle behind a router:
-- kv.rs translates requests to calls of `DLmdb`, error.rs its errors to responses, health.rs answers
-- load balancers; d-lmdb-server/src/main.rs opens the node and serves it, or probes a node that
-- runs. The programs of examples/ use the handle directly; their core is a loop that reads a
-- counter, adds one and swaps it, until a swap is taken.
--
-- The files.
--   Base, Base/*      tests, lists, and results with their inversion lemmas
--   Bytes, Bytes/*    byte strings, their order, prefixes, and words in both byte orders
--   Text, Text/*      decimal numerals, their parser `str::parse::<u64>`, and a text split at the last
--                     occurrence of a byte
--   Store, Store/*    a database's entries as a sorted list: lookup, insert, erase, ranges
--   Lmdb              heed as an interface: operations that may fail (`Lmdb`), and what is documented
--                     of those that succeed (`IsLawful`)
--   Lmdb/Memory       an instance of it that refuses the keys that LMDB refuses, for the runs
--   Wire              d-lmdb/src/wire/values.rs: `encode_raw`, `encode_ttl`, `Value::decode`
--   Machine/Types     the state of `LmdbStateMachine` and the engine's data that it handles
--   Machine/Apply     `apply_chunk`, as `apply_command` for an entry, `apply_entries` for the loop and
--                     `finish_chunk` for the commit; `delete_local`. Below it: the specification on
--                     functions from keys to values (Spec), what a success leaves (Refine, Chunk),
--                     failures (Failure, Progress), replicas and chunk boundaries (Replicas)
--   Machine/Scan      `get`, `len` and the scans; `scan_loop` and `rev_loop` are their loops
--   Machine/Lifecycle `new`, `persist_last_applied`, `Drop`, snapshots, `reset`
--   Machine/Queries   the operations that change nothing; Wal/Queries has those of the log store
--   Wal               `LmdbWal` of d-lmdb/src/storage_engine.rs: the log and the hard state. Below
--                     it: each operation on the log as a function from indices (Log, Purge, Fetch), the
--                     states that sequences of operations reach (Reach), restarts (Restart)
--   Db/Types          d-lmdb/src/error.rs: the error type and its texts
--   Db/Decode         the pure functions of d-lmdb/src/db.rs
--   Db/Read, Db/Write the methods of `DLmdb`. Below Write: what writes make visible (Effect), and the
--                     conditional ones (Swap, Conditional), and batches (Batch)
--   Http/Error        d-lmdb-server/src/http/error.rs: an error's status, body and time to wait
--   Http/Response     its responses, and the middleware `normalize_error_body`
--   Http/Kv           d-lmdb-server/src/http/kv.rs: `valid_key` and the handlers
--   Http/Server       the layers of http/mod.rs, and the routes of keys
--   Http/Health       http/health.rs, and the router of all routes
--   Config            d-lmdb/src/config.rs: `DLmdbConfig`
--   Host              what opening a node asks of the file system, LMDB and the engine (`Host`), what is
--                     documented of locks (`IsHost`), and steps that may fail
--   Open, Open/*      `open`, `open_from_file` and `close` of d-lmdb/src/db.rs over it, with
--                     `DataDirLock::acquire`; what holds the lock at which time (Lock); `wait_ready`
--                     and the queries for leader and membership (Cluster)
--   Programs          a node's handle within a world, and steps that end by success, an error, a panic,
--                     or, in a loop that goes on, by the end of its fuel
--   Programs/Counter  the loop of both programs of examples/, among other clients; a round (Round), many
--                     (Loop), values with an expiry (Expiry)
--   Programs/Shared, Programs/SingleNode, Programs/ThreeNode
--                     `main` of examples/single-node/single_node.rs and of
--                     examples/three-node/three_node.rs; what a program ensures (Ensures)
--   Programs/Reach    the worlds that any calls on a node reach, and that their values decode (Decode)
--   Binary, Binary/*  d-lmdb-server/src/main.rs and `serve` of http/mod.rs
--   Examples/*        runs at concrete inputs
--
-- The correspondence. A method that changes its object is a function from the object to the object
-- and the method's result; `?` is the bind of `Result`, and where a method has changed its object
-- before it fails, as `apply_chunk` does with its cache of terms, the changed object stands beside
-- the error. A transaction is a value: an operation gives the transaction after it, `commit` gives
-- the environment after it, and a transaction that is dropped is not used again, which leaves the
-- environment as it was. What the source sets together, as the environment and the index in memory,
-- is set in the source's order. Indices and terms are natural numbers; where the code depends on
-- their 64 bits, the bound is a hypothesis or the wrap-around is written out. The loops are
-- structural recursions on the entries, so that no bound on their steps is needed. Only the
-- counter's loop has fuel, one unit for a round: a round in which no other client writes the key
-- between the read and the swap ends it, so that fuel which reaches such a round is enough, and one
-- unit is where nobody else writes; other clients are a function of the world for each round. The
-- clock is an argument; the outcomes of the file system and of `spawn_blocking` are arguments too.
-- Texts are byte strings in UTF-8. In the opening of a node, a step that fails ends the sequence and
-- runs what Rust drops there, `dropping`, for the values that were in scope.
--
-- Parameters. LMDB (`Lmdb` with the laws `IsLawful`), prost and bincode (`Codec`), and the engine
-- behind the client (a function on requests with the hypothesis `Commits`: a call that succeeded has
-- been applied on this node, and `Reports`: the answer to a swap is its result), the host of a node
-- (`Host` with the laws `IsHost`), what the engine tells of the cluster (`Cluster`), axum with
-- serde_json (`Axum`; `ReadsVisible` and `ReadsAscii`: header values and bodies in ASCII read as
-- themselves), a program's node (`Node` with the laws `IsNode`; `Settles`: a call that failed was
-- applied as a whole or not at all; `Confirms`: a confirmed read tells what the node stores), and
-- what the server's binary uses of files and of TCP (`Process`, with `IsQuiet`: it leaves the locks
-- alone). An engine that is stopped or dropped gives up what it holds of the node. The types of
-- `d_engine` are given by the constructors and the fields that the source uses.
--
-- What is not modelled: the reading of requests and the writing of responses by axum, and its choice
-- of a route; the parsing of configuration files and arguments; the watchers of the engine; the
-- system clock (d-lmdb/src/time.rs); logging and printing; the texts of the errors of `d_engine`;
-- the crate roots, which only declare modules.
pub mod Base
pub mod Bytes
pub mod Text
pub mod Store
pub mod Lmdb
pub mod Wire
pub mod Machine
pub mod Wal
pub mod Db
pub mod Http
pub mod Config
pub mod Host
pub mod Open
pub mod Programs
pub mod Binary
pub mod Examples
