-- ===== src/Lib.antt =====
-- Picante is an incremental query engine: inputs are set and removed, derived queries are memoized
-- functions of inputs and of other queries, and a query that is asked for again runs again only if
-- something that it read has changed. This library models its core.
--
-- The parts, and the files of crates/picante/src that they model:
-- * Key (key.rs, revision.rs): revisions, kind ids, encoded keys and the erased keys of the graph.
--   Encoding (Key::encode_facet, Key::decode_facet) goes through a codec.
-- * Error (error.rs): the error values.
-- * Frame (frame.rs): the task-local stack of active queries, as a value that each call is handed.
-- * Runtime (runtime.rs): revisions, cache scopes of snapshots, the dependency graph with its two maps,
--   and the invalidation that walks it. Its loop runs on fuel, two more than the number of edges
--   of the graph, since no key is queued twice.
-- * Inflight (inflight.rs): the registry that lets one task compute a query for all, as a heap of
--   entries with steps that interleave, and the process-wide cache that databases share.
-- * Input (ingredient/input.rs): key-value inputs, with set, remove, get and touch, their records in a
--   cache file, and their changes in the log.
-- * Interned (ingredient/interned.rs): interned values, with their records and their log entries.
-- * Wal (wal.rs): the file of the write-ahead log, its writer with its buffer, and its reader.
-- * Persist (persist.rs): saving a database to a cache file, and loading one, with how records are
--   dropped to make a file fit a limit (`Defs`, `Saving`, `Loading`), appending to a log and
--   replaying it (`Logging`), and compacting a cache file with its log (`Compacting`).
--   `Ingredients` is the trait PersistableIngredient, `Instances` the input, derived and interned
--   ingredients as objects of it.
-- * Derived (ingredient/derived.rs): the access of a derived query. `World` is all that an access
--   touches: the runtime, the inputs, the cells, the calling task's frames, the shared cache and the
--   in-flight registry. `Rounds` and `Access` are access_scoped_erased: observe the cell, revalidate
--   it, adopt a shared record, or lead or follow the computation, and check the revision again.
--   `Replay` describes what a query function gives from the inputs alone; the files from `Memo` to
--   `Session` hold an access against it. `Adoption` is about the records of other databases.
--   `Persist` and `Logged` are the persistence of the cells, their changes in the log, what a load
--   restores of the dependency graph, and deep snapshots of cells. `Snapshot`, with `Inputs`, is the
--   constructor that crates/picante-macros/src/db.rs writes for the snapshot of a database, and
--   `Promotion` takes records from one database to another.
-- * Debug (debug.rs): a copy of the dependency graph, its root and leaf queries, the search for paths,
--   and the statistics. `Chains` and `Routes` hold the search against the chains of dependencies.
-- * Base holds tests, lists, results and tables; Examples holds runs on small inputs.
--
-- How the code is read. A map is an association list with each key once. A value of an atomic or of a
-- lock is a plain field, and a function of the model is what one task does without another in between;
-- Inflight.Interleaving takes the queries' steps on the registry in every order, also with other
-- queries between the write of an entry's state and its removal. Shared references are values
-- in the state that is handed on. Machine integers keep their wrap-around (`% 2 ^ w`). A future that
-- its owner drops, a panic and a wait that nobody ends are outcomes of their own.
--
-- What is a parameter: the hasher of the standard library, the codecs of facet-postcard (of which
-- `RoundTrips` says that what they write reads back), the user's query functions, as trees of reads,
-- the comparisons of values, the environment variable for the size of the shared cache, and the file
-- system (of which `Behaves` and `KeepsOthers` say what the persistence relies on).
--
-- Fuel: each unit lets an access call one level deeper and go round its loop once more. A query
-- that reads inputs only ends in the first round, so two units are enough. The reader of a log
-- takes one unit for each entry and one for the end; the loop that drops records takes one for
-- each record and one more. The search for paths recurses on the levels left of the source's 1000.
--
-- What is not modelled: the text output and the recorder of events of the debug tools (debug.rs), the
-- structural comparison (facet_eq.rs), the rest of the macros that generate databases
-- (crates/picante-macros), subscriptions to events, and failures of the disk while entries are
-- written to a log. Accesses from other tasks do not interleave with the rounds of an access.
-- The theorems on the result of an access are about queries that read inputs and ask for no other
-- query.
mod Base
pub mod Key
pub mod Error
pub mod Encoding
pub mod Runtime
pub mod Inflight
pub mod Input
pub mod Interned
pub mod Wal
pub mod Persist
pub mod Derived
pub mod Frame
pub mod Debug
mod Examples
