-- ===== src/Lib.antt =====
-- A model of the plugin that writes what a Solana validator reports into PostgreSQL, and proofs of
-- what it does. Paths are those of the repository.
--
-- The validator calls `GeyserPluginPostgres` (src/geyser_plugin_postgres.rs: Plugin, and `on_load`,
-- `on_unload` in Builder). An account or a transaction passes a selector (src/accounts_selector.rs:
-- AccountsSelector; src/transaction_selector.rs: TransactionSelector), which is built from the
-- configuration (src/config.rs: Config). What passes becomes a request in a bounded queue
-- (src/parallel_client.rs: ParallelClient for the calls, Parallel for the interleaving of threads).
-- Worker threads (src/parallel_client_worker.rs: Worker) take requests and call their own client
-- (src/postgres_client/mod.rs: Client, Connect, Builder). At startup a client collects accounts and
-- executes them in batches; later it executes each at once. The statements come from the account
-- handlers (src/postgres_client/accounts: Handlers, with Account for the data that they decode),
-- from slot_handler.rs (Slot), block_handler.rs (Block) and transaction_handler.rs (Transaction,
-- with Rows for its structs, ErrorCode, and Conversion for `build_db_transaction` and the `From`
-- instances; Names has the errors' names, ReadBack reads the columns of a row back, Checks has the
-- checks of its unit tests).
-- Schema has the texts that create tables and types. Below Parallel, Invariant, Kinds, Settings, Kept
-- and Held are about one step, Startup, Lost, Liveness, Delivery, UpToDate and Answered about runs,
-- and Run and Loop about the loop of one worker.
-- Tests has the inputs of the unit tests and concrete runs.
--
-- How the code is modelled:
-- * A query of statements is a list of `Statement` (Sql.Rows), one for each INSERT, with its text
--   (Sql.Text: `query_text` is the text that the program executes) and its effect on tables of rows
--   (Sql.Tables), as PostgreSQL documents ON CONFLICT .. DO UPDATE .. WHERE.
-- * A call ends with `Exit`: `ok`, `err` or `panic`. In a function that cannot return an error
--   `none` is a panic. A mutable client or plugin is passed and returned; on a panic the returned
--   state is the one at the panic. An abort ends the process, so no step follows it.
-- * What other crates do is a parameter: `Crates` (base 58, hashes, Borsh, texts of errors),
--   `Database` (the calls of the crate postgres), `Connector` (openssl) and `ConfigFiles` (the file
--   system and serde_json). The named hypotheses on them are `IsBase58`, that the encoder and the
--   decoder are inverse, `IsTransactional`, that a query of several statements takes effect as a
--   whole or not at all, and `IsSeparate`, that the prepared statements of blocks and transactions
--   write to tables of their own. The equality of two `f64` is a parameter of Checks.
-- * The clock is an argument that gives its readings, in order. A byte is a native number, an `f64`
--   its bits, and a cast between integer widths is written out with its wrap-around (Base.Int). The
--   field `data` is named `contents`. Hash sets and maps are lists in the order of iteration.
-- * The threads of Parallel take steps in one sequence: each access of a shared atomic or of the
--   queue is one step, a call of a worker's client is one step, and a worker's timeout can come at
--   any time. The calls of the validator are steps of one more thread, which sends no account of
--   the startup after the end of the startup was flagged. Loads and stores are sequentially
--   consistent. In ParallelClient, `sent` is the history of the queue's requests.
-- * `do_work` runs over a list of what the rounds of its loop read, so it is total; Parallel.Loop
--   has it as a run of the steps. All workers' clients have the settings of one configuration. A
--   worker that cannot connect ends its thread, unless the process aborts on errors of the
--   database. `join` is given how the threads ended, and a handle is the number of its worker. The
--   decimal digits of `n` are computed with `n` rounds, which are enough since each divides by ten.
--
-- Not modelled: logging and metrics, which only report; the raw pointer to the plugin that
-- src/lib.rs hands to the validator; the time that `join` waits; the timing of timeouts and the
-- fairness of schedules; the parsing of the configuration, of SQL and of the binary interface,
-- which other crates do; the integration tests.
pub mod Base
pub mod Errors
pub mod Account
pub mod Crates
pub mod Sql
pub mod Config
pub mod AccountsSelector
pub mod TransactionSelector
pub mod Handlers
pub mod Transaction
pub mod Block
pub mod Database
pub mod Slot
pub mod Client
pub mod Worker
pub mod Parallel
pub mod Schema
pub mod Connect
pub mod ParallelClient
pub mod Plugin
pub mod Builder
mod Tests
