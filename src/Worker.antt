-- ===== src/Worker.antt =====
-- parallel_client_worker.rs: the requests of the queue, and what a worker does with each.
pub mod Effects
pub mod Rounds
use solana_indexer_plugin.Base.{
  ℕ, suc, ◌+◌, Bool, true, false, not, ◌&&◌, String, Option, none, some, List, [], ◌∷◌,
  if◌then◌else◌,
}
use solana_indexer_plugin.Errors.{Exit, ok, err, panic, GeyserPluginError}
use solana_indexer_plugin.Account.{DbAccountInfo}
use solana_indexer_plugin.Block.{DbBlockInfo}
use solana_indexer_plugin.Transaction.{DbTransaction}
use solana_indexer_plugin.Crates.{Crates, SlotStatus}
use solana_indexer_plugin.Database.{Database}
use solana_indexer_plugin.Client
use solana_indexer_plugin.Client.{SimplePostgresClient, Reply}

-- `WorkRequest`, with the fields of the four request structs.
pub data WorkRequest : Type 0 where
  update_account : DbAccountInfo → Bool → WorkRequest
  update_slot : ℕ → Option ℕ → SlotStatus → WorkRequest
  log_transaction : DbTransaction → WorkRequest
  update_block_metadata : DbBlockInfo → WorkRequest

-- The request is an account update at startup.
abbrev pub is_startup_request : WorkRequest → Bool
is_startup_request (update_account account is_startup) = is_startup
is_startup_request _ = false

-- `ParallelClientWorker`
pub record ParallelClientWorker : Type 0 where
  pub client : SimplePostgresClient
  pub is_startup_done : Bool

-- What becomes of the thread: it goes on, the process is aborted, or a panic unwinds the thread.
pub data Flow : Type 0 where
  continue abort unwind : Flow

-- `if let Err(err) = .. { if panic_on_db_errors { abort(); } }`
unfoldable pub flow : Bool → Exit (Unit {0}) → Flow
flow panic_on_db_errors (ok _) = continue
flow panic_on_db_errors (err _) = if panic_on_db_errors then abort else continue
flow panic_on_db_errors panic = unwind

-- What one round of the loop reads: the exit flag, then a request, a timeout with the shared flag,
-- or that the channel is disconnected.
pub data Received : Type 0 where
  exiting : Received
  received : WorkRequest → (ℕ → String) → Received
  timed_out : Bool → (ℕ → String) → (ℕ → String) → Received
  disconnected : Received

-- How `do_work` ends: with `Ok(())`, by an abort or a panic, or not within the rounds given.
pub data Ending : Type 0 where
  returned aborted unwound running : Ending

module _ (X : Crates) (D : Database) where
  -- The call that a request asks for; `now` gives the readings of the clock.
  unfoldable pub perform : (ℕ → String) → WorkRequest → SimplePostgresClient → D.State → Reply X D
  perform now (update_account account is_startup) c db =
      Client.update_account X D now account is_startup c db
  perform now (update_slot slot parent status) c db =
      Client.update_slot_status X D (now 0) slot parent status c db
  perform now (log_transaction info) c db = Client.log_transaction X D (now 0) info c db
  perform now (update_block_metadata info) c db = Client.update_block_metadata X D (now 0) info c db

  -- The worker and the database after a call.
  abbrev pub Outcome : Type 0
  Outcome = Flow × ParallelClientWorker × D.State

  -- How the loop ends, with the shared counter, the worker and the database it leaves. Of a round
  -- that an abort or a panic cuts short, the worker is the one before it: the thread drops it.
  abbrev pub Ended : Type 0
  Ended = Ending × ℕ × ParallelClientWorker × D.State

  unfoldable pub after_call : Bool → ParallelClientWorker → Reply X D → Outcome
  after_call strict w (exit, c, db) = (flow strict exit, record w { client = c }, db)

  -- The arm `Ok(work)` of the loop.
  unfoldable pub handle_request :
      Bool → (ℕ → String) → WorkRequest → ParallelClientWorker → D.State → Outcome
  unfolding after_call flow
  handle_request strict now request w db = after_call strict w (perform now request w.client db)

  -- The body of the arm `Timeout` once startup is done: the flush, and the worker's own flag. The
  -- shared counter is increased after it.
  unfoldable pub handle_end_of_startup :
      Bool → (ℕ → String) → (ℕ → String) → ParallelClientWorker → D.State → Outcome
  unfolding after_call flow
  handle_end_of_startup strict now slot_now w db =
      let (next, w', db') =
        after_call strict w (Client.notify_end_of_startup X D now slot_now w.client db) in
      (next, record w' { is_startup_done = true }, db')

  -- `ParallelClientWorker::do_work`, over what the rounds of its loop read.
  unfoldable pub do_work : Bool → List Received → ParallelClientWorker → D.State → ℕ → Ended
  do_work strict [] w db count = (running, count, w, db)
  do_work strict (exiting ∷ rounds) w db count = (returned, count, w, db)
  do_work strict (received r now ∷ rounds) w db count =
      let (next, w', db') = handle_request strict now r w db in
      let rest = do_work strict rounds w' db' count in
      elim next [
        | continue ↦ rest
        | abort ↦ (aborted, count, w, db')
        | unwind ↦ (unwound, count, w, db')
      ]
  do_work strict (timed_out done now slot_now ∷ rounds) w db count =
      let (next, w', db') = handle_end_of_startup strict now slot_now w db in
      let skipped = do_work strict rounds w db count in
      let rest = do_work strict rounds w' db' (suc count) in
      if not w.is_startup_done && done
      then elim next [
        | continue ↦ rest
        | abort ↦ (aborted, count, w, db')
        | unwind ↦ (unwound, count, w, db')
      ]
      else skipped
  do_work strict (disconnected ∷ rounds) w db count =
      (if strict then aborted else returned, count, w, db)
