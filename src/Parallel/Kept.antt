-- ===== src/Parallel/Kept.antt =====
-- What the calls that write to the database keep, every step of a worker keeps.
use solana_indexer_plugin.Base.{ℕ, Bool, String}
use solana_indexer_plugin.Crates.{Crates}
use solana_indexer_plugin.Database.{Database}
use solana_indexer_plugin.Client.Stable.{
  IsStable, kept-update_account, kept-update_slot_status, kept-log_transaction,
  kept-update_block_metadata, kept-notify_end_of_startup,
}
use solana_indexer_plugin.Worker.{
  WorkRequest, update_account, update_slot, log_transaction, update_block_metadata, perform,
  ParallelClientWorker, handle_request, handle_end_of_startup,
}
use solana_indexer_plugin.Parallel.{WorkerState, Shared, Move}

module _ (X : Crates) (D : Database) (strict : Bool) (Stored : D.State → Type 0)
    (stable : IsStable D Stored) where
  kept-handle_request :
      (now : ℕ → String) (r : WorkRequest) (w : ParallelClientWorker) (db : D.State)
      → Stored db
      → Stored (handle_request X D strict now r w db).2
  unfolding handle_request perform
  kept-handle_request now (update_account b startup) w db h =
      kept-update_account X D Stored stable now b startup w.client db h
  kept-handle_request now (update_slot slot parent status) w db h =
      kept-update_slot_status X D Stored stable (now 0) slot parent status w.client db h
  kept-handle_request now (log_transaction info) w db h =
      kept-log_transaction X D Stored stable (now 0) info w.client db h
  kept-handle_request now (update_block_metadata info) w db h =
      kept-update_block_metadata X D Stored stable (now 0) info w.client db h

  kept-handle_end_of_startup :
      (now slot_now : ℕ → String) (w : ParallelClientWorker) (db : D.State)
      → Stored db
      → Stored (handle_end_of_startup X D strict now slot_now w db).2
  unfolding handle_end_of_startup
  kept-handle_end_of_startup now slot_now w db h =
      kept-notify_end_of_startup X D Stored stable now slot_now w.client db h

  pub Move-Stored :
      {s : Shared D} {w : WorkerState} {t : Shared D} {w' : WorkerState}
      → Move X D strict s w t w'
      → Stored s.db
      → Stored t.db
  Move-Stored (Move.start s w client p e alike) h = h
  Move-Stored (Move.start_failed s w lax p) h = h
  Move-Stored (Move.take s w r rest p e) h = h
  Move-Stored (Move.finish s w r now p e) h = kept-handle_request now r w.worker s.db h
  Move-Stored (Move.panicked s w r now p e) h = kept-handle_request now r w.worker s.db h
  Move-Stored (Move.time_out s w p e f) h = h
  Move-Stored (Move.flush s w now slot_now p e) h =
      kept-handle_end_of_startup now slot_now w.worker s.db h
  Move-Stored (Move.flush_panicked s w now slot_now p e) h =
      kept-handle_end_of_startup now slot_now w.worker s.db h
  Move-Stored (Move.report s w p) h = h
  Move-Stored (Move.stop s w p e) h = h
