-- ===== src/Worker/Effects.antt =====
-- What a worker's calls change of the worker.
use solana_indexer_plugin.Base.{ℕ, Bool, true, false, String, [], ◌≡◌, refl, ap}
use solana_indexer_plugin.Crates.{Crates}
use solana_indexer_plugin.Database.{Database}
use solana_indexer_plugin.Client.{SimplePostgresClient}
use solana_indexer_plugin.Client.Pending.{
  client-update_account, client-update_slot_status, client-log_transaction,
  client-update_block_metadata, client-notify_end_of_startup,
}
use solana_indexer_plugin.Worker.{
  WorkRequest, update_account, update_slot, log_transaction, update_block_metadata,
  ParallelClientWorker, handle_request, handle_end_of_startup, perform, is_startup_request,
}

module _ (X : Crates) (D : Database) (strict : Bool) where
  client-perform :
      (now : ℕ → String) (r : WorkRequest) (c : SimplePostgresClient) (db : D.State)
      → is_startup_request r ≡ false
      → (perform X D now r c db).1 ≡ c
  unfolding perform
  client-perform now (update_account account true) c db h = cc
  client-perform now (update_account account false) c db h =
      client-update_account X D now account c db
  client-perform now (update_slot slot parent status) c db h =
      client-update_slot_status X D (now 0) slot parent status c db
  client-perform now (log_transaction info) c db h = client-log_transaction X D (now 0) info c db
  client-perform now (update_block_metadata info) c db h =
      client-update_block_metadata X D (now 0) info c db

  -- A request that is no account update at startup leaves the worker's client as it was.
  pub client-handle_request :
      (now : ℕ → String) (r : WorkRequest) (w : ParallelClientWorker) (db : D.State)
      → is_startup_request r ≡ false
      → (handle_request X D strict now r w db).1.client ≡ w.client
  unfolding handle_request
  client-handle_request now r w db h = client-perform now r w.client db h

  pub is_startup_done-handle_request :
      (now : ℕ → String) (r : WorkRequest) (w : ParallelClientWorker) (db : D.State)
      → (handle_request X D strict now r w db).1.is_startup_done ≡ w.is_startup_done
  unfolding handle_request
  is_startup_done-handle_request now r w db = refl

  -- After its end of startup a worker holds no pending update, and knows of the end.
  pub pending-handle_end_of_startup :
      (now slot_now : ℕ → String) (w : ParallelClientWorker) (db : D.State)
      → ((handle_end_of_startup X D strict now slot_now w db).1.client.pending_account_updates ≡ [])
        × ((handle_end_of_startup X D strict now slot_now w db).1.is_startup_done ≡ true)
  unfolding handle_end_of_startup
  pending-handle_end_of_startup now slot_now w db = (
    ap (λ (c : SimplePostgresClient). c.pending_account_updates)
        (client-notify_end_of_startup X D now slot_now w.client db),
    refl,
  )
