-- ===== src/Parallel/Settings.antt =====
-- The settings of a worker's client stay as they were: its handlers and its selector.
use solana_indexer_plugin.Base.{
  update, ◌==◌, ℕ, Bool, true, false, String, inl, inr, refl, ◌∙◌, Bool-cases, length, leb,
}
use solana_indexer_plugin.Account.{DbAccountInfo}
use solana_indexer_plugin.Crates.{Crates}
use solana_indexer_plugin.Database.{Database}
use solana_indexer_plugin.Client
use solana_indexer_plugin.Client.{SimplePostgresClient, Reply, update_at_startup, flush}
use solana_indexer_plugin.Client.Pending.{with_account, client-flush, client-notify_end_of_startup}
use solana_indexer_plugin.Worker.{
  WorkRequest, update_account, update_slot, log_transaction, update_block_metadata, perform,
  ParallelClientWorker, handle_request, handle_end_of_startup,
}
use solana_indexer_plugin.Worker.Effects.{client-handle_request}
use solana_indexer_plugin.Parallel.Kinds.{Kind, Step-Kind}
use solana_indexer_plugin.Parallel.{System, Reach, WorkerState, Shared, Move, AreAlike}

module _ (X : Crates) (D : Database) (strict : Bool) where
  -- No call changes the settings of a worker's client.
  AreAlike-update_at_startup :
      (now : ℕ → String) (b : DbAccountInfo) (c : SimplePostgresClient) (db : D.State)
      → AreAlike (update_at_startup X D now b c db).1 c
  unfolding update_at_startup
  AreAlike-update_at_startup now b c db =
      let c' = with_account b c in
      elim (Bool-cases (leb c.batch_size (length c'.pending_account_updates))) [
        | inl full ↦
            rw (update_at_startup, full)
              (rw (client-flush X D "[update_account_batch] error=[" now c' db) (refl, refl))
        | inr below ↦ rw (update_at_startup, below) (refl, refl)
      ]

  AreAlike-handle_request :
      (now : ℕ → String) (r : WorkRequest) (w : ParallelClientWorker) (db : D.State)
      → AreAlike (handle_request X D strict now r w db).1.client w.client
  unfolding handle_request perform Client.update_account
  AreAlike-handle_request now (update_account b true) w db =
      AreAlike-update_at_startup now b w.client db
  AreAlike-handle_request now (update_account b false) w db =
      rw (client-handle_request X D strict now (update_account b false) w db refl) (refl, refl)
  AreAlike-handle_request now (update_slot slot parent status) w db =
      rw (client-handle_request X D strict now (update_slot slot parent status) w db refl)
        (refl, refl)
  AreAlike-handle_request now (log_transaction info) w db =
      rw (client-handle_request X D strict now (log_transaction info) w db refl) (refl, refl)
  AreAlike-handle_request now (update_block_metadata info) w db =
      rw (client-handle_request X D strict now (update_block_metadata info) w db refl) (refl, refl)

  AreAlike-handle_end_of_startup :
      (now slot_now : ℕ → String) (w : ParallelClientWorker) (db : D.State)
      → AreAlike (handle_end_of_startup X D strict now slot_now w db).1.client w.client
  unfolding handle_end_of_startup
  AreAlike-handle_end_of_startup now slot_now w db =
      rw (client-notify_end_of_startup X D now slot_now w.client db) (refl, refl)

  AreAlike-trans : (a b c : SimplePostgresClient) → AreAlike a b → AreAlike b c → AreAlike a c
  AreAlike-trans a b c h k = (h.0 ∙ k.0, h.1 ∙ k.1)

  pub Move-AreAlike :
      {s : Shared D} {w : WorkerState} {t : Shared D} {w' : WorkerState} (c : SimplePostgresClient)
      → Move X D strict s w t w'
      → AreAlike w.worker.client c
      → AreAlike w'.worker.client c
  Move-AreAlike c (Move.start s w client p e alike) h =
      AreAlike-trans client w.worker.client c alike h
  Move-AreAlike c (Move.start_failed s w lax p) h = h
  Move-AreAlike c (Move.take s w r rest p e) h = h
  Move-AreAlike c (Move.finish s w r now p e) h =
      AreAlike-trans (handle_request X D strict now r w.worker s.db).1.client w.worker.client c
        (AreAlike-handle_request now r w.worker s.db) h
  Move-AreAlike c (Move.panicked s w r now p e) h = h
  Move-AreAlike c (Move.time_out s w p e f) h = h
  Move-AreAlike c (Move.flush s w now slot_now p e) h =
      AreAlike-trans (handle_end_of_startup X D strict now slot_now w.worker s.db).1.client
        w.worker.client c (AreAlike-handle_end_of_startup now slot_now w.worker s.db) h
  Move-AreAlike c (Move.flush_panicked s w now slot_now p e) h = h
  Move-AreAlike c (Move.report s w p) h = h
  Move-AreAlike c (Move.stop s w p e) h = h

  module _ (n : ℕ) (c : SimplePostgresClient) where
    -- All clients have the settings of `c`.
    abbrev pub AllAlike : System D → Type 0
    AllAlike s = (i : ℕ) → AreAlike (s.workers i).worker.client c

    Kind-AllAlike : {s t : System D} → Kind X D strict n s t → AllAlike s → AllAlike t
    Kind-AllAlike (Kind.validator t d q w) h = λ i. rw (w i) (h i)
    Kind-AllAlike {s} (Kind.worker i t w b m) h = λ j. elim (Bool-cases (i == j)) [
      | inl same ↦ rw (update, same) (Move-AreAlike c m (h i))
      | inr other ↦ rw (update, other) (h j)
    ]

    pub Reach-AllAlike : {s t : System D} → Reach X D strict n s t → AllAlike s → AllAlike t
    Reach-AllAlike Reach.here h = h
    Reach-AllAlike (Reach.next r st) h =
        Kind-AllAlike (Step-Kind X D strict st) (Reach-AllAlike r h)
