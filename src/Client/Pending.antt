-- ===== src/Client/Pending.antt =====
-- The pending account updates of a client: how many there can be, and when there are none.
use solana_indexer_plugin.Base.{
  ℕ, ◌<◌, false, String, Option, none, List, [], ◌∷◌, ◌++◌, length, ◌≡◌, ◌⊎◌, inl, inr, refl, ◌∙◌,
  arith, Option-cases, as_u64,
}
use solana_indexer_plugin.Errors.{ok, err, panic}
use solana_indexer_plugin.Account.{DbAccountInfo}
use solana_indexer_plugin.Block.{DbBlockInfo}
use solana_indexer_plugin.Transaction.{DbTransaction}
use solana_indexer_plugin.Crates.{Crates, SlotStatus, rooted}
use solana_indexer_plugin.Database.{Database}
use solana_indexer_plugin.Sql.{Statement}
use solana_indexer_plugin.Slot.{update_slot}
use solana_indexer_plugin.Client.{
  SimplePostgresClient, Reply, execute_query, flush, update_at_startup, update_later,
  update_account, update_slot_status, flush_slots, then_slots, notify_end_of_startup,
  log_transaction, update_block_metadata, batch_query, later, insert_slot,
}

-- A client between calls holds fewer updates than a batch has, or none.
abbrev pub IsBelowBatch : SimplePostgresClient → Type 0
IsBelowBatch c =
    (c.pending_account_updates ≡ []) ⊎ (length c.pending_account_updates < c.batch_size)

-- The client that has taken one more account.
abbrev pub with_account : DbAccountInfo → SimplePostgresClient → SimplePostgresClient
with_account account c = record c {
  slots_at_startup = insert_slot (as_u64 account.slot) c.slots_at_startup;
  pending_account_updates = c.pending_account_updates ++ (account ∷ []);
}

module _ (X : Crates) (D : Database) where
  client-execute_query :
      (prefix : String) (query : List Statement) (c : SimplePostgresClient) (db : D.State)
      → (execute_query X D prefix query c db).1 ≡ c
  unfolding execute_query
  client-execute_query prefix query c db = ground arith

  pub client-flush :
      (prefix : String) (now : ℕ → String) (c : SimplePostgresClient) (db : D.State)
      → (flush X D prefix now c db).1 ≡ record c { pending_account_updates = [] }
  unfolding flush
  client-flush prefix now c db =
      elim (Option-cases
        (batch_query X c.account_handlers c.account_selector now c.pending_account_updates)) [
          | inl e ↦ rw (e, flush) refl
          | inr (q, e) ↦
              rw (e, flush)
                (client-execute_query prefix q (record c { pending_account_updates = [] }) db)
        ]

  client-flush_slots :
      (now : ℕ → String) (slots : List ℕ) (c : SimplePostgresClient) (db : D.State)
      → (flush_slots X D now slots c db).1 ≡ c
  unfolding flush_slots
  client-flush_slots now [] c db = refl
  client-flush_slots now (s ∷ slots) c db = ground (
    arith,
    client-flush_slots (later 1 now) slots c
        (D.batch_execute (update_slot X (now 0) s none rooted ∷ []) db).1,
  )

  client-then_slots : (now : ℕ → String) (r : Reply X D) → (then_slots X D now r).1 ≡ r.1
  unfolding then_slots
  client-then_slots now (ok _, c, db) = client-flush_slots now c.slots_at_startup c db
  client-then_slots now (err e, c, db) = refl
  client-then_slots now (panic, c, db) = refl

  -- A client that was told of the end of startup is as before, less its pending updates, however
  -- the call ends.
  pub client-notify_end_of_startup :
      (now slot_now : ℕ → String) (c : SimplePostgresClient) (db : D.State)
      → (notify_end_of_startup X D now slot_now c db).1 ≡ record c { pending_account_updates = [] }
  unfolding notify_end_of_startup
  client-notify_end_of_startup now slot_now c db =
      client-then_slots slot_now _ ∙ client-flush _ now c db

  client-update_later :
      (now : ℕ → String) (account : DbAccountInfo) (c : SimplePostgresClient) (db : D.State)
      → (update_later X D now account c db).1 ≡ c
  unfolding update_later execute_query
  client-update_later now account c db = ground arith

  -- Only an account update at startup changes the client.
  pub client-update_account :
      (now : ℕ → String) (account : DbAccountInfo) (c : SimplePostgresClient) (db : D.State)
      → (update_account X D now account false c db).1 ≡ c
  unfolding update_account
  client-update_account now account c db = client-update_later now account c db

  pub client-update_slot_status :
      (now : String) (slot : ℕ) (parent : Option ℕ) (status : SlotStatus) (c : SimplePostgresClient)
      (db : D.State)
      → (update_slot_status X D now slot parent status c db).1 ≡ c
  unfolding update_slot_status execute_query
  client-update_slot_status now slot parent status c db = ground arith

  pub client-log_transaction :
      (now : String) (info : DbTransaction) (c : SimplePostgresClient) (db : D.State)
      → (log_transaction X D now info c db).1 ≡ c
  unfolding log_transaction
  client-log_transaction now info c db = ground arith

  pub client-update_block_metadata :
      (now : String) (info : DbBlockInfo) (c : SimplePostgresClient) (db : D.State)
      → (update_block_metadata X D now info c db).1 ≡ c
  unfolding update_block_metadata
  client-update_block_metadata now info c db = ground arith

  -- One more update at startup leaves the client below its batch again, and the batch size as it was,
  -- however the flush ends.
  pub update_at_startup-IsBelowBatch :
      (now : ℕ → String) (account : DbAccountInfo) (c : SimplePostgresClient) (db : D.State)
      → IsBelowBatch (update_at_startup X D now account c db).1
        × ((update_at_startup X D now account c db).1.batch_size ≡ c.batch_size)
  unfolding update_at_startup
  update_at_startup-IsBelowBatch now account c db =
      ground (arith, client-flush "[update_account_batch] error=[" now (with_account account c) db)
