-- ===== src/Client/Stable.antt =====
-- What the calls that write to the database keep, every call of a client keeps.
use solana_indexer_plugin.Base.{
  ℕ, Bool, true, false, String, Option, none, List, [], ◌∷◌, ◌≡◌, arith, if◌then◌else◌, length, leb,
  is_empty, Option-cases, inl, inr,
}
use solana_indexer_plugin.Errors.{ok, err, panic}
use solana_indexer_plugin.Account.{DbAccountInfo}
use solana_indexer_plugin.Block.{DbBlockInfo}
use solana_indexer_plugin.Transaction.{DbTransaction}
use solana_indexer_plugin.Crates.{Crates, SlotStatus, rooted}
use solana_indexer_plugin.Database.{Database}
use solana_indexer_plugin.Sql.{Statement, query_text}
use solana_indexer_plugin.Slot.{update_slot}
use solana_indexer_plugin.Client.{
  SimplePostgresClient, Reply, execute_query, flush, update_at_startup, update_later,
  update_account, update_slot_status, flush_slots, then_slots, notify_end_of_startup,
  log_transaction, update_block_metadata, batch_query, account_query, later,
}
use solana_indexer_plugin.Client.Pending.{with_account}

-- What holds of a database stays true when a call writes to it.
pub record IsStable (D : Database) (Stored : D.State → Type 0) : Type 0 where
  pub batch : (q : List Statement) (db : D.State) → Stored db → Stored (D.batch_execute q db).1
  pub block :
      (statement : String) (info : DbBlockInfo) (now : String) (db : D.State)
      → Stored db
      → Stored (D.query_block statement info now db).1
  pub transaction :
      (statement : String) (info : DbTransaction) (now : String) (db : D.State)
      → Stored db
      → Stored (D.query_transaction statement info now db).1

module _ (X : Crates) (D : Database) where
  pub db-execute_query :
      (prefix : String) (q : List Statement) (c : SimplePostgresClient) (db : D.State)
      → (execute_query X D prefix q c db).2 ≡ (D.batch_execute q db).1
  unfolding execute_query
  db-execute_query prefix q c db = ground arith

  module _ (Stored : D.State → Type 0) (stable : IsStable D Stored) where
    kept-if : (b : Bool) (x y : Reply X D) → Stored x.2 → Stored y.2 → Stored (if b then x else y).2
    kept-if true x y h k = h
    kept-if false x y h k = k

    kept-execute_query :
        (prefix : String) (q : List Statement) (c : SimplePostgresClient) (db : D.State)
        → Stored db
        → Stored (execute_query X D prefix q c db).2
    kept-execute_query prefix q c db h = rw (db-execute_query prefix q c db) (stable.batch q db h)

    kept-flush :
        (prefix : String) (now : ℕ → String) (c : SimplePostgresClient) (db : D.State)
        → Stored db
        → Stored (flush X D prefix now c db).2
    unfolding flush
    kept-flush prefix now c db h =
        elim (Option-cases
          (batch_query X c.account_handlers c.account_selector now c.pending_account_updates)) [
            | inl e ↦ rw (flush, e) h
            | inr (q, e) ↦
                rw (flush, e)
                  (kept-execute_query prefix q (record c { pending_account_updates = [] }) db h)
          ]

    pub kept-update_at_startup :
        (now : ℕ → String) (a : DbAccountInfo) (c : SimplePostgresClient) (db : D.State)
        → Stored db
        → Stored (update_at_startup X D now a c db).2
    unfolding update_at_startup
    kept-update_at_startup now a c db h =
        let c' = with_account a c in
        kept-if (leb c.batch_size (length c'.pending_account_updates))
          (flush X D "[update_account_batch] error=[" now c' db) (ok tt, c', db)
          (kept-flush "[update_account_batch] error=[" now c' db h) h

    kept-update_later :
        (now : ℕ → String) (a : DbAccountInfo) (c : SimplePostgresClient) (db : D.State)
        → Stored db
        → Stored (update_later X D now a c db).2
    unfolding update_later
    kept-update_later now a c db h =
        elim (Option-cases (account_query X c.account_handlers c.account_selector now a false)) [
          | inl e ↦ rw (update_later, e) h
          | inr (q, e) ↦
              rw (update_later, e)
                (kept-if (is_empty (query_text q)) (ok tt, c, db)
                  (execute_query X D "[update_account] error=[" q c db) h
                  (kept-execute_query "[update_account] error=[" q c db h))
        ]

    pub kept-flush_slots :
        (now : ℕ → String) (slots : List ℕ) (c : SimplePostgresClient) (db : D.State)
        → Stored db
        → Stored (flush_slots X D now slots c db).2
    unfolding flush_slots
    kept-flush_slots now [] c db h = h
    kept-flush_slots now (s ∷ slots) c db h =
        let query : List Statement = update_slot X (now 0) s none rooted ∷ [] in
        let written = stable.batch query db h in
        elim (Option-cases (D.batch_execute query db).0) [
          | inl e ↦
              rw (flush_slots, e)
                (kept-flush_slots (later 1 now) slots c (D.batch_execute query db).1 written)
          | inr (m, e) ↦ rw (flush_slots, e) written
        ]

    pub kept-then_slots :
        (now : ℕ → String) (r : Reply X D) → Stored r.2 → Stored (then_slots X D now r).2
    unfolding then_slots
    kept-then_slots now (ok _, c, db) h = kept-flush_slots now c.slots_at_startup c db h
    kept-then_slots now (err e, c, db) h = h
    kept-then_slots now (panic, c, db) h = h

    pub kept-notify_end_of_startup :
        (now slot_now : ℕ → String) (c : SimplePostgresClient) (db : D.State)
        → Stored db
        → Stored (notify_end_of_startup X D now slot_now c db).2
    unfolding notify_end_of_startup
    kept-notify_end_of_startup now slot_now c db h =
        kept-then_slots slot_now _ (kept-flush _ now c db h)

    pub kept-update_account :
        (now : ℕ → String) (a : DbAccountInfo) (is_startup : Bool) (c : SimplePostgresClient)
        (db : D.State)
        → Stored db
        → Stored (update_account X D now a is_startup c db).2
    unfolding update_account
    kept-update_account now a true c db h = kept-update_at_startup now a c db h
    kept-update_account now a false c db h = kept-update_later now a c db h

    pub kept-log_transaction :
        (now : String) (info : DbTransaction) (c : SimplePostgresClient) (db : D.State)
        → Stored db
        → Stored (log_transaction X D now info c db).2
    unfolding log_transaction
    kept-log_transaction now info c db h =
        let db_after : (log_transaction X D now info c db).2
            ≡ (D.query_transaction c.transaction_statement info now db).1 =
          ground arith in
        rw db_after (stable.transaction c.transaction_statement info now db h)

    pub kept-update_block_metadata :
        (now : String) (info : DbBlockInfo) (c : SimplePostgresClient) (db : D.State)
        → Stored db
        → Stored (update_block_metadata X D now info c db).2
    unfolding update_block_metadata
    kept-update_block_metadata now info c db h =
        let db_after : (update_block_metadata X D now info c db).2
            ≡ (D.query_block c.block_statement info now db).1 =
          ground arith in
        rw db_after (stable.block c.block_statement info now db h)

    pub kept-update_slot_status :
        (now : String) (slot : ℕ) (parent : Option ℕ) (status : SlotStatus)
        (c : SimplePostgresClient) (db : D.State)
        → Stored db
        → Stored (update_slot_status X D now slot parent status c db).2
    unfolding update_slot_status
    kept-update_slot_status now slot parent status c db h =
        let q : List Statement = update_slot X now slot parent status ∷ [] in
        kept-if (is_empty (query_text q)) (ok tt, c, db)
          (execute_query X D "[update_slot_status] error=[" q c db) h
          (kept-execute_query "[update_slot_status] error=[" q c db h)
