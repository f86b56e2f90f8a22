-- ===== src/Client.antt =====
-- `SimplePostgresClient` of postgres_client/mod.rs: one worker's connection, and the account updates
-- that it collects at startup.
pub mod Pending
pub mod Completion
pub mod Refinement
pub mod Slots
pub mod Stable
pub mod Delivery
pub mod Unknown
use solana_indexer_plugin.Base.{
  ℕ, suc, ◌+◌, Bool, true, false, String, ◌<>◌, is_empty, Option, none, some, List, [], ◌∷◌, ◌++◌,
  length, bind, leb, if◌then◌else◌, ◌==◌, as_u64,
}
use solana_indexer_plugin.Errors.{
  Exit, ok, err, panic, custom, data_schema_error, accounts_update_error, GeyserPluginError,
}
use solana_indexer_plugin.Account.{DbAccountInfo}
use solana_indexer_plugin.Block.{DbBlockInfo}
use solana_indexer_plugin.Transaction.{DbTransaction}
use solana_indexer_plugin.Crates.{Crates, SlotStatus, rooted}
use solana_indexer_plugin.Config.{AccountHandlerConfig, AccountsSelectorConfig}
use solana_indexer_plugin.Database.{Database}
use solana_indexer_plugin.Handlers.{
  AccountHandlerId, AccountHandler, from_str, get_handler, account_update, select_account_handlers,
}
use solana_indexer_plugin.Slot.{update_slot}
use solana_indexer_plugin.Sql.{Statement, statement_text, query_text}

-- `SimplePostgresClient`, less its connection. The list of `slots_at_startup` is in the order in
-- which the set is iterated.
pub record SimplePostgresClient : Type 0 where
  pub batch_size : ℕ
  pub slots_at_startup : List ℕ
  pub pending_account_updates : List DbAccountInfo
  pub block_statement : String
  pub transaction_statement : String
  pub account_handlers : List (AccountHandlerId × AccountHandler)
  pub account_selector : Option AccountsSelectorConfig

-- `HashSet::insert`
unfoldable pub insert_slot : ℕ → List ℕ → List ℕ
insert_slot slot [] = slot ∷ []
insert_slot slot (s ∷ slots) = if s == slot then s ∷ slots else s ∷ insert_slot slot slots

-- The readings of the clock after the first.
abbrev pub later : ℕ → (ℕ → String) → ℕ → String
later k now n = now (k + n)

abbrev pub schema_error : String → String → GeyserPluginError
schema_error prefix e = custom (data_schema_error (prefix <> (e <> "]")))

module _ (X : Crates) where
  -- The statements of one handler that the configuration names; `none` is a panic.
  unfoldable pub handler_query :
      List (AccountHandlerId × AccountHandler)
      → String
      → DbAccountInfo
      → AccountHandlerConfig
      → Option (List Statement)
  handler_query handlers now account h =
      bind (from_str h.handler_id)
        (λ id. bind (get_handler id handlers) (λ handler. account_update X now handler account))

  unfoldable pub handlers_query :
      List (AccountHandlerId × AccountHandler)
      → (ℕ → String)
      → DbAccountInfo
      → List AccountHandlerConfig
      → Option (List Statement)
  handlers_query handlers now account [] = some []
  handlers_query handlers now account (h ∷ hs) =
      bind (handler_query handlers (now 0) account h)
        (λ q. bind (handlers_query handlers (later 1 now) account hs) (λ rest. some (q ++ rest)))

  -- The statements of one account update.
  unfoldable pub account_query :
      List (AccountHandlerId × AccountHandler)
      → Option AccountsSelectorConfig
      → (ℕ → String)
      → DbAccountInfo
      → Bool
      → Option (List Statement)
  account_query handlers selector now account is_startup =
      handlers_query handlers now account (select_account_handlers X selector account is_startup)

  -- The statements of the pending updates, in order.
  unfoldable pub batch_query :
      List (AccountHandlerId × AccountHandler)
      → Option AccountsSelectorConfig
      → (ℕ → String)
      → List DbAccountInfo
      → Option (List Statement)
  batch_query handlers selector now [] = some []
  batch_query handlers selector now (a ∷ pending) =
      bind (account_query handlers selector now a true) (λ q.
        bind
          (batch_query handlers selector
            (later (length (select_account_handlers X selector a true)) now) pending)
          (λ rest. some (q ++ rest)))

module _ (X : Crates) (D : Database) where
  -- How a call of the client ends, the client after it, and the database.
  abbrev pub Reply : Type 0
  Reply = Exit (Unit {0}) × SimplePostgresClient × D.State

  -- `batch_execute`, with an error wrapped
  unfoldable pub execute_query : String → List Statement → SimplePostgresClient → D.State → Reply
  execute_query prefix query c db =
      let (failure, db') = D.batch_execute query db in
      elim failure [ none ↦ (ok tt, c, db') | some e ↦ (err (schema_error prefix e), c, db') ]

  -- Drains the pending updates and executes their query.
  unfoldable pub flush : String → (ℕ → String) → SimplePostgresClient → D.State → Reply
  flush prefix now c db =
      let drained : SimplePostgresClient = record c { pending_account_updates = [] } in
      elim (batch_query X c.account_handlers c.account_selector now c.pending_account_updates) [
        | none ↦ (panic, drained, db)
        | some q ↦ execute_query prefix q drained db
      ]

  -- The part of `update_account` at startup.
  unfoldable pub update_at_startup :
      (ℕ → String) → DbAccountInfo → SimplePostgresClient → D.State → Reply
  update_at_startup now account c db =
      let pending = c.pending_account_updates ++ (account ∷ []) in
      let c' : SimplePostgresClient = record c {
        slots_at_startup = insert_slot (as_u64 account.slot) c.slots_at_startup;
        pending_account_updates = pending;
      } in
      if leb c.batch_size (length pending)
      then flush "[update_account_batch] error=[" now c' db
      else (ok tt, c', db)

  unfoldable pub update_later :
      (ℕ → String) → DbAccountInfo → SimplePostgresClient → D.State → Reply
  update_later now account c db =
      elim (account_query X c.account_handlers c.account_selector now account false) [
        | none ↦ (panic, c, db)
        | some q ↦
            if is_empty (query_text q)
            then (ok tt, c, db)
            else execute_query "[update_account] error=[" q c db
      ]

  -- `PostgresClient::update_account`
  unfoldable pub update_account :
      (ℕ → String) → DbAccountInfo → Bool → SimplePostgresClient → D.State → Reply
  update_account now account true c db = update_at_startup now account c db
  update_account now account false c db = update_later now account c db

  -- `PostgresClient::update_slot_status`
  unfoldable pub update_slot_status :
      String → ℕ → Option ℕ → SlotStatus → SimplePostgresClient → D.State → Reply
  update_slot_status now slot parent status c db =
      let query : List Statement = update_slot X now slot parent status ∷ [] in
      if is_empty (query_text query)
      then (ok tt, c, db)
      else execute_query "[update_slot_status] error=[" query c db

  -- The loop over `slots_at_startup`, until the first error.
  unfoldable pub flush_slots : (ℕ → String) → List ℕ → SimplePostgresClient → D.State → Reply
  flush_slots now [] c db = (ok tt, c, db)
  flush_slots now (s ∷ slots) c db =
      let (failure, db') = D.batch_execute (update_slot X (now 0) s none rooted ∷ []) db in
      let rest = flush_slots (later 1 now) slots c db' in
      elim failure [
        | none ↦ rest
        | some e ↦ (err (schema_error "[notify_end_of_startup][flush_slots] error=[" e), c, db')
      ]

  -- What follows the flush of the accounts.
  unfoldable pub then_slots : (ℕ → String) → Reply → Reply
  then_slots now (ok _, c, db) = flush_slots now c.slots_at_startup c db
  then_slots now (err e, c, db) = (err e, c, db)
  then_slots now (panic, c, db) = (panic, c, db)

  -- `PostgresClient::notify_end_of_startup`; the readings of the clock for the accounts and those
  -- for the slots
  unfoldable pub notify_end_of_startup :
      (ℕ → String) → (ℕ → String) → SimplePostgresClient → D.State → Reply
  notify_end_of_startup now slot_now c db =
      then_slots slot_now (flush "[notify_end_of_startup][flush_accounst_error] error=[" now c db)

  -- `PostgresClient::log_transaction`, `TransactionHandler::update`
  unfoldable pub log_transaction : String → DbTransaction → SimplePostgresClient → D.State → Reply
  log_transaction now transaction_info c db =
      let (failure, db') = D.query_transaction c.transaction_statement transaction_info now db in
      elim failure [
        | none ↦ (ok tt, c, db')
        | some e ↦ (
          err (
              accounts_update_error (
                "Failed to persist the update of transaction info to the PostgreSQL database. Error: "
                <> e)),
          c,
          db',
        )
      ]

  -- `PostgresClient::update_block_metadata`, `BlockHandler::update`
  unfoldable pub update_block_metadata :
      String → DbBlockInfo → SimplePostgresClient → D.State → Reply
  update_block_metadata now block_info c db =
      let (failure, db') = D.query_block c.block_statement block_info now db in
      elim failure [
        | none ↦ (ok tt, c, db')
        | some e ↦ (
          err (
              accounts_update_error (
                "Failed to persist the update of block metadata to the PostgreSQL database. Error: "
                <> e)),
          c,
          db',
        )
      ]
