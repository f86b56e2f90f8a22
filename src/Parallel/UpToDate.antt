-- ===== src/Parallel/UpToDate.antt =====
-- The accounts of the startup are in the table when `notify_end_of_startup` returns.
use solana_indexer_plugin.Base.{ℕ, true, some, [], ◌≡◌, Has}
use solana_indexer_plugin.Account.{DbAccountInfo}
use solana_indexer_plugin.Crates.{Crates}
use solana_indexer_plugin.Config.{AccountHandlerConfig}
use solana_indexer_plugin.Database.{Database}
use solana_indexer_plugin.Handlers.{
  all_account_handlers, from_str, unknown_account, select_account_handlers,
}
use solana_indexer_plugin.Sql.Tables.{Tables}
use solana_indexer_plugin.Sql.UpToDate.{IsUpToDate}
use solana_indexer_plugin.Client.{SimplePostgresClient}
use solana_indexer_plugin.Client.Refinement.{IsTransactional}
use solana_indexer_plugin.Client.Unknown.{
  IsSeparate, version_of, IsUpToDate-IsStable, unknown-IsDelivering,
}
use solana_indexer_plugin.Worker.{update_account}
use solana_indexer_plugin.Parallel.{System, notified, Reach, initial}
use solana_indexer_plugin.Parallel.Delivery.{queued-Stored}

module _ (X : Crates) (D : Database) (view : D.State → Tables) (postgres : IsTransactional D view)
    (separate : IsSeparate D view) (n : ℕ) where
  -- No account of the startup is lost, in any interleaving of any number of workers that abort on
  -- errors of the database (`panic_on_db_errors`), and whose clients start with no pending update
  -- and with all the handlers: if an account of the startup is in the queue at some time, its
  -- configuration selects the handler of unknown accounts, and later `notify_end_of_startup`
  -- returns, then the table of accounts has a row of its public key that is not older than the
  -- account (by slot, then write version). PostgreSQL is assumed to run a query of several statements as a
  -- transaction, and to keep blocks and transactions in other tables.
  pub startup_account-IsUpToDate :
      (db : D.State) (c : SimplePostgresClient) (s t : System D) (a : DbAccountInfo)
      (h : AccountHandlerConfig)
      → c.pending_account_updates ≡ []
      → c.account_handlers ≡ all_account_handlers
      → Has h (select_account_handlers X c.account_selector a true)
      → from_str h.handler_id ≡ some unknown_account
      → Reach X D true n (initial D db c) s
      → Has (update_account a true) s.shared.queue
      → Reach X D true n s t
      → t.main ≡ notified
      → IsUpToDate (version_of X a) (view t.shared.db)
  startup_account-IsUpToDate db c s t a h empty handlers selected id before queued after e =
      queued-Stored X D n c a (λ db'. IsUpToDate (version_of X a) (view db'))
        (IsUpToDate-IsStable X D view postgres separate (version_of X a))
        (unknown-IsDelivering X D view postgres a c h handlers selected id) db s t empty before
        queued after e
