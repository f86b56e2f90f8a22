-- ===== src/Builder.antt =====
-- `PostgresClientBuilder` of postgres_client/mod.rs, and `on_load` and `on_unload` of the plugin.
pub mod Loaded
pub mod Unloaded
use solana_indexer_plugin.Base.{
  ℕ, ◌-◌, Bool, true, false, String, ◌<>◌, join as join_texts, Option, none, some, List, [], ◌∷◌,
  map,
}
use solana_indexer_plugin.Errors.{Exit, ok, err, panic, ◌>>=◌, custom, data_schema_error}
use solana_indexer_plugin.Crates.{Crates}
use solana_indexer_plugin.Config.{
  GeyserPluginPostgresConfig, AccountsSelectorConfig, TransactionSelectorConfig, ConfigFiles,
  read_from,
}
use solana_indexer_plugin.Database.{Database}
use solana_indexer_plugin.Connect.{Connector, connect_to_db}
use solana_indexer_plugin.Handlers.{AccountHandler}
use solana_indexer_plugin.Schema.{handler_schema, slot_schema, block_schema, transaction_schema}
use solana_indexer_plugin.Slot.{get_highest_available_slot}
use solana_indexer_plugin.AccountsSelector.{AccountsSelector, new_accounts_selector}
use solana_indexer_plugin.TransactionSelector.{TransactionSelector, new_transaction_selector}
use solana_indexer_plugin.ParallelClient.{ParallelClient, new_parallel_client, Thread, join}
use solana_indexer_plugin.Plugin.{GeyserPluginPostgres, Result}

-- The statements that create the schema; `handlers` is the order in which the map is iterated.
unfoldable pub init_query : List AccountHandler → String
init_query handlers =
    join_texts "" (map handler_schema handlers)
    <> (slot_schema <> (block_schema <> transaction_schema))

-- The slot below which accounts are skipped at startup.
unfoldable pub starting_slot :
    (D : Database) → GeyserPluginPostgresConfig → D.State → Exit (Option ℕ)
unfolding get_highest_available_slot
starting_slot D config db = elim config.skip_upsert_existing_accounts_at_startup [
  | true ↦ do
    highest ← get_highest_available_slot D db
    ok (some (highest - config.safe_batch_starting_slot_cushion))
  | false ↦ ok none
]

-- What follows the execution of the schema's statements.
unfoldable pub after_init :
    (D : Database)
    → GeyserPluginPostgresConfig
    → Option String × D.State
    → Exit (ParallelClient × Option ℕ)
unfolding starting_slot
after_init D config (some e, db) =
    err (custom (data_schema_error ("[build_pararallel_postgres_client] error=[" <> (e <> "]"))))
after_init D config (none, db) = do
  slot ← starting_slot D config db
  ok (new_parallel_client config.threads, slot)

-- `PostgresClientBuilder::build_pararallel_postgres_client`
unfoldable pub build_parallel_client :
    {D : Database}
    → Connector D
    → List AccountHandler
    → GeyserPluginPostgresConfig
    → Exit (ParallelClient × Option ℕ)
build_parallel_client {D} C handlers config = do
  db ← connect_to_db C config
  after_init D config (D.execute_schema (init_query handlers) db)

-- `config.selector.as_ref().map(Selector::new)`; `none` is a panic
unfoldable pub map_new {ℓ κ} :
    {A : Type ℓ} {B : Type κ} → (A → Option B) → Option A → Option (Option B)
map_new new none = some none
map_new new (some config) = elim (new config) [ none ↦ none | some s ↦ some (some s) ]

module _ (X : Crates) where
  -- The plugin after the selectors are built.
  unfoldable pub with_selectors : GeyserPluginPostgresConfig → GeyserPluginPostgres → Result
  with_selectors config p = elim (map_new (new_accounts_selector X) config.accounts_selector) [
    | none ↦ (panic, p)
    | some accounts ↦ elim (map_new (new_transaction_selector X) config.transaction_selector) [
      | none ↦ (panic, record p { accounts_selector = accounts })
      | some transactions ↦ (
        ok tt,
        record p {
          config = some config;
          accounts_selector = accounts;
          transaction_selector = transactions;
        },
      )
    ]
  ]

  unfoldable pub finish_load :
      GeyserPluginPostgresConfig → Exit (ParallelClient × Option ℕ) → GeyserPluginPostgres → Result
  finish_load config (ok (client, slot)) p =
      with_selectors config (record p { client = some client; batch_starting_slot = slot })
  finish_load config (err e) p = (err e, p)
  finish_load config panic p = (panic, p)

  -- `GeyserPlugin::on_load`
  unfoldable pub on_load :
      {D : Database}
      → ConfigFiles
      → Connector D
      → List AccountHandler
      → String
      → GeyserPluginPostgres
      → Result
  unfolding finish_load
  on_load F C handlers config_file p = elim (read_from F config_file) [
    | ok config ↦ finish_load config (build_parallel_client C handlers config) p
    | err e ↦ (err e, p)
    | panic ↦ (panic, p)
  ]

-- `GeyserPlugin::on_unload`; `ends` is how the threads end
unfoldable pub on_unload : (ℕ → Thread) → GeyserPluginPostgres → Result
unfolding join
on_unload ends p = elim p.client [
  | none ↦ (ok tt, p)
  | some c ↦ let (exit, c') = join ends c in (exit, record p { client = some c' })
]
