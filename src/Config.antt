-- ===== src/Config.antt =====
-- config.rs, and the configuration types of accounts_selector.rs and transaction_selector.rs.
use solana_indexer_plugin.Base.{ℕ, ◌*◌, String, StringMap, Bool, false, Option, none, List}
use solana_indexer_plugin.Errors.{Exit, ok, err, config_file_open_error, config_file_read_error}

-- `AccountHandlerConfig`
pub record AccountHandlerConfig : Type 0 where
  pub handler_id : String
  pub skip_on_startup : Option Bool

-- `AccountsSelectorConfig`
pub record AccountsSelectorConfig : Type 0 where
  pub accounts : Option (StringMap (List AccountHandlerConfig))
  pub owners : Option (StringMap (List AccountHandlerConfig))

-- `TransactionSelectorConfig`
pub record TransactionSelectorConfig : Type 0 where
  pub mentions : List String

-- `GeyserPluginPostgresConfig`
pub record GeyserPluginPostgresConfig : Type 0 where
  pub connection_str : String
  pub accounts_selector : Option AccountsSelectorConfig
  pub transaction_selector : Option TransactionSelectorConfig
  pub threads : ℕ
  pub batch_size : ℕ
  pub panic_on_db_errors : Bool
  pub use_ssl : Option Bool
  pub server_ca : Option String
  pub client_cert : Option String
  pub client_key : Option String
  pub skip_upsert_existing_accounts_at_startup : Bool
  pub safe_batch_starting_slot_cushion : ℕ

-- `GeyserPluginPostgresConfig::default`
abbrev pub default_config : GeyserPluginPostgresConfig
default_config = record {
  connection_str = "";
  accounts_selector = none;
  transaction_selector = none;
  threads = 10;
  batch_size = 10;
  panic_on_db_errors = false;
  use_ssl = none;
  server_ca = none;
  client_cert = none;
  client_key = none;
  skip_upsert_existing_accounts_at_startup = false;
  safe_batch_starting_slot_cushion = 2 * 40960;
}

-- A fallible call of the system or of another crate: its value, or the error's text.
pub data Attempt {ℓ} (A : Type ℓ) : Type ℓ where
  done : A → Attempt A
  failed : String → Attempt A

-- `File::open` and `serde_json::from_reader`, with their errors' texts.
pub record ConfigFiles : Type 1 where
  pub File : Type 0
  pub open_file : String → Attempt File
  pub from_reader : File → Attempt GeyserPluginPostgresConfig

-- `GeyserPluginPostgresConfig::read_from`
unfoldable pub read_from : ConfigFiles → String → Exit GeyserPluginPostgresConfig
read_from F config_path = elim (F.open_file config_path) [
  | failed e ↦ err (config_file_open_error e)
  | done file ↦ elim (F.from_reader file) [
    | failed e ↦ err (config_file_read_error e)
    | done this ↦ ok this
  ]
]
