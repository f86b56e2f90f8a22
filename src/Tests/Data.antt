-- ===== src/Tests/Data.antt =====
-- Functions in the place of the other crates, a database in memory, and the data of the runs.
use solana_indexer_plugin.Base.{ℕ, pos, true, false, String, none, some, List, [], ◌∷◌, ◌≡◌, refl}
use solana_indexer_plugin.Account.{ReplicaAccountInfoV2, DbAccountInfo}
use solana_indexer_plugin.Crates.{Crates, processed, rooted, confirmed}
use solana_indexer_plugin.Config.{
  AccountHandlerConfig, AccountsSelectorConfig, GeyserPluginPostgresConfig, default_config, done,
}
use solana_indexer_plugin.Handlers.{all_account_handlers}
use solana_indexer_plugin.Handlers.Selected.{IsBase58}
use solana_indexer_plugin.Database.{Database}
use solana_indexer_plugin.Client.{SimplePostgresClient}
use solana_indexer_plugin.Client.Refinement.{IsTransactional}
use solana_indexer_plugin.Sql.{Statement, AccountRow}
use solana_indexer_plugin.Sql.Tables.{Tables, execute_all}
use solana_indexer_plugin.Tests.Codec.{encode, decode, decode-encode, encode-decode}

abbrev pub crates : Crates
crates = record {
  bs58_encode = encode;
  bs58_decode = decode;
  pubkey = λ text. 1 ∷ [];
  pubkey_text = encode;
  hex_encode = encode;
  hash = λ bytes. bytes;
  deserialize_creators = λ bytes. none;
  deserialize_token_manager = λ bytes. none;
  debug = λ error. "error";
  status_text = λ status. elim status [
    | processed ↦ "processed"
    | rooted ↦ "rooted"
    | confirmed ↦ "confirmed"
  ];
  debug_text = λ text. text;
  send_error = "SendError";
}

pub crates-IsBase58 : IsBase58 crates
crates-IsBase58 = record { decode-encode = decode-encode; encode-decode = encode-decode }

-- The tables themselves; no call fails.
abbrev pub memory : Database
memory = record {
  State = Tables;
  batch_execute = λ query tables. (none, execute_all query tables);
  execute_schema = λ query tables. (none, tables);
  query_opt = λ query tables. done (some (pos 100));
  prepare = λ query tables. done query;
  query_block = λ statement block now tables. (none, tables);
  query_transaction = λ statement transaction now tables. (none, tables);
}

pub memory-IsTransactional : IsTransactional memory (λ tables. tables)
memory-IsTransactional = record {
  executed = λ query tables h. refl;
  rolled_back = λ query tables e h. absurd query tables e h;
}
  where
    absurd :
        (query : List Statement) (tables : Tables) (e : String)
        → (memory.batch_execute query tables).0 ≡ some e
        → execute_all query tables ≡ tables
    absurd query tables e h = cc

abbrev pub unknown_handlers : List AccountHandlerConfig
unknown_handlers = record { handler_id = "unknown_account"; skip_on_startup = none } ∷ []

-- All accounts of the owner `[2]` go to the handler of unknown accounts.
abbrev pub selector_config : AccountsSelectorConfig
selector_config = record { accounts = none; owners = some (("aab", unknown_handlers) ∷ []) }

abbrev pub account : DbAccountInfo
account = record {
  pubkey = 3 ∷ [];
  lamports = pos 10;
  owner = 2 ∷ [];
  executable = false;
  rent_epoch = pos 0;
  contents = [];
  slot = pos 7;
  write_version = pos 1;
  txn_signature = none;
}

abbrev pub account_row : ℕ → ℕ → AccountRow
account_row slot write_version = record {
  pubkey = "aaab";
  slot = pos slot;
  owner = "aab";
  lamports = pos 10;
  executable = false;
  rent_epoch = pos 0;
  contents = "";
  write_version = pos write_version;
  updated_on = "now";
  txn_signature = none;
}

abbrev pub client : SimplePostgresClient
client = record {
  batch_size = 10;
  slots_at_startup = [];
  pending_account_updates = [];
  block_statement = "";
  transaction_statement = "";
  account_handlers = all_account_handlers;
  account_selector = some selector_config;
}

abbrev pub config : GeyserPluginPostgresConfig
config = record default_config {
  accounts_selector = some selector_config;
  skip_upsert_existing_accounts_at_startup = true;
  safe_batch_starting_slot_cushion = 40;
}

abbrev pub replica_account : ReplicaAccountInfoV2
replica_account = record {
  pubkey = 3 ∷ [];
  lamports = 10;
  owner = 2 ∷ [];
  executable = false;
  rent_epoch = 0;
  contents = [];
  write_version = 1;
}
