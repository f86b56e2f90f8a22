-- ===== src/Tests/Loading.antt =====
-- What the plugin does once it is loaded, and how it connects.
use solana_indexer_plugin.Tests.Selection.{selector}
use solana_indexer_plugin.Base.{
  ◌+◌, pos, true, false, not, ◌&&◌, none, some, [], ◌∷◌, ◌≡◌, refl, if◌then◌else◌, ltb, as_u64,
  contains, bytes_eq, String,
}
use solana_indexer_plugin.Errors.{ok, err, accounts_update_error}
use solana_indexer_plugin.Account.{new_account}
use solana_indexer_plugin.Block.{ReplicaBlockInfo}
use solana_indexer_plugin.Config.{GeyserPluginPostgresConfig, ConfigFiles, done, read_from}
use solana_indexer_plugin.Connect.{Connector, connect_to_db, connected}
use solana_indexer_plugin.AccountsSelector.{
  is_account_selected, new_accounts_selector, decode_map, decode_keys,
}
use solana_indexer_plugin.ParallelClient.{
  ParallelClient, new_parallel_client, Thread, finished, panicked, spawned, join, join_workers,
}
use solana_indexer_plugin.Errors.{panic}
use solana_indexer_plugin.Builder.{on_unload}
use solana_indexer_plugin.Worker
use solana_indexer_plugin.Plugin.{
  GeyserPluginPostgres, new_plugin, ReplicaAccountInfoVersions, update_account, skips,
}
use solana_indexer_plugin.Plugin.Callbacks.{wants, update_account-sent, update_account-disconnected}
use solana_indexer_plugin.Builder.{
  on_load, finish_load, build_parallel_client, after_init, starting_slot, with_selectors, map_new,
}
use solana_indexer_plugin.Slot.{get_highest_available_slot}
use solana_indexer_plugin.Builder.Loaded.{configured, wants-on_load, skips-starting_slot}
use solana_indexer_plugin.Sql.Tables.{no_rows}
use solana_indexer_plugin.Base.{inr, ℕ, ◌==◌}
use solana_indexer_plugin.Errors.{config_file_read_error}
use solana_indexer_plugin.Connect.Settings.{connect_to_db-missing}
use solana_indexer_plugin.Tests.Codec.{parse}
use solana_indexer_plugin.Tests.Data.{crates, crates-IsBase58, memory, config, replica_account}

-- The plugin once it is loaded.
abbrev plugin : ParallelClient → GeyserPluginPostgres
plugin c = record {
  config = some config;
  client = some c;
  accounts_selector = some selector;
  transaction_selector = none;
  batch_starting_slot = some 60;
}

abbrev ten_workers : ParallelClient
ten_workers = new_parallel_client 10

update_account-sent_example :
    update_account crates
      (ReplicaAccountInfoVersions.v0_0_2 replica_account)
      70
      true
      (plugin ten_workers)
    ≡ (
      ok tt,
      if wants (plugin ten_workers) replica_account 70 true
          then plugin (record ten_workers {
            sent = Worker.update_account (new_account replica_account 70) true ∷ [];
          })
          else plugin ten_workers,
    )
update_account-sent_example =
    update_account-sent crates (plugin ten_workers) ten_workers replica_account 70 true refl refl

abbrev disconnected : ParallelClient
disconnected = record ten_workers { is_connected = false }

update_account-disconnected_example :
    (message : String) × (update_account crates
        (ReplicaAccountInfoVersions.v0_0_2 replica_account)
        70
        true
        (plugin disconnected)
      ≡ (err (accounts_update_error message), plugin disconnected))
unfolding skips is_account_selected contains bytes_eq
update_account-disconnected_example =
    update_account-disconnected crates (plugin disconnected) disconnected replica_account 70 true
      refl refl refl

abbrev block : ReplicaBlockInfo
block = record {
  slot = 7;
  blockhash = "hash";
  rewards = [];
  block_time = none;
  block_height = some 6;
}

abbrev files : ConfigFiles
files = record { File = Unit {0}; open_file = λ path. done tt; from_reader = λ file. done config }

abbrev connector : Connector memory
connector = record {
  builder = done tt;
  set_ca_file = λ path. none;
  set_certificate_file = λ path. none;
  set_private_key_file = λ path. none;
  connect = λ text tls. done no_rows;
}

wants-on_load_example :
    (c : GeyserPluginPostgresConfig) × ((plugin ten_workers).config ≡ some c)
    × (wants (plugin ten_workers) replica_account 70 true ≡ (
        not (skips true 70 (some 60)) && configured crates c.accounts_selector (3 ∷ []) (2 ∷ [])))
unfolding on_load read_from finish_load build_parallel_client connect_to_db connected after_init
    starting_slot get_highest_available_slot with_selectors map_new new_accounts_selector decode_map
    decode_keys parse as_u64
wants-on_load_example =
    wants-on_load crates crates-IsBase58 files connector [] "config.json" new_plugin
      (plugin ten_workers) replica_account 70 true refl

skips-starting_slot_example : skips true 50 (some 60) ≡ (true && ltb (50 + 40) (as_u64 (pos 100)))
unfolding starting_slot get_highest_available_slot as_u64
skips-starting_slot_example =
    skips-starting_slot memory config no_rows (pos 100) (some 60) 50 true refl refl refl

-- A configuration of TLS without the key.
abbrev tls_config : GeyserPluginPostgresConfig
tls_config = record config {
  use_ssl = some true;
  server_ca = some "ca.pem";
  client_cert = some "cert.pem";
}

connect_to_db-missing_example :
    (message : String) × (connect_to_db connector tls_config ≡ err (config_file_read_error message))
connect_to_db-missing_example = connect_to_db-missing connector tls_config refl (inr (inr refl))

-- The thread of the second worker panics, the others do not.
abbrev ends : ℕ → Thread
ends i = if i == 1 then panicked else finished

abbrev three_workers : GeyserPluginPostgres
three_workers = plugin (new_parallel_client 3)

unload-panics :
    on_unload ends three_workers
    ≡ (panic, plugin (record (new_parallel_client 3) { exit_worker = true; workers = 0 ∷ [] }))
unfolding on_unload join join_workers spawned
unload-panics = refl
