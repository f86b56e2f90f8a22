-- ===== src/Builder/Loaded.antt =====
-- What the plugin does after it was loaded, in terms of its configuration.
use solana_indexer_plugin.Base.{
  ℕ, ◌+◌, Bool, true, false, not, ◌&&◌, ◌||◌, String, Bytes, Option, none, some, List, ltb, ◌≡◌,
  refl, ap, arith, Option-cases, inl, inr, as_u64, ℤ,
}
use solana_indexer_plugin.Errors.{Exit, ok, err, panic, >>=-eq-ok, Exit-cases}
use solana_indexer_plugin.Crates.{Crates}
use solana_indexer_plugin.Account.{ReplicaAccountInfoV2}
use solana_indexer_plugin.Config.{
  GeyserPluginPostgresConfig, AccountsSelectorConfig, ConfigFiles, read_from, done,
}
use solana_indexer_plugin.Database.{Database}
use solana_indexer_plugin.Connect.{Connector, connect_to_db}
use solana_indexer_plugin.Handlers.{AccountHandler}
use solana_indexer_plugin.Handlers.Selected.{IsBase58, has_entry, is_account_selected-eq-has_entry}
use solana_indexer_plugin.AccountsSelector.{
  AccountsSelector, new_accounts_selector, is_account_selected,
}
use solana_indexer_plugin.TransactionSelector.{new_transaction_selector}
use solana_indexer_plugin.ParallelClient.{ParallelClient, new_parallel_client}
use solana_indexer_plugin.Plugin.{GeyserPluginPostgres, skips}
use solana_indexer_plugin.Plugin.Callbacks.{wants}
use solana_indexer_plugin.Builder.{
  map_new, with_selectors, finish_load, on_load, build_parallel_client, after_init, init_query,
  starting_slot,
}

-- The configuration names handlers for the account or for its owner.
abbrev pub configured : Crates → Option AccountsSelectorConfig → Bytes → Bytes → Bool
configured X none account owner = false
configured X (some config) account owner =
    has_entry config.accounts (X.bs58_encode account)
    || has_entry config.owners (X.bs58_encode owner)

-- The selector's answer.
abbrev pub selects : Option AccountsSelector → Bytes → Bytes → Bool
selects none account owner = false
selects (some s) account owner = is_account_selected s account owner

selects-map_new :
    (X : Crates) (base58 : IsBase58 X) (config : Option AccountsSelectorConfig)
    (s : Option AccountsSelector) (account owner : Bytes)
    → map_new (new_accounts_selector X) config ≡ some s
    → selects s account owner ≡ configured X config account owner
unfolding map_new
selects-map_new X base58 none s account owner h = ground arith
selects-map_new X base58 (some config) s account owner h =
    elim (Option-cases (new_accounts_selector X config)) [
      | inl e ↦ ground arith
      | inr (t, e) ↦
          ground (arith, is_account_selected-eq-has_entry X base58 config t account owner e)
    ]

-- What a load that succeeded leaves in the plugin.
pub record IsLoaded (X : Crates) (p : GeyserPluginPostgres) : Type 0 where
  pub config : GeyserPluginPostgresConfig
  pub stored : p.config ≡ some config
  pub client : p.client ≡ some (new_parallel_client config.threads)
  pub accounts :
      map_new (new_accounts_selector X) config.accounts_selector ≡ some p.accounts_selector
  pub transactions :
      map_new (new_transaction_selector X) config.transaction_selector ≡ some p.transaction_selector

with_selectors-IsLoaded :
    (X : Crates) (config : GeyserPluginPostgresConfig) (p q : GeyserPluginPostgres)
    → p.client ≡ some (new_parallel_client config.threads)
    → with_selectors X config p ≡ (ok tt, q)
    → IsLoaded X q
unfolding with_selectors
with_selectors-IsLoaded X config p q connected h =
    elim (Option-cases (map_new (new_accounts_selector X) config.accounts_selector)) [
      | inl e ↦ ground arith
      | inr (a, e) ↦
          elim (Option-cases (map_new (new_transaction_selector X) config.transaction_selector)) [
            | inl f ↦ ground arith
            | inr (t, f) ↦ record {
              config = config;
              stored = ground arith;
              client = ground arith;
              accounts = ground arith;
              transactions = ground arith;
            }
          ]
    ]

client-after_init :
    (D : Database) (config : GeyserPluginPostgresConfig) (r : Option String × D.State)
    (c : ParallelClient) (slot : Option ℕ)
    → after_init D config r ≡ ok (c, slot)
    → c ≡ new_parallel_client config.threads
unfolding after_init
client-after_init D config (some e, db) c slot h = cc
client-after_init D config (none, db) c slot h =
    let (bound, _, made) = >>=-eq-ok (starting_slot D config db) _ h in ground arith

client-build_parallel_client :
    {D : Database} (C : Connector D) (handlers : List AccountHandler)
    (config : GeyserPluginPostgresConfig) (c : ParallelClient) (slot : Option ℕ)
    → build_parallel_client C handlers config ≡ ok (c, slot)
    → c ≡ new_parallel_client config.threads
unfolding build_parallel_client
client-build_parallel_client {D} C handlers config c slot h =
    let (db, _, made) = >>=-eq-ok (connect_to_db C config) _ h in
    client-after_init D config (D.execute_schema (init_query handlers) db) c slot made

finish_load-IsLoaded :
    (X : Crates) {D : Database} (C : Connector D) (handlers : List AccountHandler)
    (config : GeyserPluginPostgresConfig) (r : Exit (ParallelClient × Option ℕ))
    (p q : GeyserPluginPostgres)
    → build_parallel_client C handlers config ≡ r
    → finish_load X config r p ≡ (ok tt, q)
    → IsLoaded X q
unfolding finish_load
finish_load-IsLoaded X C handlers config (ok (c, slot)) p q e h =
    with_selectors-IsLoaded X config _ q
      (ap some (client-build_parallel_client C handlers config c slot e)) h
finish_load-IsLoaded X C handlers config (err e) p q f h = ground arith
finish_load-IsLoaded X C handlers config panic p q f h = ground arith

on_load-IsLoaded :
    (X : Crates) {D : Database} (F : ConfigFiles) (C : Connector D) (handlers : List AccountHandler)
    (config_file : String) (p q : GeyserPluginPostgres)
    → on_load X F C handlers config_file p ≡ (ok tt, q)
    → IsLoaded X q
unfolding on_load
on_load-IsLoaded X F C handlers config_file p q h = elim (Exit-cases (read_from F config_file)) [
  | inl (config, e) ↦
      finish_load-IsLoaded X C handlers config (build_parallel_client C handlers config) p q refl
        (ground arith)
  | inr (inl (e, f)) ↦ ground arith
  | inr (inr f) ↦ ground arith
]

-- If base 58 encoding and decoding are inverse, after a load that succeeded an account is wanted
-- exactly if it is not below the starting slot at startup and the configuration that the plugin
-- stored names handlers for it or for its owner.
pub wants-on_load :
    (X : Crates) (base58 : IsBase58 X) {D : Database} (F : ConfigFiles) (C : Connector D)
    (handlers : List AccountHandler) (config_file : String) (p q : GeyserPluginPostgres)
    (account : ReplicaAccountInfoV2) (slot : ℕ) (is_startup : Bool)
    → on_load X F C handlers config_file p ≡ (ok tt, q)
    → (config : GeyserPluginPostgresConfig) × (q.config ≡ some config)
      × (wants q account slot is_startup ≡ (
          not (skips is_startup slot q.batch_starting_slot)
          && configured X config.accounts_selector account.pubkey account.owner))
wants-on_load X base58 F C handlers config_file p q account slot is_startup h = (
  loaded.config,
  loaded.stored,
  ground (
    arith,
    selects-map_new X base58 loaded.config.accounts_selector q.accounts_selector account.pubkey
        account.owner loaded.accounts,
  ),
)
  where
    loaded : IsLoaded X q
    loaded = on_load-IsLoaded X F C handlers config_file p q h

-- Where the skip is configured and the table of slots has the highest slot `raw_slot`, an account is
-- skipped exactly at startup and if its slot, plus the configured cushion, is below that slot.
pub skips-starting_slot :
    (D : Database) (config : GeyserPluginPostgresConfig) (db : D.State) (raw_slot : ℤ)
    (bound : Option ℕ) (slot : ℕ) (is_startup : Bool)
    → config.skip_upsert_existing_accounts_at_startup ≡ true
    → D.query_opt "SELECT slot FROM slot ORDER BY slot DESC LIMIT 1;" db ≡ done (some raw_slot)
    → starting_slot D config db ≡ ok bound
    → skips is_startup slot bound
      ≡ (is_startup && ltb (slot + config.safe_batch_starting_slot_cushion) (as_u64 raw_slot))
unfolding starting_slot skips
skips-starting_slot D config db raw_slot bound slot is_startup on found h = ground arith
