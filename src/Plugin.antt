-- ===== src/Plugin.antt =====
-- geyser_plugin_postgres.rs: the calls of the validator.
pub mod Callbacks
pub mod WriteVersions
use solana_indexer_plugin.Base.{
  ℕ, ◌-◌, Bool, true, false, not, ◌&&◌, String, ◌<>◌, Bytes, Option, none, some, List, [], ◌∷◌, ltb,
  if◌then◌else◌,
}
use solana_indexer_plugin.Errors.{
  Exit, ok, err, panic, GeyserPluginError, accounts_update_error, slot_status_update_error, custom,
  connection_error,
}
use solana_indexer_plugin.Account.{ReplicaAccountInfoV2}
use solana_indexer_plugin.Block.{ReplicaBlockInfo}
use solana_indexer_plugin.Transaction.{ReplicaTransactionInfoV2}
use solana_indexer_plugin.Crates.{Crates, SlotStatus}
use solana_indexer_plugin.Config.{GeyserPluginPostgresConfig}
use solana_indexer_plugin.AccountsSelector.{AccountsSelector, is_account_selected, accounts_enabled}
use solana_indexer_plugin.TransactionSelector.{
  TransactionSelector, is_transaction_selected, transactions_enabled,
}
use solana_indexer_plugin.ParallelClient.{
  ParallelClient, Call, send_account, send_slot_status, send_block_metadata, send_transaction,
}

-- `GeyserPluginPostgres`
pub record GeyserPluginPostgres : Type 0 where
  pub config : Option GeyserPluginPostgresConfig
  pub client : Option ParallelClient
  pub accounts_selector : Option AccountsSelector
  pub transaction_selector : Option TransactionSelector
  pub batch_starting_slot : Option ℕ

-- `GeyserPluginPostgres::new`
abbrev pub new_plugin : GeyserPluginPostgres
new_plugin = record {
  config = none;
  client = none;
  accounts_selector = none;
  transaction_selector = none;
  batch_starting_slot = none;
}

-- `_create_plugin`: what the validator gets a pointer to
abbrev pub create_plugin : GeyserPluginPostgres
create_plugin = new_plugin

-- Of the versioned structs the program reads one version.
pub data ReplicaAccountInfoVersions : Type 0 where
  v0_0_1 : ReplicaAccountInfoVersions
  v0_0_2 : ReplicaAccountInfoV2 → ReplicaAccountInfoVersions

pub data ReplicaTransactionInfoVersions : Type 0 where
  v0_0_1 : ReplicaTransactionInfoVersions
  v0_0_2 : ReplicaTransactionInfoV2 → ReplicaTransactionInfoVersions

pub data ReplicaBlockInfoVersions : Type 0 where
  v0_0_1 : ReplicaBlockInfo → ReplicaBlockInfoVersions

-- `client_err`
abbrev pub client_err : Exit (Unit {0})
client_err = err (custom (connection_error "Client not connected."))

abbrev pub Result : Type 0
Result = Exit (Unit {0}) × GeyserPluginPostgres

-- The plugin after a call of its client, with an error wrapped once more.
unfoldable pub after :
    (GeyserPluginError → GeyserPluginError) → GeyserPluginPostgres → Call → Result
after wrap p (ok _, c) = (ok tt, record p { client = some c })
after wrap p (err e, c) = (err (wrap e), record p { client = some c })
after wrap p (panic, c) = (panic, record p { client = some c })

-- `is_startup && batch_starting_slot.map(|slot_limit| slot < slot_limit).unwrap_or(false)`
unfoldable pub skips : Bool → ℕ → Option ℕ → Bool
skips is_startup slot none = false
skips is_startup slot (some slot_limit) = is_startup && ltb slot slot_limit

module _ (X : Crates) where
  -- What follows once there is a client.
  unfoldable pub update_selected :
      ReplicaAccountInfoVersions
      → ℕ
      → Bool
      → Option AccountsSelector
      → ParallelClient
      → GeyserPluginPostgres
      → Result
  unfolding after
  update_selected ReplicaAccountInfoVersions.v0_0_1 slot is_startup selector c p =
      (err (accounts_update_error "Failed to update account. Unsupported format."), p)
  update_selected (ReplicaAccountInfoVersions.v0_0_2 account) slot is_startup none c p = (ok tt, p)
  update_selected (ReplicaAccountInfoVersions.v0_0_2 account) slot is_startup (some s) c p =
      if not (is_account_selected s account.pubkey account.owner)
      then (ok tt, p)
      else after
          (λ e. accounts_update_error (
            "Failed to persist the update of account to the PostgreSQL database. Error: "
            <> X.debug e))
          p (send_account X account slot is_startup c)

  -- `GeyserPlugin::update_account`
  unfoldable pub update_account :
      ReplicaAccountInfoVersions → ℕ → Bool → GeyserPluginPostgres → Result
  unfolding skips update_selected
  update_account account slot is_startup p =
      if skips is_startup slot p.batch_starting_slot then (ok tt, p) else elim p.client [
        | none ↦ (client_err, p)
        | some c ↦ update_selected account slot is_startup p.accounts_selector c p
      ]

  -- `GeyserPlugin::update_slot_status`
  unfoldable pub update_slot_status : ℕ → Option ℕ → SlotStatus → GeyserPluginPostgres → Result
  unfolding after
  update_slot_status slot parent status p = elim p.client [
    | none ↦ (client_err, p)
    | some c ↦
        after
          (λ e. slot_status_update_error (
            "Failed to persist the update of slot to the PostgreSQL database. Error: "
            <> X.debug e))
          p (send_slot_status X slot parent status c)
  ]

  unfoldable pub notify_selected :
      ReplicaTransactionInfoVersions
      → ℕ
      → Option TransactionSelector
      → ParallelClient
      → GeyserPluginPostgres
      → Result
  unfolding after
  notify_selected ReplicaTransactionInfoVersions.v0_0_1 slot selector c p = (
    err (
        slot_status_update_error
          "Failed to persist the transaction info to the PostgreSQL database. Unsupported format."),
    p,
  )
  notify_selected (ReplicaTransactionInfoVersions.v0_0_2 info) slot none c p = (ok tt, p)
  notify_selected (ReplicaTransactionInfoVersions.v0_0_2 info) slot (some s) c p =
      if not (is_transaction_selected s info.is_vote info.account_keys)
      then (ok tt, p)
      else after
          (λ e. slot_status_update_error (
            "Failed to persist the transaction info to the PostgreSQL database. Error: "
            <> X.debug e))
          p (send_transaction X info slot c)

  -- `GeyserPlugin::notify_transaction`
  unfoldable pub notify_transaction :
      ReplicaTransactionInfoVersions → ℕ → GeyserPluginPostgres → Result
  unfolding notify_selected
  notify_transaction info slot p = elim p.client [
    | none ↦ (client_err, p)
    | some c ↦ notify_selected info slot p.transaction_selector c p
  ]

  -- `GeyserPlugin::notify_block_metadata`
  unfoldable pub notify_block_metadata : ReplicaBlockInfoVersions → GeyserPluginPostgres → Result
  unfolding after
  notify_block_metadata (ReplicaBlockInfoVersions.v0_0_1 block_info) p = elim p.client [
    | none ↦ (client_err, p)
    | some c ↦
        after
          (λ e. slot_status_update_error (
            "Failed to persist the update of block metadata to the PostgreSQL database. Error: "
            <> X.debug e))
          p (send_block_metadata X block_info c)
  ]

-- `GeyserPlugin::notify_end_of_startup`, once the client's call has returned
unfoldable pub notify_end_of_startup : GeyserPluginPostgres → Result
notify_end_of_startup p = elim p.client [
  | none ↦ (client_err, p)
  | some c ↦ (ok tt, record p { client = some (record c { is_startup_done = true }) })
]

-- `GeyserPlugin::account_data_notifications_enabled`
abbrev pub account_data_notifications_enabled : GeyserPluginPostgres → Bool
account_data_notifications_enabled p = elim p.accounts_selector [
  | none ↦ false
  | some s ↦ accounts_enabled s
]

-- `GeyserPlugin::transaction_notifications_enabled`
abbrev pub transaction_notifications_enabled : GeyserPluginPostgres → Bool
transaction_notifications_enabled p = elim p.transaction_selector [
  | none ↦ false
  | some s ↦ transactions_enabled s
]
