-- ===== src/Plugin/Callbacks.antt =====
-- What the calls of the validator put into the queue.
use solana_indexer_plugin.Base.{
  ℕ, Bool, true, false, not, ◌&&◌, String, ◌<>◌, none, some, [], ◌∷◌, ◌++◌, if◌then◌else◌, ◌≡◌,
  arith,
}
use solana_indexer_plugin.Errors.{ok, err, accounts_update_error}
use solana_indexer_plugin.Account.{ReplicaAccountInfoV2, new_account}
use solana_indexer_plugin.Crates.{Crates}
use solana_indexer_plugin.AccountsSelector.{is_account_selected}
use solana_indexer_plugin.Worker.{WorkRequest}
use solana_indexer_plugin.Worker
use solana_indexer_plugin.ParallelClient.{ParallelClient, send_account}
use solana_indexer_plugin.Plugin.{
  GeyserPluginPostgres, ReplicaAccountInfoVersions, skips, update_account,
}

-- The account is wanted: it is not skipped, and the selector selects it.
abbrev pub wants : GeyserPluginPostgres → ReplicaAccountInfoV2 → ℕ → Bool → Bool
wants p account slot is_startup =
    not (skips is_startup slot p.batch_starting_slot) && elim p.accounts_selector [
      | none ↦ false
      | some s ↦ is_account_selected s account.pubkey account.owner
    ]

-- While a worker receives, a call with an account succeeds, and appends one request for the account to
-- the queue if the account is wanted, and changes nothing if it is not.
pub update_account-sent :
    (X : Crates) (p : GeyserPluginPostgres) (c : ParallelClient) (account : ReplicaAccountInfoV2)
    (slot : ℕ) (is_startup : Bool)
    → p.client ≡ some c
    → c.is_connected ≡ true
    → update_account X (ReplicaAccountInfoVersions.v0_0_2 account) slot is_startup p ≡ (
      ok tt,
      if wants p account slot is_startup
          then record p {
            client = some (record c {
              sent = c.sent ++ (Worker.update_account (new_account account slot) is_startup ∷ []);
            });
          }
          else p,
    )
unfolding update_account send_account
update_account-sent X p c account slot is_startup loaded connected = ground arith

-- Once no worker receives any more, a call with an account in the supported format that is wanted
-- fails, and the plugin and its queue stay as they were.
pub update_account-disconnected :
    (X : Crates) (p : GeyserPluginPostgres) (c : ParallelClient) (account : ReplicaAccountInfoV2)
    (slot : ℕ) (is_startup : Bool)
    → p.client ≡ some c
    → c.is_connected ≡ false
    → wants p account slot is_startup ≡ true
    → (message : String) × (update_account X
          (ReplicaAccountInfoVersions.v0_0_2 account)
          slot
          is_startup
          p
        ≡ (err (accounts_update_error message), p))
unfolding update_account send_account
update_account-disconnected X p c account slot is_startup loaded gone wanted = (
  "Failed to persist the update of account to the PostgreSQL database. Error: "
      <> X.debug (
          accounts_update_error (
            "Failed to update the account "
            <> (X.debug_text (X.bs58_encode account.pubkey) <> (", error: " <> X.send_error)))),
  ground arith,
)
