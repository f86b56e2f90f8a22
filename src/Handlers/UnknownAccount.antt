-- ===== src/Handlers/UnknownAccount.antt =====
-- unknown_account_handler.rs
use solana_indexer_plugin.Base.{Bool, true, not, String, Option, some, List, [], ◌∷◌, if◌then◌else◌}
use mathlib.Core.Option
use solana_indexer_plugin.Account.{DbAccountInfo}
use solana_indexer_plugin.Crates.{Crates}
use solana_indexer_plugin.Sql.{Statement, upsert_account}

-- `UnknownAccountHandler::account_match`
abbrev pub match_unknown_account : DbAccountInfo → Bool
match_unknown_account account = true

-- `UnknownAccountHandler::account_update`; `now` is the reading of the clock
unfoldable pub update_unknown_account : Crates → String → DbAccountInfo → Option (List Statement)
update_unknown_account X now account =
    if not (match_unknown_account account)
    then some []
    else some (
        upsert_account (record {
          pubkey = X.hex_encode account.pubkey;
          slot = account.slot;
          owner = X.hex_encode account.owner;
          lamports = account.lamports;
          executable = account.executable;
          rent_epoch = account.rent_epoch;
          contents = X.hex_encode account.contents;
          write_version = account.write_version;
          updated_on = now;
          txn_signature = Option.map X.hex_encode account.txn_signature;
        })
        ∷ [])
