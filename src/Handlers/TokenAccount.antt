-- ===== src/Handlers/TokenAccount.antt =====
-- token_account_handler.rs
use solana_indexer_plugin.Base.{
  ℕ, Bool, not, ◌&&◌, ◌||◌, Bytes, bytes_eq, Option, none, some, List, [], ◌∷◌, length, get_elem?,
  get_range?, bind, if◌then◌else◌, ◌==◌,
}
use mathlib.Core.Option.{get_or}
use solana_indexer_plugin.Account.{DbAccountInfo}
use solana_indexer_plugin.Crates.{Crates}
use solana_indexer_plugin.Sql.{Statement, upsert_token_account}

abbrev pub pubkey_bytes : ℕ
pubkey_bytes = 32

abbrev pub spl_token_account_length : ℕ
spl_token_account_length = 165

abbrev pub token_program_id : Crates → Bytes
token_program_id X = X.pubkey "TokenkegQfeZyiNwAJbNbGKPFXCWuBvf9Ss623VQ5DA"

abbrev pub tokenz_program_id : Crates → Bytes
tokenz_program_id X = X.pubkey "TokenzQdBNbLqP5VEhdkAS6EPFLC1PHnBqCXEpPxuEb"

-- `TokenAccountHandler::account_match`
unfoldable pub match_token_account : Crates → DbAccountInfo → Bool
match_token_account X account =
    bytes_eq account.owner (token_program_id X)
      && (length account.contents == spl_token_account_length)
    || bytes_eq account.owner (tokenz_program_id X)
      && (2 == get_or (get_elem? account.contents spl_token_account_length) 0)

-- `account.pubkey[..].try_into().unwrap()` into 32 bytes; `none` is the panic
abbrev pub as_pubkey : Bytes → Option Bytes
as_pubkey bytes = if length bytes == pubkey_bytes then some bytes else none

-- `TokenAccountHandler::account_update`
unfoldable pub update_token_account : Crates → DbAccountInfo → Option (List Statement)
unfolding match_token_account
update_token_account X account =
    if not (match_token_account X account)
    then some []
    else bind (get_range? account.contents 0 pubkey_bytes) (λ mint.
      bind (get_range? account.contents 32 pubkey_bytes) (λ owner.
        bind (as_pubkey account.pubkey) (λ pubkey. some (
          upsert_token_account (record {
            pubkey = X.bs58_encode pubkey;
            owner = X.bs58_encode owner;
            mint = X.bs58_encode mint;
            slot = account.slot;
          })
          ∷ []))))
