-- ===== src/Handlers/TokenManager.antt =====
-- token_manager_handler.rs
use solana_indexer_plugin.Base.{
  Bool, not, ◌&&◌, Bytes, bytes_eq, Option, none, some, List, [], ◌∷◌, map, take, get_range?,
  get_from?, bind, if◌then◌else◌, ascii,
}
use mathlib.Core.Option.{get_or}
use mathlib.Core.Option
use solana_indexer_plugin.Account.{DbAccountInfo, TokenManager}
use solana_indexer_plugin.Crates.{Crates}
use solana_indexer_plugin.Sql.{Statement, upsert_token_manager}
use solana_indexer_plugin.Handlers.TokenAccount.{as_pubkey}

abbrev pub token_manager_program_id : Crates → Bytes
token_manager_program_id X = X.pubkey "mgr99QFMYByTqGPWmNqunV7vBLmWWXdSrHUfV8Jf3JM"

-- The first eight bytes of the hash of `account:TokenManager`.
abbrev pub token_manager_discriminator : Crates → Bytes
token_manager_discriminator X = take 8 (X.hash (ascii "account:TokenManager"))

abbrev pub eight_zeros : Bytes
eight_zeros = 0 ∷ 0 ∷ 0 ∷ 0 ∷ 0 ∷ 0 ∷ 0 ∷ 0 ∷ []

-- `TokenManagerAccountHandler::account_match`
unfoldable pub match_token_manager : Crates → DbAccountInfo → Bool
match_token_manager X account =
    bytes_eq account.owner (token_manager_program_id X)
    && bytes_eq (token_manager_discriminator X)
        (get_or (get_range? account.contents 0 8) eight_zeros)

abbrev statement : Crates → DbAccountInfo → TokenManager → Bytes → Statement
statement X account m key = upsert_token_manager (record {
  id = X.pubkey_text key;
  version = m.version;
  bump = m.bump;
  count = m.count;
  num_invalidators = m.num_invalidators;
  issuer = X.pubkey_text m.issuer;
  mint = X.pubkey_text m.mint;
  amount = m.amount;
  kind = m.kind;
  state = m.state;
  state_changed_at = m.state_changed_at;
  invalidation_type = m.invalidation_type;
  recipient_token_account = X.pubkey_text m.recipient_token_account;
  receipt_mint = Option.map X.pubkey_text m.receipt_mint;
  claim_approver = Option.map X.pubkey_text m.claim_approver;
  transfer_authority = Option.map X.pubkey_text m.transfer_authority;
  invalidators = map X.pubkey_text m.invalidators;
  slot = account.slot;
})

-- `TokenManagerAccountHandler::account_update`
unfoldable pub update_token_manager : Crates → DbAccountInfo → Option (List Statement)
unfolding match_token_manager
update_token_manager X account =
    if not (match_token_manager X account)
    then some []
    else bind (get_from? account.contents 8) (λ buf. elim (X.deserialize_token_manager buf) [
      | none ↦ some []
      | some m ↦ bind (as_pubkey account.pubkey) (λ key. some (statement X account m key ∷ []))
    ])
