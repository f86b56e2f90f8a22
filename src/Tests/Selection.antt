-- ===== src/Tests/Selection.antt =====
-- What the selectors and the handlers do with one account or transaction.
use solana_indexer_plugin.Base.{
  ℕ, zero, suc, ◌≤◌, pos, true, false, ◌||◌, Bytes, none, some, [], ◌∷◌, length, ◌≡◌, ◌≢◌, ◌↔◌,
  refl, arith, if◌then◌else◌, any, lookup, take, drop,
}
use solana_indexer_plugin.Account.{DbAccountInfo}
use solana_indexer_plugin.Config.{TransactionSelectorConfig}
use solana_indexer_plugin.AccountsSelector.{
  AccountsSelector, is_account_selected, new_accounts_selector, decode_map, decode_keys,
}
use solana_indexer_plugin.TransactionSelector.{
  TransactionSelector, new_transaction_selector, is_transaction_selected,
}
use solana_indexer_plugin.TransactionSelector.Selection.{
  specified, is_transaction_selected-eq-specified,
}
use solana_indexer_plugin.Sql.{upsert_token_account}
use solana_indexer_plugin.Handlers.{
  select_account_handlers, update_token_account, match_token_account, update_metadata_creators,
  match_metadata, token_metadata_creators_offset, update_token_manager, token_manager_discriminator,
  eight_zeros,
}
use solana_indexer_plugin.Handlers.Selected.{
  has_entry, NoneSkipped, is_account_selected-eq-has_entry, select_account_handlers-rejected,
  select_account_handlers-owner_wins, select_account_handlers-NoneSkipped,
}
use solana_indexer_plugin.Handlers.Totality.{
  update_token_account-total, update_metadata_creators-panics_iff, update_token_manager-total,
}
use solana_indexer_plugin.Tests.Codec.{parse}
use solana_indexer_plugin.Tests.Data.{crates, crates-IsBase58, selector_config, account}

abbrev pub selector : AccountsSelector
selector = record { accounts = []; owners = (2 ∷ []) ∷ [] }

is_account_selected-eq-has_entry_example :
    is_account_selected selector (3 ∷ []) (2 ∷ [])
    ≡ (has_entry selector_config.accounts "aaab" || has_entry selector_config.owners "aab")
unfolding new_accounts_selector decode_map decode_keys parse
is_account_selected-eq-has_entry_example =
    is_account_selected-eq-has_entry crates crates-IsBase58 selector_config selector (3 ∷ [])
      (2 ∷ []) refl

-- An account of another owner.
abbrev stranger : DbAccountInfo
stranger = record account { owner = 4 ∷ [] }

select_account_handlers-rejected_example :
    select_account_handlers crates (some selector_config) stranger true ≡ []
unfolding new_accounts_selector decode_map decode_keys is_account_selected parse
select_account_handlers-rejected_example =
    select_account_handlers-rejected crates crates-IsBase58 selector_config selector stranger true
      refl refl

select_account_handlers-owner_wins_example :
    select_account_handlers crates (some selector_config) account false
    ≡ select_account_handlers crates
        (some (record selector_config { accounts = some (("aaab", []) ∷ []) }))
        account
        false
unfolding lookup
select_account_handlers-owner_wins_example =
    select_account_handlers-owner_wins crates selector_config (some (("aaab", []) ∷ [])) account
      false refl

select_account_handlers-NoneSkipped_example :
    NoneSkipped (select_account_handlers crates (some selector_config) account true)
select_account_handlers-NoneSkipped_example =
    select_account_handlers-NoneSkipped crates (some selector_config) account

-- `length` zeros.
abbrev zeros : ℕ → Bytes
zeros zero = []
zeros (suc n) = 0 ∷ zeros n

abbrev token_account : DbAccountInfo
token_account = record account { pubkey = zeros 32; owner = 1 ∷ []; contents = zeros 165 }

update_token_account-total_example :
    update_token_account crates token_account
    ≡ some (
        if match_token_account crates token_account
        then upsert_token_account (record {
          pubkey = crates.bs58_encode (zeros 32);
          owner = crates.bs58_encode (take 32 (drop 32 (zeros 165)));
          mint = crates.bs58_encode (take 32 (zeros 165));
          slot = pos 7;
        })
          ∷ []
        else [])
update_token_account-total_example = update_token_account-total crates token_account refl

-- An account of the metadata program with one byte of data.
abbrev short_account : DbAccountInfo
short_account = record account { owner = 1 ∷ []; contents = 4 ∷ [] }

update_metadata_creators-panics_iff_example :
    (update_metadata_creators crates short_account ≡ none) ↔ (
      (match_metadata crates short_account ≡ true)
      × (length short_account.contents ≤ token_metadata_creators_offset))
update_metadata_creators-panics_iff_example =
    update_metadata_creators-panics_iff crates short_account

not_zeros : token_manager_discriminator crates ≢ eight_zeros
not_zeros h = ground arith

update_token_manager-total_example : update_token_manager crates token_account ≢ none
update_token_manager-total_example = update_token_manager-total crates token_account refl not_zeros

abbrev mentions_config : TransactionSelectorConfig
mentions_config = record { mentions = "ab" ∷ [] }

abbrev mentions_selector : TransactionSelector
mentions_selector = record {
  mentioned_addresses = (1 ∷ []) ∷ [];
  select_all_transactions = false;
  select_all_vote_transactions = false;
}

is_transaction_selected-eq-specified_example :
    is_transaction_selected mentions_selector true ((1 ∷ []) ∷ [])
    ≡ specified crates ("ab" ∷ []) true ((1 ∷ []) ∷ [])
unfolding new_transaction_selector decode_keys any parse
is_transaction_selected-eq-specified_example =
    is_transaction_selected-eq-specified crates mentions_config mentions_selector true
      ((1 ∷ []) ∷ []) refl
