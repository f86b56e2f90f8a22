-- ===== src/TransactionSelector.antt =====
-- transaction_selector.rs: which transactions are of interest.
pub mod Selection
use solana_indexer_plugin.Base.{
  Bool, true, false, not, ◌||◌, ◌&&◌, Bytes, ByteSet, contains, no_bytes, String, str_eq, Option,
  some, List, [], ◌∷◌, any, bind, if◌then◌else◌,
}
use solana_indexer_plugin.Crates.{Crates}
use solana_indexer_plugin.Config.{TransactionSelectorConfig}
use solana_indexer_plugin.AccountsSelector.{decode_keys}

-- `TransactionSelector`
pub record TransactionSelector : Type 0 where
  pub mentioned_addresses : ByteSet
  pub select_all_transactions : Bool
  pub select_all_vote_transactions : Bool

-- `TransactionSelector::new`; `none` is the panic of `unwrap`
unfoldable pub new_transaction_selector :
    Crates → TransactionSelectorConfig → Option TransactionSelector
unfolding any decode_keys
new_transaction_selector X config =
    let select_all = any (λ key. str_eq key "*" || str_eq key "all") config.mentions in
    let select_votes = any (λ key. str_eq key "all_votes") config.mentions in
    if select_all
    then some (record {
      mentioned_addresses = [];
      select_all_transactions = select_all;
      select_all_vote_transactions = true;
    })
    else if select_votes
    then some (record {
      mentioned_addresses = [];
      select_all_transactions = select_all;
      select_all_vote_transactions = true;
    })
    else bind (decode_keys X config.mentions) (λ addresses. some (record {
      mentioned_addresses = addresses;
      select_all_transactions = false;
      select_all_vote_transactions = false;
    }))

-- `TransactionSelector::is_enabled`
abbrev pub transactions_enabled : TransactionSelector → Bool
transactions_enabled s =
    s.select_all_transactions
    || (s.select_all_vote_transactions || not (no_bytes s.mentioned_addresses))

-- The loop over the addresses.
unfoldable pub mentions_any : TransactionSelector → List Bytes → Bool
unfolding contains
mentions_any s [] = false
mentions_any s (address ∷ rest) =
    let later = mentions_any s rest in
    if contains s.mentioned_addresses address then true else later

-- `TransactionSelector::is_transaction_selected`
unfoldable pub is_transaction_selected : TransactionSelector → Bool → List Bytes → Bool
unfolding mentions_any
is_transaction_selected s is_vote addresses =
    if not (transactions_enabled s)
    then false
    else if s.select_all_transactions || (s.select_all_vote_transactions && is_vote)
    then true
    else mentions_any s addresses
