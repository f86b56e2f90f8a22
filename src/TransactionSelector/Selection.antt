-- ===== src/TransactionSelector/Selection.antt =====
-- Which transactions a configuration selects.
use solana_indexer_plugin.Base.{
  Bool, false, ◌||◌, ◌&&◌, Bytes, ByteSet, contains, String, str_eq, Option, none, some, List, [],
  ◌∷◌, any, if◌then◌else◌, ◌≡◌, refl, ◌∙◌, arith,
}
use solana_indexer_plugin.Crates.{Crates}
use solana_indexer_plugin.Config.{TransactionSelectorConfig}
use solana_indexer_plugin.AccountsSelector.{decode_keys}
use solana_indexer_plugin.AccountsSelector.Decoding.{decodes_to, contains-decode_keys}
use solana_indexer_plugin.TransactionSelector.{
  TransactionSelector, new_transaction_selector, mentions_any, is_transaction_selected,
}

-- Some address of the list is in the set.
abbrev pub meets : ByteSet → List Bytes → Bool
meets set addresses = any (λ address. contains set address) addresses

mentions_any-eq-meets :
    (s : TransactionSelector) (addresses : List Bytes)
    → mentions_any s addresses ≡ meets s.mentioned_addresses addresses
unfolding mentions_any any
mentions_any-eq-meets s [] = refl
mentions_any-eq-meets s (a ∷ rest) = ground (arith, mentions_any-eq-meets s rest)

meets-empty : (addresses : List Bytes) → meets [] addresses ≡ false
unfolding any contains
meets-empty [] = refl
meets-empty (a ∷ rest) = meets-empty rest

-- What the configuration says of a transaction, as one Boolean expression: a wildcard selects all,
-- `all_votes` the votes, and only without either do the addresses count that a mention decodes to.
abbrev pub specified : Crates → List String → Bool → List Bytes → Bool
specified X mentions is_vote addresses =
    any (λ key. str_eq key "*" || str_eq key "all") mentions
    || (if any (λ key. str_eq key "all_votes") mentions
        then is_vote
        else any (λ address. any (λ key. decodes_to X key address) mentions) addresses)

is_transaction_selected-eq :
    (s : TransactionSelector) (is_vote : Bool) (addresses : List Bytes)
    → is_transaction_selected s is_vote addresses ≡ (
        s.select_all_transactions
        || ((s.select_all_vote_transactions && is_vote) || meets s.mentioned_addresses addresses))
unfolding is_transaction_selected
is_transaction_selected-eq s is_vote addresses =
    ground (arith, mentions_any-eq-meets s addresses, meets-empty addresses)

any_congr : (p q : Bytes → Bool) (xs : List Bytes) → ((x : Bytes) → p x ≡ q x) → any p xs ≡ any q xs
unfolding any
any_congr p q [] h = refl
any_congr p q (x ∷ xs) h = ground (arith, h x, any_congr p q xs h)

-- A selector that was built selects exactly the transactions that its configuration specifies.
pub is_transaction_selected-eq-specified :
    (X : Crates) (config : TransactionSelectorConfig) (s : TransactionSelector) (is_vote : Bool)
    (addresses : List Bytes)
    → new_transaction_selector X config ≡ some s
    → is_transaction_selected s is_vote addresses ≡ specified X config.mentions is_vote addresses
unfolding new_transaction_selector
is_transaction_selected-eq-specified X config s is_vote addresses built =
    is_transaction_selected-eq s is_vote addresses ∙ cases (decode_keys X config.mentions) refl
  where
    cases :
        (o : Option ByteSet)
        → decode_keys X config.mentions ≡ o
        → (s.select_all_transactions
            || ((s.select_all_vote_transactions && is_vote)
                || meets s.mentioned_addresses addresses))
          ≡ specified X config.mentions is_vote addresses
    cases none e = ground (arith, meets-empty addresses)
    cases (some set) e = ground (
      arith,
      meets-empty addresses,
      any_congr (contains set) (λ a. any (λ key. decodes_to X key a) config.mentions) addresses
          (λ a. contains-decode_keys X config.mentions set a e),
    )
