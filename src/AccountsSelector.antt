-- ===== src/AccountsSelector.antt =====
-- accounts_selector.rs: which accounts are of interest.
pub mod Decoding
use solana_indexer_plugin.Base.{
  Bool, not, ◌||◌, Bytes, ByteSet, contains, no_bytes, String, StringMap, Option, none, some, List,
  [], ◌∷◌,
}
use solana_indexer_plugin.Crates.{Crates}
use solana_indexer_plugin.Config.{AccountsSelectorConfig, AccountHandlerConfig}
use solana_indexer_plugin.Base.{bind, keys}

-- `AccountsSelector`
pub record AccountsSelector : Type 0 where
  pub accounts : ByteSet
  pub owners : ByteSet

module _ (X : Crates) where
  -- `keys.map(|key| bs58::decode(key).into_vec().unwrap()).collect()`; `none` is the panic
  unfoldable pub decode_keys : List String → Option ByteSet
  decode_keys [] = some []
  decode_keys (key ∷ keys) =
      bind (X.bs58_decode key) (λ bytes. bind (decode_keys keys) (λ set. some (bytes ∷ set)))

  unfoldable pub decode_map : Option (StringMap (List AccountHandlerConfig)) → Option ByteSet
  decode_map none = some []
  decode_map (some m) = decode_keys (keys m)

  -- `AccountsSelector::new`; `none` is the panic of `unwrap`
  unfoldable pub new_accounts_selector : AccountsSelectorConfig → Option AccountsSelector
  unfolding decode_keys decode_map
  new_accounts_selector config = bind (decode_map config.owners) (λ owners.
      bind (decode_map config.accounts)
        (λ accounts. some (record { accounts = accounts; owners = owners })))

-- `AccountsSelector::is_account_selected`
unfoldable pub is_account_selected : AccountsSelector → Bytes → Bytes → Bool
unfolding contains
is_account_selected s account owner = contains s.accounts account || contains s.owners owner

-- `AccountsSelector::is_enabled`
abbrev pub accounts_enabled : AccountsSelector → Bool
accounts_enabled s = not (no_bytes s.accounts) || not (no_bytes s.owners)
