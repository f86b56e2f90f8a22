-- ===== src/Handlers/Selected.antt =====
-- The plugin's test for an account and the worker's choice of handlers agree.
use solana_indexer_plugin.Base.{
  Bool, true, false, ◌||◌, Bytes, ByteSet, contains, bytes_eq_iff, String, str_eq, eq_iff, Option,
  none, some, List, [], ◌∷◌, StringMap, lookup, any, keys, ◌≡◌, refl, ◌∙◌, ap, arith,
  unwrap_or_false, Option-cases, inl, inr,
}
use solana_indexer_plugin.Account.{DbAccountInfo}
use solana_indexer_plugin.Crates.{Crates}
use solana_indexer_plugin.Config.{AccountHandlerConfig, AccountsSelectorConfig}
use solana_indexer_plugin.AccountsSelector.{
  AccountsSelector, decode_map, new_accounts_selector, is_account_selected,
}
use solana_indexer_plugin.AccountsSelector.Decoding.{decodes_to, contains-decode_keys}
use solana_indexer_plugin.Handlers.{not_skipped, replaced_by, select_account_handlers}

-- What the crate `bs58` documents: its encoder and its decoder are inverse to one another.
pub record IsBase58 (X : Crates) : Type 0 where
  pub decode-encode : (bytes : Bytes) → X.bs58_decode (X.bs58_encode bytes) ≡ some bytes
  pub encode-decode :
      (text : String) (bytes : Bytes) → X.bs58_decode text ≡ some bytes → X.bs58_encode bytes ≡ text

-- The map has an entry for the key.
abbrev pub has_entry : Option (StringMap (List AccountHandlerConfig)) → String → Bool
has_entry none key = false
has_entry (some m) key = elim (lookup key m) [ none ↦ false | some handlers ↦ true ]

module _ (X : Crates) (base58 : IsBase58 X) where
  decodes_to-eq : (key : String) (a : Bytes) → decodes_to X key a ≡ str_eq key (X.bs58_encode a)
  decodes_to-eq key a = elim (Option-cases (X.bs58_decode key)) [
    | inl e ↦ ground (arith, base58.decode-encode a, eq_iff key (X.bs58_encode a))
    | inr (b, e) ↦ ground (
      arith,
      base58.decode-encode a,
      eq_iff key (X.bs58_encode a),
      bytes_eq_iff b a,
      base58.encode-decode key b e,
    )
  ]

  any-decodes_to :
      (m : StringMap (List AccountHandlerConfig)) (a : Bytes)
      → any (λ key. decodes_to X key a) (keys m) ≡ has_entry (some m) (X.bs58_encode a)
  unfolding any lookup
  any-decodes_to [] a = refl
  any-decodes_to ((key, hs) ∷ m) a = ground (arith, decodes_to-eq key a, any-decodes_to m a)

  contains-decode_map :
      (m : Option (StringMap (List AccountHandlerConfig))) (set : ByteSet) (a : Bytes)
      → decode_map X m ≡ some set
      → contains set a ≡ has_entry m (X.bs58_encode a)
  unfolding decode_map contains
  contains-decode_map none set a h = ground arith
  contains-decode_map (some m) set a h =
      contains-decode_keys X (keys m) set a h ∙ any-decodes_to m a

  -- If base 58 encoding and decoding are inverse, a selector that was built from a configuration
  -- selects an account exactly when the account's key or its owner's has an entry of handlers
  -- there.
  pub is_account_selected-eq-has_entry :
      (config : AccountsSelectorConfig) (s : AccountsSelector) (account owner : Bytes)
      → new_accounts_selector X config ≡ some s
      → is_account_selected s account owner ≡ (
          has_entry config.accounts (X.bs58_encode account)
          || has_entry config.owners (X.bs58_encode owner))
  unfolding new_accounts_selector is_account_selected
  is_account_selected-eq-has_entry config s account owner h =
      elim (Option-cases (decode_map X config.owners)) [
        | inl p ↦ ground arith
        | inr (os, p) ↦ elim (Option-cases (decode_map X config.accounts)) [
          | inl q ↦ ground arith
          | inr (ks, q) ↦ ground (
            arith,
            contains-decode_map config.owners os owner p,
            contains-decode_map config.accounts ks account q,
          )
        ]
      ]

replaced_by-no_entry :
    (selected : List AccountHandlerConfig) (m : Option (StringMap (List AccountHandlerConfig)))
    (key : String)
    → has_entry m key ≡ false
    → replaced_by selected m key ≡ selected
unfolding replaced_by
replaced_by-no_entry selected none key h = refl
replaced_by-no_entry selected (some m) key h = ground arith

replaced_by-entry :
    (xs ys : List AccountHandlerConfig) (m : Option (StringMap (List AccountHandlerConfig)))
    (key : String)
    → has_entry m key ≡ true
    → replaced_by xs m key ≡ replaced_by ys m key
unfolding replaced_by
replaced_by-entry xs ys none key h = cc
replaced_by-entry xs ys (some m) key h = ground arith

-- If base 58 encoding and decoding are inverse, an account that the selector built from a
-- configuration rejects has no handler under that configuration, at startup or later.
pub select_account_handlers-rejected :
    (X : Crates) (base58 : IsBase58 X) (config : AccountsSelectorConfig) (s : AccountsSelector)
    (account : DbAccountInfo) (is_startup : Bool)
    → new_accounts_selector X config ≡ some s
    → is_account_selected s account.pubkey account.owner ≡ false
    → select_account_handlers X (some config) account is_startup ≡ []
unfolding select_account_handlers
select_account_handlers-rejected X base58 config s account is_startup h r =
    rw
      (
        replaced_by-no_entry _ config.owners owner_key (ground (arith, agree)),
        replaced_by-no_entry [] config.accounts account_key (ground (arith, agree)),
      )
      refl
  where
    owner_key : String
    owner_key = X.bs58_encode account.owner

    account_key : String
    account_key = X.bs58_encode account.pubkey

    agree :
        is_account_selected s account.pubkey account.owner
        ≡ (has_entry config.accounts account_key || has_entry config.owners owner_key)
    agree = is_account_selected-eq-has_entry X base58 config s account.pubkey account.owner h

-- Where the owner of an account has an entry, the handlers of the account's own entry are never
-- called: any other `accounts` map gives the same handlers.
pub select_account_handlers-owner_wins :
    (X : Crates) (config : AccountsSelectorConfig)
    (accounts : Option (StringMap (List AccountHandlerConfig))) (account : DbAccountInfo)
    (is_startup : Bool)
    → has_entry config.owners (X.bs58_encode account.owner) ≡ true
    → select_account_handlers X (some config) account is_startup
      ≡ select_account_handlers X (some (record config { accounts = accounts })) account is_startup
unfolding select_account_handlers
select_account_handlers-owner_wins X config accounts account is_startup h =
    ap (not_skipped is_startup) (replaced_by-entry _ _ config.owners _ h)

-- No handler of the list is marked to be skipped at startup.
abbrev pub NoneSkipped : List AccountHandlerConfig → Type 0
NoneSkipped [] = Unit
NoneSkipped (h ∷ hs) = (unwrap_or_false h.skip_on_startup ≡ false) × NoneSkipped hs

not_skipped-NoneSkipped : (hs : List AccountHandlerConfig) → NoneSkipped (not_skipped true hs)
unfolding not_skipped
not_skipped-NoneSkipped [] = tt
not_skipped-NoneSkipped (h ∷ hs) = ground (arith, not_skipped-NoneSkipped hs)

-- At startup no handler is called that its configuration marks `skip_on_startup`.
pub select_account_handlers-NoneSkipped :
    (X : Crates) (selector : Option AccountsSelectorConfig) (account : DbAccountInfo)
    → NoneSkipped (select_account_handlers X selector account true)
unfolding select_account_handlers
select_account_handlers-NoneSkipped X none account = not_skipped-NoneSkipped []
select_account_handlers-NoneSkipped X (some config) account = not_skipped-NoneSkipped (
    replaced_by (replaced_by [] config.accounts (X.bs58_encode account.pubkey)) config.owners
      (X.bs58_encode account.owner))
