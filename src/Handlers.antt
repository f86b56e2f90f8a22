-- ===== src/Handlers.antt =====
-- account_handler.rs: the handlers, their registry, and which of them an account's configuration
-- selects. A handler's query is the list of its statements; `none` is a panic.
mod TokenAccount
mod MetadataCreators
mod TokenManager
mod UnknownAccount
pub mod Selected
pub mod Totality
unfoldable pub use TokenAccount.*
unfoldable pub use MetadataCreators.*
unfoldable pub use TokenManager.*
unfoldable pub use UnknownAccount.*
use solana_indexer_plugin.Base.{
  Bool, true, false, not, ◌||◌, String, str_eq, Option, none, some, List, [], ◌∷◌, StringMap,
  lookup, unwrap_or_false, if◌then◌else◌,
}
use solana_indexer_plugin.Account.{DbAccountInfo}
use solana_indexer_plugin.Crates.{Crates}
use solana_indexer_plugin.Config.{AccountHandlerConfig, AccountsSelectorConfig}
use solana_indexer_plugin.Sql.{Statement}

-- `AccountHandlerId`
pub data AccountHandlerId : Type 0 where
  token_metadata_creators token_account token_manager unknown_account : AccountHandlerId

-- `AccountHandlerId::from_str`
unfoldable pub from_str : String → Option AccountHandlerId
from_str input =
    if str_eq input "token_metadata_creators"
    then some token_metadata_creators
    else if str_eq input "token_account"
    then some token_account
    else if str_eq input "token_manager"
    then some token_manager
    else if str_eq input "unknown_account"
    then some unknown_account
    else none

-- The implementors of the trait `AccountHandler`.
pub data AccountHandler : Type 0 where
  token_account_handler metadata_creators_handler token_manager_handler unknown_account_handler :
      AccountHandler

abbrev same_id : AccountHandlerId → AccountHandlerId → Bool
same_id token_metadata_creators token_metadata_creators = true
same_id token_account token_account = true
same_id token_manager token_manager = true
same_id unknown_account unknown_account = true
same_id _ _ = false

-- `all_account_handlers`
abbrev pub all_account_handlers : List (AccountHandlerId × AccountHandler)
all_account_handlers =
    (token_account, token_account_handler)
    ∷ (token_metadata_creators, metadata_creators_handler)
    ∷ (token_manager, token_manager_handler)
    ∷ (unknown_account, unknown_account_handler)
    ∷ []

-- `HashMap::get`
unfoldable pub get_handler :
    AccountHandlerId → List (AccountHandlerId × AccountHandler) → Option AccountHandler
get_handler id [] = none
get_handler id ((key, handler) ∷ rest) =
    if same_id key id then some handler else get_handler id rest

module _ (X : Crates) (now : String) where
  -- `account_update` of each implementor
  unfoldable pub account_update : AccountHandler → DbAccountInfo → Option (List Statement)
  unfolding update_token_account update_metadata_creators update_token_manager
      update_unknown_account
  account_update token_account_handler account = update_token_account X account
  account_update metadata_creators_handler account = update_metadata_creators X account
  account_update token_manager_handler account = update_token_manager X account
  account_update unknown_account_handler account = update_unknown_account X now account

-- `.filter(|h| !is_startup || !h.skip_on_startup.unwrap_or(false))`
unfoldable pub not_skipped : Bool → List AccountHandlerConfig → List AccountHandlerConfig
not_skipped is_startup [] = []
not_skipped is_startup (h ∷ hs) =
    let rest = not_skipped is_startup hs in
    if not is_startup || not (unwrap_or_false h.skip_on_startup) then h ∷ rest else rest

-- The handlers that one of the two maps names for a key, or those selected before.
unfoldable pub replaced_by :
    List AccountHandlerConfig
    → Option (StringMap (List AccountHandlerConfig))
    → String
    → List AccountHandlerConfig
unfolding lookup
replaced_by selected none key = selected
replaced_by selected (some m) key = elim (lookup key m) [
  | none ↦ selected
  | some handlers ↦ handlers
]

-- `select_account_handlers`
unfoldable pub select_account_handlers :
    Crates → Option AccountsSelectorConfig → DbAccountInfo → Bool → List AccountHandlerConfig
unfolding replaced_by not_skipped
select_account_handlers X none account is_startup = not_skipped is_startup []
select_account_handlers X (some selector) account is_startup =
    let by_account = replaced_by [] selector.accounts (X.bs58_encode account.pubkey) in
    not_skipped is_startup (replaced_by by_account selector.owners (X.bs58_encode account.owner))
