-- ===== src/Crates.antt =====
-- The functions of other crates that the program calls, as parameters of the model.
use solana_indexer_plugin.Base.{String, Bytes, Option, List}
use solana_indexer_plugin.Account.{Creator, TokenManager}
use solana_indexer_plugin.Errors.{GeyserPluginError}

-- `SlotStatus` of the plugin interface
pub data SlotStatus : Type 0 where
  processed rooted confirmed : SlotStatus

-- `bs58::encode(..).into_string()`, `bs58::decode(..).into_vec()`, the macro `pubkey!`, a
-- `Pubkey`'s `to_string`, `hex::encode`, `solana_program::hash::hash`, the two Borsh decoders that
-- are derived, `{:?}` of an error of the plugin interface, `SlotStatus::as_str`, and
-- `{:?}` of a text and of the error of a channel that nobody receives from.
pub record Crates : Type 0 where
  pub bs58_encode : Bytes → String
  pub bs58_decode : String → Option Bytes
  pub pubkey : String → Bytes
  pub pubkey_text : Bytes → String
  pub hex_encode : Bytes → String
  pub hash : Bytes → Bytes
  pub deserialize_creators : Bytes → Option (List Creator)
  pub deserialize_token_manager : Bytes → Option TokenManager
  pub debug : GeyserPluginError → String
  pub status_text : SlotStatus → String
  pub debug_text : String → String
  pub send_error : String
