-- ===== src/Transaction/Conversion.antt =====
-- The `From` implementations of transaction_handler.rs and `build_db_transaction`. A conversion that
-- may panic returns an `Option`, `none` for the panic.
use Prim.Native.String.{len}
use mathlib.Core.Option
use text.Mathlib.Text.{get?}
use solana_indexer_plugin.Base.{
  ℕ, ℤ, pos, as_i64, as_i16, String, ◌<>◌, decimal, Option, none, some, map, bind, ltb,
  if◌then◌else◌,
}
use solana_indexer_plugin.Transaction.Source.{
  CompiledInstruction, InnerInstructions, TransactionTokenBalance, RewardType, Reward,
  TransactionError, TransactionStatusMeta, MessageHeader, MessageAddressTableLookup, LegacyMessage,
  V0Message, LoadedAddresses, LoadedMessage, SanitizedMessage, legacy, v0, ReplicaTransactionInfoV2,
}
use solana_indexer_plugin.Transaction.Rows.{
  DbCompiledInstruction, DbInnerInstructions, DbTransactionTokenBalance, DbRewardType, DbReward,
  DbTransactionError, DbTransactionStatusMeta, DbTransactionMessageHeader, DbTransactionMessage,
  DbTransactionMessageAddressTableLookup, DbTransactionMessageV0, DbLoadedAddresses,
  DbLoadedMessageV0, DbTransaction,
}
use solana_indexer_plugin.Transaction.ErrorCode.{error_code}

abbrev pub max_transaction_status_len : ℕ
max_transaction_status_len = 256

unfoldable pub db_address_table_lookup :
    MessageAddressTableLookup → DbTransactionMessageAddressTableLookup
db_address_table_lookup l = record {
  account_key = l.account_key;
  writable_indexes = map as_i16 l.writable_indexes;
  readonly_indexes = map as_i16 l.readonly_indexes;
}

unfoldable pub db_loaded_addresses : LoadedAddresses → DbLoadedAddresses
db_loaded_addresses a = record { writable = a.writable; readonly = a.readonly }

unfoldable pub db_header : MessageHeader → DbTransactionMessageHeader
db_header h = record {
  num_required_signatures = as_i16 h.num_required_signatures;
  num_readonly_signed_accounts = as_i16 h.num_readonly_signed_accounts;
  num_readonly_unsigned_accounts = as_i16 h.num_readonly_unsigned_accounts;
}

unfoldable pub db_instruction : CompiledInstruction → DbCompiledInstruction
db_instruction i = record {
  program_id_index = as_i16 i.program_id_index;
  accounts = map as_i16 i.accounts;
  contents = i.contents;
}

unfoldable pub db_message : LegacyMessage → DbTransactionMessage
unfolding db_header db_instruction
db_message m = record {
  header = db_header m.header;
  account_keys = m.account_keys;
  recent_blockhash = m.recent_blockhash;
  instructions = map db_instruction m.instructions;
}

unfoldable pub db_message_v0 : V0Message → DbTransactionMessageV0
unfolding db_header db_instruction db_address_table_lookup
db_message_v0 m = record {
  header = db_header m.header;
  account_keys = m.account_keys;
  recent_blockhash = m.recent_blockhash;
  instructions = map db_instruction m.instructions;
  address_table_lookups = map db_address_table_lookup m.address_table_lookups;
}

unfoldable pub db_loaded_message : LoadedMessage → DbLoadedMessageV0
unfolding db_message_v0 db_loaded_addresses
db_loaded_message m = record {
  message = db_message_v0 m.message;
  loaded_addresses = db_loaded_addresses m.loaded_addresses;
}

unfoldable pub db_inner_instructions : InnerInstructions → DbInnerInstructions
unfolding db_instruction
db_inner_instructions i = record {
  index = as_i16 i.index;
  instructions = map db_instruction i.instructions;
}

unfoldable pub db_reward_type : RewardType → DbRewardType
db_reward_type RewardType.fee = DbRewardType.fee
db_reward_type RewardType.rent = DbRewardType.rent
db_reward_type RewardType.staking = DbRewardType.staking
db_reward_type RewardType.voting = DbRewardType.voting

-- `get_reward_type`
abbrev pub get_reward_type : Option RewardType → Option DbRewardType
get_reward_type reward = Option.map db_reward_type reward

-- `lamports` is an `i64` already.
unfoldable pub db_reward : Reward → DbReward
unfolding db_reward_type
db_reward r = record {
  pubkey = r.pubkey;
  lamports = r.lamports;
  post_balance = as_i64 r.post_balance;
  reward_type = get_reward_type r.reward_type;
  commission = Option.map as_i16 r.commission;
}

-- `text.split_off(at)` as it is used here: the text from byte `at` on; `none` is the panic off a
-- character boundary.
abbrev pub split_off : String → ℕ → Option String
split_off text at = get? text at (len text)

-- The text of an instruction error.
unfoldable pub detail_text : ℕ → String → String
detail_text idx error =
    "InstructionError: idx (" <> (decimal idx <> ("), error: (" <> (error <> ")")))

-- What is kept of a text for the column.
unfoldable pub kept_detail : String → Option String
kept_detail detail =
    if ltb max_transaction_status_len (len detail)
    then split_off detail max_transaction_status_len
    else some detail

unfoldable pub error_detail : TransactionError → Option (Option String)
error_detail (TransactionError.instruction_error idx error) =
    Option.map some (kept_detail (detail_text idx error))
error_detail _ = some none

-- `get_transaction_error`
unfoldable pub get_transaction_error : Option TransactionError → Option (Option DbTransactionError)
unfolding error_code error_detail
get_transaction_error none = some none
get_transaction_error (some error) =
    bind (error_detail error)
      (λ detail. some (some (record { error_code = error_code error; error_detail = detail })))

unfoldable pub db_token_balance : TransactionTokenBalance → DbTransactionTokenBalance
db_token_balance b = record {
  account_index = as_i16 b.account_index;
  mint = b.mint;
  ui_token_amount = b.ui_amount;
  owner = b.owner;
}

unfoldable pub db_meta : TransactionStatusMeta → Option DbTransactionStatusMeta
unfolding get_transaction_error db_inner_instructions db_token_balance db_reward
db_meta m = bind (get_transaction_error m.status) (λ error. some (record {
  error = error;
  fee = as_i64 m.fee;
  pre_balances = map as_i64 m.pre_balances;
  post_balances = map as_i64 m.post_balances;
  inner_instructions = Option.map (map db_inner_instructions) m.inner_instructions;
  log_messages = m.log_messages;
  pre_token_balances = Option.map (map db_token_balance) m.pre_token_balances;
  post_token_balances = Option.map (map db_token_balance) m.post_token_balances;
  rewards = Option.map (map db_reward) m.rewards;
}))

abbrev pub message_type : SanitizedMessage → ℤ
message_type (legacy _) = pos 0
message_type (v0 _) = pos 1

abbrev pub legacy_message : SanitizedMessage → Option DbTransactionMessage
legacy_message (legacy m) = some (db_message m)
legacy_message (v0 _) = none

abbrev pub v0_loaded_message : SanitizedMessage → Option DbLoadedMessageV0
v0_loaded_message (legacy _) = none
v0_loaded_message (v0 m) = some (db_loaded_message m)

-- `build_db_transaction`
unfoldable pub build_db_transaction : ℕ → ReplicaTransactionInfoV2 → ℕ → Option DbTransaction
build_db_transaction slot info transaction_write_version =
    bind (db_meta info.transaction_status_meta) (λ meta. some (record {
      signature = info.signature;
      is_vote = info.is_vote;
      slot = as_i64 slot;
      message_type = message_type info.message;
      legacy_message = legacy_message info.message;
      v0_loaded_message = v0_loaded_message info.message;
      message_hash = info.message_hash;
      meta = meta;
      signatures = info.signatures;
      write_version = as_i64 transaction_write_version;
      index = pos 0;
    }))
