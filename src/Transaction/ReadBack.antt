-- ===== src/Transaction/ReadBack.antt =====
-- Reading a row's columns back into the types that they were built from.
pub mod Laws
pub mod RoundTrip
use mathlib.Core.Option
use solana_indexer_plugin.Base.{
  ℕ, ◌<◌, ℤ, pos, as_u64, as_u8, u64_mod, eqb_ℤ, Bytes, Option, none, some, List, [], ◌∷◌, map, All,
  if◌then◌else◌,
}
use solana_indexer_plugin.Transaction.{
  CompiledInstruction, InnerInstructions, TransactionTokenBalance, RewardType, Reward,
  TransactionStatusMeta, TransactionError, MessageHeader, MessageAddressTableLookup, LegacyMessage,
  V0Message, LoadedAddresses, LoadedMessage, SanitizedMessage, legacy, v0, DbCompiledInstruction,
  DbInnerInstructions, DbTransactionTokenBalance, DbRewardType, DbReward, DbTransactionStatusMeta,
  DbTransactionMessageHeader, DbTransactionMessage, DbTransactionMessageAddressTableLookup,
  DbTransactionMessageV0, DbLoadedAddresses, DbLoadedMessageV0, DbTransaction,
}

abbrev pub IsByte : ℕ → Type 0
IsByte n = n < 256

abbrev pub IsWord : ℕ → Type 0
IsWord n = n < u64_mod

unfoldable pub read_header : DbTransactionMessageHeader → MessageHeader
read_header h = record {
  num_required_signatures = as_u8 h.num_required_signatures;
  num_readonly_signed_accounts = as_u8 h.num_readonly_signed_accounts;
  num_readonly_unsigned_accounts = as_u8 h.num_readonly_unsigned_accounts;
}

unfoldable pub read_instruction : DbCompiledInstruction → CompiledInstruction
read_instruction i = record {
  program_id_index = as_u8 i.program_id_index;
  accounts = map as_u8 i.accounts;
  contents = i.contents;
}

unfoldable pub read_lookup : DbTransactionMessageAddressTableLookup → MessageAddressTableLookup
read_lookup l = record {
  account_key = l.account_key;
  writable_indexes = map as_u8 l.writable_indexes;
  readonly_indexes = map as_u8 l.readonly_indexes;
}

unfoldable pub read_legacy : DbTransactionMessage → LegacyMessage
read_legacy m = record {
  header = read_header m.header;
  account_keys = m.account_keys;
  recent_blockhash = m.recent_blockhash;
  instructions = map read_instruction m.instructions;
}

unfoldable pub read_loaded : DbLoadedMessageV0 → LoadedMessage
read_loaded m = record {
  message = record {
    header = read_header m.message.header;
    account_keys = m.message.account_keys;
    recent_blockhash = m.message.recent_blockhash;
    instructions = map read_instruction m.message.instructions;
    address_table_lookups = map read_lookup m.message.address_table_lookups;
  };
  loaded_addresses = record {
    writable = m.loaded_addresses.writable;
    readonly = m.loaded_addresses.readonly;
  };
}

-- The message that a row describes, by its type.
unfoldable pub read_message : DbTransaction → Option SanitizedMessage
read_message row =
    if eqb_ℤ row.message_type (pos 0)
    then Option.map (λ m. legacy (read_legacy m)) row.legacy_message
    else Option.map (λ m. v0 (read_loaded m)) row.v0_loaded_message

unfoldable pub read_inner : DbInnerInstructions → InnerInstructions
read_inner i = record { index = as_u8 i.index; instructions = map read_instruction i.instructions }

unfoldable pub read_token_balance : DbTransactionTokenBalance → TransactionTokenBalance
read_token_balance b = record {
  account_index = as_u8 b.account_index;
  mint = b.mint;
  ui_amount = b.ui_token_amount;
  owner = b.owner;
}

unfoldable pub read_reward_type : DbRewardType → RewardType
read_reward_type DbRewardType.fee = RewardType.fee
read_reward_type DbRewardType.rent = RewardType.rent
read_reward_type DbRewardType.staking = RewardType.staking
read_reward_type DbRewardType.voting = RewardType.voting

unfoldable pub read_reward : DbReward → Reward
read_reward r = record {
  pubkey = r.pubkey;
  lamports = r.lamports;
  post_balance = as_u64 r.post_balance;
  reward_type = Option.map read_reward_type r.reward_type;
  commission = Option.map as_u8 r.commission;
}

-- Everything of the status but the error, which is given.
unfoldable pub read_meta : Option TransactionError → DbTransactionStatusMeta → TransactionStatusMeta
read_meta status m = record {
  status = status;
  fee = as_u64 m.fee;
  pre_balances = map as_u64 m.pre_balances;
  post_balances = map as_u64 m.post_balances;
  inner_instructions = Option.map (map read_inner) m.inner_instructions;
  log_messages = m.log_messages;
  pre_token_balances = Option.map (map read_token_balance) m.pre_token_balances;
  post_token_balances = Option.map (map read_token_balance) m.post_token_balances;
  rewards = Option.map (map read_reward) m.rewards;
}
