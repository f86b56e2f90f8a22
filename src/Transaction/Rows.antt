-- ===== src/Transaction/Rows.antt =====
-- The composite types of the database that transaction_handler.rs declares.
use solana_indexer_plugin.Base.{ℕ, ℤ, Bytes, String, Bool, Option, List}
use solana_indexer_plugin.Transaction.ErrorCode.{DbTransactionErrorCode}

-- `DbCompiledInstruction`
pub record DbCompiledInstruction : Type 0 where
  pub program_id_index : ℤ
  pub accounts : List ℤ
  pub contents : Bytes

-- `DbInnerInstructions`
pub record DbInnerInstructions : Type 0 where
  pub index : ℤ
  pub instructions : List DbCompiledInstruction

-- `DbTransactionTokenBalance`
pub record DbTransactionTokenBalance : Type 0 where
  pub account_index : ℤ
  pub mint : String
  pub ui_token_amount : Option ℕ
  pub owner : String

-- `DbRewardType`
pub data DbRewardType : Type 0 where
  fee rent staking voting : DbRewardType

-- `DbReward`
pub record DbReward : Type 0 where
  pub pubkey : String
  pub lamports : ℤ
  pub post_balance : ℤ
  pub reward_type : Option DbRewardType
  pub commission : Option ℤ

-- `DbTransactionError`
pub record DbTransactionError : Type 0 where
  pub error_code : DbTransactionErrorCode
  pub error_detail : Option String

-- `DbTransactionStatusMeta`
pub record DbTransactionStatusMeta : Type 0 where
  pub error : Option DbTransactionError
  pub fee : ℤ
  pub pre_balances : List ℤ
  pub post_balances : List ℤ
  pub inner_instructions : Option (List DbInnerInstructions)
  pub log_messages : Option (List String)
  pub pre_token_balances : Option (List DbTransactionTokenBalance)
  pub post_token_balances : Option (List DbTransactionTokenBalance)
  pub rewards : Option (List DbReward)

-- `DbTransactionMessageHeader`
pub record DbTransactionMessageHeader : Type 0 where
  pub num_required_signatures : ℤ
  pub num_readonly_signed_accounts : ℤ
  pub num_readonly_unsigned_accounts : ℤ

-- `DbTransactionMessage`
pub record DbTransactionMessage : Type 0 where
  pub header : DbTransactionMessageHeader
  pub account_keys : List Bytes
  pub recent_blockhash : Bytes
  pub instructions : List DbCompiledInstruction

-- `DbTransactionMessageAddressTableLookup`
pub record DbTransactionMessageAddressTableLookup : Type 0 where
  pub account_key : Bytes
  pub writable_indexes : List ℤ
  pub readonly_indexes : List ℤ

-- `DbTransactionMessageV0`
pub record DbTransactionMessageV0 : Type 0 where
  pub header : DbTransactionMessageHeader
  pub account_keys : List Bytes
  pub recent_blockhash : Bytes
  pub instructions : List DbCompiledInstruction
  pub address_table_lookups : List DbTransactionMessageAddressTableLookup

-- `DbLoadedAddresses`
pub record DbLoadedAddresses : Type 0 where
  pub writable : List Bytes
  pub readonly : List Bytes

-- `DbLoadedMessageV0`
pub record DbLoadedMessageV0 : Type 0 where
  pub message : DbTransactionMessageV0
  pub loaded_addresses : DbLoadedAddresses

-- `DbTransaction`
pub record DbTransaction : Type 0 where
  pub signature : Bytes
  pub is_vote : Bool
  pub slot : ℤ
  pub message_type : ℤ
  pub legacy_message : Option DbTransactionMessage
  pub v0_loaded_message : Option DbLoadedMessageV0
  pub message_hash : Bytes
  pub meta : DbTransactionStatusMeta
  pub signatures : List Bytes
  pub write_version : ℤ
  pub index : ℤ
