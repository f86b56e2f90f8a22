-- ===== src/Transaction/Source.antt =====
-- The types of the Solana crates that transaction_handler.rs reads. A public key, a hash and a
-- signature are their bytes, an `f64` is its bits.
use solana_indexer_plugin.Base.{ℕ, ℤ, Bytes, String, Bool, Option, List}

pub record CompiledInstruction : Type 0 where
  pub program_id_index : ℕ
  pub accounts : Bytes
  pub contents : Bytes

pub record InnerInstructions : Type 0 where
  pub index : ℕ
  pub instructions : List CompiledInstruction

pub record TransactionTokenBalance : Type 0 where
  pub account_index : ℕ
  pub mint : String
  pub ui_amount : Option ℕ
  pub owner : String

pub data RewardType : Type 0 where
  fee rent staking voting : RewardType

pub record Reward : Type 0 where
  pub pubkey : String
  pub lamports : ℤ
  pub post_balance : ℕ
  pub reward_type : Option RewardType
  pub commission : Option ℕ

-- `InstructionError` is its displayed text.
pub data TransactionError : Type 0 where
  account_in_use account_loaded_twice account_not_found program_account_not_found : TransactionError
  insufficient_funds_for_fee invalid_account_for_fee already_processed : TransactionError
  blockhash_not_found : TransactionError
  instruction_error : ℕ → String → TransactionError
  call_chain_too_deep missing_signature_for_fee invalid_account_index : TransactionError
  signature_failure invalid_program_for_execution sanitize_failure : TransactionError
  cluster_maintenance account_borrow_outstanding : TransactionError
  would_exceed_max_account_cost_limit would_exceed_max_block_cost_limit : TransactionError
  unsupported_version invalid_writable_account : TransactionError
  would_exceed_account_data_block_limit would_exceed_account_data_total_limit : TransactionError
  too_many_account_locks address_lookup_table_not_found : TransactionError
  invalid_address_lookup_table_owner invalid_address_lookup_table_data : TransactionError
  invalid_address_lookup_table_index invalid_rent_paying_account : TransactionError
  would_exceed_max_vote_cost_limit : TransactionError
  duplicate_instruction insufficient_funds_for_rent : ℕ → TransactionError

-- `status` is `none` for `Ok(())`.
pub record TransactionStatusMeta : Type 0 where
  pub status : Option TransactionError
  pub fee : ℕ
  pub pre_balances : List ℕ
  pub post_balances : List ℕ
  pub inner_instructions : Option (List InnerInstructions)
  pub log_messages : Option (List String)
  pub pre_token_balances : Option (List TransactionTokenBalance)
  pub post_token_balances : Option (List TransactionTokenBalance)
  pub rewards : Option (List Reward)

pub record MessageHeader : Type 0 where
  pub num_required_signatures : ℕ
  pub num_readonly_signed_accounts : ℕ
  pub num_readonly_unsigned_accounts : ℕ

pub record MessageAddressTableLookup : Type 0 where
  pub account_key : Bytes
  pub writable_indexes : Bytes
  pub readonly_indexes : Bytes

pub record LegacyMessage : Type 0 where
  pub header : MessageHeader
  pub account_keys : List Bytes
  pub recent_blockhash : Bytes
  pub instructions : List CompiledInstruction

pub record V0Message : Type 0 where
  pub header : MessageHeader
  pub account_keys : List Bytes
  pub recent_blockhash : Bytes
  pub instructions : List CompiledInstruction
  pub address_table_lookups : List MessageAddressTableLookup

pub record LoadedAddresses : Type 0 where
  pub writable : List Bytes
  pub readonly : List Bytes

pub record LoadedMessage : Type 0 where
  pub message : V0Message
  pub loaded_addresses : LoadedAddresses

pub data SanitizedMessage : Type 0 where
  legacy : LegacyMessage → SanitizedMessage
  v0 : LoadedMessage → SanitizedMessage

-- `ReplicaTransactionInfoV2`, with the accessors of its transaction as fields; `account_keys` is the
-- sequence that `message().account_keys().iter()` yields.
pub record ReplicaTransactionInfoV2 : Type 0 where
  pub signature : Bytes
  pub is_vote : Bool
  pub message : SanitizedMessage
  pub account_keys : List Bytes
  pub signatures : List Bytes
  pub message_hash : Bytes
  pub transaction_status_meta : TransactionStatusMeta
