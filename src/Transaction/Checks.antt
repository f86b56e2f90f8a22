-- ===== src/Transaction/Checks.antt =====
-- The checks that the unit tests of transaction_handler.rs make of a row. A check is true where no
-- assertion of it fails and no index or `unwrap` panics. `f64_eq` is the equality of two `f64`.
pub mod Parts
pub mod Passed
use mathlib.Core.Option
use solana_indexer_plugin.Base.{
  ℕ, pos, as_u64, as_u8, eqb_ℤ, Bytes, bytes_eq, str_eq, Bool, true, false, not, ◌&&◌, ◌==◌, Option,
  none, some, List, [], ◌∷◌,
}
use solana_indexer_plugin.Transaction.Source.{
  CompiledInstruction, InnerInstructions, TransactionTokenBalance, Reward, TransactionStatusMeta,
  MessageHeader, MessageAddressTableLookup, LegacyMessage, V0Message, LoadedAddresses,
  LoadedMessage, SanitizedMessage, legacy, v0, ReplicaTransactionInfoV2,
}
use solana_indexer_plugin.Transaction.Rows.{
  DbCompiledInstruction, DbInnerInstructions, DbTransactionTokenBalance, DbRewardType, DbReward,
  DbTransactionError, DbTransactionStatusMeta, DbTransactionMessageHeader, DbTransactionMessage,
  DbTransactionMessageAddressTableLookup, DbTransactionMessageV0, DbLoadedAddresses,
  DbLoadedMessageV0, DbTransaction,
}
use solana_indexer_plugin.Transaction.ErrorCode.{DbTransactionErrorCode}
use solana_indexer_plugin.Transaction.Conversion.{get_reward_type, get_transaction_error}

-- The assertion that two sequences have the same length, and the loop that checks item by item.
unfoldable pub each {ℓ κ} : {A : Type ℓ} {B : Type κ} → (A → B → Bool) → List A → List B → Bool
each check [] [] = true
each check [] (y ∷ ys) = false
each check (x ∷ xs) [] = false
each check (x ∷ xs) (y ∷ ys) = check x y && each check xs ys

-- The same for what may be absent.
unfoldable pub both {ℓ κ} : {A : Type ℓ} {B : Type κ} → (A → B → Bool) → Option A → Option B → Bool
both check none none = true
both check none (some y) = false
both check (some x) none = false
both check (some x) (some y) = check x y

-- The place of an error code in its declaration, by which derived equality compares.
unfoldable pub code_number : DbTransactionErrorCode → ℕ
code_number DbTransactionErrorCode.account_in_use = 0
code_number DbTransactionErrorCode.account_loaded_twice = 1
code_number DbTransactionErrorCode.account_not_found = 2
code_number DbTransactionErrorCode.program_account_not_found = 3
code_number DbTransactionErrorCode.insufficient_funds_for_fee = 4
code_number DbTransactionErrorCode.invalid_account_for_fee = 5
code_number DbTransactionErrorCode.already_processed = 6
code_number DbTransactionErrorCode.blockhash_not_found = 7
code_number DbTransactionErrorCode.instruction_error = 8
code_number DbTransactionErrorCode.call_chain_too_deep = 9
code_number DbTransactionErrorCode.missing_signature_for_fee = 10
code_number DbTransactionErrorCode.invalid_account_index = 11
code_number DbTransactionErrorCode.signature_failure = 12
code_number DbTransactionErrorCode.invalid_program_for_execution = 13
code_number DbTransactionErrorCode.sanitize_failure = 14
code_number DbTransactionErrorCode.cluster_maintenance = 15
code_number DbTransactionErrorCode.account_borrow_outstanding = 16
code_number DbTransactionErrorCode.would_exceed_max_account_cost_limit = 17
code_number DbTransactionErrorCode.would_exceed_max_block_cost_limit = 18
code_number DbTransactionErrorCode.unsupported_version = 19
code_number DbTransactionErrorCode.invalid_writable_account = 20
code_number DbTransactionErrorCode.would_exceed_max_account_data_cost_limit = 21
code_number DbTransactionErrorCode.too_many_account_locks = 22
code_number DbTransactionErrorCode.address_lookup_table_not_found = 23
code_number DbTransactionErrorCode.invalid_address_lookup_table_owner = 24
code_number DbTransactionErrorCode.invalid_address_lookup_table_data = 25
code_number DbTransactionErrorCode.invalid_address_lookup_table_index = 26
code_number DbTransactionErrorCode.invalid_rent_paying_account = 27
code_number DbTransactionErrorCode.would_exceed_max_vote_cost_limit = 28
code_number DbTransactionErrorCode.would_exceed_account_data_block_limit = 29
code_number DbTransactionErrorCode.would_exceed_account_data_total_limit = 30
code_number DbTransactionErrorCode.duplicate_instruction = 31
code_number DbTransactionErrorCode.insufficient_funds_for_rent = 32

unfoldable pub error_eq : DbTransactionError → DbTransactionError → Bool
unfolding code_number both
error_eq a b =
    code_number a.error_code == code_number b.error_code
    && both str_eq a.error_detail b.error_detail

unfoldable pub reward_type_eq : DbRewardType → DbRewardType → Bool
reward_type_eq DbRewardType.fee DbRewardType.fee = true
reward_type_eq DbRewardType.rent DbRewardType.rent = true
reward_type_eq DbRewardType.staking DbRewardType.staking = true
reward_type_eq DbRewardType.voting DbRewardType.voting = true
reward_type_eq _ _ = false

unfoldable pub bool_eq : Bool → Bool → Bool
bool_eq true b = b
bool_eq false b = not b

unfoldable pub check_compiled_instruction_equality :
    CompiledInstruction → DbCompiledInstruction → Bool
unfolding each
check_compiled_instruction_equality compiled_instruction db_compiled_instruction =
    compiled_instruction.program_id_index == as_u8 db_compiled_instruction.program_id_index
    && each (λ a b. a == as_u8 b) compiled_instruction.accounts db_compiled_instruction.accounts
    && bytes_eq compiled_instruction.contents db_compiled_instruction.contents

unfoldable pub check_inner_instructions_equality : InnerInstructions → DbInnerInstructions → Bool
unfolding each check_compiled_instruction_equality
check_inner_instructions_equality inner_instructions db_inner_instructions =
    inner_instructions.index == as_u8 db_inner_instructions.index
    && each check_compiled_instruction_equality inner_instructions.instructions
        db_inner_instructions.instructions

unfoldable pub check_address_table_lookups_equality :
    MessageAddressTableLookup → DbTransactionMessageAddressTableLookup → Bool
unfolding each
check_address_table_lookups_equality lookups db_lookups =
    each (λ a b. a == as_u8 b) lookups.writable_indexes db_lookups.writable_indexes
    && each (λ a b. a == as_u8 b) lookups.readonly_indexes db_lookups.readonly_indexes

unfoldable pub check_reward_equality : Reward → DbReward → Bool
unfolding both reward_type_eq
check_reward_equality reward db_reward =
    str_eq reward.pubkey db_reward.pubkey
    && eqb_ℤ reward.lamports db_reward.lamports
    && reward.post_balance == as_u64 db_reward.post_balance
    && both reward_type_eq (get_reward_type reward.reward_type) db_reward.reward_type
    && both (λ a b. a == b) reward.commission (Option.map as_u8 db_reward.commission)

unfoldable pub check_message_header_equality : MessageHeader → DbTransactionMessageHeader → Bool
check_message_header_equality message_header db_message_header =
    message_header.num_readonly_signed_accounts
      == as_u8 db_message_header.num_readonly_signed_accounts
    && message_header.num_readonly_unsigned_accounts
      == as_u8 db_message_header.num_readonly_unsigned_accounts
    && message_header.num_required_signatures == as_u8 db_message_header.num_required_signatures

unfoldable pub check_transaction_message_equality : LegacyMessage → DbTransactionMessage → Bool
unfolding each check_message_header_equality check_compiled_instruction_equality
check_transaction_message_equality message db_message =
    check_message_header_equality message.header db_message.header
    && each bytes_eq message.account_keys db_message.account_keys
    && each check_compiled_instruction_equality message.instructions db_message.instructions

unfoldable pub check_transaction_message_v0_equality : V0Message → DbTransactionMessageV0 → Bool
unfolding each check_message_header_equality check_compiled_instruction_equality
    check_address_table_lookups_equality
check_transaction_message_v0_equality message db_message =
    check_message_header_equality message.header db_message.header
    && each bytes_eq message.account_keys db_message.account_keys
    && each check_compiled_instruction_equality message.instructions db_message.instructions
    && each check_address_table_lookups_equality message.address_table_lookups
        db_message.address_table_lookups

unfoldable pub check_loaded_addresses : LoadedAddresses → DbLoadedAddresses → Bool
unfolding each
check_loaded_addresses loaded_addresses db_loaded_addresses =
    each bytes_eq loaded_addresses.writable db_loaded_addresses.writable
    && each bytes_eq loaded_addresses.readonly db_loaded_addresses.readonly

unfoldable pub check_loaded_message_v0_equality : LoadedMessage → DbLoadedMessageV0 → Bool
unfolding check_transaction_message_v0_equality check_loaded_addresses
check_loaded_message_v0_equality message db_message =
    check_transaction_message_v0_equality message.message db_message.message
    && check_loaded_addresses message.loaded_addresses db_message.loaded_addresses

-- The match of `check_transaction`, with the `unwrap` of the message's column.
unfoldable pub check_message : SanitizedMessage → DbTransaction → Bool
unfolding both check_transaction_message_equality check_loaded_message_v0_equality
check_message (legacy message) row =
    eqb_ℤ row.message_type (pos 0)
    && both check_transaction_message_equality (some message) row.legacy_message
check_message (v0 message) row =
    eqb_ℤ row.message_type (pos 1)
    && both check_loaded_message_v0_equality (some message) row.v0_loaded_message

module _ (f64_eq : ℕ → ℕ → Bool) where
  unfoldable pub check_transaction_token_balance_equality :
      TransactionTokenBalance → DbTransactionTokenBalance → Bool
  unfolding both
  check_transaction_token_balance_equality balance db_balance =
      balance.account_index == as_u8 db_balance.account_index
      && str_eq balance.mint db_balance.mint
      && both f64_eq balance.ui_amount db_balance.ui_token_amount
      && str_eq balance.owner db_balance.owner

  unfoldable pub check_token_balances :
      Option (List TransactionTokenBalance) → Option (List DbTransactionTokenBalance) → Bool
  unfolding both each check_transaction_token_balance_equality
  check_token_balances token_balances db_token_balances =
      both (each check_transaction_token_balance_equality) token_balances db_token_balances

  -- `get_transaction_error` may panic.
  unfoldable pub check_transaction_status_meta :
      TransactionStatusMeta → DbTransactionStatusMeta → Bool
  unfolding both each error_eq check_inner_instructions_equality check_token_balances
      check_reward_equality
  check_transaction_status_meta meta db_meta =
      both (both error_eq) (get_transaction_error meta.status) (some db_meta.error)
      && meta.fee == as_u64 db_meta.fee
      && each (λ a b. a == as_u64 b) meta.pre_balances db_meta.pre_balances
      && each (λ a b. a == as_u64 b) meta.post_balances db_meta.post_balances
      && both (each check_inner_instructions_equality) meta.inner_instructions
          db_meta.inner_instructions
      && both (each str_eq) meta.log_messages db_meta.log_messages
      && check_token_balances meta.pre_token_balances db_meta.pre_token_balances
      && check_token_balances meta.post_token_balances db_meta.post_token_balances
      && both (each check_reward_equality) meta.rewards db_meta.rewards

  unfoldable pub check_transaction : ℕ → ReplicaTransactionInfoV2 → DbTransaction → Bool
  unfolding each check_message check_transaction_status_meta
  check_transaction slot transaction db_transaction =
      bytes_eq transaction.signature db_transaction.signature
      && bool_eq transaction.is_vote db_transaction.is_vote
      && slot == as_u64 db_transaction.slot
      && check_message transaction.message db_transaction
      && each bytes_eq transaction.signatures db_transaction.signatures
      && bytes_eq transaction.message_hash db_transaction.message_hash
      && check_transaction_status_meta transaction.transaction_status_meta db_transaction.meta
