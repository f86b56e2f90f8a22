-- ===== src/Transaction/ErrorCode.antt =====
-- The error codes of transaction_handler.rs.
use solana_indexer_plugin.Transaction.Source.{TransactionError}

-- `DbTransactionErrorCode`
pub data DbTransactionErrorCode : Type 0 where
  account_in_use : DbTransactionErrorCode
  account_loaded_twice : DbTransactionErrorCode
  account_not_found : DbTransactionErrorCode
  program_account_not_found : DbTransactionErrorCode
  insufficient_funds_for_fee : DbTransactionErrorCode
  invalid_account_for_fee : DbTransactionErrorCode
  already_processed : DbTransactionErrorCode
  blockhash_not_found : DbTransactionErrorCode
  instruction_error : DbTransactionErrorCode
  call_chain_too_deep : DbTransactionErrorCode
  missing_signature_for_fee : DbTransactionErrorCode
  invalid_account_index : DbTransactionErrorCode
  signature_failure : DbTransactionErrorCode
  invalid_program_for_execution : DbTransactionErrorCode
  sanitize_failure : DbTransactionErrorCode
  cluster_maintenance : DbTransactionErrorCode
  account_borrow_outstanding : DbTransactionErrorCode
  would_exceed_max_account_cost_limit : DbTransactionErrorCode
  would_exceed_max_block_cost_limit : DbTransactionErrorCode
  unsupported_version : DbTransactionErrorCode
  invalid_writable_account : DbTransactionErrorCode
  would_exceed_max_account_data_cost_limit : DbTransactionErrorCode
  too_many_account_locks : DbTransactionErrorCode
  address_lookup_table_not_found : DbTransactionErrorCode
  invalid_address_lookup_table_owner : DbTransactionErrorCode
  invalid_address_lookup_table_data : DbTransactionErrorCode
  invalid_address_lookup_table_index : DbTransactionErrorCode
  invalid_rent_paying_account : DbTransactionErrorCode
  would_exceed_max_vote_cost_limit : DbTransactionErrorCode
  would_exceed_account_data_block_limit : DbTransactionErrorCode
  would_exceed_account_data_total_limit : DbTransactionErrorCode
  duplicate_instruction : DbTransactionErrorCode
  insufficient_funds_for_rent : DbTransactionErrorCode

-- `DbTransactionErrorCode::from`
unfoldable pub error_code : TransactionError → DbTransactionErrorCode
error_code TransactionError.account_in_use = DbTransactionErrorCode.account_in_use
error_code TransactionError.account_loaded_twice = DbTransactionErrorCode.account_loaded_twice
error_code TransactionError.account_not_found = DbTransactionErrorCode.account_not_found
error_code TransactionError.program_account_not_found =
    DbTransactionErrorCode.program_account_not_found
error_code TransactionError.insufficient_funds_for_fee =
    DbTransactionErrorCode.insufficient_funds_for_fee
error_code TransactionError.invalid_account_for_fee = DbTransactionErrorCode.invalid_account_for_fee
error_code TransactionError.already_processed = DbTransactionErrorCode.already_processed
error_code TransactionError.blockhash_not_found = DbTransactionErrorCode.blockhash_not_found
error_code (TransactionError.instruction_error idx detail) =
    DbTransactionErrorCode.instruction_error
error_code TransactionError.call_chain_too_deep = DbTransactionErrorCode.call_chain_too_deep
error_code TransactionError.missing_signature_for_fee =
    DbTransactionErrorCode.missing_signature_for_fee
error_code TransactionError.invalid_account_index = DbTransactionErrorCode.invalid_account_index
error_code TransactionError.signature_failure = DbTransactionErrorCode.signature_failure
error_code TransactionError.invalid_program_for_execution =
    DbTransactionErrorCode.invalid_program_for_execution
error_code TransactionError.sanitize_failure = DbTransactionErrorCode.sanitize_failure
error_code TransactionError.cluster_maintenance = DbTransactionErrorCode.cluster_maintenance
error_code TransactionError.account_borrow_outstanding =
    DbTransactionErrorCode.account_borrow_outstanding
error_code TransactionError.would_exceed_max_account_cost_limit =
    DbTransactionErrorCode.would_exceed_max_account_cost_limit
error_code TransactionError.would_exceed_max_block_cost_limit =
    DbTransactionErrorCode.would_exceed_max_block_cost_limit
error_code TransactionError.unsupported_version = DbTransactionErrorCode.unsupported_version
error_code TransactionError.invalid_writable_account =
    DbTransactionErrorCode.invalid_writable_account
error_code TransactionError.would_exceed_account_data_block_limit =
    DbTransactionErrorCode.would_exceed_account_data_block_limit
error_code TransactionError.would_exceed_account_data_total_limit =
    DbTransactionErrorCode.would_exceed_account_data_total_limit
error_code TransactionError.too_many_account_locks = DbTransactionErrorCode.too_many_account_locks
error_code TransactionError.address_lookup_table_not_found =
    DbTransactionErrorCode.address_lookup_table_not_found
error_code TransactionError.invalid_address_lookup_table_owner =
    DbTransactionErrorCode.invalid_address_lookup_table_owner
error_code TransactionError.invalid_address_lookup_table_data =
    DbTransactionErrorCode.invalid_address_lookup_table_data
error_code TransactionError.invalid_address_lookup_table_index =
    DbTransactionErrorCode.invalid_address_lookup_table_index
error_code TransactionError.invalid_rent_paying_account =
    DbTransactionErrorCode.invalid_rent_paying_account
error_code TransactionError.would_exceed_max_vote_cost_limit =
    DbTransactionErrorCode.would_exceed_max_vote_cost_limit
error_code (TransactionError.duplicate_instruction index) =
    DbTransactionErrorCode.duplicate_instruction
error_code (TransactionError.insufficient_funds_for_rent index) =
    DbTransactionErrorCode.insufficient_funds_for_rent
