-- ===== src/Transaction/Names.antt =====
-- The names of the errors: those of the Solana crate's variants, and the labels that the database
-- type "TransactionErrorCode" has for the codes of transaction_handler.rs.
use solana_indexer_plugin.Base.{String, ◌≡◌, refl}
use solana_indexer_plugin.Transaction.Source.{TransactionError}
use solana_indexer_plugin.Transaction.ErrorCode.{DbTransactionErrorCode, error_code}

-- The label that a code is stored as: the derived `ToSql` writes the variant's name.
abbrev pub label : DbTransactionErrorCode → String
label DbTransactionErrorCode.account_in_use = "AccountInUse"
label DbTransactionErrorCode.account_loaded_twice = "AccountLoadedTwice"
label DbTransactionErrorCode.account_not_found = "AccountNotFound"
label DbTransactionErrorCode.program_account_not_found = "ProgramAccountNotFound"
label DbTransactionErrorCode.insufficient_funds_for_fee = "InsufficientFundsForFee"
label DbTransactionErrorCode.invalid_account_for_fee = "InvalidAccountForFee"
label DbTransactionErrorCode.already_processed = "AlreadyProcessed"
label DbTransactionErrorCode.blockhash_not_found = "BlockhashNotFound"
label DbTransactionErrorCode.instruction_error = "InstructionError"
label DbTransactionErrorCode.call_chain_too_deep = "CallChainTooDeep"
label DbTransactionErrorCode.missing_signature_for_fee = "MissingSignatureForFee"
label DbTransactionErrorCode.invalid_account_index = "InvalidAccountIndex"
label DbTransactionErrorCode.signature_failure = "SignatureFailure"
label DbTransactionErrorCode.invalid_program_for_execution = "InvalidProgramForExecution"
label DbTransactionErrorCode.sanitize_failure = "SanitizeFailure"
label DbTransactionErrorCode.cluster_maintenance = "ClusterMaintenance"
label DbTransactionErrorCode.account_borrow_outstanding = "AccountBorrowOutstanding"
label DbTransactionErrorCode.would_exceed_max_account_cost_limit = "WouldExceedMaxAccountCostLimit"
label DbTransactionErrorCode.would_exceed_max_block_cost_limit = "WouldExceedMaxBlockCostLimit"
label DbTransactionErrorCode.unsupported_version = "UnsupportedVersion"
label DbTransactionErrorCode.invalid_writable_account = "InvalidWritableAccount"
label DbTransactionErrorCode.would_exceed_max_account_data_cost_limit =
    "WouldExceedMaxAccountDataCostLimit"
label DbTransactionErrorCode.too_many_account_locks = "TooManyAccountLocks"
label DbTransactionErrorCode.address_lookup_table_not_found = "AddressLookupTableNotFound"
label DbTransactionErrorCode.invalid_address_lookup_table_owner = "InvalidAddressLookupTableOwner"
label DbTransactionErrorCode.invalid_address_lookup_table_data = "InvalidAddressLookupTableData"
label DbTransactionErrorCode.invalid_address_lookup_table_index = "InvalidAddressLookupTableIndex"
label DbTransactionErrorCode.invalid_rent_paying_account = "InvalidRentPayingAccount"
label DbTransactionErrorCode.would_exceed_max_vote_cost_limit = "WouldExceedMaxVoteCostLimit"
label DbTransactionErrorCode.would_exceed_account_data_block_limit =
    "WouldExceedAccountDataBlockLimit"
label DbTransactionErrorCode.would_exceed_account_data_total_limit =
    "WouldExceedAccountDataTotalLimit"
label DbTransactionErrorCode.duplicate_instruction = "DuplicateInstruction"
label DbTransactionErrorCode.insufficient_funds_for_rent = "InsufficientFundsForRent"

-- The variant's name of an error.
abbrev pub variant_name : TransactionError → String
variant_name TransactionError.account_in_use = "AccountInUse"
variant_name TransactionError.account_loaded_twice = "AccountLoadedTwice"
variant_name TransactionError.account_not_found = "AccountNotFound"
variant_name TransactionError.program_account_not_found = "ProgramAccountNotFound"
variant_name TransactionError.insufficient_funds_for_fee = "InsufficientFundsForFee"
variant_name TransactionError.invalid_account_for_fee = "InvalidAccountForFee"
variant_name TransactionError.already_processed = "AlreadyProcessed"
variant_name TransactionError.blockhash_not_found = "BlockhashNotFound"
variant_name (TransactionError.instruction_error idx error) = "InstructionError"
variant_name TransactionError.call_chain_too_deep = "CallChainTooDeep"
variant_name TransactionError.missing_signature_for_fee = "MissingSignatureForFee"
variant_name TransactionError.invalid_account_index = "InvalidAccountIndex"
variant_name TransactionError.signature_failure = "SignatureFailure"
variant_name TransactionError.invalid_program_for_execution = "InvalidProgramForExecution"
variant_name TransactionError.sanitize_failure = "SanitizeFailure"
variant_name TransactionError.cluster_maintenance = "ClusterMaintenance"
variant_name TransactionError.account_borrow_outstanding = "AccountBorrowOutstanding"
variant_name TransactionError.would_exceed_max_account_cost_limit = "WouldExceedMaxAccountCostLimit"
variant_name TransactionError.would_exceed_max_block_cost_limit = "WouldExceedMaxBlockCostLimit"
variant_name TransactionError.unsupported_version = "UnsupportedVersion"
variant_name TransactionError.invalid_writable_account = "InvalidWritableAccount"
variant_name TransactionError.would_exceed_account_data_block_limit =
    "WouldExceedAccountDataBlockLimit"
variant_name TransactionError.would_exceed_account_data_total_limit =
    "WouldExceedAccountDataTotalLimit"
variant_name TransactionError.too_many_account_locks = "TooManyAccountLocks"
variant_name TransactionError.address_lookup_table_not_found = "AddressLookupTableNotFound"
variant_name TransactionError.invalid_address_lookup_table_owner = "InvalidAddressLookupTableOwner"
variant_name TransactionError.invalid_address_lookup_table_data = "InvalidAddressLookupTableData"
variant_name TransactionError.invalid_address_lookup_table_index = "InvalidAddressLookupTableIndex"
variant_name TransactionError.invalid_rent_paying_account = "InvalidRentPayingAccount"
variant_name TransactionError.would_exceed_max_vote_cost_limit = "WouldExceedMaxVoteCostLimit"
variant_name (TransactionError.duplicate_instruction index) = "DuplicateInstruction"
variant_name (TransactionError.insufficient_funds_for_rent index) = "InsufficientFundsForRent"

-- The code of an error is stored under the error's own name.
pub label-error_code : (error : TransactionError) → label (error_code error) ≡ variant_name error
unfolding error_code
label-error_code TransactionError.account_in_use = refl
label-error_code TransactionError.account_loaded_twice = refl
label-error_code TransactionError.account_not_found = refl
label-error_code TransactionError.program_account_not_found = refl
label-error_code TransactionError.insufficient_funds_for_fee = refl
label-error_code TransactionError.invalid_account_for_fee = refl
label-error_code TransactionError.already_processed = refl
label-error_code TransactionError.blockhash_not_found = refl
label-error_code (TransactionError.instruction_error idx error) = refl
label-error_code TransactionError.call_chain_too_deep = refl
label-error_code TransactionError.missing_signature_for_fee = refl
label-error_code TransactionError.invalid_account_index = refl
label-error_code TransactionError.signature_failure = refl
label-error_code TransactionError.invalid_program_for_execution = refl
label-error_code TransactionError.sanitize_failure = refl
label-error_code TransactionError.cluster_maintenance = refl
label-error_code TransactionError.account_borrow_outstanding = refl
label-error_code TransactionError.would_exceed_max_account_cost_limit = refl
label-error_code TransactionError.would_exceed_max_block_cost_limit = refl
label-error_code TransactionError.unsupported_version = refl
label-error_code TransactionError.invalid_writable_account = refl
label-error_code TransactionError.would_exceed_account_data_block_limit = refl
label-error_code TransactionError.would_exceed_account_data_total_limit = refl
label-error_code TransactionError.too_many_account_locks = refl
label-error_code TransactionError.address_lookup_table_not_found = refl
label-error_code TransactionError.invalid_address_lookup_table_owner = refl
label-error_code TransactionError.invalid_address_lookup_table_data = refl
label-error_code TransactionError.invalid_address_lookup_table_index = refl
label-error_code TransactionError.invalid_rent_paying_account = refl
label-error_code TransactionError.would_exceed_max_vote_cost_limit = refl
label-error_code (TransactionError.duplicate_instruction index) = refl
label-error_code (TransactionError.insufficient_funds_for_rent index) = refl
