-- ===== src/Schema/Transactions.antt =====
-- The statements of `TransactionHandler::init`, in three parts.
use solana_indexer_plugin.Base.{String, ◌<>◌}

unfoldable error_types : String
error_types =
    "\n" <> "            DO $$ BEGIN\n"
    <> "                IF NOT EXISTS (SELECT 1 FROM pg_type WHERE typname = 'TransactionErrorCode') THEN\n"
    <> "                    CREATE TYPE \"TransactionErrorCode\" AS ENUM (\n"
    <> "                        'AccountInUse',\n"
    <> "                        'AccountLoadedTwice',\n"
    <> "                        'AccountNotFound',\n"
    <> "                        'ProgramAccountNotFound',\n"
    <> "                        'InsufficientFundsForFee',\n"
    <> "                        'InvalidAccountForFee',\n"
    <> "                        'AlreadyProcessed',\n"
    <> "                        'BlockhashNotFound',\n"
    <> "                        'InstructionError',\n"
    <> "                        'CallChainTooDeep',\n"
    <> "                        'MissingSignatureForFee',\n"
    <> "                        'InvalidAccountIndex',\n"
    <> "                        'SignatureFailure',\n"
    <> "                        'InvalidProgramForExecution',\n"
    <> "                        'SanitizeFailure',\n"
    <> "                        'ClusterMaintenance',\n"
    <> "                        'AccountBorrowOutstanding',\n"
    <> "                        'WouldExceedMaxAccountCostLimit',\n"
    <> "                        'WouldExceedMaxBlockCostLimit',\n"
    <> "                        'UnsupportedVersion',\n"
    <> "                        'InvalidWritableAccount',\n"
    <> "                        'WouldExceedMaxAccountDataCostLimit',\n"
    <> "                        'TooManyAccountLocks',\n"
    <> "                        'AddressLookupTableNotFound',\n"
    <> "                        'InvalidAddressLookupTableOwner',\n"
    <> "                        'InvalidAddressLookupTableData',\n"
    <> "                        'InvalidAddressLookupTableIndex',\n"
    <> "                        'InvalidRentPayingAccount',\n"
    <> "                        'WouldExceedMaxVoteCostLimit',\n"
    <> "                        'WouldExceedAccountDataBlockLimit',\n"
    <> "                        'WouldExceedAccountDataTotalLimit',\n"
    <> "                        'DuplicateInstruction',\n"
    <> "                        'InsufficientFundsForRent'\n" <> "                    );\n"
    <> "                END IF;\n" <> "            END $$;\n" <> "\n" <> "            DO $$ BEGIN\n"
    <> "                IF NOT EXISTS (SELECT 1 FROM pg_type WHERE typname = 'TransactionError') THEN\n"
    <> "                    CREATE TYPE \"TransactionError\" AS (\n"
    <> "                        error_code \"TransactionErrorCode\",\n"
    <> "                        error_detail VARCHAR(256)\n" <> "                    );\n"
    <> "                END IF;\n" <> "            END $$;            \n"

unfoldable status_types : String
status_types =
    "\n" <> "            \n" <> "            DO $$ BEGIN\n"
    <> "                IF NOT EXISTS (SELECT 1 FROM pg_type WHERE typname = 'CompiledInstruction') THEN\n"
    <> "                    CREATE TYPE \"CompiledInstruction\" AS (\n"
    <> "                        program_id_index SMALLINT,\n"
    <> "                        accounts SMALLINT[],\n" <> "                        data BYTEA\n"
    <> "                    );\n" <> "                END IF;\n" <> "            END $$;\n" <> "\n"
    <> "            DO $$ BEGIN\n"
    <> "                IF NOT EXISTS (SELECT 1 FROM pg_type WHERE typname = 'InnerInstructions') THEN\n"
    <> "                    CREATE TYPE \"InnerInstructions\" AS (\n"
    <> "                        index SMALLINT,\n"
    <> "                        instructions \"CompiledInstruction\"[]\n"
    <> "                    );\n" <> "                END IF;\n" <> "            END $$;\n" <> "\n"
    <> "            DO $$ BEGIN\n"
    <> "                IF NOT EXISTS (SELECT 1 FROM pg_type WHERE typname = 'TransactionTokenBalance') THEN\n"
    <> "                    CREATE TYPE \"TransactionTokenBalance\" AS (\n"
    <> "                        account_index SMALLINT,\n"
    <> "                        mint VARCHAR(44),\n"
    <> "                        ui_token_amount DOUBLE PRECISION,\n"
    <> "                        owner VARCHAR(44)\n" <> "                    );\n"
    <> "                END IF;\n" <> "            END $$;\n" <> "            \n"
    <> "            DO $$ BEGIN\n"
    <> "                IF NOT EXISTS (SELECT 1 FROM pg_type WHERE typname = 'RewardType') THEN\n"
    <> "                    CREATE TYPE \"RewardType\" AS ENUM (\n"
    <> "                        'Fee',\n" <> "                        'Rent',\n"
    <> "                        'Staking',\n" <> "                        'Voting'\n"
    <> "                    );\n" <> "                END IF;\n" <> "            END $$;\n" <> "\n"
    <> "            DO $$ BEGIN\n"
    <> "                IF NOT EXISTS (SELECT 1 FROM pg_type WHERE typname = 'Reward') THEN\n"
    <> "                    CREATE TYPE \"Reward\" AS (\n"
    <> "                        pubkey VARCHAR(44),\n"
    <> "                        lamports BIGINT,\n"
    <> "                        post_balance BIGINT,\n"
    <> "                        reward_type \"RewardType\",\n"
    <> "                        commission SMALLINT\n" <> "                    );\n"
    <> "                END IF;\n" <> "            END $$;\n" <> "\n" <> "            DO $$ BEGIN\n"
    <> "                IF NOT EXISTS (SELECT 1 FROM pg_type WHERE typname = 'TransactionStatusMeta') THEN\n"
    <> "                    CREATE TYPE \"TransactionStatusMeta\" AS (\n"
    <> "                        error \"TransactionError\",\n"
    <> "                        fee BIGINT,\n" <> "                        pre_balances BIGINT[],\n"
    <> "                        post_balances BIGINT[],\n"
    <> "                        inner_instructions \"InnerInstructions\"[],\n"
    <> "                        log_messages TEXT[],\n"
    <> "                        pre_token_balances \"TransactionTokenBalance\"[],\n"
    <> "                        post_token_balances \"TransactionTokenBalance\"[],\n"
    <> "                        rewards \"Reward\"[]\n" <> "                    );\n"
    <> "                END IF;\n" <> "            END $$;\n"

unfoldable message_types : String
message_types =
    "\n" <> "            DO $$ BEGIN\n"
    <> "                IF NOT EXISTS (SELECT 1 FROM pg_type WHERE typname = 'TransactionMessageHeader') THEN\n"
    <> "                    CREATE TYPE \"TransactionMessageHeader\" AS (\n"
    <> "                        num_required_signatures SMALLINT,\n"
    <> "                        num_readonly_signed_accounts SMALLINT,\n"
    <> "                        num_readonly_unsigned_accounts SMALLINT\n"
    <> "                    );\n" <> "                END IF;\n" <> "            END $$;\n" <> "\n"
    <> "            DO $$ BEGIN\n"
    <> "                IF NOT EXISTS (SELECT 1 FROM pg_type WHERE typname = 'TransactionMessage') THEN\n"
    <> "                    CREATE TYPE \"TransactionMessage\" AS (\n"
    <> "                        header \"TransactionMessageHeader\",\n"
    <> "                        account_keys BYTEA[],\n"
    <> "                        recent_blockhash BYTEA,\n"
    <> "                        instructions \"CompiledInstruction\"[]\n"
    <> "                    );\n" <> "                END IF;\n" <> "            END $$;\n" <> "\n"
    <> "            DO $$ BEGIN\n"
    <> "                IF NOT EXISTS (SELECT 1 FROM pg_type WHERE typname = 'TransactionMessageAddressTableLookup') THEN\n"
    <> "                    CREATE TYPE \"TransactionMessageAddressTableLookup\" AS (\n"
    <> "                        account_key BYTEA,\n"
    <> "                        writable_indexes SMALLINT[],\n"
    <> "                        readonly_indexes SMALLINT[]\n" <> "                    );\n"
    <> "                END IF;\n" <> "            END $$;\n" <> "\n" <> "            DO $$ BEGIN\n"
    <> "                IF NOT EXISTS (SELECT 1 FROM pg_type WHERE typname = 'TransactionMessageV0') THEN\n"
    <> "                    CREATE TYPE \"TransactionMessageV0\" AS (\n"
    <> "                        header \"TransactionMessageHeader\",\n"
    <> "                        account_keys BYTEA[],\n"
    <> "                        recent_blockhash BYTEA,\n"
    <> "                        instructions \"CompiledInstruction\"[],\n"
    <> "                        address_table_lookups \"TransactionMessageAddressTableLookup\"[]\n"
    <> "                    );\n" <> "                END IF;\n" <> "            END $$;\n" <> "\n"
    <> "            DO $$ BEGIN\n"
    <> "                IF NOT EXISTS (SELECT 1 FROM pg_type WHERE typname = 'LoadedAddresses') THEN\n"
    <> "                    CREATE TYPE \"LoadedAddresses\" AS (\n"
    <> "                        writable BYTEA[],\n" <> "                        readonly BYTEA[]\n"
    <> "                    );\n" <> "                END IF;\n" <> "            END $$;\n" <> "\n"
    <> "            DO $$ BEGIN\n"
    <> "                IF NOT EXISTS (SELECT 1 FROM pg_type WHERE typname = 'LoadedMessageV0') THEN\n"
    <> "                    CREATE TYPE \"LoadedMessageV0\" AS (\n"
    <> "                        message \"TransactionMessageV0\",\n"
    <> "                        loaded_addresses \"LoadedAddresses\"\n"
    <> "                    );\n" <> "                END IF;\n" <> "            END $$;\n"
    <> "            \n" <> "            CREATE TABLE IF NOT EXISTS transaction (\n"
    <> "                slot BIGINT NOT NULL,\n" <> "                signature BYTEA NOT NULL,\n"
    <> "                is_vote BOOL NOT NULL,\n"
    <> "                message_type SMALLINT, -- 0: legacy, 1: v0 message\n"
    <> "                legacy_message \"TransactionMessage\",\n"
    <> "                v0_loaded_message \"LoadedMessageV0\",\n"
    <> "                signatures BYTEA[],\n" <> "                message_hash BYTEA,\n"
    <> "                meta \"TransactionStatusMeta\",\n"
    <> "                write_version BIGINT,\n"
    <> "                updated_on TIMESTAMP NOT NULL,\n"
    <> "                index BIGINT NOT NULL,\n"
    <> "                CONSTRAINT transaction_pk PRIMARY KEY (slot, signature)\n"
    <> "            );\n" <> "        "

-- `TransactionHandler::init`
unfoldable pub transaction_schema : String
unfolding error_types status_types message_types
transaction_schema = error_types <> (status_types <> message_types)
