-- ===== src/Schema/Tables.antt =====
-- The statements that create the tables of the accounts, the slots and the blocks.
use solana_indexer_plugin.Base.{String, ◌<>◌}

-- `TokenAccountHandler::init`
unfoldable pub token_account_schema : String
token_account_schema =
    "\n" <> "            CREATE TABLE IF NOT EXISTS spl_token_account (\n"
    <> "                pubkey VARCHAR(44) NOT NULL,\n"
    <> "                owner VARCHAR(44) NOT NULL,\n"
    <> "                mint VARCHAR(44) NOT NULL,\n" <> "                slot BIGINT NOT NULL\n"
    <> "            );\n"
    <> "            CREATE INDEX IF NOT EXISTS spl_token_account_owner ON spl_token_account (owner);\n"
    <> "            CREATE INDEX IF NOT EXISTS spl_token_account_mint ON spl_token_account (mint);\n"
    <> "            CREATE UNIQUE INDEX IF NOT EXISTS spl_token_account_owner_pair ON spl_token_account (pubkey, owner, mint);\n"
    <> "        "

-- `MetadataCreatorsAccountHandler::init`
unfoldable pub metadata_creators_schema : String
metadata_creators_schema =
    "\n" <> "            CREATE TABLE IF NOT EXISTS token_metadata_creators (\n"
    <> "                mint VARCHAR(44) NOT NULL,\n"
    <> "                creator VARCHAR(44) NOT NULL,\n"
    <> "                verified BOOL NOT NULL,\n" <> "                share SMALLINT NOT NULL,\n"
    <> "                position SMALLINT NOT NULL,\n" <> "                slot BIGINT NOT NULL,\n"
    <> "                PRIMARY KEY(creator, mint)\n" <> "            );\n" <> "        "

-- `TokenManagerAccountHandler::init`
unfoldable pub token_manager_schema : String
token_manager_schema =
    "\n" <> "            CREATE TABLE IF NOT EXISTS token_manager (\n"
    <> "                id VARCHAR(44) NOT NULL,\n"
    <> "                version SMALLINT NOT NULL,\n" <> "                bump SMALLINT NOT NULL,\n"
    <> "                count BIGINT NOT NULL,\n"
    <> "                num_invalidators SMALLINT NOT NULL,\n"
    <> "                issuer VARCHAR(44) NOT NULL,\n"
    <> "                mint VARCHAR(44) NOT NULL,\n" <> "                amount BIGINT NOT NULL,\n"
    <> "                kind SMALLINT NOT NULL,\n" <> "                state SMALLINT NOT NULL,\n"
    <> "                state_changed_at BIGINT NOT NULL,\n"
    <> "                invalidation_type SMALLINT NOT NULL,\n"
    <> "                recipient_token_account VARCHAR(44) NOT NULL,\n"
    <> "                receipt_mint VARCHAR(44),\n"
    <> "                claim_approver VARCHAR(44),\n"
    <> "                transfer_authority VARCHAR(44),\n"
    <> "                invalidators VARCHAR(44)[] NOT NULL,\n"
    <> "                slot BIGINT NOT NULL,\n" <> "                PRIMARY KEY(id)\n"
    <> "            );\n" <> "        "

-- `UnknownAccountHandler::init`
unfoldable pub unknown_account_schema : String
unknown_account_schema =
    "\n" <> "            CREATE TABLE IF NOT EXISTS account (\n"
    <> "                pubkey BYTEA PRIMARY KEY,\n" <> "                owner BYTEA,\n"
    <> "                lamports BIGINT NOT NULL,\n" <> "                slot BIGINT NOT NULL,\n"
    <> "                executable BOOL NOT NULL,\n"
    <> "                rent_epoch BIGINT NOT NULL,\n" <> "                data BYTEA,\n"
    <> "                write_version BIGINT NOT NULL,\n"
    <> "                updated_on TIMESTAMP NOT NULL,\n" <> "                txn_signature BYTEA\n"
    <> "            );\n"
    <> "            CREATE INDEX IF NOT EXISTS account_owner ON account (owner);\n"
    <> "            CREATE INDEX IF NOT EXISTS account_slot ON account (slot);\n" <> "        "

-- `SlotHandler::init`
unfoldable pub slot_schema : String
slot_schema =
    "\n" <> "            CREATE TABLE IF NOT EXISTS slot (\n"
    <> "                slot BIGINT PRIMARY KEY,\n" <> "                parent BIGINT,\n"
    <> "                status VARCHAR(16) NOT NULL,\n"
    <> "                updated_on TIMESTAMP NOT NULL\n" <> "            );\n" <> "        "

-- `BlockHandler::init`
unfoldable pub block_schema : String
block_schema =
    "\n" <> "            DO $$ BEGIN\n"
    <> "                IF NOT EXISTS (SELECT 1 FROM pg_type WHERE typname = 'RewardType') THEN\n"
    <> "                    CREATE TYPE \"RewardType\" AS ENUM (\n"
    <> "                        'Fee',\n" <> "                        'Rent',\n"
    <> "                        'Staking',\n" <> "                        'Voting'\n"
    <> "                    );\n" <> "                END IF;\n" <> "            END $$;\n"
    <> "            \n" <> "            DO $$ BEGIN\n"
    <> "                IF NOT EXISTS (SELECT 1 FROM pg_type WHERE typname = 'Reward') THEN\n"
    <> "                    CREATE TYPE \"Reward\" AS (\n"
    <> "                        pubkey VARCHAR(44),\n"
    <> "                        lamports BIGINT,\n"
    <> "                        post_balance BIGINT,\n"
    <> "                        reward_type \"RewardType\",\n"
    <> "                        commission SMALLINT\n" <> "                    );\n"
    <> "                END IF;\n" <> "            END $$;     \n" <> "            \n"
    <> "            CREATE TABLE IF NOT EXISTS block (\n"
    <> "                slot BIGINT PRIMARY KEY,\n" <> "                blockhash VARCHAR(44),\n"
    <> "                rewards \"Reward\"[],\n" <> "                block_time BIGINT,\n"
    <> "                block_height BIGINT,\n" <> "                updated_on TIMESTAMP NOT NULL\n"
    <> "            );\n" <> "        "
