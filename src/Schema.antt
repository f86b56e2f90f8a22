-- ===== src/Schema.antt =====
-- The statements that create the tables and types, and the two prepared statements.
mod Tables
mod Transactions
unfoldable pub use Tables.*
unfoldable pub use Transactions.*
use solana_indexer_plugin.Base.{String, ◌<>◌}
use solana_indexer_plugin.Handlers.{
  AccountHandler, token_account_handler, metadata_creators_handler, token_manager_handler,
  unknown_account_handler,
}

-- `AccountHandler::init`; every handler is enabled.
unfoldable pub handler_schema : AccountHandler → String
handler_schema token_account_handler = token_account_schema
handler_schema metadata_creators_handler = metadata_creators_schema
handler_schema token_manager_handler = token_manager_schema
handler_schema unknown_account_handler = unknown_account_schema

-- The statement of `BlockHandler::new`
unfoldable pub upsert_block : String
upsert_block =
    "INSERT INTO block (slot, blockhash, rewards, block_time, block_height, updated_on) VALUES ($1, $2, $3, $4, $5, $6) ON CONFLICT (slot) DO UPDATE SET blockhash=excluded.blockhash, rewards=excluded.rewards, block_time=excluded.block_time, block_height=excluded.block_height, updated_on=excluded.updated_on;"

-- The statement of `TransactionHandler::new`
unfoldable pub upsert_transaction : String
upsert_transaction =
    "\n"
    <> "            INSERT INTO transaction AS txn (signature, is_vote, slot, message_type, legacy_message, v0_loaded_message, signatures, message_hash, meta, write_version, index, updated_on) VALUES ($1, $2, $3, $4, $5, $6, $7, $8, $9, $10, $11, $12) ON CONFLICT (slot, signature) DO UPDATE SET is_vote=excluded.is_vote, message_type=excluded.message_type, legacy_message=excluded.legacy_message, v0_loaded_message=excluded.v0_loaded_message, signatures=excluded.signatures, message_hash=excluded.message_hash, meta=excluded.meta, write_version=excluded.write_version, index=excluded.index,\n"
    <> "                updated_on=excluded.updated_on;\n" <> "        "
