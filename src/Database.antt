-- ===== src/Database.antt =====
-- The database, as the crate `postgres` shows it: a state behind the calls that the program makes.
use solana_indexer_plugin.Base.{ℤ, String, Option, List}
use solana_indexer_plugin.Sql.{Statement}
use solana_indexer_plugin.Config.{Attempt}
use solana_indexer_plugin.Block.{DbBlockInfo}
use solana_indexer_plugin.Transaction.{DbTransaction}

-- `batch_execute` is given the statements of which the text consists, and `execute_schema` is the same
-- call with the text that creates the schema. The calls that write return `none` for `Ok`, or the
-- error's text; a prepared statement is its text. The last argument but one of a query is the time of the call.
pub record Database : Type 1 where
  pub State : Type 0
  pub batch_execute : List Statement → State → Option String × State
  pub execute_schema : String → State → Option String × State
  pub query_opt : String → State → Attempt (Option ℤ)
  pub prepare : String → State → Attempt String
  pub query_block : String → DbBlockInfo → String → State → Option String × State
  pub query_transaction : String → DbTransaction → String → State → Option String × State
