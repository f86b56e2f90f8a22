-- ===== src/Block.antt =====
-- The block data of block_handler.rs.
use mathlib.Core.Option
use solana_indexer_plugin.Base.{ℕ, ℤ, as_i64, String, Option, List, map}
use solana_indexer_plugin.Transaction.{Reward, DbReward, db_reward}

-- `ReplicaBlockInfo` of the plugin interface
pub record ReplicaBlockInfo : Type 0 where
  pub slot : ℕ
  pub blockhash : String
  pub rewards : List Reward
  pub block_time : Option ℤ
  pub block_height : Option ℕ

-- `DbBlockInfo`
pub record DbBlockInfo : Type 0 where
  pub slot : ℤ
  pub blockhash : String
  pub rewards : List DbReward
  pub block_time : Option ℤ
  pub block_height : Option ℤ

-- `DbBlockInfo::from`
unfoldable pub db_block_info : ReplicaBlockInfo → DbBlockInfo
unfolding db_reward
db_block_info block_info = record {
  slot = as_i64 block_info.slot;
  blockhash = block_info.blockhash;
  rewards = map db_reward block_info.rewards;
  block_time = block_info.block_time;
  block_height = Option.map as_i64 block_info.block_height;
}
