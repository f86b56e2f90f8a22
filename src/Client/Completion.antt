-- ===== src/Client/Completion.antt =====
-- The startup of a client ends without an error where the database refuses nothing.
use solana_indexer_plugin.Base.{List}
use solana_indexer_plugin.Crates.{Crates}
use solana_indexer_plugin.Database.{Database}
