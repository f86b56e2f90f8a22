-- ===== src/Sql/Latest.antt =====
-- A table whose `WHERE` compares versions keeps the latest row of each key, in whatever order the
-- rows arrive.
mod Order
mod Keyed
unfoldable pub use Order.*
unfoldable pub use Keyed.*
