-- ===== src/Sql.antt =====
-- The SQL statements that the handlers write. A query of the program is the texts of statements, one
-- after the other; here it is their list, and `query_text` is what the database is sent.
mod Rows
mod Text
pub mod Tables
pub mod Latest
pub mod Accounts
pub mod TokenAccounts
pub mod TokenManagers
pub mod Slots
pub mod UpToDate
pub mod Creators
unfoldable pub use Rows.*
unfoldable pub use Text.*
