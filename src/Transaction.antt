-- ===== src/Transaction.antt =====
-- transaction_handler.rs: the rows that a transaction becomes.
mod Source
mod Rows
mod ErrorCode
mod Conversion
pub use Source.*
pub use Rows.*
pub mod ReadBack
pub mod Names
pub mod ErrorDetail
pub mod Checks
unfoldable pub use ErrorCode.*
unfoldable pub use Conversion.*
