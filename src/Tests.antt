-- ===== src/Tests.antt =====
-- Concrete runs of the program.
mod Codec
mod Data
mod Tables
mod Selection
mod Transactions
mod Startup
mod Loading
mod Threads
mod Fixtures
mod Checks
mod Conversions
mod Delivery
mod Creators
