-- ===== src/Tests/Checks.antt =====
-- The unit tests of transaction_handler.rs.
use solana_indexer_plugin.Base.{
  ℕ, ◌==◌, Bool, true, Bytes, String, some, Option, [], ◌∷◌, ◌≡◌, refl, arith,
}
use solana_indexer_plugin.Transaction.{
  DbTransaction, build_db_transaction, db_meta, get_transaction_error,
}
use solana_indexer_plugin.Transaction.Checks.{check_transaction}
use solana_indexer_plugin.Transaction.Checks.Passed.{check-build_db_transaction}
use solana_indexer_plugin.Tests.Fixtures.{transaction_info}

abbrev new_unique : ℕ → Bytes
new_unique n = n ∷ []

abbrev text : ℕ → String
text n = "key"

abbrev equal_bits : ℕ → ℕ → Bool
equal_bits a b = a == b

-- The row that the code builds.
abbrev row : Option DbTransaction
row = build_db_transaction 54 (transaction_info new_unique text) 1

row-some : (r : DbTransaction) × (row ≡ some r)
unfolding build_db_transaction db_meta get_transaction_error
row-some = (_, refl)

check-build_db_transaction_example :
    check_transaction equal_bits 54 (transaction_info new_unique text) row-some.0 ≡ true
check-build_db_transaction_example =
    check-build_db_transaction equal_bits 54 (transaction_info new_unique text) 1 row-some.0
      (omega arith) (ground arith) (ground arith) (ground arith) row-some.1
