-- ===== src/Tests/Transactions.antt =====
-- The rows of some transactions.
use solana_indexer_plugin.Base.{
  Bool, true, List, ℕ, pos, as_u64, as_i64, false, String, decimal, digit, digits, none, some, [],
  ◌∷◌, ◌++◌, ◌≡◌, refl, arith,
}
use mathlib.Core.Option
use solana_indexer_plugin.Transaction.{
  TransactionError, DbTransactionError, DbTransaction, LegacyMessage, legacy, TransactionStatusMeta,
  ReplicaTransactionInfoV2, db_message, build_db_transaction, db_meta, get_transaction_error,
  error_detail, kept_detail, detail_text, error_code,
}
use solana_indexer_plugin.Transaction.Names.{label, variant_name}
use solana_indexer_plugin.Plugin.WriteVersions.{
  Request, transaction, Ascending, after_all, write_versions-Ascending,
}
use solana_indexer_plugin.Transaction.ErrorDetail.{
  get_transaction_error-tail, get_transaction_error-code,
}
use solana_indexer_plugin.ParallelClient.{ParallelClient, new_parallel_client}
use solana_indexer_plugin.Worker.{WorkRequest}
use solana_indexer_plugin.Tests.Data.{crates}
use solana_indexer_plugin.Transaction.ReadBack.{read_message, read_meta}
use solana_indexer_plugin.Transaction.ReadBack.RoundTrip.{read-build_db_transaction}

abbrev message : LegacyMessage
message = record {
  header = record {
    num_required_signatures = 1;
    num_readonly_signed_accounts = 0;
    num_readonly_unsigned_accounts = 0;
  };
  account_keys = (1 ∷ []) ∷ [];
  recent_blockhash = 9 ∷ [];
  instructions = [];
}

abbrev status_meta : TransactionStatusMeta
status_meta = record {
  status = none;
  fee = 5;
  pre_balances = 8 ∷ [];
  post_balances = 3 ∷ [];
  inner_instructions = none;
  log_messages = none;
  pre_token_balances = none;
  post_token_balances = none;
  rewards = none;
}

abbrev info : ReplicaTransactionInfoV2
info = record {
  signature = 6 ∷ [];
  is_vote = false;
  message = legacy message;
  account_keys = (1 ∷ []) ∷ [];
  signatures = (6 ∷ []) ∷ [];
  message_hash = 4 ∷ [];
  transaction_status_meta = status_meta;
}

abbrev row : ℕ → DbTransaction
row version = record {
  signature = 6 ∷ [];
  is_vote = false;
  slot = pos 7;
  message_type = pos 0;
  legacy_message = some (db_message message);
  v0_loaded_message = none;
  message_hash = 4 ∷ [];
  meta = record {
    error = none;
    fee = pos 5;
    pre_balances = pos 8 ∷ [];
    post_balances = pos 3 ∷ [];
    inner_instructions = none;
    log_messages = none;
    pre_token_balances = none;
    post_token_balances = none;
    rewards = none;
  };
  signatures = (6 ∷ []) ∷ [];
  write_version = pos version;
  index = pos 0;
}

row-built : build_db_transaction 7 info 1 ≡ some (row 1)
unfolding build_db_transaction db_meta get_transaction_error as_i64
row-built = refl

-- A text of 250 bytes.
abbrev long_error : String
long_error =
    "xxxxxxxxxxxxxxxxxxxxxxxxxxxxxxxxxxxxxxxxxxxxxxxxxxxxxxxxxxxxxxxxxxxxxxxxxxxxxxxxxxxxxxxxxxxxxxxxxxxxxxxxxxxxxxxxxxxxxxxxxxxxxxxxxxxxxxxxxxxxxxxxxxxxxxxxxxxxxxxxxxxxxxxxxxxxxxxxxxxxxxxxxxxxxxxxxxxxxxxxxxxxxxxxxxxxxxxxxxxxxxxxxxxxxxxxxxxxxxxxxxxxxxxxxx"

abbrev head : String
head =
    "InstructionError: idx (2), error: (xxxxxxxxxxxxxxxxxxxxxxxxxxxxxxxxxxxxxxxxxxxxxxxxxxxxxxxxxxxxxxxxxxxxxxxxxxxxxxxxxxxxxxxxxxxxxxxxxxxxxxxxxxxxxxxxxxxxxxxxxxxxxxxxxxxxxxxxxxxxxxxxxxxxxxxxxxxxxxxxxxxxxxxxxxxxxxxxxxxxxxxxxxxxxxxxxxxxxxxxxxxxxxxxxxxxxxxxxxxxx"

abbrev rest : String
rest = "xxxxxxxxxxxxxxxxxxxxxxxxxxxxx)"

get_transaction_error-tail_example :
    get_transaction_error (some (TransactionError.instruction_error 2 long_error))
    ≡ some (
        some (record {
          error_code = error_code (TransactionError.instruction_error 2 long_error);
          error_detail = some rest;
        }))
unfolding detail_text decimal digit digits
get_transaction_error-tail_example =
    get_transaction_error-tail 2 long_error head rest refl refl (omega arith)

get_transaction_error-code_example :
    Option.map
      (λ (r : DbTransactionError). label r.error_code)
      (some (record {
        error_code = error_code (TransactionError.instruction_error 2 "custom");
        error_detail = some "InstructionError: idx (2), error: (custom)";
      }))
    ≡ Option.map variant_name (some (TransactionError.instruction_error 2 "custom"))
unfolding get_transaction_error error_detail kept_detail detail_text decimal digit digits
get_transaction_error-code_example =
    get_transaction_error-code (some (TransactionError.instruction_error 2 "custom"))
      (some (record {
        error_code = error_code (TransactionError.instruction_error 2 "custom");
        error_detail = some "InstructionError: idx (2), error: (custom)";
      }))
      refl

read-build_db_transaction_example :
    (read_message (row 1) ≡ some (legacy message))
    × (read_meta none (row 1).meta ≡ status_meta)
    × (as_u64 (pos 7) ≡ 7)
    × ((row 1).signature ≡ info.signature)
    × ((row 1).signatures ≡ info.signatures)
    × ((row 1).message_hash ≡ info.message_hash)
    × ((row 1).is_vote ≡ info.is_vote)
read-build_db_transaction_example =
    read-build_db_transaction 7 info 1 (row 1) (omega arith)
      ((omega arith, omega arith, omega arith), tt)
      (omega arith, (omega arith, tt), (omega arith, tt), tt, tt, tt, tt) row-built

-- Three transactions; during the second no worker receives.
abbrev calls : List (Bool × Request)
calls = (true, transaction info 7) ∷ (false, transaction info 8) ∷ (true, transaction info 9) ∷ []

abbrev one_worker : ParallelClient
one_worker = new_parallel_client 1

write_versions-Ascending_example :
    (new : List WorkRequest) × ((after_all crates calls one_worker).sent ≡ [] ++ new)
    × Ascending 0 new (after_all crates calls one_worker).transaction_write_version
write_versions-Ascending_example = write_versions-Ascending crates calls one_worker (omega arith)
