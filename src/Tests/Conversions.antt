-- ===== src/Tests/Conversions.antt =====
-- The unit tests of transaction_handler.rs that convert one part of a transaction. A test is true if
-- its assertions hold.
use solana_indexer_plugin.Base.{
  ℕ, pos, Bytes, String, Bool, true, some, [], ◌∷◌, ◌≡◌, refl, as_i16, as_u8, bytes_eq,
}
use solana_indexer_plugin.Transaction.{
  CompiledInstruction, InnerInstructions, TransactionTokenBalance, RewardType, Reward,
  MessageHeader, MessageAddressTableLookup, LoadedMessage, db_instruction, db_inner_instructions,
  db_address_table_lookup, db_reward, db_token_balance, db_header, db_message, db_message_v0,
  db_loaded_message,
}
use solana_indexer_plugin.Transaction.Checks.{
  each, check_compiled_instruction_equality, check_inner_instructions_equality,
  check_address_table_lookups_equality, check_reward_equality,
  check_transaction_token_balance_equality, check_message_header_equality,
  check_transaction_message_equality, check_transaction_message_v0_equality,
  check_loaded_message_v0_equality,
}
use solana_indexer_plugin.Base.{arith}
use solana_indexer_plugin.Transaction.Checks.Parts.{
  reward_passes, message_passes, message_v0_passes, loaded_passes,
}
use solana_indexer_plugin.Transaction.Checks.Passed.{balance_passes}
use solana_indexer_plugin.Tests.Fixtures.{instruction, build_message, build_transaction_message_v0}

abbrev first_instruction : CompiledInstruction
first_instruction = instruction 0 (1 ∷ 2 ∷ 3 ∷ []) (4 ∷ 5 ∷ 6 ∷ [])

abbrev test_transform_compiled_instruction : Bool
test_transform_compiled_instruction =
    check_compiled_instruction_equality first_instruction (db_instruction first_instruction)

test_transform_compiled_instruction-passes : test_transform_compiled_instruction ≡ true
unfolding check_compiled_instruction_equality db_instruction each as_i16 as_u8 bytes_eq
test_transform_compiled_instruction-passes = refl

abbrev inner_instructions : InnerInstructions
inner_instructions = record {
  index = 0;
  instructions = first_instruction ∷ instruction 1 (12 ∷ 13 ∷ 14 ∷ []) (24 ∷ 25 ∷ 26 ∷ []) ∷ [];
}

abbrev test_transform_inner_instructions : Bool
test_transform_inner_instructions =
    check_inner_instructions_equality inner_instructions (db_inner_instructions inner_instructions)

test_transform_inner_instructions-passes : test_transform_inner_instructions ≡ true
unfolding check_inner_instructions_equality check_compiled_instruction_equality
    db_inner_instructions db_instruction each as_i16 as_u8 bytes_eq
test_transform_inner_instructions-passes = refl

module _ (new_unique : ℕ → Bytes) (text : ℕ → String) (f64_eq : ℕ → ℕ → Bool) where
  abbrev address_table_lookups : MessageAddressTableLookup
  address_table_lookups = record {
    account_key = new_unique 0;
    writable_indexes = 1 ∷ 2 ∷ 3 ∷ [];
    readonly_indexes = 4 ∷ 5 ∷ 6 ∷ [];
  }

  abbrev test_transform_address_table_lookups : Bool
  test_transform_address_table_lookups =
      check_address_table_lookups_equality address_table_lookups
        (db_address_table_lookup address_table_lookups)

  test_transform_address_table_lookups-passes : test_transform_address_table_lookups ≡ true
  unfolding check_address_table_lookups_equality db_address_table_lookup each as_i16 as_u8
  test_transform_address_table_lookups-passes = refl

  abbrev reward : Reward
  reward = record {
    pubkey = text 0;
    lamports = pos 1234;
    post_balance = 45678;
    reward_type = some RewardType.fee;
    commission = some 12;
  }

  abbrev test_transform_reward : Bool
  test_transform_reward = check_reward_equality reward (db_reward reward)

  test_transform_reward-passes : test_transform_reward ≡ true
  test_transform_reward-passes = reward_passes reward (ground arith)

  abbrev token_balance : TransactionTokenBalance
  token_balance = record {
    account_index = 3;
    mint = text 0;
    ui_amount = some 4601237667291888353;
    owner = text 1;
  }

  abbrev test_transform_transaction_token_balance : Bool
  test_transform_transaction_token_balance =
      check_transaction_token_balance_equality f64_eq token_balance (db_token_balance token_balance)

  test_transform_transaction_token_balance-passes :
      f64_eq 4601237667291888353 4601237667291888353 ≡ true
      → test_transform_transaction_token_balance ≡ true
  test_transform_transaction_token_balance-passes h =
      balance_passes f64_eq token_balance (omega arith, h)

  abbrev message_header : MessageHeader
  message_header = record {
    num_readonly_signed_accounts = 1;
    num_readonly_unsigned_accounts = 2;
    num_required_signatures = 3;
  }

  abbrev test_transform_transaction_message_header : Bool
  test_transform_transaction_message_header =
      check_message_header_equality message_header (db_header message_header)

  test_transform_transaction_message_header-passes :
      test_transform_transaction_message_header ≡ true
  unfolding check_message_header_equality db_header as_i16 as_u8
  test_transform_transaction_message_header-passes = refl

  abbrev test_transform_transaction_message : Bool
  test_transform_transaction_message =
      check_transaction_message_equality (build_message new_unique text)
        (db_message (build_message new_unique text))

  test_transform_transaction_message-passes : test_transform_transaction_message ≡ true
  test_transform_transaction_message-passes =
      message_passes (build_message new_unique text) (ground arith) (ground arith)

  abbrev test_transform_transaction_message_v0 : Bool
  test_transform_transaction_message_v0 =
      check_transaction_message_v0_equality (build_transaction_message_v0 new_unique text)
        (db_message_v0 (build_transaction_message_v0 new_unique text))

  test_transform_transaction_message_v0-passes : test_transform_transaction_message_v0 ≡ true
  test_transform_transaction_message_v0-passes =
      message_v0_passes (build_transaction_message_v0 new_unique text) (ground arith) (ground arith)
        (ground arith)

  abbrev loaded_message : LoadedMessage
  loaded_message = record {
    message = build_transaction_message_v0 new_unique text;
    loaded_addresses = record {
      writable = new_unique 8 ∷ new_unique 9 ∷ [];
      readonly = new_unique 10 ∷ new_unique 11 ∷ [];
    };
  }

  abbrev test_transform_loaded_message_v0 : Bool
  test_transform_loaded_message_v0 =
      check_loaded_message_v0_equality loaded_message (db_loaded_message loaded_message)

  test_transform_loaded_message_v0-passes : test_transform_loaded_message_v0 ≡ true
  test_transform_loaded_message_v0-passes =
      loaded_passes loaded_message (ground arith) (ground arith) (ground arith)
