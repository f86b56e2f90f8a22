-- ===== src/Tests/Fixtures.antt =====
-- The transactions that the unit tests of transaction_handler.rs build. `new_unique n` is the key
-- of the n-th call of `Pubkey::new_unique`, and `text n` its text. An `f64` is its bits: 0.42, 0.38,
-- 0.82 and 0.48. Fields that the program does not read are left out.
use solana_indexer_plugin.Base.{ℕ, zero, suc, pos, Bytes, String, true, some, none, [], ◌∷◌}
use solana_indexer_plugin.Transaction.{
  CompiledInstruction, RewardType, TransactionStatusMeta, LegacyMessage, V0Message, v0,
  ReplicaTransactionInfoV2,
}

-- `vec![n; 64]`
abbrev times : ℕ → ℕ → Bytes
times zero n = []
times (suc k) n = n ∷ times k n

abbrev pub instruction : ℕ → Bytes → Bytes → CompiledInstruction
instruction program accounts contents = record {
  program_id_index = program;
  accounts = accounts;
  contents = contents;
}

module _ (new_unique : ℕ → Bytes) (text : ℕ → String) where
  abbrev pub build_transaction_status_meta : TransactionStatusMeta
  build_transaction_status_meta = record {
    status = none;
    fee = 23456;
    pre_balances = 11 ∷ 22 ∷ 33 ∷ [];
    post_balances = 44 ∷ 55 ∷ 66 ∷ [];
    inner_instructions = some (
        record {
          index = 0;
          instructions =
              instruction 0 (1 ∷ 2 ∷ 3 ∷ []) (4 ∷ 5 ∷ 6 ∷ [])
              ∷ instruction 1 (12 ∷ 13 ∷ 14 ∷ []) (24 ∷ 25 ∷ 26 ∷ [])
              ∷ [];
        }
        ∷ []);
    log_messages = some ("message1" ∷ "message2" ∷ []);
    pre_token_balances = some (
        record {
          account_index = 3;
          mint = text 0;
          ui_amount = some 4601237667291888353;
          owner = text 1;
        }
        ∷ record {
          account_index = 2;
          mint = text 2;
          ui_amount = some 4600517091351509074;
          owner = text 3;
        }
        ∷ []);
    post_token_balances = some (
        record {
          account_index = 3;
          mint = text 4;
          ui_amount = some 4605561122934164029;
          owner = text 5;
        }
        ∷ record {
          account_index = 2;
          mint = text 6;
          ui_amount = some 4602318531202457272;
          owner = text 7;
        }
        ∷ []);
    rewards = some (
        record {
          pubkey = text 8;
          lamports = pos 1234;
          post_balance = 45678;
          reward_type = some RewardType.fee;
          commission = some 12;
        }
        ∷ record {
          pubkey = text 9;
          lamports = pos 234;
          post_balance = 324;
          reward_type = some RewardType.staking;
          commission = some 11;
        }
        ∷ []);
  }

  abbrev pub build_message : LegacyMessage
  build_message = record {
    header = record {
      num_readonly_signed_accounts = 11;
      num_readonly_unsigned_accounts = 12;
      num_required_signatures = 13;
    };
    account_keys = new_unique 0 ∷ new_unique 1 ∷ [];
    recent_blockhash = new_unique 2;
    instructions =
        instruction 0 (1 ∷ 2 ∷ 3 ∷ []) (4 ∷ 5 ∷ 6 ∷ [])
        ∷ instruction 3 (11 ∷ 12 ∷ 13 ∷ []) (14 ∷ 15 ∷ 16 ∷ [])
        ∷ [];
  }

  abbrev pub build_transaction_message_v0 : V0Message
  build_transaction_message_v0 = record {
    header = record {
      num_readonly_signed_accounts = 2;
      num_readonly_unsigned_accounts = 2;
      num_required_signatures = 3;
    };
    account_keys = new_unique 0 ∷ new_unique 1 ∷ new_unique 2 ∷ new_unique 3 ∷ new_unique 4 ∷ [];
    recent_blockhash = new_unique 5;
    instructions =
        instruction 1 (1 ∷ 2 ∷ 3 ∷ []) (4 ∷ 5 ∷ 6 ∷ [])
        ∷ instruction 2 (0 ∷ 1 ∷ 2 ∷ []) (14 ∷ 15 ∷ 16 ∷ [])
        ∷ [];
    address_table_lookups =
        record {
          account_key = new_unique 6;
          writable_indexes = 0 ∷ [];
          readonly_indexes = 1 ∷ 2 ∷ [];
        }
        ∷ record {
          account_key = new_unique 7;
          writable_indexes = 1 ∷ [];
          readonly_indexes = 0 ∷ 2 ∷ [];
        }
        ∷ [];
  }

  -- What `test_build_db_transaction_v0` and `build_test_transaction_v0` hand to the conversion.
  abbrev pub transaction_info : ReplicaTransactionInfoV2
  transaction_info = record {
    signature = times 64 1;
    is_vote = true;
    message = v0 (record {
      message = build_transaction_message_v0;
      loaded_addresses = record {
        writable = new_unique 9 ∷ new_unique 10 ∷ [];
        readonly = new_unique 11 ∷ new_unique 12 ∷ [];
      };
    });
    account_keys =
        new_unique 0
        ∷ new_unique 1
        ∷ new_unique 2
        ∷ new_unique 3
        ∷ new_unique 4
        ∷ new_unique 9
        ∷ new_unique 10
        ∷ new_unique 11
        ∷ new_unique 12
        ∷ [];
    signatures = times 64 1 ∷ times 64 2 ∷ times 64 3 ∷ [];
    message_hash = new_unique 8;
    transaction_status_meta = build_transaction_status_meta;
  }
