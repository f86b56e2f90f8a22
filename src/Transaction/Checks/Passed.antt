-- ===== src/Transaction/Checks/Passed.antt =====
-- The checks of the unit tests, on the rows that the code builds.
use mathlib.Core.Option
use mathlib.Core.Option.{some-injective}
use solana_indexer_plugin.Base.{
  ℕ, ◌<◌, as_i64, u64_mod, pos, bytes_eq, str_eq, Bool, true, false, ==_iff, Option, none, some,
  List, map, All, AllSome, ◌≡◌, refl, sym, ap, ◌∙◌, bind-eq-some, arith,
}
use solana_indexer_plugin.Transaction.Source.{
  TransactionTokenBalance, TransactionStatusMeta, ReplicaTransactionInfoV2,
}
use solana_indexer_plugin.Transaction.Rows.{
  DbTransactionError, DbTransactionStatusMeta, DbTransaction,
}
use solana_indexer_plugin.Transaction.Conversion.{
  db_inner_instructions, db_token_balance, db_reward, db_meta, get_transaction_error,
  build_db_transaction, legacy_message, v0_loaded_message, message_type,
}
use solana_indexer_plugin.Transaction.ReadBack.Laws.{
  IsMessage, IsInner, IsTokenBalance, IsReward, IsMeta,
}
use solana_indexer_plugin.Transaction.Checks.{
  each, both, code_number, error_eq, bool_eq, check_inner_instructions_equality,
  check_reward_equality, check_message, check_transaction_token_balance_equality,
  check_token_balances, check_transaction_status_meta, check_transaction,
}
use solana_indexer_plugin.Transaction.Checks.Parts.{
  each-map, each-same, both-map, both-same, all, str_eq-same, bytes_eq-same, byte_passes,
  word_passes, words_pass, inner_passes, reward_passes, sanitized_passes,
}

error-same : (e : DbTransactionError) → error_eq e e ≡ true
unfolding error_eq
error-same e = ground (
  arith,
  (==_iff (code_number e.error_code) (code_number e.error_code)).1 refl,
  both-same str_eq str_eq-same e.error_detail,
)

module _ (f64_eq : ℕ → ℕ → Bool) where
  -- The displayed amount is a number: `f64_eq` finds it equal to itself.
  abbrev pub IsNumber : ℕ → Type 0
  IsNumber amount = f64_eq amount amount ≡ true

  abbrev pub IsBalance : TransactionTokenBalance → Type 0
  IsBalance b = IsTokenBalance b × AllSome IsNumber b.ui_amount

  abbrev pub HasNumbers : TransactionStatusMeta → Type 0
  HasNumbers m =
      AllSome (All IsBalance) m.pre_token_balances × AllSome (All IsBalance) m.post_token_balances

  amount_passes : (o : Option ℕ) → AllSome IsNumber o → both f64_eq o o ≡ true
  unfolding both
  amount_passes none h = refl
  amount_passes (some n) h = h

  pub balance_passes :
      (b : TransactionTokenBalance)
      → IsBalance b
      → check_transaction_token_balance_equality f64_eq b (db_token_balance b) ≡ true
  unfolding check_transaction_token_balance_equality db_token_balance
  balance_passes b ok = ground (
    arith,
    byte_passes b.account_index ok.0,
    str_eq-same b.mint,
    str_eq-same b.owner,
    amount_passes b.ui_amount ok.1,
  )

  balances_pass :
      (o : Option (List TransactionTokenBalance))
      → AllSome (All IsBalance) o
      → check_token_balances f64_eq o (Option.map (map db_token_balance) o) ≡ true
  unfolding check_token_balances
  balances_pass =
      both-map (All IsBalance) (each (check_transaction_token_balance_equality f64_eq))
        (map db_token_balance)
        (each-map IsBalance (check_transaction_token_balance_equality f64_eq) db_token_balance
          balance_passes)

  abbrev converted : TransactionStatusMeta → Option DbTransactionError → DbTransactionStatusMeta
  converted m error = record {
    error = error;
    fee = as_i64 m.fee;
    pre_balances = map as_i64 m.pre_balances;
    post_balances = map as_i64 m.post_balances;
    inner_instructions = Option.map (map db_inner_instructions) m.inner_instructions;
    log_messages = m.log_messages;
    pre_token_balances = Option.map (map db_token_balance) m.pre_token_balances;
    post_token_balances = Option.map (map db_token_balance) m.post_token_balances;
    rewards = Option.map (map db_reward) m.rewards;
  }

  status_passes :
      (o : Option (Option DbTransactionError)) (error : Option DbTransactionError)
      → o ≡ some error
      → both (both error_eq) o (some error) ≡ true
  unfolding both
  status_passes o error e = rw e (both-same error_eq error-same error)

  converted_passes :
      (m : TransactionStatusMeta) (error : Option DbTransactionError)
      → IsMeta m
      → HasNumbers m
      → get_transaction_error m.status ≡ some error
      → check_transaction_status_meta f64_eq m (converted m error) ≡ true
  unfolding check_transaction_status_meta
  converted_passes m error ok numbers e = ground (
    arith,
    status_passes (get_transaction_error m.status) error e,
    word_passes m.fee ok.0,
    words_pass m.pre_balances ok.1,
    words_pass m.post_balances ok.2,
    both-map (All IsInner) (each check_inner_instructions_equality) (map db_inner_instructions)
        (each-map IsInner check_inner_instructions_equality db_inner_instructions inner_passes)
        m.inner_instructions ok.3,
    both-same (each str_eq)
        (λ logs. each-same (λ log. Unit {0}) str_eq (λ log h. str_eq-same log) logs (all logs))
        m.log_messages,
    balances_pass m.pre_token_balances numbers.0,
    balances_pass m.post_token_balances numbers.1,
    both-map (All IsReward) (each check_reward_equality) (map db_reward)
        (each-map IsReward check_reward_equality db_reward reward_passes) m.rewards ok.6,
  )

  meta_passes :
      (m : TransactionStatusMeta) (row : DbTransactionStatusMeta)
      → IsMeta m
      → HasNumbers m
      → db_meta m ≡ some row
      → check_transaction_status_meta f64_eq m row ≡ true
  unfolding db_meta
  meta_passes m row ok numbers e =
      let (error, at_error, made) = bind-eq-some (get_transaction_error m.status) _ e in
      ap (check_transaction_status_meta f64_eq m) (sym (some-injective _ _ made))
      ∙ converted_passes m error ok numbers at_error

  bool_eq-same : (b : Bool) → bool_eq b b ≡ true
  unfolding bool_eq
  bool_eq-same true = refl
  bool_eq-same false = refl

  abbrev built : ℕ → ReplicaTransactionInfoV2 → ℕ → DbTransactionStatusMeta → DbTransaction
  built slot info write_version meta = record {
    signature = info.signature;
    is_vote = info.is_vote;
    slot = as_i64 slot;
    message_type = message_type info.message;
    legacy_message = legacy_message info.message;
    v0_loaded_message = v0_loaded_message info.message;
    message_hash = info.message_hash;
    meta = meta;
    signatures = info.signatures;
    write_version = as_i64 write_version;
    index = pos 0;
  }

  built_passes :
      (slot : ℕ) (info : ReplicaTransactionInfoV2) (write_version : ℕ)
      (meta : DbTransactionStatusMeta)
      → slot < u64_mod
      → check_message info.message (built slot info write_version meta) ≡ true
      → check_transaction_status_meta f64_eq info.transaction_status_meta meta ≡ true
      → check_transaction f64_eq slot info (built slot info write_version meta) ≡ true
  unfolding check_transaction
  built_passes slot info write_version meta h message_ok meta_ok =
      rw
        (
          bytes_eq-same info.signature,
          bool_eq-same info.is_vote,
          word_passes slot h,
          message_ok,
          each-same (λ k. Unit {0}) bytes_eq (λ k u. bytes_eq-same k) info.signatures
              (all info.signatures),
          bytes_eq-same info.message_hash,
          meta_ok,
        )
        refl

  -- The row that is built of a transaction passes every check of the unit tests, for each
  -- transaction whose fields fit their types and whose displayed amounts are numbers.
  pub check-build_db_transaction :
      (slot : ℕ) (info : ReplicaTransactionInfoV2) (write_version : ℕ) (row : DbTransaction)
      → slot < u64_mod
      → IsMessage info.message
      → IsMeta info.transaction_status_meta
      → HasNumbers info.transaction_status_meta
      → build_db_transaction slot info write_version ≡ some row
      → check_transaction f64_eq slot info row ≡ true
  unfolding build_db_transaction
  check-build_db_transaction slot info write_version row h message_ok meta_ok numbers e =
      let (meta, at_meta, made) = bind-eq-some (db_meta info.transaction_status_meta) _ e in
      let same = some-injective _ _ made in
      ap (check_transaction f64_eq slot info) (sym same)
      ∙ built_passes slot info write_version meta h
          (sanitized_passes info.message (built slot info write_version meta) message_ok refl refl
            refl)
          (meta_passes info.transaction_status_meta meta meta_ok numbers at_meta)
