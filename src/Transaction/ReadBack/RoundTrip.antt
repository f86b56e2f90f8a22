-- ===== src/Transaction/ReadBack/RoundTrip.antt =====
-- From a transaction to its row and back.
use mathlib.Core.Option
use mathlib.Core.Option.{some-injective}
use solana_indexer_plugin.Base.{
  ℕ, ◌<◌, as_u64, as_u64-as_i64, u64_mod, some, List, map, All, AllSome, map_undone,
  map_undone_some, ◌≡◌, sym, ap, ◌∙◌, bind-eq-some, arith, Option,
}
use solana_indexer_plugin.Transaction.{
  InnerInstructions, TransactionTokenBalance, Reward, TransactionStatusMeta, SanitizedMessage,
  legacy, v0, DbTransaction, DbTransactionStatusMeta, ReplicaTransactionInfoV2,
  db_inner_instructions, db_token_balance, db_reward, db_meta, get_transaction_error,
  build_db_transaction, message_type, legacy_message, v0_loaded_message,
}
use solana_indexer_plugin.Transaction.ReadBack.{
  read_message, read_inner, read_token_balance, read_reward, read_meta,
}
use solana_indexer_plugin.Transaction.ReadBack.Laws.{
  IsMessage, IsInner, IsTokenBalance, IsReward, IsMeta, words_back, read-db_message,
  read-db_loaded_message, read-db_inner, read-db_token_balance, read-db_reward,
}

inner_back :
    (o : Option (List InnerInstructions))
    → AllSome (All IsInner) o
    → Option.map (map read_inner) (Option.map (map db_inner_instructions) o) ≡ o
inner_back = map_undone_some (All IsInner) _ _ (map_undone IsInner _ _ read-db_inner)

token_balances_back :
    (o : Option (List TransactionTokenBalance))
    → AllSome (All IsTokenBalance) o
    → Option.map (map read_token_balance) (Option.map (map db_token_balance) o) ≡ o
token_balances_back =
    map_undone_some (All IsTokenBalance) _ _ (map_undone IsTokenBalance _ _ read-db_token_balance)

rewards_back :
    (o : Option (List Reward))
    → AllSome (All IsReward) o
    → Option.map (map read_reward) (Option.map (map db_reward) o) ≡ o
rewards_back = map_undone_some (All IsReward) _ _ (map_undone IsReward _ _ read-db_reward)

read-db_meta :
    (m : TransactionStatusMeta) (row : DbTransactionStatusMeta)
    → IsMeta m
    → db_meta m ≡ some row
    → read_meta m.status row ≡ m
unfolding db_meta read_meta
read-db_meta m row ok e =
    let (error, _, made) = bind-eq-some (get_transaction_error m.status) _ e in
    let same = sym (some-injective _ _ made) in
    ap (read_meta m.status) same
    ∙ ground (
      arith,
      as_u64-as_i64 m.fee ok.0,
      words_back m.pre_balances ok.1,
      words_back m.post_balances ok.2,
      inner_back m.inner_instructions ok.3,
      token_balances_back m.pre_token_balances ok.4,
      token_balances_back m.post_token_balances ok.5,
      rewards_back m.rewards ok.6,
    )

read-message :
    (m : SanitizedMessage) (row : DbTransaction)
    → IsMessage m
    → row.message_type ≡ message_type m
    → row.legacy_message ≡ legacy_message m
    → row.v0_loaded_message ≡ v0_loaded_message m
    → read_message row ≡ some m
unfolding read_message
read-message (legacy m) row ok p q r =
    rw (p, q) (ap (λ n. some (legacy n)) (read-db_message m ok.0 ok.1))
read-message (v0 m) row ok p q r =
    rw (p, r) (ap (λ n. some (v0 n)) (read-db_loaded_message m ok.0 ok.1 ok.2))

-- Of a transaction whose fields fit their types, the row that was built gives back the slot, the
-- signatures, the hash, whether it is a vote, the message and, with the error that its status has, all of the status:
-- balances, fee, instructions, logs, token balances and rewards.
pub read-build_db_transaction :
    (slot : ℕ) (info : ReplicaTransactionInfoV2) (write_version : ℕ) (row : DbTransaction)
    → slot < u64_mod
    → IsMessage info.message
    → IsMeta info.transaction_status_meta
    → build_db_transaction slot info write_version ≡ some row
    → (read_message row ≡ some info.message)
      × (read_meta info.transaction_status_meta.status row.meta ≡ info.transaction_status_meta)
      × (as_u64 row.slot ≡ slot)
      × (row.signature ≡ info.signature)
      × (row.signatures ≡ info.signatures)
      × (row.message_hash ≡ info.message_hash)
      × (row.is_vote ≡ info.is_vote)
unfolding build_db_transaction
read-build_db_transaction slot info write_version row h message_ok meta_ok e =
    let (meta, at_meta, made) = bind-eq-some (db_meta info.transaction_status_meta) _ e in
    let same = sym (some-injective _ _ made) in
    (
      read-message info.message row message_ok (ap (λ (r : DbTransaction). r.message_type) same)
          (ap (λ (r : DbTransaction). r.legacy_message) same)
          (ap (λ (r : DbTransaction). r.v0_loaded_message) same),
      ap (λ (r : DbTransaction). read_meta info.transaction_status_meta.status r.meta) same
          ∙ read-db_meta info.transaction_status_meta meta meta_ok at_meta,
      ap (λ (r : DbTransaction). as_u64 r.slot) same ∙ as_u64-as_i64 slot h,
      ap (λ (r : DbTransaction). r.signature) same,
      ap (λ (r : DbTransaction). r.signatures) same,
      ap (λ (r : DbTransaction). r.message_hash) same,
      ap (λ (r : DbTransaction). r.is_vote) same,
    )
