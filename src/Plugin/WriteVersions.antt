-- ===== src/Plugin/WriteVersions.antt =====
-- The write versions of the transactions that a client sends.
use solana_indexer_plugin.Base.{
  ℕ, ◌+◌, ◌<◌, ◌≤◌, ◌%◌, u64_mod, i64_half, Bool, Option, some, List, [], ◌∷◌, ◌++◌, length, ◌<>◌,
  ◌≡◌, ◌⊎◌, inl, inr, refl, arith, pos, as_i64, bind-eq-some, ap, sym, subst, ◌∙◌, Bool-cases,
  Option-cases,
}
use mathlib.Core.Option.{some-injective}
use mathlib.Core.List.{append-nil, append_assoc}
use solana_indexer_plugin.Errors.{GeyserPluginError, slot_status_update_error}
use solana_indexer_plugin.Account.{ReplicaAccountInfoV2}
use solana_indexer_plugin.Block.{ReplicaBlockInfo}
use solana_indexer_plugin.Transaction.{
  ReplicaTransactionInfoV2, DbTransaction, build_db_transaction, db_meta,
}
use solana_indexer_plugin.Crates.{Crates, SlotStatus}
use solana_indexer_plugin.Worker.{WorkRequest}
use solana_indexer_plugin.ParallelClient.{
  ParallelClient, send, send_account, send_slot_status, send_block_metadata, send_transaction,
}

-- What a call of the plugin asks of its client.
pub data Request : Type 0 where
  account : ReplicaAccountInfoV2 → ℕ → Bool → Request
  slot_status : ℕ → Option ℕ → SlotStatus → Request
  block_metadata : ReplicaBlockInfo → Request
  transaction : ReplicaTransactionInfoV2 → ℕ → Request

-- The transactions among some requests of the queue have write versions that ascend strictly, above
-- `low` and up to `high`.
abbrev pub Ascending : ℕ → List WorkRequest → ℕ → Type 0
Ascending low [] high = low ≤ high
Ascending low (WorkRequest.log_transaction row ∷ requests) high =
    (v : ℕ) × (row.write_version ≡ pos v) × (low < v) × Ascending v requests high
Ascending low (_ ∷ requests) high = Ascending low requests high

Ascending-below :
    (low low' : ℕ) (requests : List WorkRequest) (high : ℕ)
    → low ≤ low'
    → Ascending low' requests high
    → Ascending low requests high
Ascending-below low low' [] high h a = omega arith
Ascending-below low low' (WorkRequest.log_transaction row ∷ requests) high h (v, e, above, a) =
    (v, e, omega arith, a)
Ascending-below low low' (WorkRequest.update_account _ _ ∷ requests) high h a =
    Ascending-below low low' requests high h a
Ascending-below low low' (WorkRequest.update_slot _ _ _ ∷ requests) high h a =
    Ascending-below low low' requests high h a
Ascending-below low low' (WorkRequest.update_block_metadata _ ∷ requests) high h a =
    Ascending-below low low' requests high h a

Ascending-append :
    (low : ℕ) (before : List WorkRequest) (middle : ℕ) (later : List WorkRequest) (high : ℕ)
    → Ascending low before middle
    → Ascending middle later high
    → Ascending low (before ++ later) high
Ascending-append low [] middle later high a b = Ascending-below low middle later high a b
Ascending-append low (WorkRequest.log_transaction row ∷ before) middle later high (v, e, h, a) b =
    (v, e, h, Ascending-append v before middle later high a b)
Ascending-append low (WorkRequest.update_account _ _ ∷ before) middle later high a b =
    Ascending-append low before middle later high a b
Ascending-append low (WorkRequest.update_slot _ _ _ ∷ before) middle later high a b =
    Ascending-append low before middle later high a b
Ascending-append low (WorkRequest.update_block_metadata _ ∷ before) middle later high a b =
    Ascending-append low before middle later high a b

-- From one state of the client to the next, it sends requests with ascending write versions.
abbrev pub Sends : ParallelClient → ParallelClient → Type 0
Sends c d =
    (new : List WorkRequest) × (d.sent ≡ c.sent ++ new)
    × Ascending c.transaction_write_version new d.transaction_write_version

as_i64_of_small : (n : ℕ) → n < i64_half → as_i64 n ≡ pos n
unfolding as_i64
as_i64_of_small n h = ground arith

write_version_of_row :
    (slot : ℕ) (info : ReplicaTransactionInfoV2) (version : ℕ) (row : DbTransaction)
    → version < i64_half
    → build_db_transaction slot info version ≡ some row
    → row.write_version ≡ pos version
unfolding build_db_transaction
write_version_of_row slot info version row small built =
    let (meta, _, made) = bind-eq-some (db_meta info.transaction_status_meta) _ built in
    ap (λ (r : DbTransaction). r.write_version) (sym (some-injective _ _ made))
    ∙ as_i64_of_small version small

send-cases :
    (r : WorkRequest) (e : GeyserPluginError) (c : ParallelClient)
    → ((send r e c).1 ≡ c) ⊎ ((send r e c).1 ≡ record c { sent = c.sent ++ (r ∷ []) })
unfolding send
send-cases r e c = elim (Bool-cases c.is_connected) [
  | inl up ↦ inr (rw (send, up) refl)
  | inr down ↦ inl (rw (send, down) refl)
]

module _ (X : Crates) where
  -- The client after a call, whatever the call returned, where `connected` says if a worker still
  -- received during it.
  abbrev pub after : Bool × Request → ParallelClient → ParallelClient
  after (connected, account info slot is_startup) c =
      (send_account X info slot is_startup (record c { is_connected = connected })).1
  after (connected, slot_status slot parent status) c =
      (send_slot_status X slot parent status (record c { is_connected = connected })).1
  after (connected, block_metadata info) c =
      (send_block_metadata X info (record c { is_connected = connected })).1
  after (connected, transaction info slot) c =
      (send_transaction X info slot (record c { is_connected = connected })).1

  abbrev pub after_all : List (Bool × Request) → ParallelClient → ParallelClient
  after_all [] c = c
  after_all (call ∷ calls) c = after_all calls (after call c)

  -- A call sends what is right, and moves the counter by at most one.
  abbrev SendsOne : ParallelClient → ParallelClient → Type 0
  SendsOne c d = Sends c d × (d.transaction_write_version ≤ c.transaction_write_version + 1)

  send-SendsOne :
      (r : WorkRequest) (e : GeyserPluginError) (c : ParallelClient) (low : ℕ)
      → low ≤ c.transaction_write_version
      → Ascending low (r ∷ []) c.transaction_write_version
      → (new : List WorkRequest) × ((send r e c).1.sent ≡ c.sent ++ new)
        × Ascending low new (send r e c).1.transaction_write_version
        × ((send r e c).1.transaction_write_version ≡ c.transaction_write_version)
  send-SendsOne r e c low h a = elim (send-cases r e c) [
    | inl same ↦ (
      [],
      ap (λ (d : ParallelClient). d.sent) same ∙ sym (append-nil c.sent),
      subst (λ (d : ParallelClient). low ≤ d.transaction_write_version) (sym same) h,
      ap (λ (d : ParallelClient). d.transaction_write_version) same,
    )
    | inr sends ↦ (
      r ∷ [],
      ap (λ (d : ParallelClient). d.sent) sends,
      subst (λ (d : ParallelClient). Ascending low (r ∷ []) d.transaction_write_version) (sym sends)
          a,
      ap (λ (d : ParallelClient). d.transaction_write_version) sends,
    )
  ]

  -- A request that is no transaction.
  other-SendsOne :
      (r : WorkRequest) (e : GeyserPluginError) (c : ParallelClient)
      → Ascending c.transaction_write_version (r ∷ []) c.transaction_write_version
      → SendsOne c (send r e c).1
  other-SendsOne r e c a =
      let (new, split, ascends, same) =
        send-SendsOne r e c c.transaction_write_version (omega arith) a in
      ((new, split, ascends), omega arith)

  module _ (info : ReplicaTransactionInfoV2) (slot : ℕ) (c : ParallelClient) where
    abbrev version : ℕ
    version = (c.transaction_write_version + 1) % u64_mod

    next-version :
        c.transaction_write_version + 1 < i64_half → version ≡ c.transaction_write_version + 1
    next-version small = omega arith

    transaction-SendsOne :
        c.transaction_write_version + 1 < i64_half → SendsOne c (send_transaction X info slot c).1
    unfolding send_transaction
    transaction-SendsOne small =
        let next = next-version small in
        elim (Option-cases (build_db_transaction slot info version)) [
          | inl panics ↦
              rw (send_transaction, panics)
                (([], sym (append-nil c.sent), omega (arith, next)), omega (arith, next))
          | inr (row, made) ↦
              let (new, split, ascends, same) =
                send-SendsOne (WorkRequest.log_transaction row)
                  (slot_status_update_error
                    ("Failed to update the transaction, error: " <> X.send_error))
                  (record c { transaction_write_version = version }) c.transaction_write_version
                  (omega (arith, next))
                  (
                    version,
                    write_version_of_row slot info version row (omega (arith, next)) made,
                    omega (arith, next),
                    omega arith,
                  ) in
              rw (send_transaction, made) ((new, split, ascends), omega (arith, next, same))
        ]

  after-SendsOne :
      (call : Bool × Request) (c : ParallelClient)
      → c.transaction_write_version + 1 < i64_half
      → SendsOne c (after call c)
  unfolding send_account send_slot_status send_block_metadata
  after-SendsOne (connected, account info slot is_startup) c small =
      other-SendsOne _ _ (record c { is_connected = connected }) (omega arith)
  after-SendsOne (connected, slot_status slot parent status) c small =
      other-SendsOne _ _ (record c { is_connected = connected }) (omega arith)
  after-SendsOne (connected, block_metadata info) c small =
      other-SendsOne _ _ (record c { is_connected = connected }) (omega arith)
  after-SendsOne (connected, transaction info slot) c small =
      transaction-SendsOne info slot (record c { is_connected = connected }) small

  -- Over any calls on the client, those that fail or panic included, while the counter of
  -- transactions stays below 2 ^ 63: the client sends some new requests after what it had sent, and
  -- the rows of the transactions among them have write versions that ascend strictly, above the
  -- counter before the calls and up to the counter after them.
  pub write_versions-Ascending :
      (calls : List (Bool × Request)) (c : ParallelClient)
      → c.transaction_write_version + length calls < i64_half
      → (new : List WorkRequest) × ((after_all calls c).sent ≡ c.sent ++ new)
        × Ascending c.transaction_write_version new (after_all calls c).transaction_write_version
  write_versions-Ascending [] c small = ([], sym (append-nil c.sent), omega arith)
  write_versions-Ascending (call ∷ calls) c small =
      let ((first, split, ascends), bound) = after-SendsOne call c (omega arith) in
      let (later, splits, ascend) =
        write_versions-Ascending calls (after call c) (omega (arith, bound)) in
      (
        first ++ later,
        splits ∙ ap (λ l. l ++ later) split ∙ append_assoc c.sent first later,
        Ascending-append c.transaction_write_version first _ later _ ascends ascend,
      )
