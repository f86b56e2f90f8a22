-- ===== src/ParallelClient.antt =====
-- The methods of `ParallelClient` in parallel_client.rs, as the plugin calls them. A call returns once
-- the bounded queue has taken its request; `Parallel` has the workers at the other end.
use solana_indexer_plugin.Base.{
  ℕ, zero, suc, ◌+◌, ◌%◌, u64_mod, Bool, true, false, ◌<>◌, decimal, Option, none, some, List, [],
  ◌∷◌, ◌++◌, if◌then◌else◌, ltb,
}
use solana_indexer_plugin.Errors.{
  Exit, ok, err, panic, GeyserPluginError, accounts_update_error, slot_status_update_error,
}
use solana_indexer_plugin.Account.{ReplicaAccountInfoV2, new_account}
use solana_indexer_plugin.Block.{ReplicaBlockInfo, db_block_info}
use solana_indexer_plugin.Transaction.{ReplicaTransactionInfoV2, build_db_transaction}
use solana_indexer_plugin.Crates.{Crates, SlotStatus}
use solana_indexer_plugin.Worker.{
  WorkRequest, update_account, update_slot, log_transaction, update_block_metadata,
}

-- `ParallelClient`: its handles of the workers' threads, by the workers' numbers, the last that was
-- spawned first; what its sender has sent, in order, and whether a worker still receives; the flags
-- that it shares with the workers, and its counter of transactions. The two counters that the workers
-- increase are in `Parallel`.
pub record ParallelClient : Type 0 where
  pub workers : List ℕ
  pub sent : List WorkRequest
  pub is_connected : Bool
  pub exit_worker : Bool
  pub is_startup_done : Bool
  pub transaction_write_version : ℕ

-- The handles after `worker_count` rounds of the loop that spawns a thread and pushes its handle.
unfoldable pub spawned : ℕ → List ℕ
spawned zero = []
spawned (suc i) = i ∷ spawned i

-- `ParallelClient::new`, with the number of threads of its configuration. Only the threads have
-- receivers of the channel.
abbrev pub new_parallel_client : ℕ → ParallelClient
new_parallel_client worker_count = record {
  workers = spawned worker_count;
  sent = [];
  is_connected = ltb 0 worker_count;
  exit_worker = false;
  is_startup_done = false;
  transaction_write_version = 0;
}

abbrev pub Call : Type 0
Call = Exit (Unit {0}) × ParallelClient

-- `self.sender.send(request)`, with the error of a failure
unfoldable pub send : WorkRequest → GeyserPluginError → ParallelClient → Call
send request error c =
    if c.is_connected then (ok tt, record c { sent = c.sent ++ (request ∷ []) }) else (err error, c)

module _ (X : Crates) where
  -- `ParallelClient::update_account`
  unfoldable pub send_account : ReplicaAccountInfoV2 → ℕ → Bool → ParallelClient → Call
  unfolding send
  send_account account slot is_startup c =
      send (update_account (new_account account slot) is_startup)
        (accounts_update_error (
          "Failed to update the account "
          <> (X.debug_text (X.bs58_encode account.pubkey) <> (", error: " <> X.send_error))))
        c

  -- `ParallelClient::update_slot_status`
  unfoldable pub send_slot_status : ℕ → Option ℕ → SlotStatus → ParallelClient → Call
  unfolding send
  send_slot_status slot parent status c =
      send (update_slot slot parent status)
        (slot_status_update_error
          ("Failed to update the slot " <> (decimal slot <> (", error: " <> X.send_error))))
        c

  -- `ParallelClient::update_block_metadata`
  unfoldable pub send_block_metadata : ReplicaBlockInfo → ParallelClient → Call
  unfolding send
  send_block_metadata block_info c =
      send (update_block_metadata (db_block_info block_info))
        (slot_status_update_error (
          "Failed to update the block metadata at slot "
          <> (decimal block_info.slot <> (", error: " <> X.send_error))))
        c

  -- `ParallelClient::log_transaction_info`
  unfoldable pub send_transaction : ReplicaTransactionInfoV2 → ℕ → ParallelClient → Call
  unfolding send
  send_transaction info slot c =
      let version = (c.transaction_write_version + 1) % u64_mod in
      let c' : ParallelClient = record c { transaction_write_version = version } in
      elim (build_db_transaction slot info version) [
        | none ↦ (panic, c')
        | some row ↦
            send (log_transaction row)
              (slot_status_update_error
                ("Failed to update the transaction, error: " <> X.send_error))
              c'
      ]

-- How a worker's thread ended: with `Ok`, with an error, or by a panic.
pub data Thread : Type 0 where
  finished failed panicked : Thread

-- The loop of `join`, with how each thread ends: a handle is popped and joined, and the `unwrap` of a
-- thread that panicked panics. The handles that are left are returned as well.
unfoldable pub join_workers : (ℕ → Thread) → List ℕ → Exit (Unit {0}) × List ℕ
join_workers ends [] = (ok tt, [])
join_workers ends (i ∷ workers) =
    let rest = join_workers ends workers in
    elim (ends i) [ panicked ↦ (panic, workers) | finished ↦ rest | failed ↦ rest ]

-- `ParallelClient::join`. Once every thread has ended, the channel has no receiver.
unfoldable pub join : (ℕ → Thread) → ParallelClient → Call
unfolding join_workers
join ends c =
    let (exit, left) = join_workers ends c.workers in
    let stopping : ParallelClient = record c { exit_worker = true; workers = left } in
    elim exit [
      | ok u ↦ (ok u, record stopping { is_connected = false })
      | err e ↦ (err e, stopping)
      | panic ↦ (panic, stopping)
    ]
