-- ===== src/Parallel/Lost.antt =====
-- What becomes of the startup if a worker's thread panics before its end of startup.
use solana_indexer_plugin.Base.{
  ℕ, ◌<◌, Bool, false, [], ◌≡◌, ◌≢◌, ap, ◌∙◌, arith, update, sum_below_tight, ==_iff,
}
use solana_indexer_plugin.Crates.{Crates}
use solana_indexer_plugin.Database.{Database}
use solana_indexer_plugin.Client.{SimplePostgresClient}
use solana_indexer_plugin.Parallel.{
  WorkerState, Shared, System, notified, Move, Step, Reach, initial, dead,
}
use solana_indexer_plugin.Parallel.Invariant.{done_weight, initialized_weight}
use solana_indexer_plugin.Parallel.Startup.{Inv, Inv-initial, Reach-Inv, done_weight-le}

-- The thread of the worker has panicked before the worker was done with its startup.
pub record IsLost (w : WorkerState) : Type 0 where
  pub phase : w.phase ≡ dead
  pub unaware : w.worker.is_startup_done ≡ false

module _ (X : Crates) (D : Database) (strict : Bool) (n : ℕ) where
  -- A panicked thread takes no step.
  pub Move-ne-dead :
      {s : Shared D} {w : WorkerState} {t : Shared D} {w' : WorkerState}
      → Move X D strict s w t w'
      → w.phase ≢ dead
  Move-ne-dead (Move.start s w client p e alike) d = cc
  Move-ne-dead (Move.start_failed s w lax p) d = cc
  Move-ne-dead (Move.take s w r rest p e) d = cc
  Move-ne-dead (Move.finish s w r now p e) d = cc
  Move-ne-dead (Move.panicked s w r now p e) d = cc
  Move-ne-dead (Move.time_out s w p e f) d = cc
  Move-ne-dead (Move.flush s w now slot_now p e) d = cc
  Move-ne-dead (Move.flush_panicked s w now slot_now p e) d = cc
  Move-ne-dead (Move.report s w p) d = cc
  Move-ne-dead (Move.stop s w p e) d = cc

  IsLost-update :
      (f : ℕ → WorkerState) (i j : ℕ) (w : WorkerState)
      → IsLost (f i)
      → (j ≡ i → ⊥)
      → IsLost (update f j w i)
  IsLost-update f i j w lost other = ground (arith, ==_iff j i)

  module _ (i : ℕ) (below : i < n) where
    pub Step-IsLost :
        {s t : System D}
        → Step X D strict n s t
        → Inv n s
        → IsLost (s.workers i)
        → s.main ≢ notified
        → IsLost (t.workers i) × (t.main ≢ notified)
    Step-IsLost (Step.send s r can later room) inv lost h = (lost, h)
    Step-IsLost (Step.begin s p) inv lost h = (lost, λ e. cc)
    Step-IsLost (Step.see_empty s p e) inv lost h = (lost, λ e. cc)
    Step-IsLost (Step.mark_done s p) inv lost h = (lost, λ e. cc)
    Step-IsLost (Step.load_done s p) inv lost h = (lost, λ e. cc)
    Step-IsLost (Step.again s d p e) inv lost h = (lost, λ e. cc)
    Step-IsLost (Step.return s d p e) inv lost h = absurd (
        ground (
          arith,
          sum_below_tight done_weight initialized_weight done_weight-le n s.workers i below
              (omega (arith, inv.seen d p, inv.initialized, inv.done)),
        ))
    Step-IsLost (Step.join s p) inv lost h = (lost, λ e. cc)
    Step-IsLost (Step.work s j t w b m) inv lost h = (
      IsLost-update s.workers i j w lost
          (λ (e : j ≡ i). Move-ne-dead m (ap (λ k. (s.workers k).phase) e ∙ lost.phase)),
      h,
    )

    Reach-IsLost :
        {s t : System D}
        → Inv n s
        → IsLost (s.workers i)
        → s.main ≢ notified
        → Reach X D strict n s t
        → IsLost (t.workers i) × (t.main ≢ notified)
    Reach-IsLost inv lost h Reach.here = (lost, h)
    Reach-IsLost inv lost h (Reach.next r st) =
        let (l, g) = Reach-IsLost inv lost h r in Step-IsLost st (Reach-Inv X D strict n inv r) l g

    -- If, before `notify_end_of_startup` has returned, the thread of a worker panics that has not
    -- flushed its startup, then the call never returns: no later state, in any interleaving, has
    -- the validator past it. The workers' clients start with no pending update.
    pub lost_worker_hangs :
        (db : D.State) (client : SimplePostgresClient) (s t : System D)
        → client.pending_account_updates ≡ []
        → Reach X D strict n (initial D db client) s
        → IsLost (s.workers i)
        → s.main ≢ notified
        → Reach X D strict n s t
        → t.main ≢ notified
    lost_worker_hangs db client s t e r lost h later =
        (Reach-IsLost (Reach-Inv X D strict n (Inv-initial X D strict n db client e) r) lost h
          later).1
