-- ===== src/Parallel/Held.antt =====
-- Where an account of the startup is while one worker moves. A worker that goes on has had no error
-- of the database, since the process aborts on one.
use solana_indexer_plugin.Base.{
  ℕ, Bool, true, false, String, List, [], ◌∷◌, ◌++◌, ◌≡◌, ◌⊎◌, inl, inr, refl, arith, Has,
  Has-append, Has-last, Has-nil, ◌≢◌, Bool-cases,
}
use solana_indexer_plugin.Errors.{Exit, ok, err, panic}
use solana_indexer_plugin.Account.{DbAccountInfo}
use solana_indexer_plugin.Crates.{Crates}
use solana_indexer_plugin.Database.{Database}
use solana_indexer_plugin.Client
use solana_indexer_plugin.Client.{SimplePostgresClient, Reply, update_at_startup, flush}
use solana_indexer_plugin.Client.Stable.{IsStable}
use solana_indexer_plugin.Client.Delivery.{
  IsDelivering, update_at_startup-Stored, notify_end_of_startup-Stored,
}
use solana_indexer_plugin.Worker.{
  WorkRequest, update_account, update_slot, log_transaction, update_block_metadata, continue, flow,
  perform, ParallelClientWorker, handle_request, handle_end_of_startup, is_startup_request,
}
use solana_indexer_plugin.Worker.Effects.{client-handle_request}
use solana_indexer_plugin.Parallel.{busy, WorkerState, Shared, Move}
use solana_indexer_plugin.Parallel.Invariant.{WorkerInv}
use solana_indexer_plugin.Parallel.Lost.{IsLost}

pub flow-continue : (e : Exit (Unit {0})) → flow true e ≡ continue → e ≡ ok tt
unfolding flow
flow-continue (ok _) h = refl
flow-continue (err e) h = cc
flow-continue panic h = cc

-- The worker has the account of the startup in hand, or pending.
abbrev pub IsHeld : DbAccountInfo → WorkerState → Type 0
IsHeld a w =
    (w.phase ≡ busy (update_account a true)) ⊎ Has a w.worker.client.pending_account_updates

module _ (X : Crates) (D : Database) (a : DbAccountInfo) (Stored : D.State → Type 0)
    (stable : IsStable D Stored) where
  taken_has :
      (b : DbAccountInfo) (pending : List DbAccountInfo)
      → (update_account b true ≡ update_account a true) ⊎ Has a pending
      → Has a (pending ++ (b ∷ []))
  taken_has b pending (inl e) = Has-last a b pending cc
  taken_has b pending (inr h) = Has-append a pending (b ∷ []) h

  -- A request of another kind leaves the account pending.
  other_passes :
      (now : ℕ → String) (r : WorkRequest) (w : ParallelClientWorker) (db : D.State)
      → is_startup_request r ≡ false
      → (r ≡ update_account a true) ⊎ Has a w.client.pending_account_updates
      → Has a (handle_request X D true now r w db).1.client.pending_account_updates
  other_passes now r w db other (inl e) = absurd (ground (arith, e))
  other_passes now r w db other (inr h) = rw (client-handle_request X D true now r w db other) h

  -- A request that is answered leaves the account pending, or stored.
  request_passes :
      (now : ℕ → String) (r : WorkRequest) (w : ParallelClientWorker) (db : D.State)
      → IsDelivering X D a Stored w.client
      → (r ≡ update_account a true) ⊎ Has a w.client.pending_account_updates
      → (handle_request X D true now r w db).0 ≡ continue
      → Has a (handle_request X D true now r w db).1.client.pending_account_updates
        ⊎ Stored (handle_request X D true now r w db).2
  unfolding handle_request perform Client.update_account
  request_passes now (update_account b true) w db delivering held goes_on =
      update_at_startup-Stored X D a Stored stable now b w.client db delivering
        (taken_has b w.client.pending_account_updates held) (flow-continue _ goes_on)
  request_passes now (update_account b false) w db delivering held goes_on =
      inl (other_passes now (update_account b false) w db refl held)
  request_passes now (update_slot slot parent status) w db delivering held goes_on =
      inl (other_passes now (update_slot slot parent status) w db refl held)
  request_passes now (log_transaction info) w db delivering held goes_on =
      inl (other_passes now (log_transaction info) w db refl held)
  request_passes now (update_block_metadata info) w db delivering held goes_on =
      inl (other_passes now (update_block_metadata info) w db refl held)

  -- A worker that holds the account has not flushed its startup.
  IsHeld-unaware :
      {done : Bool} (w : WorkerState)
      → WorkerInv done w
      → IsHeld a w
      → w.worker.is_startup_done ≡ false
  IsHeld-unaware w inv held = elim (Bool-cases w.worker.is_startup_done) [
    | inr unaware ↦ unaware
    | inl aware ↦ elim held [
      | inl in_hand ↦ absurd (ground (arith, inv.later aware, in_hand))
      | inr pending ↦
          absurd (Has-nil a w.worker.client.pending_account_updates (inv.flushed aware) pending)
    ]
  ]

  -- In another phase than with the account in hand, it is pending.
  held_pending :
      (w : WorkerState)
      → (w.phase ≢ busy (update_account a true))
      → IsHeld a w
      → Has a w.worker.client.pending_account_updates
  held_pending w other (inl in_hand) = absurd (other in_hand)
  held_pending w other (inr h) = h

  in_hand :
      (w : WorkerState) (r : WorkRequest)
      → w.phase ≡ busy r
      → IsHeld a w
      → (r ≡ update_account a true) ⊎ Has a w.worker.client.pending_account_updates
  in_hand w r p (inl q) = inl cc
  in_hand w r p (inr h) = inr h

  -- What becomes of an account that a worker holds when that worker moves.
  pub Move-IsHeld :
      {done : Bool} {s : Shared D} {w : WorkerState} {t : Shared D} {w' : WorkerState}
      → Move X D true s w t w'
      → WorkerInv done w
      → IsDelivering X D a Stored w.worker.client
      → IsHeld a w
      → (IsHeld a w' ⊎ IsLost w') ⊎ Stored t.db
  unfolding handle_end_of_startup
  Move-IsHeld (Move.start s w client p e alike) inv delivering held = absurd (
      Has-nil a w.worker.client.pending_account_updates (inv.early (rw p refl))
        (held_pending w (λ q. cc) held))
  Move-IsHeld (Move.start_failed s w lax p) inv delivering held =
      inl (inl (inr (held_pending w (λ q. cc) held)))
  Move-IsHeld (Move.take s w r rest p e) inv delivering held =
      inl (inl (inr (held_pending w (λ q. cc) held)))
  Move-IsHeld (Move.finish s w r now p e) inv delivering held =
      elim (request_passes now r w.worker s.db delivering (in_hand w r p held) e) [
        | inl pending ↦ inl (inl (inr pending))
        | inr stored ↦ inr stored
      ]
  Move-IsHeld (Move.panicked s w r now p e) inv delivering held =
      inl (inr (record { phase = refl; unaware = IsHeld-unaware w inv held }))
  Move-IsHeld (Move.time_out s w p e f) inv delivering held =
      inl (inl (inr (held_pending w (λ q. cc) held)))
  Move-IsHeld (Move.flush s w now slot_now p e) inv delivering held = inr (
      notify_end_of_startup-Stored X D a Stored stable now slot_now w.worker.client s.db delivering
        (held_pending w (λ q. cc) held) (flow-continue _ e))
  Move-IsHeld (Move.flush_panicked s w now slot_now p e) inv delivering held =
      inl (inr (record { phase = refl; unaware = inv.fresh p }))
  Move-IsHeld (Move.report s w p) inv delivering held =
      inl (inl (inr (held_pending w (λ q. cc) held)))
  Move-IsHeld (Move.stop s w p e) inv delivering held =
      inl (inl (inr (held_pending w (λ q. cc) held)))
