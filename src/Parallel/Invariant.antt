-- ===== src/Parallel/Invariant.antt =====
-- The invariant of the startup protocol, and that every step of a worker keeps it.
use solana_indexer_plugin.Base.{
  ℕ, ◌+◌, ◌≤◌, Bool, true, false, List, [], ◌∷◌, ◌≡◌, arith, if◌then◌else◌,
}
use solana_indexer_plugin.Crates.{Crates}
use solana_indexer_plugin.Database.{Database}
use solana_indexer_plugin.Worker.{WorkRequest, is_startup_request}
use solana_indexer_plugin.Worker.Effects.{
  client-handle_request, is_startup_done-handle_request, pending-handle_end_of_startup,
}
use solana_indexer_plugin.Parallel.{
  Phase, starting, failed, busy, notifying, reporting, WorkerState, Shared, Move, start,
  start_failed, take, finish, panicked, time_out, flush, flush_panicked, report, stop,
}

-- Has the worker been counted as initialized?
abbrev pub started : Phase → ℕ
started starting = 0
started failed = 0
started _ = 1

-- Can a worker that knows of the end of startup have counted itself as done?
abbrev pub counts : Phase → ℕ
counts starting = 0
counts failed = 0
counts reporting = 0
counts _ = 1

abbrev pub initialized_weight : WorkerState → ℕ
initialized_weight w = started w.phase

abbrev pub done_weight : WorkerState → ℕ
done_weight w = if w.worker.is_startup_done then counts w.phase else 0

-- The worker has no account update of the startup in hand.
abbrev pub IsQuiet : Phase → Type 0
IsQuiet (busy r) = is_startup_request r ≡ false
IsQuiet _ = Unit

-- No request of the queue is an account update of the startup.
abbrev pub AllQuiet : List WorkRequest → Type 0
AllQuiet [] = Unit
AllQuiet (r ∷ rs) = (is_startup_request r ≡ false) × AllQuiet rs

-- The worker holds no account update of the startup, neither pending nor in hand.
pub record IsSettled (w : WorkerState) : Type 0 where
  pub pending : w.worker.client.pending_account_updates ≡ []
  pub quiet : IsQuiet w.phase

-- What holds of a worker, with the shared flag `done`.
pub record WorkerInv (done : Bool) (w : WorkerState) : Type 0 where
  pub early : started w.phase ≡ 0 → w.worker.client.pending_account_updates ≡ []
  pub flagged : w.worker.is_startup_done ≡ true → done ≡ true
  pub flushed : w.worker.is_startup_done ≡ true → w.worker.client.pending_account_updates ≡ []
  pub later : w.worker.is_startup_done ≡ true → IsQuiet w.phase
  pub reports : w.phase ≡ reporting → w.worker.is_startup_done ≡ true
  pub notifies : w.phase ≡ notifying → done ≡ true
  pub fresh : w.phase ≡ notifying → w.worker.is_startup_done ≡ false

-- What a step of a worker keeps, seen from the system.
pub record Kept {D : Database} (s t : Shared D) (w w' : WorkerState) : Type 0 where
  pub worker : WorkerInv t.is_startup_done w'
  pub flag : t.is_startup_done ≡ s.is_startup_done
  pub initialized :
      t.initialized_worker_count + initialized_weight w
      ≡ s.initialized_worker_count + initialized_weight w'
  pub done : t.startup_done_count + done_weight w ≡ s.startup_done_count + done_weight w'
  pub grows : s.startup_done_count ≤ t.startup_done_count
  pub queue : AllQuiet s.queue → AllQuiet t.queue
  pub empty : s.queue ≡ [] → t.queue ≡ []
  pub settled : AllQuiet s.queue → IsSettled w → IsSettled w'

module _ (X : Crates) (D : Database) (strict : Bool) where
  pub Move-Kept :
      {s : Shared D} {w : WorkerState} {t : Shared D} {w' : WorkerState}
      → Move X D strict s w t w'
      → WorkerInv s.is_startup_done w
      → (s.is_startup_done ≡ true → AllQuiet s.queue)
      → Kept s t w w'
  Move-Kept (start s w client p e alike) inv quiet = ground arith
  Move-Kept (start_failed s w lax p) inv quiet = ground arith
  Move-Kept (take s w r rest p e) inv quiet = ground arith
  Move-Kept (finish s w r now p e) inv quiet = ground (
    arith,
    client-handle_request X D strict now r w.worker s.db,
    is_startup_done-handle_request X D strict now r w.worker s.db,
  )
  Move-Kept (panicked s w r now p e) inv quiet =
      ground (arith, client-handle_request X D strict now r w.worker s.db)
  Move-Kept (time_out s w p e f) inv quiet = ground arith
  Move-Kept (flush s w now slot_now p e) inv quiet =
      ground (arith, pending-handle_end_of_startup X D strict now slot_now w.worker s.db)
  Move-Kept (flush_panicked s w now slot_now p e) inv quiet = ground arith
  Move-Kept (report s w p) inv quiet = ground arith
  Move-Kept (stop s w p e) inv quiet = ground arith
