-- ===== src/Parallel/Run.antt =====
-- The moves of the system that the rounds of one worker's loop, `do_work`, make.
use solana_indexer_plugin.Base.{ℕ, Bool, true, false, String, List, [], ◌∷◌, ◌≡◌, ◌⊎◌}
use solana_indexer_plugin.Crates.{Crates}
use solana_indexer_plugin.Database.{Database}
use solana_indexer_plugin.Worker.{
  WorkRequest, ParallelClientWorker, abort, Received, exiting, received, timed_out, disconnected,
  Ending, Ended, returned, aborted, unwound, running, handle_request, handle_end_of_startup,
}
use solana_indexer_plugin.Parallel.{
  receiving, busy, notifying, reporting, stopped, dead, WorkerState, Shared, Move,
}

-- What the rounds read is what is there: the queue's requests in order, and the two flags, of which
-- the exit flag may be seen in a later round. The queue is never disconnected, since the plugin keeps
-- its sender.
abbrev pub Reads : List Received → List WorkRequest → Bool → Bool → Type 0
Reads [] queue done exit = Unit
Reads (exiting ∷ rounds) queue done exit = exit ≡ true
Reads (received r now ∷ rounds) queue done exit =
    (rest : List WorkRequest) × (queue ≡ r ∷ rest) × Reads rounds rest done exit
Reads (timed_out d now slot_now ∷ rounds) queue done exit =
    (d ≡ done) × Reads rounds queue done exit
Reads (disconnected ∷ rounds) queue done exit = ⊥

abbrev pub at_loop : ParallelClientWorker → WorkerState
at_loop w = record { phase = receiving; worker = w }

abbrev pub at_work : WorkRequest → ParallelClientWorker → WorkerState
at_work r w = record { phase = busy r; worker = w }

abbrev pub at_flush : ParallelClientWorker → WorkerState
at_flush w = record { phase = notifying; worker = w }

abbrev pub at_report : ParallelClientWorker → WorkerState
at_report w = record { phase = reporting; worker = w }

module _ (X : Crates) (D : Database) (strict : Bool) where
  -- The moves that rounds of the loop make from a shared state and a worker, with how the loop ends
  -- and the states it leaves. A request that is received is taken and answered; a timeout makes no
  -- move unless it is the first that sees the end of startup, which is flushed and reported. An abort
  -- is no move: the process ends in the call, after what it wrote.
  pub data Run
      : List Received
        → Shared D
        → ParallelClientWorker
        → Ending
        → Shared D
        → WorkerState
        → Type 0 where
    out : (s : Shared D) (w : ParallelClientWorker) → Run [] s w running s (at_loop w)
    exits :
        (rounds : List Received) (s : Shared D) (w : ParallelClientWorker) (t : Shared D)
        (v : WorkerState)
        → Move X D strict s (at_loop w) t v
        → v.phase ≡ stopped
        → Run (exiting ∷ rounds) s w returned t v
    answers :
        (r : WorkRequest) (now : ℕ → String) (rounds : List Received) (s : Shared D)
        (w : ParallelClientWorker) (t u : Shared D) (x : ParallelClientWorker) (e : Ending)
        (z : Shared D) (v : WorkerState)
        → Move X D strict s (at_loop w) t (at_work r w)
        → Move X D strict t (at_work r w) u (at_loop x)
        → Run rounds u x e z v
        → Run (received r now ∷ rounds) s w e z v
    answer_panics :
        (r : WorkRequest) (now : ℕ → String) (rounds : List Received) (s : Shared D)
        (w : ParallelClientWorker) (t u : Shared D) (v : WorkerState)
        → Move X D strict s (at_loop w) t (at_work r w)
        → Move X D strict t (at_work r w) u v
        → v.phase ≡ dead
        → Run (received r now ∷ rounds) s w unwound u v
    answer_aborts :
        (r : WorkRequest) (now : ℕ → String) (rounds : List Received) (s : Shared D)
        (w : ParallelClientWorker) (t : Shared D)
        → Move X D strict s (at_loop w) t (at_work r w)
        → (handle_request X D strict now r w t.db).0 ≡ abort
        → Run
            (received r now ∷ rounds)
            s
            w
            aborted
            (record t { db = (handle_request X D strict now r w t.db).2 })
            (at_work r w)
    waits :
        (d : Bool) (now slot_now : ℕ → String) (rounds : List Received) (s : Shared D)
        (w : ParallelClientWorker) (e : Ending) (z : Shared D) (v : WorkerState)
        → (w.is_startup_done ≡ true) ⊎ (s.is_startup_done ≡ false)
        → Run rounds s w e z v
        → Run (timed_out d now slot_now ∷ rounds) s w e z v
    reports :
        (d : Bool) (now slot_now : ℕ → String) (rounds : List Received) (s : Shared D)
        (w : ParallelClientWorker) (t u : Shared D) (x : ParallelClientWorker) (e : Ending)
        (z : Shared D) (v : WorkerState)
        → Move X D strict s (at_loop w) s (at_flush w)
        → Move X D strict s (at_flush w) t (at_report x)
        → Move X D strict t (at_report x) u (at_loop x)
        → Run rounds u x e z v
        → Run (timed_out d now slot_now ∷ rounds) s w e z v
    flush_panics :
        (d : Bool) (now slot_now : ℕ → String) (rounds : List Received) (s : Shared D)
        (w : ParallelClientWorker) (t : Shared D) (v : WorkerState)
        → Move X D strict s (at_loop w) s (at_flush w)
        → Move X D strict s (at_flush w) t v
        → v.phase ≡ dead
        → Run (timed_out d now slot_now ∷ rounds) s w unwound t v
    flush_aborts :
        (d : Bool) (now slot_now : ℕ → String) (rounds : List Received) (s : Shared D)
        (w : ParallelClientWorker)
        → Move X D strict s (at_loop w) s (at_flush w)
        → (handle_end_of_startup X D strict now slot_now w s.db).0 ≡ abort
        → Run
            (timed_out d now slot_now ∷ rounds)
            s
            w
            aborted
            (record s { db = (handle_end_of_startup X D strict now slot_now w s.db).2 })
            (at_flush w)

  -- The rounds run to the ending, count, worker and database of a result.
  abbrev pub RunsTo : List Received → Shared D → ParallelClientWorker → Ended X D → Type 0
  RunsTo rounds s w r =
      (t : Shared D) × (v : WorkerState) × Run rounds s w r.0 t v
      × (r.1 ≡ t.startup_done_count)
      × (r.2 ≡ v.worker)
      × (r.3 ≡ t.db)
