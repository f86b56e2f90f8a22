-- ===== src/Worker/Rounds.antt =====
-- `do_work` counts the end of startup once.
use solana_indexer_plugin.Base.{ℕ, suc, ◌+◌, ◌≤◌, Bool, true, List, [], ◌∷◌, ◌≡◌, refl, arith}
use solana_indexer_plugin.Crates.{Crates}
use solana_indexer_plugin.Database.{Database}
use solana_indexer_plugin.Worker.{
  ParallelClientWorker, Received, exiting, received, timed_out, disconnected, do_work,
  handle_request, handle_end_of_startup,
}
use solana_indexer_plugin.Worker.Effects.{
  is_startup_done-handle_request, pending-handle_end_of_startup,
}

module _ (X : Crates) (D : Database) (strict : Bool) where
  -- A worker that knows of the end of startup does not count it again.
  count-do_work_done :
      (rounds : List Received) (w : ParallelClientWorker) (db : D.State) (count : ℕ)
      → w.is_startup_done ≡ true
      → (do_work X D strict rounds w db count).1 ≡ count
  unfolding do_work
  count-do_work_done [] w db count h = refl
  count-do_work_done (exiting ∷ rounds) w db count h = refl
  count-do_work_done (received r now ∷ rounds) w db count h = ground (
    arith,
    is_startup_done-handle_request X D strict now r w db,
    count-do_work_done rounds (handle_request X D strict now r w db).1
        (handle_request X D strict now r w db).2 count,
  )
  count-do_work_done (timed_out done now slot_now ∷ rounds) w db count h =
      ground (arith, count-do_work_done rounds w db count h)
  count-do_work_done (disconnected ∷ rounds) w db count h = refl

  -- Whatever the rounds of its loop read, a worker increases the shared counter at most once.
  pub count-do_work :
      (rounds : List Received) (w : ParallelClientWorker) (db : D.State) (count : ℕ)
      → (count ≤ (do_work X D strict rounds w db count).1)
        × ((do_work X D strict rounds w db count).1 ≤ count + 1)
  unfolding do_work
  count-do_work [] w db count = omega arith
  count-do_work (exiting ∷ rounds) w db count = omega arith
  count-do_work (received r now ∷ rounds) w db count = ground (
    arith,
    count-do_work rounds (handle_request X D strict now r w db).1
        (handle_request X D strict now r w db).2 count,
  )
  count-do_work (timed_out done now slot_now ∷ rounds) w db count = ground (
    arith,
    count-do_work rounds w db count,
    (pending-handle_end_of_startup X D strict now slot_now w db).1,
    count-do_work_done rounds (handle_end_of_startup X D strict now slot_now w db).1
        (handle_end_of_startup X D strict now slot_now w db).2 (suc count),
  )
  count-do_work (disconnected ∷ rounds) w db count = omega arith
