-- ===== src/Parallel/Loop.antt =====
-- The loop of one worker, `do_work`, as moves of the system.
use solana_indexer_plugin.Base.{
  ℕ, ◌+◌, Bool, true, false, String, List, [], ◌∷◌, ◌≡◌, ◌⊎◌, inl, inr, refl, sym, subst, ap, ◌∙◌,
  arith, Bool-cases,
}
use solana_indexer_plugin.Crates.{Crates}
use solana_indexer_plugin.Database.{Database}
use solana_indexer_plugin.Worker.{
  WorkRequest, ParallelClientWorker, Flow, continue, abort, unwind, Received, exiting, received,
  timed_out, disconnected, Ended, aborted, unwound, handle_request, handle_end_of_startup, do_work,
}
use solana_indexer_plugin.Parallel.{Shared, Move}
use solana_indexer_plugin.Parallel.Run.{Reads, at_loop, at_work, at_flush, Run, RunsTo}

Flow-cases : (f : Flow) → (f ≡ continue) ⊎ ((f ≡ abort) ⊎ (f ≡ unwind))
Flow-cases continue = inl refl
Flow-cases abort = inr (inl refl)
Flow-cases unwind = inr (inr refl)

module _ (X : Crates) (D : Database) (strict : Bool) where
  abbrev Loop : List Received → Type 0
  Loop rounds =
      (w : ParallelClientWorker) (s : Shared D)
      → Reads rounds s.queue s.is_startup_done s.exit_worker
      → RunsTo X D strict rounds s w (do_work X D strict rounds w s.db s.startup_done_count)

  module _ (r : WorkRequest) (now : ℕ → String) (rounds : List Received) (w : ParallelClientWorker)
      (db : D.State) (count : ℕ) where
    abbrev answer : Flow × ParallelClientWorker × D.State
    answer = handle_request X D strict now r w db

    do_work-received :
        answer.0 ≡ continue
        → do_work X D strict (received r now ∷ rounds) w db count
          ≡ do_work X D strict rounds answer.1 answer.2 count
    unfolding do_work
    do_work-received e = rw (do_work, e) refl

    do_work-received_abort :
        answer.0 ≡ abort
        → do_work X D strict (received r now ∷ rounds) w db count ≡ (aborted, count, w, answer.2)
    unfolding do_work
    do_work-received_abort e = rw (do_work, e) refl

    do_work-received_unwind :
        answer.0 ≡ unwind
        → do_work X D strict (received r now ∷ rounds) w db count ≡ (unwound, count, w, answer.2)
    unfolding do_work
    do_work-received_unwind e = rw (do_work, e) refl

  module _ (now slot_now : ℕ → String) (rounds : List Received) (w : ParallelClientWorker)
      (db : D.State) (count : ℕ) where
    abbrev end : Flow × ParallelClientWorker × D.State
    end = handle_end_of_startup X D strict now slot_now w db

    do_work-timed_out :
        w.is_startup_done ≡ false
        → end.0 ≡ continue
        → do_work X D strict (timed_out true now slot_now ∷ rounds) w db count
          ≡ do_work X D strict rounds end.1 end.2 (count + 1)
    unfolding do_work handle_end_of_startup
    do_work-timed_out fresh e =
        rw (do_work, fresh, e) (ap (do_work X D strict rounds end.1 end.2) (omega arith))

    do_work-timed_out_abort :
        w.is_startup_done ≡ false
        → end.0 ≡ abort
        → do_work X D strict (timed_out true now slot_now ∷ rounds) w db count
          ≡ (aborted, count, w, end.2)
    unfolding do_work handle_end_of_startup
    do_work-timed_out_abort fresh e = simp (do_work, fresh, e)

    do_work-timed_out_unwind :
        w.is_startup_done ≡ false
        → end.0 ≡ unwind
        → do_work X D strict (timed_out true now slot_now ∷ rounds) w db count
          ≡ (unwound, count, w, end.2)
    unfolding do_work handle_end_of_startup
    do_work-timed_out_unwind fresh e = simp (do_work, fresh, e)

    do_work-timed_out_again :
        (d : Bool)
        → (w.is_startup_done ≡ true) ⊎ (d ≡ false)
        → do_work X D strict (timed_out d now slot_now ∷ rounds) w db count
          ≡ do_work X D strict rounds w db count
    unfolding do_work
    do_work-timed_out_again d h = ground arith

  RunsTo-eq :
      (rounds : List Received) (s : Shared D) (w : ParallelClientWorker) (r q : Ended X D)
      → r ≡ q
      → RunsTo X D strict rounds s w q
      → RunsTo X D strict rounds s w r
  RunsTo-eq rounds s w r q e a = subst (λ o. RunsTo X D strict rounds s w o) (sym e) a

  received-Loop :
      (r : WorkRequest) (now : ℕ → String) (rounds : List Received)
      → Loop rounds
      → Loop (received r now ∷ rounds)
  received-Loop r now rounds ih w s (rest, at_queue, reads) =
      let taken : Shared D = record s { queue = rest } in
      let count = s.startup_done_count in
      let took = Move.take s (at_loop w) r rest refl at_queue in
      elim (Flow-cases (answer r now rounds w s.db count).0) [
        | inl e ↦
            let (z, v, run, counted, kept, stored) = ih _ _ reads in
            RunsTo-eq _ s w _ _ (do_work-received r now rounds w s.db count e) (
              z,
              v,
              Run.answers r now rounds s w taken _ _ _ z v took
                  (Move.finish taken (at_work r w) r now refl e) run,
              counted,
              kept,
              stored,
            )
        | inr (inl e) ↦
            RunsTo-eq _ s w _ _ (do_work-received_abort r now rounds w s.db count e)
              (_, _, Run.answer_aborts r now rounds s w taken took e, refl, refl, refl)
        | inr (inr e) ↦ RunsTo-eq _ s w _ _ (do_work-received_unwind r now rounds w s.db count e) (
          _,
          _,
          Run.answer_panics r now rounds s w taken _ _ took
              (Move.panicked taken (at_work r w) r now refl e) refl,
          refl,
          refl,
          refl,
        )
      ]

  ends-RunsTo :
      (d : Bool) (now slot_now : ℕ → String) (rounds : List Received) (w : ParallelClientWorker)
      (s : Shared D)
      → Loop rounds
      → Reads rounds s.queue s.is_startup_done s.exit_worker
      → w.is_startup_done ≡ false
      → s.is_startup_done ≡ true
      → RunsTo X D strict
          (timed_out d now slot_now ∷ rounds)
          s
          w
          (do_work X D strict (timed_out true now slot_now ∷ rounds) w s.db s.startup_done_count)
  ends-RunsTo d now slot_now rounds w s ih reads fresh done =
      let count = s.startup_done_count in
      let timed = Move.time_out s (at_loop w) refl fresh done in
      elim (Flow-cases (end now slot_now rounds w s.db count).0) [
        | inl e ↦
            let (z, v, run, counted, kept, stored) = ih _ _ reads in
            RunsTo-eq _ s w _ _ (do_work-timed_out now slot_now rounds w s.db count fresh e) (
              z,
              v,
              Run.reports d now slot_now rounds s w _ _ _ _ z v timed
                  (Move.flush s (at_flush w) now slot_now refl e) (Move.report _ _ refl) run,
              counted,
              kept,
              stored,
            )
        | inr (inl e) ↦
            RunsTo-eq _ s w _ _ (do_work-timed_out_abort now slot_now rounds w s.db count fresh e)
              (_, _, Run.flush_aborts d now slot_now rounds s w timed e, refl, refl, refl)
        | inr (inr e) ↦
            RunsTo-eq _ s w _ _ (do_work-timed_out_unwind now slot_now rounds w s.db count fresh e)
              (
                _,
                _,
                Run.flush_panics d now slot_now rounds s w _ _ timed
                    (Move.flush_panicked s (at_flush w) now slot_now refl e) refl,
                refl,
                refl,
                refl,
              )
      ]

  waits-RunsTo :
      (d : Bool) (now slot_now : ℕ → String) (rounds : List Received) (w : ParallelClientWorker)
      (s : Shared D)
      → Loop rounds
      → Reads rounds s.queue s.is_startup_done s.exit_worker
      → d ≡ s.is_startup_done
      → (w.is_startup_done ≡ true) ⊎ (d ≡ false)
      → (w.is_startup_done ≡ true) ⊎ (s.is_startup_done ≡ false)
      → RunsTo X D strict
          (timed_out d now slot_now ∷ rounds)
          s
          w
          (do_work X D strict (timed_out d now slot_now ∷ rounds) w s.db s.startup_done_count)
  waits-RunsTo d now slot_now rounds w s ih reads at_flag h g =
      let (z, v, run, counted, kept, stored) = ih w s reads in
      RunsTo-eq _ s w _ _
        (do_work-timed_out_again now slot_now rounds w s.db s.startup_done_count d h)
        (z, v, Run.waits d now slot_now rounds s w _ z v g run, counted, kept, stored)

  -- The loop of a worker is a run of the step relation. If its rounds read what the queue and the
  -- flags hold while no other thread moves, moves of this worker alone lead to the count, the worker
  -- and the database that the loop leaves, and end as it does: each received request is taken and
  -- answered, the first timeout that sees the end of startup is flushed and reported and the others
  -- make no move, a panic leaves the thread dead, and a set exit flag stops it.
  pub do_work-RunsTo :
      (rounds : List Received) (w : ParallelClientWorker) (s : Shared D)
      → Reads rounds s.queue s.is_startup_done s.exit_worker
      → RunsTo X D strict rounds s w (do_work X D strict rounds w s.db s.startup_done_count)
  unfolding do_work
  do_work-RunsTo [] w s reads = (s, at_loop w, Run.out s w, refl, refl, refl)
  do_work-RunsTo (exiting ∷ rounds) w s reads =
      (_, _, Run.exits rounds s w _ _ (Move.stop s (at_loop w) refl reads) refl, refl, refl, refl)
  do_work-RunsTo (received r now ∷ rounds) w s reads =
      received-Loop r now rounds (do_work-RunsTo rounds) w s reads
  do_work-RunsTo (timed_out d now slot_now ∷ rounds) w s (at_flag, reads) =
      let ih = do_work-RunsTo rounds in
      elim (Bool-cases w.is_startup_done) [
        | inl aware ↦
            waits-RunsTo d now slot_now rounds w s ih reads at_flag (inl aware) (inl aware)
        | inr fresh ↦ elim (Bool-cases d) [
          | inr unset ↦
              waits-RunsTo d now slot_now rounds w s ih reads at_flag (inr unset)
                (inr (sym at_flag ∙ unset))
          | inl set ↦
              RunsTo-eq _ s w _ _
                (ap
                  (λ b.
                    do_work X D strict (timed_out b now slot_now ∷ rounds) w s.db
                      s.startup_done_count)
                  set)
                (ends-RunsTo d now slot_now rounds w s ih reads fresh (sym at_flag ∙ set))
        ]
      ]
  do_work-RunsTo (disconnected ∷ rounds) w s reads = absurd reads
