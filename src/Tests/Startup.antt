-- ===== src/Tests/Startup.antt =====
-- A run of the startup with one worker, and the batches of a client.
use solana_indexer_plugin.Base.{
  ℕ, ◌+◌, ◌<◌, ◌≤◌, as_u64, true, false, String, List, [], ◌∷◌, ◌++◌, ◌≡◌, refl, arith, update,
  lookup,
}
use solana_indexer_plugin.Client
use solana_indexer_plugin.Client.{
  SimplePostgresClient, update_later, update_at_startup, insert_slot, flush, execute_query,
  batch_query, account_query, handlers_query, handler_query, then_slots, flush_slots,
}
use solana_indexer_plugin.Client.Pending.{IsBelowBatch, update_at_startup-IsBelowBatch}
use solana_indexer_plugin.Client.Slots.{startup-IsStored}
use solana_indexer_plugin.Sql.Slots.{IsStored}
use solana_indexer_plugin.Crates.{rooted}
use solana_indexer_plugin.Client.Refinement.{run_startup, run_startup-refines}
use solana_indexer_plugin.Handlers.{
  select_account_handlers, replaced_by, not_skipped, from_str, get_handler, account_update,
  update_unknown_account,
}
use solana_indexer_plugin.Sql.{Statement, upsert_account}
use solana_indexer_plugin.Sql.Tables.{no_rows, execute_all}
use solana_indexer_plugin.Worker
use solana_indexer_plugin.Worker.{
  WorkRequest, handle_request, handle_end_of_startup, after_call, flow, perform, do_work, Received,
  exiting, ParallelClientWorker,
}
use solana_indexer_plugin.Worker.Rounds.{count-do_work}
use solana_indexer_plugin.Parallel.{
  System, Shared, WorkerState, Reach, Step, Move, initial, receiving, busy, notifying, reporting,
  draining, drained, waiting, loaded, notified,
}
use solana_indexer_plugin.Parallel.Invariant.{IsSettled, AllQuiet}
use solana_indexer_plugin.Parallel.Progress.{Reach-trans}
use solana_indexer_plugin.Parallel.Startup.{notified-IsSettled}
use solana_indexer_plugin.Tests.Data.{
  crates, memory, memory-IsTransactional, client, account, account_row,
}

abbrev pub clock : ℕ → String
clock n = "now"

update_at_startup-IsBelowBatch_example :
    IsBelowBatch (update_at_startup crates memory clock account client no_rows).1
    × ((update_at_startup crates memory clock account client no_rows).1.batch_size ≡ 10)
update_at_startup-IsBelowBatch_example =
    update_at_startup-IsBelowBatch crates memory clock account client no_rows

-- A client whose batch is full with two updates.
abbrev small_client : SimplePostgresClient
small_client = record client { batch_size = 2 }

abbrev statements : List Statement
statements =
    upsert_account (account_row 7 1)
    ∷ upsert_account (account_row 7 1)
    ∷ upsert_account (account_row 7 1)
    ∷ []

run_startup-refines_example :
    (run_startup crates memory "now" (account ∷ account ∷ account ∷ []) small_client no_rows).2
    ≡ execute_all statements no_rows
unfolding run_startup update_at_startup flush execute_query batch_query account_query handlers_query
    handler_query select_account_handlers replaced_by not_skipped from_str get_handler
    account_update update_unknown_account lookup
run_startup-refines_example =
    run_startup-refines crates memory "now" (λ tables. tables) memory-IsTransactional
      (account ∷ account ∷ account ∷ []) small_client no_rows statements refl refl refl

startup-IsStored_example :
    IsStored 7
      (crates.status_text rooted)
      (then_slots crates memory clock
        (run_startup crates memory "now" (account ∷ account ∷ account ∷ []) small_client no_rows)).2
unfolding run_startup update_at_startup flush execute_query batch_query account_query handlers_query
    handler_query select_account_handlers replaced_by not_skipped from_str get_handler
    account_update update_unknown_account lookup then_slots flush_slots insert_slot as_u64
startup-IsStored_example =
    startup-IsStored crates memory "now" (λ tables. tables) memory-IsTransactional clock
      (account ∷ account ∷ account ∷ []) small_client no_rows 0 account refl refl

abbrev worker : ParallelClientWorker
worker = record { client = client; is_startup_done = false }

count-do_work_example :
    (5 ≤ (do_work crates memory false (exiting ∷ []) worker no_rows 5).1)
    × ((do_work crates memory false (exiting ∷ []) worker no_rows 5).1 ≤ 5 + 1)
count-do_work_example = count-do_work crates memory false (exiting ∷ []) worker no_rows 5

abbrev request : WorkRequest
request = Worker.update_account account true

-- The system after a step of its worker.
abbrev pub worked : System memory → Shared memory → WorkerState → System memory
worked s t w = record s { shared = t; workers = update s.workers 0 w }

abbrev pub started : System memory
started =
    let s = initial memory no_rows client in
    worked s (record s.shared { initialized_worker_count = 0 + 1 })
      (record { phase = receiving; worker = worker })

abbrev pub sent : System memory
sent = record started { shared = record started.shared { queue = [] ++ (request ∷ []) } }

abbrev taken : System memory
taken =
    worked sent (record sent.shared { queue = [] })
      (record (sent.workers 0) { phase = busy request })

abbrev finished : System memory
finished =
    worked taken (record taken.shared { db = no_rows })
      (record {
        phase = receiving;
        worker = record {
          client = record client {
            pending_account_updates = account ∷ [];
            slots_at_startup = 7 ∷ [];
          };
          is_startup_done = false;
        };
      })

abbrev flagged : System memory
flagged = record finished {
  main = waiting;
  shared = record finished.shared { is_startup_done = true };
}

abbrev flushing : System memory
flushing = worked flagged flagged.shared (record (flagged.workers 0) { phase = notifying })

abbrev flushed : System memory
flushed =
    worked flushing
      (record flushing.shared {
        db =
            (handle_end_of_startup crates memory true clock clock (flushing.workers 0).worker
              no_rows).2;
      })
      (record {
        phase = reporting;
        worker =
            (handle_end_of_startup crates memory true clock clock (flushing.workers 0).worker
              no_rows).1;
      })

abbrev reported : System memory
reported =
    worked flushed (record flushed.shared { startup_done_count = 0 + 1 })
      (record (flushed.workers 0) { phase = receiving })

abbrev pub ended : System memory
ended = record reported { main = notified }

pub sent-Reach : Reach crates memory true 1 (initial memory no_rows client) sent
sent-Reach =
    Reach.next {t = started}
      (Reach.next Reach.here
        (Step.work _ 0 _ _ (omega arith) (Move.start _ _ client refl refl (refl, refl))))
      (Step.send _ request refl (λ done. cc) (omega arith))

pub flushed-Reach : Reach crates memory true 1 sent ended
unfolding handle_request after_call flow perform solana_indexer_plugin.Client.update_account
    update_at_startup insert_slot as_u64 handle_end_of_startup
    solana_indexer_plugin.Client.notify_end_of_startup then_slots flush_slots flush execute_query
    batch_query account_query handlers_query handler_query select_account_handlers replaced_by
    not_skipped from_str get_handler account_update update_unknown_account lookup
flushed-Reach =
    Reach.next {t = record reported { main = loaded 1 }}
      (Reach.next {t = record reported { main = waiting }}
        (Reach.next {t = flushed}
          (Reach.next {t = flushing}
            (Reach.next {t = flagged}
              (Reach.next {t = record finished { main = drained }}
                (Reach.next {t = record finished { main = draining }}
                  (Reach.next {t = finished}
                    (Reach.next {t = taken}
                      (Reach.next Reach.here
                        (Step.work _ 0 _ _ (omega arith) (Move.take _ _ request [] refl refl)))
                      (Step.work _ 0 _ _ (omega arith) (Move.finish _ _ request clock refl refl)))
                    (Step.begin _ refl))
                  (Step.see_empty _ refl refl))
                (Step.mark_done _ refl))
              (Step.work _ 0 _ _ (omega arith) (Move.time_out _ _ refl refl refl)))
            (Step.work _ 0 _ _ (omega arith) (Move.flush _ _ clock clock refl refl)))
          (Step.work _ 0 _ _ (omega arith) (Move.report _ _ refl)))
        (Step.load_done _ refl))
      (Step.return _ 1 refl refl)

ended-Reach : Reach crates memory true 1 (initial memory no_rows client) ended
ended-Reach = Reach-trans crates memory true 1 sent-Reach flushed-Reach

notified-IsSettled_example : ((i : ℕ) → i < 1 → IsSettled (ended.workers i)) × AllQuiet []
notified-IsSettled_example =
    notified-IsSettled crates memory true 1 no_rows client ended refl ended-Reach refl
