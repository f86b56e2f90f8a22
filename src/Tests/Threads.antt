-- ===== src/Tests/Threads.antt =====
-- Runs of the threads: a worker that is lost, a wait that can end, and the loop of one worker.
use solana_indexer_plugin.Base.{
  ℕ, zero, suc, ◌+◌, ◌<◌, true, false, String, none, some, List, [], ◌∷◌, ◌++◌, ◌≡◌, ◌≢◌, refl, ap,
  ◌∙◌, arith, update, lookup,
}
use solana_indexer_plugin.Errors.{ok, err, panic}
use solana_indexer_plugin.Account.{DbAccountInfo}
use solana_indexer_plugin.Client
use solana_indexer_plugin.Client.{
  SimplePostgresClient, update_at_startup, insert_slot, flush, execute_query, batch_query,
  account_query, handlers_query, handler_query, then_slots, flush_slots, later, Reply,
}
use solana_indexer_plugin.Handlers.{
  AccountHandlerId, AccountHandler, select_account_handlers, replaced_by, not_skipped, from_str,
}
use solana_indexer_plugin.Sql.Tables.{Tables, no_rows}
use solana_indexer_plugin.Worker
use solana_indexer_plugin.Worker.{
  WorkRequest, is_startup_request, ParallelClientWorker, continue, handle_request,
  handle_end_of_startup, after_call, flow, perform, do_work, Received, received, timed_out, exiting,
}
use solana_indexer_plugin.Parallel.{
  System, Shared, Reach, Step, Move, initial, receiving, busy, dead, draining, notified,
}
use solana_indexer_plugin.Client.Pending.{client-flush, client-notify_end_of_startup, with_account}
use solana_indexer_plugin.Parallel.Lost.{lost_worker_hangs}
use solana_indexer_plugin.Parallel.Progress.{IsResponsive, IsGood}
use solana_indexer_plugin.Parallel.Liveness.{end_of_startup_can_return}
use solana_indexer_plugin.Parallel.Run.{RunsTo}
use solana_indexer_plugin.Parallel.Loop.{do_work-RunsTo}
use solana_indexer_plugin.Tests.Data.{crates, memory, client, account}

abbrev clock : ℕ → String
clock n = "now"

abbrev request : WorkRequest
request = solana_indexer_plugin.Worker.update_account account true

-- A configuration that names a handler which there is not.
abbrev bad_client : SimplePostgresClient
bad_client = record client {
  batch_size = 1;
  account_selector = some (record {
    accounts = none;
    owners = some (("aab", record { handler_id = "nope"; skip_on_startup = none } ∷ []) ∷ []);
  });
}

-- One worker of this client starts, and an account of the startup is queued.
abbrev started : SimplePostgresClient → System memory
started c =
    let s = initial memory no_rows c in
    record s {
      shared = record s.shared { initialized_worker_count = 0 + 1 };
      workers =
          update s.workers 0
            (record { phase = receiving; worker = record { client = c; is_startup_done = false } });
    }

abbrev sent : SimplePostgresClient → System memory
sent c = record (started c) { shared = record (started c).shared { queue = [] ++ (request ∷ []) } }

sent-Reach :
    (c : SimplePostgresClient)
    → c.pending_account_updates ≡ []
    → Reach crates memory true 1 (initial memory no_rows c) (sent c)
sent-Reach c h =
    Reach.next {t = started c}
      (Reach.next Reach.here
        (Step.work _ 0 _ _ (omega arith) (Move.start _ _ c refl h (refl, refl))))
      (Step.send _ request refl (λ done. cc) (omega arith))

-- The worker takes the request.
abbrev taken : System memory
taken = record (sent bad_client) {
  shared = record (sent bad_client).shared { queue = [] };
  workers =
      update (sent bad_client).workers 0
        (record ((sent bad_client).workers 0) { phase = busy request });
}

-- Its thread has panicked.
abbrev lost : System memory
lost = record taken {
  shared = record taken.shared { db = no_rows };
  workers = update taken.workers 0 (record (taken.workers 0) { phase = dead });
}

lost-Reach : Reach crates memory true 1 (initial memory no_rows bad_client) lost
unfolding handle_request after_call flow perform solana_indexer_plugin.Client.update_account
    update_at_startup flush batch_query account_query handlers_query handler_query
    select_account_handlers replaced_by not_skipped from_str lookup
lost-Reach =
    Reach.next {t = taken}
      (Reach.next (sent-Reach bad_client refl)
        (Step.work _ 0 _ _ (omega arith) (Move.take _ _ request [] refl refl)))
      (Step.work _ 0 _ _ (omega arith) (Move.panicked _ _ request clock refl refl))

lost_worker_hangs_example : draining ≢ notified
lost_worker_hangs_example =
    lost_worker_hangs crates memory true 1 0 (omega arith) no_rows bad_client lost
      (record lost { main = draining }) refl lost-Reach (record { phase = refl; unaware = refl })
      (λ e. cc) (Reach.next Reach.here (Step.begin lost refl))

-- A worker whose client selects no account.
abbrev idle_client : SimplePostgresClient
idle_client = record client { account_selector = none }

abbrev IsIdle : ParallelClientWorker → Type 0
IsIdle w = w.client.account_selector ≡ none

abbrev IsStartup : WorkRequest → Type 0
IsStartup r = is_startup_request r ≡ true

batch_query-none :
    (handlers : List (AccountHandlerId × AccountHandler)) (now : ℕ → String)
    (pending : List DbAccountInfo)
    → batch_query crates handlers none now pending ≡ some []
unfolding batch_query account_query handlers_query select_account_handlers not_skipped
batch_query-none handlers now [] = refl
batch_query-none handlers now (a ∷ pending) =
    rw (batch_query-none handlers (later 0 now) pending) refl

flush-idle :
    (prefix : String) (now : ℕ → String) (c : SimplePostgresClient) (db : Tables)
    → c.account_selector ≡ none
    → (flush crates memory prefix now c db).0 ≡ ok tt
unfolding flush execute_query
flush-idle prefix now c db h =
    let e : batch_query crates c.account_handlers c.account_selector now c.pending_account_updates
        ≡ some [] =
      rw h (batch_query-none c.account_handlers now c.pending_account_updates) in
    rw (flush, e) refl

flush_slots-memory :
    (now : ℕ → String) (slots : List ℕ) (c : SimplePostgresClient) (db : Tables)
    → (flush_slots crates memory now slots c db).0 ≡ ok tt
unfolding flush_slots
flush_slots-memory now [] c db = refl
flush_slots-memory now (s ∷ slots) c db = flush_slots-memory (later 1 now) slots c _

update-idle :
    (now : ℕ → String) (a : DbAccountInfo) (c : SimplePostgresClient) (db : Tables)
    → c.account_selector ≡ none
    → ((update_at_startup crates memory now a c db).0 ≡ ok tt)
      × ((update_at_startup crates memory now a c db).1.account_selector ≡ none)
unfolding update_at_startup
update-idle now a c db h =
    let prefix : String = "[update_account_batch] error=[" in
    ground (
      arith,
      flush-idle prefix now (with_account a c) db h,
      client-flush crates memory prefix now (with_account a c) db,
    )

answers-IsIdle :
    (r : WorkRequest) (w : ParallelClientWorker) (db : Tables)
    → IsStartup r
    → IsIdle w
    → ((handle_request crates memory true clock r w db).0 ≡ continue)
      × IsIdle (handle_request crates memory true clock r w db).1
unfolding handle_request perform solana_indexer_plugin.Client.update_account
answers-IsIdle (WorkRequest.update_account a true) w db s h =
    let (e, f) = update-idle clock a w.client db h in (ap (flow true) e, f)
answers-IsIdle (WorkRequest.update_account a false) w db s h = cc
answers-IsIdle (WorkRequest.update_slot a b d) w db s h = cc
answers-IsIdle (WorkRequest.log_transaction a) w db s h = cc
answers-IsIdle (WorkRequest.update_block_metadata a) w db s h = cc

then_slots-memory :
    (now : ℕ → String) (r : Reply crates memory)
    → r.0 ≡ ok tt
    → (then_slots crates memory now r).0 ≡ ok tt
unfolding then_slots
then_slots-memory now (ok _, c, db) h = flush_slots-memory now c.slots_at_startup c db
then_slots-memory now (err e, c, db) h = cc
then_slots-memory now (panic, c, db) h = cc

ends-IsIdle :
    (w : ParallelClientWorker) (db : Tables)
    → IsIdle w
    → ((handle_end_of_startup crates memory true clock clock w db).0 ≡ continue)
      × IsIdle (handle_end_of_startup crates memory true clock clock w db).1
unfolding handle_end_of_startup solana_indexer_plugin.Client.notify_end_of_startup then_slots
ends-IsIdle w db h = (
  ap (flow true) (
      then_slots-memory clock
        (flush crates memory "[notify_end_of_startup][flush_accounst_error] error=[" clock w.client
          db)
        (flush-idle _ clock w.client db h)),
  ap (λ (c : SimplePostgresClient). c.account_selector)
        (client-notify_end_of_startup crates memory clock clock w.client db)
      ∙ h,
)

IsIdle-IsResponsive : IsResponsive crates memory true 1 IsIdle IsStartup
IsIdle-IsResponsive = record {
  answers = λ r w db s h. let (e, f) = answers-IsIdle r w db s h in (clock, e, f);
  ends = λ w db h. let (e, f) = ends-IsIdle w db h in (clock, clock, e, f);
}

abbrev waiting_for_end : System memory
waiting_for_end = record (sent idle_client) { main = draining }

end_of_startup_can_return_example :
    (t : System memory) × Reach crates memory true 1 waiting_for_end t × (t.main ≡ notified)
end_of_startup_can_return_example =
    end_of_startup_can_return crates memory true 1 IsIdle IsStartup IsIdle-IsResponsive no_rows
      idle_client waiting_for_end refl
      (Reach.next (sent-Reach idle_client refl) (Step.begin _ refl)) tt first_worker (refl, tt)
      (λ e. (0, omega arith, refl))
  where
    first_worker :
        (i : ℕ) → i < 1 → IsGood crates memory true 1 IsIdle IsStartup (waiting_for_end.workers i)
    first_worker zero h = record { running = tt; fit = refl; served = λ r e. cc }
    first_worker (suc i) h = absurd (omega arith)

-- The worker's own run: it takes the request, times out, and stops.
abbrev queued : Shared memory
queued = record {
  queue = request ∷ [];
  exit_worker = true;
  is_startup_done = true;
  startup_done_count = 0;
  initialized_worker_count = 1;
  db = no_rows;
}

abbrev rounds : List Received
rounds = received request clock ∷ timed_out true clock clock ∷ exiting ∷ []

abbrev idle_worker : ParallelClientWorker
idle_worker = record { client = idle_client; is_startup_done = false }

do_work-RunsTo_example :
    RunsTo crates memory true rounds queued idle_worker
      (do_work crates memory true rounds idle_worker no_rows 0)
do_work-RunsTo_example =
    do_work-RunsTo crates memory true rounds idle_worker queued ([], refl, (refl, refl))
