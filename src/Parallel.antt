-- ===== src/Parallel.antt =====
-- parallel_client.rs: the queue, the shared flags and counters, the workers and the thread of the
-- validator's calls, as interleaved steps. Each atomic access is a step of its own, and the steps of
-- all threads form one sequence.
pub mod Invariant
pub mod Startup
pub mod Lost
pub mod Progress
pub mod Turns
pub mod Liveness
pub mod Run
pub mod Loop
pub mod Kinds
pub mod Settings
pub mod Kept
pub mod Held
pub mod Delivery
pub mod UpToDate
pub mod Answered
use solana_indexer_plugin.Base.{
  ℕ, zero, suc, ◌+◌, ◌<◌, ◌≤◌, Bool, true, false, String, Option, none, some, List, [], ◌∷◌, ◌++◌,
  length, ◌≡◌, ◌≢◌, update,
}
use solana_indexer_plugin.Crates.{Crates}
use solana_indexer_plugin.Database.{Database}
use solana_indexer_plugin.Client.{SimplePostgresClient}
use solana_indexer_plugin.Worker.{
  WorkRequest, is_startup_request, ParallelClientWorker, Flow, continue, abort, unwind,
  handle_request, handle_end_of_startup,
}

abbrev pub max_async_requests : ℕ
max_async_requests = 40960

-- Where a worker's thread is: before its connection, without one, at the top of its loop, with a
-- request in hand, in the flush at the end of startup, before the count of it, or ended.
pub data Phase : Type 0 where
  starting failed receiving : Phase
  busy : WorkRequest → Phase
  notifying reporting stopped dead : Phase

pub record WorkerState : Type 0 where
  pub phase : Phase
  pub worker : ParallelClientWorker

-- Where the validator's thread is: outside `notify_end_of_startup`, in its first loop, past it, past
-- the store of the flag, between the two loads of the second loop's test, after its return, or in
-- `join`.
pub data MainPhase : Type 0 where
  serving draining drained waiting : MainPhase
  loaded : ℕ → MainPhase
  notified joining : MainPhase

pub record Shared (D : Database) : Type 0 where
  pub queue : List WorkRequest
  pub exit_worker : Bool
  pub is_startup_done : Bool
  pub startup_done_count : ℕ
  pub initialized_worker_count : ℕ
  pub db : D.State

pub record System (D : Database) : Type 0 where
  pub main : MainPhase
  pub shared : Shared D
  pub workers : ℕ → WorkerState

-- The validator may call the plugin.
abbrev pub accepts_calls : MainPhase → Bool
accepts_calls serving = true
accepts_calls notified = true
accepts_calls _ = false

-- Two clients have the same handlers and the same selector.
abbrev pub AreAlike : SimplePostgresClient → SimplePostgresClient → Type 0
AreAlike a b = (a.account_handlers ≡ b.account_handlers) × (a.account_selector ≡ b.account_selector)

module _ (X : Crates) (D : Database) (strict : Bool) where
  -- One step of one worker, with the shared state; `strict` is `panic_on_db_errors`. An abort ends
  -- the process, so no step follows it.
  pub data Move : Shared D → WorkerState → Shared D → WorkerState → Type 0 where
    start :
        (s : Shared D) (w : WorkerState) (client : SimplePostgresClient)
        → w.phase ≡ starting
        → client.pending_account_updates ≡ []
        → AreAlike client w.worker.client
        → Move s w
            (record s { initialized_worker_count = s.initialized_worker_count + 1 })
            (record {
              phase = receiving;
              worker = record { client = client; is_startup_done = false };
            })
    start_failed :
        (s : Shared D) (w : WorkerState)
        → strict ≡ false
        → w.phase ≡ starting
        → Move s w s (record w { phase = failed })
    take :
        (s : Shared D) (w : WorkerState) (r : WorkRequest) (rest : List WorkRequest)
        → w.phase ≡ receiving
        → s.queue ≡ r ∷ rest
        → Move s w (record s { queue = rest }) (record w { phase = busy r })
    finish :
        (s : Shared D) (w : WorkerState) (r : WorkRequest) (now : ℕ → String)
        → w.phase ≡ busy r
        → (handle_request X D strict now r w.worker s.db).0 ≡ continue
        → Move s w
            (record s { db = (handle_request X D strict now r w.worker s.db).2 })
            (record {
              phase = receiving;
              worker = (handle_request X D strict now r w.worker s.db).1;
            })
    panicked :
        (s : Shared D) (w : WorkerState) (r : WorkRequest) (now : ℕ → String)
        → w.phase ≡ busy r
        → (handle_request X D strict now r w.worker s.db).0 ≡ unwind
        → Move s w
            (record s { db = (handle_request X D strict now r w.worker s.db).2 })
            (record w { phase = dead })
    time_out :
        (s : Shared D) (w : WorkerState)
        → w.phase ≡ receiving
        → w.worker.is_startup_done ≡ false
        → s.is_startup_done ≡ true
        → Move s w s (record w { phase = notifying })
    flush :
        (s : Shared D) (w : WorkerState) (now slot_now : ℕ → String)
        → w.phase ≡ notifying
        → (handle_end_of_startup X D strict now slot_now w.worker s.db).0 ≡ continue
        → Move s w
            (record s { db = (handle_end_of_startup X D strict now slot_now w.worker s.db).2 })
            (record {
              phase = reporting;
              worker = (handle_end_of_startup X D strict now slot_now w.worker s.db).1;
            })
    flush_panicked :
        (s : Shared D) (w : WorkerState) (now slot_now : ℕ → String)
        → w.phase ≡ notifying
        → (handle_end_of_startup X D strict now slot_now w.worker s.db).0 ≡ unwind
        → Move s w
            (record s { db = (handle_end_of_startup X D strict now slot_now w.worker s.db).2 })
            (record w { phase = dead })
    report :
        (s : Shared D) (w : WorkerState)
        → w.phase ≡ reporting
        → Move s w
            (record s { startup_done_count = s.startup_done_count + 1 })
            (record w { phase = receiving })
    stop :
        (s : Shared D) (w : WorkerState)
        → w.phase ≡ receiving
        → s.exit_worker ≡ true
        → Move s w s (record w { phase = stopped })

  -- One step of the system with `n` workers.
  pub data Step (n : ℕ) : System D → System D → Type 0 where
    -- A call of the plugin enqueues a request. The validator notifies the end of startup after the
    -- last account of the startup.
    send :
        (s : System D) (r : WorkRequest)
        → accepts_calls s.main ≡ true
        → (s.shared.is_startup_done ≡ true → is_startup_request r ≡ false)
        → length s.shared.queue < max_async_requests
        → Step n s (record s { shared = record s.shared { queue = s.shared.queue ++ (r ∷ []) } })
    begin : (s : System D) → s.main ≡ serving → Step n s (record s { main = draining })
    see_empty :
        (s : System D)
        → s.main ≡ draining
        → s.shared.queue ≡ []
        → Step n s (record s { main = drained })
    mark_done :
        (s : System D)
        → s.main ≡ drained
        → Step n s
            (record s { main = waiting; shared = record s.shared { is_startup_done = true } })
    load_done :
        (s : System D)
        → s.main ≡ waiting
        → Step n s (record s { main = loaded s.shared.startup_done_count })
    again :
        (s : System D) (d : ℕ)
        → s.main ≡ loaded d
        → d ≢ s.shared.initialized_worker_count
        → Step n s (record s { main = waiting })
    return :
        (s : System D) (d : ℕ)
        → s.main ≡ loaded d
        → d ≡ s.shared.initialized_worker_count
        → Step n s (record s { main = notified })
    join :
        (s : System D)
        → accepts_calls s.main ≡ true
        → Step n s (record s { main = joining; shared = record s.shared { exit_worker = true } })
    work :
        (s : System D) (i : ℕ) (t : Shared D) (w : WorkerState)
        → i < n
        → Move s.shared (s.workers i) t w
        → Step n s (record s { shared = t; workers = update s.workers i w })

  pub data Reach (n : ℕ) (s : System D) : System D → Type 0 where
    here : Reach n s s
    next : {t u : System D} → Reach n s t → Step n t u → Reach n s u

-- `ParallelClient::new`: an empty queue, no flag set, and workers that are starting. The client of a
-- worker that is starting has the settings that the worker's own client gets.
abbrev pub initial : (D : Database) → D.State → SimplePostgresClient → System D
initial D db client = record {
  main = serving;
  shared = record {
    queue = [];
    exit_worker = false;
    is_startup_done = false;
    startup_done_count = 0;
    initialized_worker_count = 0;
    db = db;
  };
  workers = λ _. record {
    phase = starting;
    worker = record { client = client; is_startup_done = false };
  };
}
