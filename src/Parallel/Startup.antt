-- ===== src/Parallel/Startup.antt =====
-- What `notify_end_of_startup` guarantees when it returns.
use solana_indexer_plugin.Base.{
  ℕ, ◌<◌, ◌≤◌, Bool, true, false, List, [], ◌∷◌, ◌++◌, ◌≡◌, refl, sym, arith, update, sum_below,
  sum_below-update, sum_below_const, sum_below_tight,
}
use solana_indexer_plugin.Crates.{Crates}
use solana_indexer_plugin.Database.{Database}
use solana_indexer_plugin.Client.{SimplePostgresClient}
use solana_indexer_plugin.Worker.{WorkRequest, is_startup_request}
use solana_indexer_plugin.Parallel.{
  WorkerState, Shared, System, MainPhase, draining, drained, waiting, loaded, notified, Step, send,
  begin, see_empty, mark_done, load_done, again, return, join, work, Reach, here, next, initial,
}
use solana_indexer_plugin.Parallel.Invariant.{
  initialized_weight, done_weight, AllQuiet, IsSettled, WorkerInv, Kept, Move-Kept,
}

-- The validator's thread has stored the flag.
abbrev pub has_marked : MainPhase → Bool
has_marked waiting = true
has_marked (loaded d) = true
has_marked notified = true
has_marked _ = false

pub record Inv {D : Database} (n : ℕ) (s : System D) : Type 0 where
  pub workers : (i : ℕ) → WorkerInv s.shared.is_startup_done (s.workers i)
  pub initialized : s.shared.initialized_worker_count ≡ sum_below initialized_weight n s.workers
  pub done : s.shared.startup_done_count ≡ sum_below done_weight n s.workers
  pub seen : (d : ℕ) → s.main ≡ loaded d → d ≤ s.shared.startup_done_count
  pub empty : s.main ≡ drained → s.shared.queue ≡ []
  pub quiet : s.shared.is_startup_done ≡ true → AllQuiet s.shared.queue
  pub marked : has_marked s.main ≡ true → s.shared.is_startup_done ≡ true
  pub settled : s.main ≡ notified → (i : ℕ) → i < n → IsSettled (s.workers i)

AllQuiet-append :
    (rs : List WorkRequest) (r : WorkRequest)
    → AllQuiet rs
    → is_startup_request r ≡ false
    → AllQuiet (rs ++ (r ∷ []))
AllQuiet-append [] r h q = (q, tt)
AllQuiet-append (x ∷ rs) r h q = (h.0, AllQuiet-append rs r h.1 q)

pub done_weight-le : (w : WorkerState) → done_weight w ≤ initialized_weight w
done_weight-le w = ground arith

-- A worker that was counted, or never initialized, is settled.
IsSettled-worker :
    (done : Bool) (w : WorkerState)
    → WorkerInv done w
    → done_weight w ≡ initialized_weight w
    → IsSettled w
IsSettled-worker done w inv e = ground arith

module _ (X : Crates) (D : Database) (strict : Bool) (n : ℕ) where
  pub Inv-initial :
      (db : D.State) (client : SimplePostgresClient)
      → client.pending_account_updates ≡ []
      → Inv n (initial D db client)
  Inv-initial db client h = record {
    workers = λ i. ground arith;
    initialized = sym (sum_below_const initialized_weight n _ refl);
    done = sym (sum_below_const done_weight n _ refl);
    seen = λ d e. cc;
    empty = λ e. refl;
    quiet = λ e. tt;
    marked = λ e. cc;
    settled = λ e. cc;
  }

  Inv-work :
      (s : System D) (i : ℕ) (t : Shared D) (w : WorkerState)
      → i < n
      → Kept s.shared t (s.workers i) w
      → Inv n s
      → Inv n (record s { shared = t; workers = update s.workers i w })
  Inv-work s i t w h kept inv = record {
    workers = λ j. ground (arith, inv.workers j);
    initialized = omega (
      arith,
      sum_below-update initialized_weight n s.workers i w h,
      inv.initialized,
      kept.initialized,
    );
    done = omega (arith, sum_below-update done_weight n s.workers i w h, inv.done, kept.done);
    seen = λ d e. omega (arith, inv.seen d e, kept.grows);
    empty = λ e. kept.empty (inv.empty e);
    quiet = λ e. ground arith;
    marked = λ e. ground arith;
    settled = λ e j below. ground (arith, inv.settled e j below, inv.settled e i h);
  }

  -- A step of the validator's thread that changes its phase alone.
  Inv-main :
      (s : System D) (m : MainPhase)
      → Inv n s
      → ((d : ℕ) → m ≡ loaded d → d ≤ s.shared.startup_done_count)
      → (m ≡ drained → s.shared.queue ≡ [])
      → (has_marked m ≡ true → s.shared.is_startup_done ≡ true)
      → (m ≡ notified → (i : ℕ) → i < n → IsSettled (s.workers i))
      → Inv n (record s { main = m })
  Inv-main s m inv seen empty marked settled = record {
    workers = inv.workers;
    initialized = inv.initialized;
    done = inv.done;
    seen = seen;
    empty = empty;
    quiet = inv.quiet;
    marked = marked;
    settled = settled;
  }

  WorkerInv-flag : {done : Bool} (w : WorkerState) → WorkerInv done w → WorkerInv true w
  WorkerInv-flag w inv = record {
    early = inv.early;
    flagged = λ e. refl;
    flushed = inv.flushed;
    later = inv.later;
    reports = inv.reports;
    notifies = λ e. refl;
    fresh = inv.fresh;
  }

  -- Where the two counters agree, every worker that was initialized has been counted as done.
  all-IsSettled :
      (s : System D) (d : ℕ)
      → s.main ≡ loaded d
      → d ≡ s.shared.initialized_worker_count
      → Inv n s
      → (i : ℕ) → i < n
      → IsSettled (s.workers i)
  all-IsSettled s d p e inv i h =
      IsSettled-worker s.shared.is_startup_done (s.workers i) (inv.workers i) (
        sum_below_tight done_weight initialized_weight done_weight-le n s.workers i h
          (omega (arith, inv.seen d p, inv.initialized, inv.done)))

  pub Step-Inv : {s t : System D} → Step X D strict n s t → Inv n s → Inv n t
  Step-Inv (send s r can later room) inv = record {
    workers = inv.workers;
    initialized = inv.initialized;
    done = inv.done;
    seen = inv.seen;
    empty = λ e. ground arith;
    quiet = λ e. AllQuiet-append s.shared.queue r (inv.quiet e) (later e);
    marked = inv.marked;
    settled = inv.settled;
  }
  Step-Inv (begin s p) inv = Inv-main s draining inv (λ d e. cc) (λ e. cc) (λ e. cc) (λ e. cc)
  Step-Inv (see_empty s p e) inv = Inv-main s drained inv (λ d q. cc) (λ q. e) (λ q. cc) (λ q. cc)
  Step-Inv (mark_done s p) inv = record {
    workers = λ i. WorkerInv-flag (s.workers i) (inv.workers i);
    initialized = inv.initialized;
    done = inv.done;
    seen = λ d e. cc;
    empty = λ e. cc;
    quiet = λ e. rw (inv.empty p) tt;
    marked = λ e. refl;
    settled = λ e. cc;
  }
  Step-Inv (load_done s p) inv =
      Inv-main s (loaded s.shared.startup_done_count) inv (λ d e. ground arith) (λ e. cc)
        (λ e. inv.marked (rw p refl)) (λ e. cc)
  Step-Inv (again s d p e) inv =
      Inv-main s waiting inv (λ d q. cc) (λ q. cc) (λ q. inv.marked (rw p refl)) (λ q. cc)
  Step-Inv (return s d p e) inv =
      Inv-main s notified inv (λ d q. cc) (λ q. cc) (λ q. inv.marked (rw p refl))
        (λ q. all-IsSettled s d p e inv)
  Step-Inv (join s p) inv = record {
    workers = inv.workers;
    initialized = inv.initialized;
    done = inv.done;
    seen = λ d e. cc;
    empty = λ e. cc;
    quiet = inv.quiet;
    marked = λ e. cc;
    settled = λ e. cc;
  }
  Step-Inv (work s i t w h m) inv =
      Inv-work s i t w h (Move-Kept X D strict m (inv.workers i) inv.quiet) inv

  pub Reach-Inv : {s t : System D} → Inv n s → Reach X D strict n s t → Inv n t
  Reach-Inv inv here = inv
  Reach-Inv inv (next r st) = Step-Inv st (Reach-Inv inv r)

  -- From the moment `notify_end_of_startup` returns, no worker holds an account update of the
  -- startup: none is pending in its client, it has none in hand, and none is in the queue. This
  -- holds in every interleaving of any number of workers whose clients start with no pending
  -- update, whether or not calls of the database fail, as long as the validator sends no account
  -- of the startup after the flag is set.
  pub notified-IsSettled :
      (db : D.State) (client : SimplePostgresClient) (s : System D)
      → client.pending_account_updates ≡ []
      → Reach X D strict n (initial D db client) s
      → s.main ≡ notified
      → ((i : ℕ) → i < n → IsSettled (s.workers i)) × AllQuiet s.shared.queue
  notified-IsSettled db client s h r e =
      let inv = Reach-Inv (Inv-initial db client h) r in
      (inv.settled e, inv.quiet (inv.marked (rw e refl)))
