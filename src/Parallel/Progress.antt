-- ===== src/Parallel/Progress.antt =====
-- One worker among the others: what it can do next while the system waits for the end of startup.
use solana_indexer_plugin.Base.{
  ℕ, ◌<◌, Bool, String, List, [], ◌∷◌, ◌≡◌, ◌≢◌, refl, ◌∙◌, arith, update, ==_iff, Bool-cases, inl,
  inr, ◌==◌,
}
use solana_indexer_plugin.Crates.{Crates}
use solana_indexer_plugin.Database.{Database}
use solana_indexer_plugin.Worker.{
  WorkRequest, ParallelClientWorker, continue, handle_request, handle_end_of_startup,
}
use solana_indexer_plugin.Parallel.{
  Phase, busy, stopped, dead, WorkerState, Shared, System, Move, Step, Reach,
}
use solana_indexer_plugin.Parallel.Startup.{Inv, Step-Inv}

pub update_self : {A : Type 0} (f : ℕ → A) (i : ℕ) (a : A) → update f i a i ≡ a
update_self f i a = ground (arith, ==_iff i i)

pub update_ne : {A : Type 0} (f : ℕ → A) (i : ℕ) (a : A) (j : ℕ) → j ≢ i → update f i a j ≡ f j
update_ne f i a j h = ground (arith, ==_iff i j)

-- The thread has neither ended nor panicked.
abbrev pub IsRunning : Phase → Type 0
IsRunning stopped = ⊥
IsRunning dead = ⊥
IsRunning _ = Unit

module _ (X : Crates) (D : Database) (strict : Bool) (n : ℕ) where
  -- Workers that are fit answer the requests that are served, and their end of startup, without a
  -- panic or an abort, and stay fit.
  pub record IsResponsive (IsFit : ParallelClientWorker → Type 0) (IsServed : WorkRequest → Type 0)
      : Type 0 where
    pub answers :
        (r : WorkRequest) (w : ParallelClientWorker) (db : D.State)
        → IsServed r
        → IsFit w
        → (now : ℕ → String) × ((handle_request X D strict now r w db).0 ≡ continue)
          × IsFit (handle_request X D strict now r w db).1
    pub ends :
        (w : ParallelClientWorker) (db : D.State)
        → IsFit w
        → (now : ℕ → String) × (slot_now : ℕ → String) × ((handle_end_of_startup X D strict now
              slot_now w db).0
            ≡ continue)
          × IsFit (handle_end_of_startup X D strict now slot_now w db).1

  pub Reach-trans :
      {s t u : System D} → Reach X D strict n s t → Reach X D strict n t u → Reach X D strict n s u
  Reach-trans r Reach.here = r
  Reach-trans r (Reach.next q st) = Reach.next (Reach-trans r q) st

  module _ (IsFit : ParallelClientWorker → Type 0) (IsServed : WorkRequest → Type 0) where
    -- Nothing can go wrong with the worker.
    pub record IsGood (w : WorkerState) : Type 0 where
      pub running : IsRunning w.phase
      pub fit : IsFit w.worker
      pub served : (r : WorkRequest) → w.phase ≡ busy r → IsServed r

    abbrev pub AllServed : List WorkRequest → Type 0
    AllServed [] = Unit
    AllServed (r ∷ rs) = IsServed r × AllServed rs

    pub record IsReady (s : System D) : Type 0 where
      pub inv : Inv n s
      pub good : (i : ℕ) → i < n → IsGood (s.workers i)
      pub queued : AllServed s.shared.queue

    -- A later state, where only worker `i` has moved and the queue is as it was.
    pub record IsLater (s : System D) (i : ℕ) (t : System D) : Type 0 where
      pub reach : Reach X D strict n s t
      pub ready : IsReady t
      pub main : t.main ≡ s.main
      pub queue : t.shared.queue ≡ s.shared.queue
      pub flag : t.shared.is_startup_done ≡ s.shared.is_startup_done
      pub others : (j : ℕ) → j ≢ i → t.workers j ≡ s.workers j

    -- The system after a move of worker `i`.
    abbrev pub moved : System D → ℕ → Shared D → WorkerState → System D
    moved s i t w = record s { shared = t; workers = update s.workers i w }

    pub IsReady-moved :
        (s : System D) (i : ℕ) (t : Shared D) (w : WorkerState)
        → i < n
        → IsReady s
        → Move X D strict s.shared (s.workers i) t w
        → IsGood w
        → AllServed t.queue
        → IsReady (moved s i t w)
    IsReady-moved s i t w below ready m good queued = record {
      inv = Step-Inv X D strict n (Step.work s i t w below m) ready.inv;
      good =
          λ j h. elim (Bool-cases (i == j)) [ inl e ↦ rw e good | inr e ↦ rw e (ready.good j h) ];
      queued = queued;
    }

    pub IsLater-moved :
        (s : System D) (i : ℕ) (t : Shared D) (w : WorkerState)
        → i < n
        → IsReady s
        → Move X D strict s.shared (s.workers i) t w
        → IsGood w
        → t.queue ≡ s.shared.queue
        → t.is_startup_done ≡ s.shared.is_startup_done
        → IsLater s i (moved s i t w)
    IsLater-moved s i t w below ready m good queue flag = record {
      reach = Reach.next Reach.here (Step.work s i t w below m);
      ready = IsReady-moved s i t w below ready m good (rw queue ready.queued);
      main = refl;
      queue = queue;
      flag = flag;
      others = λ j h. update_ne s.workers i w j h;
    }

    pub IsLater-trans :
        (s : System D) (i : ℕ) (t u : System D) → IsLater s i t → IsLater t i u → IsLater s i u
    IsLater-trans s i t u a b = record {
      reach = Reach-trans a.reach b.reach;
      ready = b.ready;
      main = b.main ∙ a.main;
      queue = b.queue ∙ a.queue;
      flag = b.flag ∙ a.flag;
      others = λ j h. b.others j h ∙ a.others j h;
    }

    pub IsLater-here : (s : System D) (i : ℕ) → IsReady s → IsLater s i s
    IsLater-here s i ready = record {
      reach = Reach.here;
      ready = ready;
      main = refl;
      queue = refl;
      flag = refl;
      others = λ j h. refl;
    }
