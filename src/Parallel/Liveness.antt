-- ===== src/Parallel/Liveness.antt =====
-- `notify_end_of_startup` can return from every state in which it waits.
use solana_indexer_plugin.Base.{
  ℕ, zero, suc, ◌<◌, ◌≤◌, Bool, [], ◌≡◌, refl, ◌∙◌, arith, sum_below_eq,
}
use native.Mathlib.Decide.{ℕ_discrete}
use solana_indexer_plugin.Crates.{Crates}
use solana_indexer_plugin.Database.{Database}
use solana_indexer_plugin.Client.{SimplePostgresClient}
use solana_indexer_plugin.Worker.{WorkRequest, ParallelClientWorker}
use solana_indexer_plugin.Parallel.{
  System, Step, Reach, initial, MainPhase, serving, draining, drained, waiting, loaded, notified,
  joining,
}
use solana_indexer_plugin.Parallel.Invariant.{started, done_weight, initialized_weight}
use solana_indexer_plugin.Parallel.Startup.{Inv-initial, Reach-Inv, Step-Inv}
use solana_indexer_plugin.Parallel.Progress.{IsGood, AllServed, IsResponsive, IsReady, Reach-trans}
use solana_indexer_plugin.Parallel.Turns.{drains, settles, IsEven}

-- The validator is in `notify_end_of_startup`.
abbrev pub IsWaiting : MainPhase → Type 0
IsWaiting draining = Unit
IsWaiting drained = Unit
IsWaiting waiting = Unit
IsWaiting (loaded d) = Unit
IsWaiting _ = ⊥

module _ (X : Crates) (D : Database) (strict : Bool) (n : ℕ) (IsFit : ParallelClientWorker → Type 0)
    (IsServed : WorkRequest → Type 0) (responsive : IsResponsive X D strict n IsFit IsServed) where
  abbrev Ready : System D → Type 0
  Ready = IsReady X D strict n IsFit IsServed

  -- A step of the validator's thread.
  IsReady-main :
      (s : System D) (t : System D)
      → Step X D strict n s t
      → t.workers ≡ s.workers
      → t.shared.queue ≡ s.shared.queue
      → Ready s
      → Ready t
  IsReady-main s t st workers queue ready = record {
    inv = Step-Inv X D strict n st ready.inv;
    good = λ i below. rw workers (ready.good i below);
    queued = rw queue ready.queued;
  }

  -- All of the first `k` workers settle.
  settles_below :
      (k : ℕ) (s : System D)
      → k ≤ n
      → s.main ≡ waiting
      → Ready s
      → (t : System D) × Reach X D strict n s t
        × Ready t
        × (t.main ≡ waiting)
        × ((i : ℕ) → i < k → IsEven X D strict n IsFit IsServed responsive (t.workers i))
  settles_below zero s h e ready = (s, Reach.here, ready, e, λ i below. absurd (omega arith))
  settles_below (suc k) s h e ready =
      let (t, reach, ready', main, even) = settles_below k s (omega arith) e ready in
      let (u, later, last) =
        settles X D strict n IsFit IsServed responsive t k (omega arith)
          (ready'.inv.marked (rw main refl)) ready' in
      (
        u,
        Reach-trans X D strict n reach later.reach,
        later.ready,
        later.main ∙ main,
        λ i below. elim (ℕ_discrete i k) [
          | yes at_k ↦ rw at_k last
          | no other ↦ rw (later.others i other) (even i (omega arith))
        ],
      )

  returns_waiting :
      (s : System D)
      → s.main ≡ waiting
      → Ready s
      → (t : System D) × Reach X D strict n s t × (t.main ≡ notified)
  returns_waiting s e ready =
      let (t, reach, ready', main, even) = settles_below n s (omega arith) e ready in
      let equal : t.shared.startup_done_count ≡ t.shared.initialized_worker_count = omega (
        arith,
        ready'.inv.done,
        ready'.inv.initialized,
        sum_below_eq done_weight initialized_weight n t.workers even,
      ) in
      (
        _,
        Reach.next (Reach.next reach (Step.load_done t main)) (
            Step.return (record t { main = loaded t.shared.startup_done_count })
              t.shared.startup_done_count refl equal),
        refl,
      )

  returns_drained :
      (s : System D)
      → s.main ≡ drained
      → Ready s
      → (t : System D) × Reach X D strict n s t × (t.main ≡ notified)
  returns_drained s e ready =
      let st = Step.mark_done s e in
      let (t, reach, main) = returns_waiting _ refl (IsReady-main s _ st refl refl ready) in
      (t, Reach-trans X D strict n (Reach.next Reach.here st) reach, main)

  returns_draining :
      (s : System D) (i : ℕ)
      → i < n
      → started (s.workers i).phase ≡ 1
      → s.main ≡ draining
      → Ready s
      → (t : System D) × Reach X D strict n s t × (t.main ≡ notified)
  returns_draining s i below h e ready =
      let (t, reach, ready', main, empty) =
        drains X D strict n IsFit IsServed responsive s.shared.queue s i below refl ready h in
      let st = Step.see_empty t (main ∙ e) empty in
      let (u, reach', main') = returns_drained _ refl (IsReady-main t _ st refl refl ready') in
      (u, Reach-trans X D strict n (Reach.next reach st) reach', main')

  returns_at :
      (m : MainPhase) (s : System D)
      → s.main ≡ m
      → IsWaiting m
      → (m ≡ draining → (i : ℕ) × (i < n) × (started (s.workers i).phase ≡ 1))
      → Ready s
      → (t : System D) × Reach X D strict n s t × (t.main ≡ notified)
  returns_at draining s e h some_worker ready =
      let (i, below, begun) = some_worker refl in returns_draining s i below begun e ready
  returns_at drained s e h some_worker ready = returns_drained s e ready
  returns_at waiting s e h some_worker ready = returns_waiting s e ready
  returns_at (loaded d) s e h some_worker ready =
      elim (ℕ_discrete d s.shared.initialized_worker_count) [
        | yes equal ↦ (_, Reach.next Reach.here (Step.return s d e equal), refl)
        | no unequal ↦
            let st = Step.again s d e unequal in
            let (t, reach, main) = returns_waiting _ refl (IsReady-main s _ st refl refl ready) in
            (t, Reach-trans X D strict n (Reach.next Reach.here st) reach, main)
      ]
  returns_at serving s e h some_worker ready = absurd h
  returns_at notified s e h some_worker ready = absurd h
  returns_at joining s e h some_worker ready = absurd h

  -- While the validator waits in `notify_end_of_startup`, the call can still return, from every
  -- state that is reached: if no worker's thread has ended, the workers answer what is queued and
  -- what they have in hand and flush their startup without a panic or an abort, and, as long as
  -- the queue may not be empty, some worker is initialized, then some sequence of steps leads to
  -- the return. The workers' clients start with no pending update.
  pub end_of_startup_can_return :
      (db : D.State) (client : SimplePostgresClient) (s : System D)
      → client.pending_account_updates ≡ []
      → Reach X D strict n (initial D db client) s
      → IsWaiting s.main
      → ((i : ℕ) → i < n → IsGood X D strict n IsFit IsServed (s.workers i))
      → AllServed X D strict n IsFit IsServed s.shared.queue
      → (s.main ≡ draining → (i : ℕ) × (i < n) × (started (s.workers i).phase ≡ 1))
      → (t : System D) × Reach X D strict n s t × (t.main ≡ notified)
  end_of_startup_can_return db client s e reach waits good queued some_worker =
      returns_at s.main s refl waits some_worker (record {
        inv = Reach-Inv X D strict n (Inv-initial X D strict n db client e) reach;
        good = good;
        queued = queued;
      })
