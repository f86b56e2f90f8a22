-- ===== src/Parallel/Turns.antt =====
-- The turns of one worker: it comes back to its loop, empties the queue, and flushes its startup.
use solana_indexer_plugin.Base.{
  ℕ, ◌<◌, Bool, true, List, [], ◌∷◌, ◌≡◌, ◌≢◌, refl, subst, ap, ◌∙◌, arith, Bool-cases, inl, inr,
}
use native.Mathlib.Decide.{ℕ_discrete}
use solana_indexer_plugin.Crates.{Crates}
use solana_indexer_plugin.Database.{Database}
use solana_indexer_plugin.Worker.{WorkRequest, ParallelClientWorker}
use solana_indexer_plugin.Worker.Effects.{pending-handle_end_of_startup}
use solana_indexer_plugin.Parallel.{
  Phase, starting, failed, receiving, busy, notifying, reporting, stopped, dead, WorkerState,
  Shared, System, Move, Step, Reach,
}
use solana_indexer_plugin.Parallel.Invariant.{started, done_weight, initialized_weight}
use solana_indexer_plugin.Parallel.Progress.{
  IsResponsive, IsGood, AllServed, IsReady, IsLater, moved, IsReady-moved, IsLater-moved,
  IsLater-trans, IsLater-here, Reach-trans, update_self,
}

module _ (X : Crates) (D : Database) (strict : Bool) (n : ℕ) (IsFit : ParallelClientWorker → Type 0)
    (IsServed : WorkRequest → Type 0) (responsive : IsResponsive X D strict n IsFit IsServed) where
  abbrev pub Ready : System D → Type 0
  Ready = IsReady X D strict n IsFit IsServed

  abbrev pub Later : System D → ℕ → System D → Type 0
  Later = IsLater X D strict n IsFit IsServed

  abbrev pub Good : WorkerState → Type 0
  Good = IsGood X D strict n IsFit IsServed

  -- One move of worker `i` that leaves the queue and the flag.
  advance :
      (s : System D) (i : ℕ) (t : Shared D) (w : WorkerState)
      → i < n
      → Ready s
      → Move X D strict s.shared (s.workers i) t w
      → Good w
      → t.queue ≡ s.shared.queue
      → t.is_startup_done ≡ s.shared.is_startup_done
      → (u : System D) × Later s i u × (u.workers i ≡ w)
  advance s i t w below ready m good queue flag = (
    moved X D strict n IsFit IsServed s i t w,
    IsLater-moved X D strict n IsFit IsServed s i t w below ready m good queue flag,
    update_self s.workers i w,
  )

  -- After its flush a worker counts itself, and receives again.
  reports_next :
      (s : System D) (i : ℕ)
      → i < n
      → Ready s
      → (s.workers i).phase ≡ reporting
      → (t : System D) × Later s i t
        × ((t.workers i).phase ≡ receiving)
        × ((t.workers i).worker ≡ (s.workers i).worker)
  reports_next s i below ready p =
      let (t, later, e) =
        advance s i _ _ below ready (Move.report s.shared (s.workers i) p)
          (record { running = tt; fit = (ready.good i below).fit; served = λ r e. cc }) refl refl in
      (t, later, ap (λ (w : WorkerState). w.phase) e, ap (λ (w : WorkerState). w.worker) e)

  flushes_next :
      (s : System D) (i : ℕ)
      → i < n
      → Ready s
      → (s.workers i).phase ≡ notifying
      → (t : System D) × Later s i t
        × ((t.workers i).phase ≡ receiving)
        × ((t.workers i).worker.is_startup_done ≡ true)
  flushes_next s i below ready p =
      let (now, slot_now, goes_on, fit) =
        responsive.ends (s.workers i).worker s.shared.db (ready.good i below).fit in
      let (t, later, e) =
        advance s i _ _ below ready (Move.flush s.shared (s.workers i) now slot_now p goes_on)
          (record { running = tt; fit = fit; served = λ r e. cc }) refl refl in
      let (u, later', phase, kept) =
        reports_next t i below later.ready (ap (λ (w : WorkerState). w.phase) e) in
      (
        u,
        IsLater-trans X D strict n IsFit IsServed s i t u later later',
        phase,
        ap (λ (w : ParallelClientWorker). w.is_startup_done) kept
            ∙ (ap (λ (w : WorkerState). w.worker.is_startup_done) e
                ∙ (pending-handle_end_of_startup X D strict now slot_now (s.workers i).worker
                    s.shared.db).1),
      )

  answers_next :
      (s : System D) (i : ℕ) (r : WorkRequest)
      → i < n
      → Ready s
      → (s.workers i).phase ≡ busy r
      → (t : System D) × Later s i t × ((t.workers i).phase ≡ receiving)
  answers_next s i r below ready p =
      let (now, goes_on, fit) =
        responsive.answers r (s.workers i).worker s.shared.db ((ready.good i below).served r p)
          (ready.good i below).fit in
      let (t, later, e) =
        advance s i _ _ below ready (Move.finish s.shared (s.workers i) r now p goes_on)
          (record { running = tt; fit = fit; served = λ r e. cc }) refl refl in
      (t, later, ap (λ (w : WorkerState). w.phase) e)

  -- A worker that was counted as initialized comes to the top of its loop.
  free_at :
      (s : System D) (i : ℕ) (p : Phase)
      → (s.workers i).phase ≡ p
      → i < n
      → Ready s
      → started p ≡ 1
      → (t : System D) × Later s i t × ((t.workers i).phase ≡ receiving)
  free_at s i starting e below ready h = absurd (omega (arith, h))
  free_at s i failed e below ready h = absurd (omega (arith, h))
  free_at s i receiving e below ready h = (s, IsLater-here X D strict n IsFit IsServed s i ready, e)
  free_at s i (busy r) e below ready h = answers_next s i r below ready e
  free_at s i notifying e below ready h =
      let (t, later, p, _) = flushes_next s i below ready e in (t, later, p)
  free_at s i reporting e below ready h =
      let (t, later, p, _) = reports_next s i below ready e in (t, later, p)
  free_at s i stopped e below ready h = absurd (rw e at ((ready.good i below).running))
  free_at s i dead e below ready h = absurd (rw e at ((ready.good i below).running))

  free :
      (s : System D) (i : ℕ)
      → i < n
      → Ready s
      → started (s.workers i).phase ≡ 1
      → (t : System D) × Later s i t × ((t.workers i).phase ≡ receiving)
  free s i below ready h = free_at s i (s.workers i).phase refl below ready h

  served_as : (r q : WorkRequest) → busy r ≡ busy q → IsServed r → IsServed q
  served_as r q e h = let e' : r ≡ q = cc in subst IsServed e' h

  -- Worker `i` takes and answers all requests of the queue.
  pub drains :
      (rs : List WorkRequest) (s : System D) (i : ℕ)
      → i < n
      → s.shared.queue ≡ rs
      → Ready s
      → started (s.workers i).phase ≡ 1
      → (t : System D) × Reach X D strict n s t
        × Ready t
        × (t.main ≡ s.main)
        × (t.shared.queue ≡ [])
  drains [] s i below e ready h = (s, Reach.here, ready, refl, e)
  drains (r ∷ rs) s i below e ready h =
      let (t, later, p) = free s i below ready h in
      let queue : t.shared.queue ≡ r ∷ rs = later.queue ∙ e in
      let served : AllServed X D strict n IsFit IsServed (r ∷ rs) =
        rw queue at (later.ready.queued) in
      let w : WorkerState = record (t.workers i) { phase = busy r } in
      let shared : Shared D = record t.shared { queue = rs } in
      let m : Move X D strict t.shared (t.workers i) shared w =
        Move.take t.shared (t.workers i) r rs p queue in
      let good : Good w = record {
        running = tt;
        fit = (later.ready.good i below).fit;
        served = λ q f. served_as r q f served.0;
      } in
      let ready' =
        IsReady-moved X D strict n IsFit IsServed t i shared w below later.ready m good served.1 in
      let (u, reach, ready'', main, done) =
        drains rs (moved X D strict n IsFit IsServed t i shared w) i below refl ready'
          (ap (λ (v : WorkerState). started v.phase) (update_self t.workers i w)) in
      (
        u,
        Reach-trans X D strict n later.reach (
            Reach-trans X D strict n (Reach.next Reach.here (Step.work t i shared w below m))
              reach),
        ready'',
        main ∙ later.main,
        done,
      )

  -- Worker `i` is done with its startup, or was never initialized.
  abbrev pub IsEven : WorkerState → Type 0
  IsEven w = done_weight w ≡ initialized_weight w

  IsEven-fresh : (w : WorkerState) → started w.phase ≢ 1 → IsEven w
  IsEven-fresh w h = ground arith

  IsEven-aware :
      (w : WorkerState) → w.phase ≡ receiving → w.worker.is_startup_done ≡ true → IsEven w
  IsEven-aware w p h = ground arith

  -- Once the flag is set, worker `i` flushes and counts itself, unless it has or never started.
  pub settles :
      (s : System D) (i : ℕ)
      → i < n
      → s.shared.is_startup_done ≡ true
      → Ready s
      → (t : System D) × Later s i t × IsEven (t.workers i)
  settles s i below flag ready = elim (ℕ_discrete (started (s.workers i).phase) 1) [
    | no fresh ↦
        (s, IsLater-here X D strict n IsFit IsServed s i ready, IsEven-fresh (s.workers i) fresh)
    | yes h ↦
        let (t, later, p) = free s i below ready h in
        elim (Bool-cases (t.workers i).worker.is_startup_done) [
          | inl aware ↦ (t, later, IsEven-aware (t.workers i) p aware)
          | inr unaware ↦
              let w : WorkerState = record (t.workers i) { phase = notifying } in
              let (u, later', e) =
                advance t i t.shared w below later.ready
                  (Move.time_out t.shared (t.workers i) p unaware (later.flag ∙ flag))
                  (record {
                    running = tt;
                    fit = (later.ready.good i below).fit;
                    served = λ r e. cc;
                  })
                  refl refl in
              let (v, later'', phase, aware) =
                flushes_next u i below later'.ready (ap (λ (w : WorkerState). w.phase) e) in
              (
                v,
                IsLater-trans X D strict n IsFit IsServed s i t v later
                    (IsLater-trans X D strict n IsFit IsServed t i u v later' later''),
                IsEven-aware (v.workers i) phase aware,
              )
        ]
  ]
