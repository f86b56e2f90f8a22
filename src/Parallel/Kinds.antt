-- ===== src/Parallel/Kinds.antt =====
-- The steps of the system, by what they can change: a step of a worker, or one of the validator, which
-- leaves the workers and the database as they are and takes nothing from the queue.
use solana_indexer_plugin.Base.{
  ℕ, ◌<◌, Bool, List, [], ◌∷◌, ◌≡◌, ◌⊎◌, inl, inr, refl, subst, update, Has, Has-append,
}
use solana_indexer_plugin.Crates.{Crates}
use solana_indexer_plugin.Database.{Database}
use solana_indexer_plugin.Worker.{WorkRequest}
use solana_indexer_plugin.Parallel.{busy, WorkerState, Shared, System, Move, Step}

module _ (X : Crates) (D : Database) (strict : Bool) where
  pub data Kind (n : ℕ) (s : System D) : System D → Type 0 where
    worker :
        (i : ℕ) (t : Shared D) (w : WorkerState)
        → i < n
        → Move X D strict s.shared (s.workers i) t w
        → Kind n s (record s { shared = t; workers = update s.workers i w })
    validator :
        (t : System D)
        → t.shared.db ≡ s.shared.db
        → ((r : WorkRequest) → Has r s.shared.queue → Has r t.shared.queue)
        → ((i : ℕ) → t.workers i ≡ s.workers i)
        → Kind n s t

  pub Step-Kind : {n : ℕ} {s t : System D} → Step X D strict n s t → Kind n s t
  Step-Kind (Step.work s i t w b m) = Kind.worker i t w b m
  Step-Kind (Step.send s r can later room) =
      Kind.validator _ refl (λ q. Has-append q s.shared.queue (r ∷ [])) (λ i. refl)
  Step-Kind (Step.begin s p) = Kind.validator _ refl (λ r h. h) (λ i. refl)
  Step-Kind (Step.see_empty s p e) = Kind.validator _ refl (λ r h. h) (λ i. refl)
  Step-Kind (Step.mark_done s p) = Kind.validator _ refl (λ r h. h) (λ i. refl)
  Step-Kind (Step.load_done s p) = Kind.validator _ refl (λ r h. h) (λ i. refl)
  Step-Kind (Step.again s d p e) = Kind.validator _ refl (λ r h. h) (λ i. refl)
  Step-Kind (Step.return s d p e) = Kind.validator _ refl (λ r h. h) (λ i. refl)
  Step-Kind (Step.join s p) = Kind.validator _ refl (λ r h. h) (λ i. refl)

  same_rest : (b r : WorkRequest) (bs rest : List WorkRequest) → b ∷ bs ≡ r ∷ rest → bs ≡ rest
  same_rest b r bs rest e = cc

  -- A worker's step leaves a request in the queue, or takes it.
  pub Move-queued :
      {s : Shared D} {w : WorkerState} {t : Shared D} {w' : WorkerState} (r : WorkRequest)
      → Move X D strict s w t w'
      → Has r s.queue
      → Has r t.queue ⊎ (w'.phase ≡ busy r)
  Move-queued q (Move.take s w r rest p e) h = queued s.queue e h
    where
      queued :
          (queue : List WorkRequest)
          → queue ≡ r ∷ rest
          → Has q queue
          → Has q rest ⊎ (busy r ≡ busy q)
      queued _ e (Has.head b bs f) = inr cc
      queued _ e (Has.tail b bs k) = inl (subst (λ l. Has q l) (same_rest b r bs rest e) k)
  Move-queued q (Move.start s w client p e alike) h = inl h
  Move-queued q (Move.start_failed s w lax p) h = inl h
  Move-queued q (Move.finish s w r now p e) h = inl h
  Move-queued q (Move.panicked s w r now p e) h = inl h
  Move-queued q (Move.time_out s w p e f) h = inl h
  Move-queued q (Move.flush s w now slot_now p e) h = inl h
  Move-queued q (Move.flush_panicked s w now slot_now p e) h = inl h
  Move-queued q (Move.report s w p) h = inl h
  Move-queued q (Move.stop s w p e) h = inl h
