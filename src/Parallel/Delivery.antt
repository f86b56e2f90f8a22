-- ===== src/Parallel/Delivery.antt =====
-- No account of the startup is lost between the validator and the database.
use solana_indexer_plugin.Base.{
  ℕ, ◌<◌, true, List, [], ◌≡◌, ◌≢◌, inl, inr, refl, sym, ap, ◌∙◌, subst, arith, Has, Has-nil,
  Bool-cases, ◌==◌, ==_iff,
}
use solana_indexer_plugin.Account.{DbAccountInfo}
use solana_indexer_plugin.Crates.{Crates}
use solana_indexer_plugin.Database.{Database}
use solana_indexer_plugin.Client.{SimplePostgresClient, batch_query}
use solana_indexer_plugin.Client.Stable.{IsStable}
use solana_indexer_plugin.Client.Delivery.{IsDelivering}
use solana_indexer_plugin.Worker.{WorkRequest, update_account}
use solana_indexer_plugin.Parallel.{WorkerState, System, notified, Step, Reach, initial, AreAlike}
use solana_indexer_plugin.Parallel.Invariant.{IsSettled, AllQuiet}
use solana_indexer_plugin.Parallel.Startup.{Inv, Inv-initial, Reach-Inv}
use solana_indexer_plugin.Parallel.Progress.{update_self, update_ne}
use solana_indexer_plugin.Parallel.Lost.{IsLost, Step-IsLost}
use solana_indexer_plugin.Parallel.Settings.{AllAlike, Reach-AllAlike}
use solana_indexer_plugin.Parallel.Kept.{Move-Stored}
use solana_indexer_plugin.Parallel.Held.{IsHeld, Move-IsHeld}
use solana_indexer_plugin.Parallel.Kinds.{Kind, Step-Kind, Move-queued}

module _ (X : Crates) (D : Database) (n : ℕ) (c : SimplePostgresClient) where
  module _ (a : DbAccountInfo) (Stored : D.State → Type 0) (stable : IsStable D Stored)
      (delivering : IsDelivering X D a Stored c) where
    -- The account is stored, or queued, or held by a worker; or its worker is lost, which is never
    -- past the end of startup.
    data IsPlaced (s : System D) : Type 0 where
      stored : Stored s.shared.db → IsPlaced s
      queued : Has (update_account a true) s.shared.queue → IsPlaced s
      held : (i : ℕ) → i < n → IsHeld a (s.workers i) → IsPlaced s
      lost : (i : ℕ) → i < n → IsLost (s.workers i) → s.main ≢ notified → IsPlaced s

    not_settled : (w : WorkerState) → IsHeld a w → IsSettled w → ⊥
    not_settled w (inl in_hand) settled = absurd (ground (arith, settled.quiet, in_hand))
    not_settled w (inr pending) settled =
        Has-nil a w.worker.client.pending_account_updates settled.pending pending

    IsDelivering-alike : (d : SimplePostgresClient) → AreAlike d c → IsDelivering X D a Stored d
    IsDelivering-alike d alike = λ now pending q db has e accepted.
        delivering now pending q db has
          (ap (λ hs. batch_query X hs c.account_selector now pending) (sym alike.0)
            ∙ (ap (λ s. batch_query X d.account_handlers s now pending) (sym alike.1) ∙ e))
          accepted

    Kind-IsPlaced :
        {s t : System D}
        → Kind X D true n s t
        → Step X D true n s t
        → Inv n s
        → AllAlike X D true n c s
        → IsPlaced s
        → IsPlaced t
    Kind-IsPlaced {s} (Kind.validator t d q w) st inv alike (stored h) = stored (rw d h)
    Kind-IsPlaced {s} (Kind.validator t d q w) st inv alike (queued h) =
        queued (q (update_account a true) h)
    Kind-IsPlaced {s} (Kind.validator t d q w) st inv alike (held i b h) = held i b (rw (w i) h)
    Kind-IsPlaced {s} (Kind.validator t d q w) st inv alike (lost i b l h) =
        let (l', h') = Step-IsLost X D true n i b st inv l h in lost i b l' h'
    Kind-IsPlaced {s} (Kind.worker i t w b m) st inv alike (stored h) =
        stored (Move-Stored X D true Stored stable m h)
    Kind-IsPlaced {s} (Kind.worker i t w b m) st inv alike (queued h) =
        elim (Move-queued X D true (update_account a true) m h) [
          | inl still ↦ queued still
          | inr taken ↦ held i b (rw (update_self s.workers i w) (inl taken))
        ]
    Kind-IsPlaced {s} (Kind.worker i t w b m) st inv alike (lost j below l h) =
        let (l', h') = Step-IsLost X D true n j below st inv l h in lost j below l' h'
    Kind-IsPlaced {s} (Kind.worker i t w b m) st inv alike (held j below h) =
        elim (Bool-cases (i == j)) [
          | inr other ↦
              held j below (rw (update_ne s.workers i w j (λ e. ground (arith, ==_iff i j))) h)
          | inl same ↦
              let h' : IsHeld a (s.workers i) =
                subst (λ k. IsHeld a (s.workers k)) (sym ((==_iff i j).0 same)) h in
              elim (Move-IsHeld X D a Stored stable m (inv.workers i)
                (IsDelivering-alike (s.workers i).worker.client (alike i)) h') [
                  | inl (inl still) ↦ held i b (rw (update_self s.workers i w) still)
                  | inl (inr gone) ↦
                      lost i b (rw (update_self s.workers i w) gone)
                        (λ e. not_settled (s.workers i) h' (inv.settled e i b))
                  | inr flushed ↦ stored flushed
                ]
        ]

    Reach-IsPlaced :
        {s t : System D}
        → Reach X D true n s t
        → Inv n s
        → AllAlike X D true n c s
        → IsPlaced s
        → IsPlaced t
    Reach-IsPlaced Reach.here inv alike placed = placed
    Reach-IsPlaced (Reach.next r st) inv alike placed =
        Kind-IsPlaced (Step-Kind X D true st) st (Reach-Inv X D true n inv r)
          (Reach-AllAlike X D true n c r alike) (Reach-IsPlaced r inv alike placed)

    not_quiet : (queue : List WorkRequest) → AllQuiet queue → Has (update_account a true) queue → ⊥
    not_quiet _ quiet (Has.head b bs e) = ground (arith, quiet.0, e)
    not_quiet _ quiet (Has.tail b bs h) = not_quiet bs quiet.1 h

    -- At the return of `notify_end_of_startup` there is no place left but the database.
    at_return : (s : System D) → Inv n s → s.main ≡ notified → IsPlaced s → Stored s.shared.db
    at_return s inv e (stored h) = h
    at_return s inv e (queued h) =
        absurd (not_quiet s.shared.queue (inv.quiet (inv.marked (rw e refl))) h)
    at_return s inv e (held i b h) = absurd (not_settled (s.workers i) h (inv.settled e i b))
    at_return s inv e (lost i b l h) = absurd (h e)

    pub queued-Stored :
        (db : D.State) (s t : System D)
        → c.pending_account_updates ≡ []
        → Reach X D true n (initial D db c) s
        → Has (update_account a true) s.shared.queue
        → Reach X D true n s t
        → t.main ≡ notified
        → Stored t.shared.db
    queued-Stored db s t empty before h after e =
        let inv = Reach-Inv X D true n (Inv-initial X D true n db c empty) before in
        let alike = Reach-AllAlike X D true n c before (λ i. (refl, refl)) in
        at_return t (Reach-Inv X D true n inv after) e (Reach-IsPlaced after inv alike (queued h))
