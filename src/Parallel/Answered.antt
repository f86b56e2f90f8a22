-- ===== src/Parallel/Answered.antt =====
-- What the workers do with a request after the startup: once the queue is empty and no worker has a
-- request in hand, every request is done.
use solana_indexer_plugin.Base.{
  ◌⊎◌, ℕ, ◌<◌, true, false, String, [], some, ◌≡◌, inl, inr, refl, sym, ap, ◌∙◌, subst, arith, Has,
  Has-nil, Bool-cases, ◌==◌, ==_iff,
}
use solana_indexer_plugin.Account.{DbAccountInfo}
use solana_indexer_plugin.Crates.{Crates}
use solana_indexer_plugin.Config.{AccountHandlerConfig}
use solana_indexer_plugin.Database.{Database}
use solana_indexer_plugin.Handlers.{
  all_account_handlers, from_str, unknown_account, select_account_handlers,
}
use solana_indexer_plugin.Sql.Tables.{Tables}
use solana_indexer_plugin.Sql.UpToDate.{IsUpToDate}
use solana_indexer_plugin.Client
use solana_indexer_plugin.Client.{SimplePostgresClient}
use solana_indexer_plugin.Client.Refinement.{IsTransactional}
use solana_indexer_plugin.Client.Stable.{IsStable}
use solana_indexer_plugin.Client.Unknown.{
  IsSeparate, version_of, IsUpToDate-IsStable, update_later-IsUpToDate,
}
use solana_indexer_plugin.Worker.{
  WorkRequest, update_account, continue, handle_request, ParallelClientWorker, perform,
}
use solana_indexer_plugin.Parallel.{
  Phase, busy, dead, WorkerState, Shared, System, Move, Reach, initial, AreAlike,
}
use solana_indexer_plugin.Parallel.Progress.{update_self, update_ne}
use solana_indexer_plugin.Parallel.Lost.{Move-ne-dead}
use solana_indexer_plugin.Parallel.Settings.{AllAlike, Reach-AllAlike}
use solana_indexer_plugin.Parallel.Kept.{Move-Stored}
use solana_indexer_plugin.Parallel.Kinds.{Kind, Step-Kind, Move-queued}
use solana_indexer_plugin.Parallel.Held.{flow-continue}

-- The worker has no request in hand, and its thread has not panicked.
abbrev pub IsFree : Phase → Type 0
IsFree (busy r) = ⊥
IsFree dead = ⊥
IsFree _ = Unit

module _ (X : Crates) (D : Database) (n : ℕ) (c : SimplePostgresClient) (q : WorkRequest)
    (Stored : D.State → Type 0) (stable : IsStable D Stored) where
  -- A worker with the settings of `c` that answers the request stores it.
  abbrev IsAnswered : Type 0
  IsAnswered =
      (now : ℕ → String) (w : ParallelClientWorker) (db : D.State)
      → AreAlike w.client c
      → (handle_request X D true now q w db).0 ≡ continue
      → Stored (handle_request X D true now q w db).2

  data IsOnItsWay (s : System D) : Type 0 where
    stored : Stored s.shared.db → IsOnItsWay s
    queued : Has q s.shared.queue → IsOnItsWay s
    in_hand : (i : ℕ) → i < n → (s.workers i).phase ≡ busy q → IsOnItsWay s
    dropped : (i : ℕ) → i < n → (s.workers i).phase ≡ dead → IsOnItsWay s

  module _ (answered : IsAnswered) where
    same_request : (p r : WorkRequest) → busy p ≡ busy r → p ≡ r
    same_request p r e = cc

    -- What becomes of a request that a worker has in hand.
    Move-in_hand :
        {s : Shared D} {w : WorkerState} {t : Shared D} {w' : WorkerState}
        → Move X D true s w t w'
        → AreAlike w.worker.client c
        → w.phase ≡ busy q
        → Stored t.db ⊎ (w'.phase ≡ dead)
    Move-in_hand (Move.start s w client p e alike) settings h = cc
    Move-in_hand (Move.start_failed s w lax p) settings h = cc
    Move-in_hand (Move.take s w r rest p e) settings h = cc
    Move-in_hand (Move.finish s w r now p e) settings h = inl (
        subst
          (λ k.
            (handle_request X D true now k w.worker s.db).0 ≡ continue
            → Stored (handle_request X D true now k w.worker s.db).2)
          (sym (same_request r q (sym p ∙ h))) (answered now w.worker s.db settings) e)
    Move-in_hand (Move.panicked s w r now p e) settings h = inr refl
    Move-in_hand (Move.time_out s w p e f) settings h = cc
    Move-in_hand (Move.flush s w now slot_now p e) settings h = cc
    Move-in_hand (Move.flush_panicked s w now slot_now p e) settings h = inr refl
    Move-in_hand (Move.report s w p) settings h = cc
    Move-in_hand (Move.stop s w p e) settings h = cc

    Kind-IsOnItsWay :
        {s t : System D}
        → Kind X D true n s t
        → AllAlike X D true n c s
        → IsOnItsWay s
        → IsOnItsWay t
    Kind-IsOnItsWay (Kind.validator t d more w) alike (stored h) = stored (rw d h)
    Kind-IsOnItsWay (Kind.validator t d more w) alike (queued h) = queued (more q h)
    Kind-IsOnItsWay (Kind.validator t d more w) alike (in_hand i b h) = in_hand i b (rw (w i) h)
    Kind-IsOnItsWay (Kind.validator t d more w) alike (dropped i b h) = dropped i b (rw (w i) h)
    Kind-IsOnItsWay (Kind.worker i t w b m) alike (stored h) =
        stored (Move-Stored X D true Stored stable m h)
    Kind-IsOnItsWay {s} (Kind.worker i t w b m) alike (queued h) =
        elim (Move-queued X D true q m h) [
          | inl still ↦ queued still
          | inr taken ↦ in_hand i b (rw (update_self s.workers i w) taken)
        ]
    Kind-IsOnItsWay {s} (Kind.worker i t w b m) alike (in_hand j below h) =
        elim (Bool-cases (i == j)) [
          | inr other ↦
              in_hand j below (rw (update_ne s.workers i w j (λ e. ground (arith, ==_iff i j))) h)
          | inl same ↦
              let here : (s.workers i).phase ≡ busy q =
                ap (λ k. (s.workers k).phase) ((==_iff i j).0 same) ∙ h in
              elim (Move-in_hand m (alike i) here) [
                | inl done ↦ stored done
                | inr gone ↦ dropped i b (rw (update_self s.workers i w) gone)
              ]
        ]
    Kind-IsOnItsWay {s} (Kind.worker i t w b m) alike (dropped j below h) = dropped j below (
        rw
          (update_ne s.workers i w j
            (λ (e : j ≡ i). Move-ne-dead X D true n m (ap (λ k. (s.workers k).phase) (sym e) ∙ h)))
          h)

    Reach-IsOnItsWay :
        {s t : System D}
        → Reach X D true n s t
        → AllAlike X D true n c s
        → IsOnItsWay s
        → IsOnItsWay t
    Reach-IsOnItsWay Reach.here alike way = way
    Reach-IsOnItsWay (Reach.next r st) alike way =
        Kind-IsOnItsWay (Step-Kind X D true st) (Reach-AllAlike X D true n c r alike)
          (Reach-IsOnItsWay r alike way)

    free_not : (p : Phase) (r : WorkRequest) → IsFree p → p ≡ busy r → ⊥
    free_not (busy p) r free e = free
    free_not _ r free e = cc

    free_alive : (p : Phase) → IsFree p → p ≡ dead → ⊥
    free_alive dead free e = free
    free_alive _ free e = cc

    at_rest :
        (s : System D)
        → s.shared.queue ≡ []
        → ((i : ℕ) → i < n → IsFree (s.workers i).phase)
        → IsOnItsWay s
        → Stored s.shared.db
    at_rest s e free (stored h) = h
    at_rest s e free (queued h) = absurd (Has-nil q s.shared.queue e h)
    at_rest s e free (in_hand i b h) = absurd (free_not (s.workers i).phase q (free i b) h)
    at_rest s e free (dropped i b h) = absurd (free_alive (s.workers i).phase (free i b) h)

module _ (X : Crates) (D : Database) (view : D.State → Tables) (postgres : IsTransactional D view)
    (separate : IsSeparate D view) (n : ℕ) where
  -- No account update after the startup is lost, in any interleaving of any number of workers that
  -- abort on errors of the database, and whose clients have all the handlers: if the update is in the queue at some time, its configuration
  -- selects the handler of unknown accounts, and later the queue is empty and every worker's thread
  -- is alive and has no request in hand, then the table of accounts has a row of the account's public
  -- key that is not older than the update (by slot, then write version). PostgreSQL is assumed to run a query of several statements
  -- as a transaction, and to keep blocks and transactions in other tables.
  pub later_account-IsUpToDate :
      (db : D.State) (c : SimplePostgresClient) (s t : System D) (a : DbAccountInfo)
      (h : AccountHandlerConfig)
      → c.account_handlers ≡ all_account_handlers
      → Has h (select_account_handlers X c.account_selector a false)
      → from_str h.handler_id ≡ some unknown_account
      → Reach X D true n (initial D db c) s
      → Has (update_account a false) s.shared.queue
      → Reach X D true n s t
      → t.shared.queue ≡ []
      → ((i : ℕ) → i < n → IsFree (t.workers i).phase)
      → IsUpToDate (version_of X a) (view t.shared.db)
  unfolding handle_request perform Client.update_account
  later_account-IsUpToDate db c s t a h handlers selected id before request after empty free =
      let Stored : D.State → Type 0 = λ db'. IsUpToDate (version_of X a) (view db') in
      let stable = IsUpToDate-IsStable X D view postgres separate (version_of X a) in
      let alike = Reach-AllAlike X D true n c before (λ i. (refl, refl)) in
      let answered : IsAnswered X D n c (update_account a false) Stored stable =
        λ now w db' settings goes_on.
          update_later-IsUpToDate X D view postgres now a w.client db' h (settings.0 ∙ handlers)
            (subst (λ k. Has h (select_account_handlers X k a false)) (sym settings.1) selected) id
            (flow-continue _ goes_on) in
      at_rest X D n c (update_account a false) Stored stable answered t empty free (
        Reach-IsOnItsWay X D n c (update_account a false) Stored stable answered after alike
          (queued request))
