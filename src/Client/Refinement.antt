-- ===== src/Client/Refinement.antt =====
-- Batching at startup refines the execution of the statements one account after the other.
use mathlib.Core.List.{append-nil, append_assoc}
use solana_indexer_plugin.Client.Pending.{client-flush, with_account}
use solana_indexer_plugin.Base.{
  true, String, Option, none, some, List, [], ◌∷◌, ◌++◌, length, bind-eq-some, leb, ◌≡◌, refl, sym,
  ap, ◌∙◌, arith, Bool-cases, Option-cases, ◌⊎◌, inl, inr,
}
use solana_indexer_plugin.Errors.{ok, err, panic}
use solana_indexer_plugin.Account.{DbAccountInfo}
use solana_indexer_plugin.Crates.{Crates}
use solana_indexer_plugin.Config.{AccountsSelectorConfig}
use solana_indexer_plugin.Database.{Database}
use solana_indexer_plugin.Handlers.{AccountHandlerId, AccountHandler}
use solana_indexer_plugin.Sql.{Statement}
use solana_indexer_plugin.Sql.Tables.{Tables, execute_all, execute_all-append}
use solana_indexer_plugin.Client.{
  SimplePostgresClient, Reply, execute_query, flush, update_at_startup, batch_query, account_query,
  schema_error,
}

-- What PostgreSQL documents of a query of several statements in one message: they run in one
-- transaction, so all take effect, in order, or none does. `view` shows the tables of a state.
pub record IsTransactional (D : Database) (view : D.State → Tables) : Type 0 where
  pub executed :
      (q : List Statement) (db : D.State)
      → (D.batch_execute q db).0 ≡ none
      → view (D.batch_execute q db).1 ≡ execute_all q (view db)
  pub rolled_back :
      (q : List Statement) (db : D.State) (e : String)
      → (D.batch_execute q db).0 ≡ some e
      → view (D.batch_execute q db).1 ≡ view db

module _ (X : Crates) (handlers : List (AccountHandlerId × AccountHandler))
    (selector : Option AccountsSelectorConfig) (t : String) where
  -- The statements of all the accounts, in order, with one reading of the clock.
  abbrev pub all_statements : List DbAccountInfo → Option (List Statement)
  all_statements accounts = batch_query X handlers selector (λ _. t) accounts

  pub all_statements-append :
      (xs ys : List DbAccountInfo) (q : List Statement)
      → all_statements (xs ++ ys) ≡ some q
      → (p : List Statement) × (r : List Statement) × (all_statements xs ≡ some p)
        × (all_statements ys ≡ some r)
        × (p ++ r ≡ q)
  unfolding batch_query
  all_statements-append [] ys q h = ([], q, refl, h, refl)
  all_statements-append (x ∷ xs) ys q h =
      let (a, at_x, h') = bind-eq-some (account_query X handlers selector (λ _. t) x true) _ h in
      let (rest, at_rest, whole) =
        bind-eq-some (batch_query X handlers selector (λ _. t) (xs ++ ys)) _ h' in
      let (p, r, at_p, at_r, e) = all_statements-append xs ys rest at_rest in
      (
        a ++ p,
        r,
        rw (batch_query, at_x, at_p) refl,
        at_r,
        append_assoc a p r ∙ (ap (λ s. a ++ s) e ∙ cc),
      )

module _ (X : Crates) (D : Database) (t : String) where
  -- The updates of the startup one after the other, then a flush of what is left, until a call fails.
  unfoldable pub run_startup : List DbAccountInfo → SimplePostgresClient → D.State → Reply X D
  run_startup [] c db =
      flush X D "[notify_end_of_startup][flush_accounst_error] error=[" (λ _. t) c db
  run_startup (a ∷ accounts) c db =
      let (exit, c', db') = update_at_startup X D (λ _. t) a c db in
      let rest = run_startup accounts c' db' in
      elim exit [ ok _ ↦ rest | err e ↦ (err e, c', db') | panic ↦ (panic, c', db') ]

  -- One more update that succeeds leaves the others to do.
  pub run_startup-next :
      (a : DbAccountInfo) (accounts : List DbAccountInfo) (c : SimplePostgresClient) (db : D.State)
      → (update_at_startup X D (λ _. t) a c db).0 ≡ ok tt
      → run_startup (a ∷ accounts) c db
        ≡ run_startup accounts
            (update_at_startup X D (λ _. t) a c db).1
            (update_at_startup X D (λ _. t) a c db).2
  unfolding run_startup
  run_startup-next a accounts c db h = rw (run_startup, h) refl

  pub run_startup-first :
      (a : DbAccountInfo) (accounts : List DbAccountInfo) (c : SimplePostgresClient) (db : D.State)
      → (run_startup (a ∷ accounts) c db).0 ≡ ok tt
      → (update_at_startup X D (λ _. t) a c db).0 ≡ ok tt
  unfolding run_startup
  run_startup-first a accounts c db h = ground arith

  pub update_at_startup-cases :
      (a : DbAccountInfo) (c : SimplePostgresClient) (db : D.State)
      → (update_at_startup X D (λ _. t) a c db
          ≡ flush X D "[update_account_batch] error=[" (λ _. t) (with_account a c) db)
        ⊎ (update_at_startup X D (λ _. t) a c db ≡ (ok tt, with_account a c, db))
  unfolding update_at_startup
  update_at_startup-cases a c db =
      elim (Bool-cases (leb c.batch_size (length (c.pending_account_updates ++ (a ∷ []))))) [
        | inl full ↦ inl (rw (update_at_startup, full) refl)
        | inr below ↦ inr (rw (update_at_startup, below) refl)
      ]

  module _ (view : D.State → Tables) (postgres : IsTransactional D view) where
    flush-refines :
        (prefix : String) (c : SimplePostgresClient) (db : D.State) (q : List Statement)
        → all_statements X c.account_handlers c.account_selector t c.pending_account_updates
          ≡ some q
        → (flush X D prefix (λ _. t) c db).0 ≡ ok tt
        → view (flush X D prefix (λ _. t) c db).2 ≡ execute_all q (view db)
    unfolding flush execute_query
    flush-refines prefix c db q h done = elim (Option-cases (D.batch_execute q db).0) [
      | inl e ↦ rw (flush, h, execute_query, e) (postgres.executed q db e)
      | inr (m, e) ↦
          let failed : (flush X D prefix (λ _. t) c db).0 ≡ err (schema_error prefix m) =
            rw (flush, h, execute_query, e) refl in
          cc
    ]

    startup-refines :
        (accounts : List DbAccountInfo) (c : SimplePostgresClient) (db : D.State)
        (q : List Statement)
        → all_statements X c.account_handlers c.account_selector t
            (c.pending_account_updates ++ accounts)
          ≡ some q
        → (run_startup accounts c db).0 ≡ ok tt
        → view (run_startup accounts c db).2 ≡ execute_all q (view db)
    unfolding run_startup
    startup-refines [] c db q h done =
        flush-refines _ c db q
          (ap (all_statements X c.account_handlers c.account_selector t) (sym (append-nil _)) ∙ h)
          done
    startup-refines (a ∷ accounts) c db q h done =
        let c' = with_account a c in
        let h' =
          ap (all_statements X c.account_handlers c.account_selector t)
            (append_assoc c.pending_account_updates (a ∷ []) accounts)
          ∙ h in
        let (p, r, at_p, at_r, e) =
          all_statements-append X c.account_handlers c.account_selector t
            (c.pending_account_updates ++ (a ∷ [])) accounts q h' in
        let done' = run_startup-first a accounts c db done in
        let next = run_startup-next a accounts c db done' in
        elim (update_at_startup-cases a c db) [
          | inl full ↦
              let f = flush X D "[update_account_batch] error=[" (λ _. t) c' db in
              let drained : SimplePostgresClient = record c' { pending_account_updates = [] } in
              let next' : run_startup (a ∷ accounts) c db ≡ run_startup accounts drained f.2 =
                next
                ∙ (ap (λ u. run_startup accounts u.1 u.2) full
                    ∙ ap (λ d. run_startup accounts d f.2) (client-flush X D _ (λ _. t) c' db)) in
              ap (λ u. view u.2) next'
              ∙ (startup-refines accounts drained f.2 r at_r (sym (ap (λ u. u.0) next') ∙ done)
                  ∙ (ap (execute_all r)
                        (flush-refines _ c' db p at_p (sym (ap (λ u. u.0) full) ∙ done'))
                      ∙ (sym (execute_all-append p r (view db))
                          ∙ ap (λ s. execute_all s (view db)) e)))
          | inr below ↦
              let next' : run_startup (a ∷ accounts) c db ≡ run_startup accounts c' db =
                next ∙ ap (λ u. run_startup accounts u.1 u.2) below in
              ap (λ u. view u.2) next'
              ∙ startup-refines accounts c' db q h' (sym (ap (λ u. u.0) next') ∙ done)
        ]

    -- If PostgreSQL runs a query of several statements as a transaction, a client that holds no
    -- update is given accounts at startup, flushing each time that its batch is full and at the
    -- end, all statements of these accounts are `q` (with one reading of the clock), and no call
    -- fails, then the tables are as if the statements of `q` had been executed one by one.
    pub run_startup-refines :
        (accounts : List DbAccountInfo) (c : SimplePostgresClient) (db : D.State)
        (q : List Statement)
        → c.pending_account_updates ≡ []
        → all_statements X c.account_handlers c.account_selector t accounts ≡ some q
        → (run_startup accounts c db).0 ≡ ok tt
        → view (run_startup accounts c db).2 ≡ execute_all q (view db)
    run_startup-refines accounts c db q empty h done =
        startup-refines accounts c db q
          (ap (λ p. all_statements X c.account_handlers c.account_selector t (p ++ accounts)) empty
            ∙ h)
          done
