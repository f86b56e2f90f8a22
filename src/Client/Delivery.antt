-- ===== src/Client/Delivery.antt =====
-- An account that a client takes at startup is stored once the client has flushed it.
use solana_indexer_plugin.Base.{
  ℕ, String, none, some, List, [], ◌∷◌, ◌++◌, ◌≡◌, ◌⊎◌, inl, inr, refl, sym, ap, ◌∙◌, arith,
  Option-cases, Bool-cases, length, leb, Has,
}
use solana_indexer_plugin.Errors.{ok, err, panic}
use solana_indexer_plugin.Account.{DbAccountInfo}
use solana_indexer_plugin.Crates.{Crates}
use solana_indexer_plugin.Database.{Database}
use solana_indexer_plugin.Sql.{Statement}
use solana_indexer_plugin.Client.{
  SimplePostgresClient, Reply, execute_query, flush, update_at_startup, then_slots,
  notify_end_of_startup, batch_query,
}
use solana_indexer_plugin.Client.Pending.{with_account}
use solana_indexer_plugin.Client.Stable.{IsStable, kept-then_slots}

module _ (X : Crates) (D : Database) (a : DbAccountInfo) (Stored : D.State → Type 0) where
  -- A client with the settings of `c` that executes a batch with the account stores it.
  abbrev pub IsDelivering : SimplePostgresClient → Type 0
  IsDelivering c =
      (now : ℕ → String) (pending : List DbAccountInfo) (q : List Statement) (db : D.State)
      → Has a pending
      → batch_query X c.account_handlers c.account_selector now pending ≡ some q
      → (D.batch_execute q db).0 ≡ none
      → Stored (D.batch_execute q db).1

  flush-Stored :
      (prefix : String) (now : ℕ → String) (c : SimplePostgresClient) (db : D.State)
      → IsDelivering c
      → Has a c.pending_account_updates
      → (flush X D prefix now c db).0 ≡ ok tt
      → Stored (flush X D prefix now c db).2
  unfolding flush execute_query
  flush-Stored prefix now c db delivering has done =
      elim (Option-cases
        (batch_query X c.account_handlers c.account_selector now c.pending_account_updates)) [
          | inl e ↦ absurd (ground arith)
          | inr (q, e) ↦ elim (Option-cases (D.batch_execute q db).0) [
            | inl f ↦
                rw (flush, e, execute_query, f)
                  (delivering now c.pending_account_updates q db has e f)
            | inr (m, f) ↦ absurd (ground arith)
          ]
        ]

  then_slots-ok :
      (now : ℕ → String) (r : Reply X D) → (then_slots X D now r).0 ≡ ok tt → r.0 ≡ ok tt
  unfolding then_slots
  then_slots-ok now (ok _, c, db) h = refl
  then_slots-ok now (err e, c, db) h = cc
  then_slots-ok now (panic, c, db) h = cc

  module _ (stable : IsStable D Stored) where
    -- At the end of startup.
    pub notify_end_of_startup-Stored :
        (now slot_now : ℕ → String) (c : SimplePostgresClient) (db : D.State)
        → IsDelivering c
        → Has a c.pending_account_updates
        → (notify_end_of_startup X D now slot_now c db).0 ≡ ok tt
        → Stored (notify_end_of_startup X D now slot_now c db).2
    unfolding notify_end_of_startup
    notify_end_of_startup-Stored now slot_now c db delivering has done =
        let r = flush X D "[notify_end_of_startup][flush_accounst_error] error=[" now c db in
        kept-then_slots X D Stored stable slot_now r
          (flush-Stored _ now c db delivering has (then_slots-ok slot_now r done))

    -- An update at startup that succeeds leaves every account that the client has, or is given,
    -- pending or stored.
    pub update_at_startup-Stored :
        (now : ℕ → String) (b : DbAccountInfo) (c : SimplePostgresClient) (db : D.State)
        → IsDelivering c
        → Has a (c.pending_account_updates ++ (b ∷ []))
        → (update_at_startup X D now b c db).0 ≡ ok tt
        → Has a (update_at_startup X D now b c db).1.pending_account_updates
          ⊎ Stored (update_at_startup X D now b c db).2
    unfolding update_at_startup
    update_at_startup-Stored now b c db delivering has done =
        let c' = with_account b c in
        elim (Bool-cases (leb c.batch_size (length c'.pending_account_updates))) [
          | inl full ↦
              let at_flush : update_at_startup X D now b c db
                  ≡ flush X D "[update_account_batch] error=[" now c' db =
                rw (update_at_startup, full) refl in
              rw at_flush (
                inr (
                  flush-Stored _ now c' db delivering has
                    (sym (ap (λ (r : Reply X D). r.0) at_flush) ∙ done)))
          | inr below ↦ rw (update_at_startup, below) (inl has)
        ]
