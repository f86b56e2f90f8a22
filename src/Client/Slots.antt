-- ===== src/Client/Slots.antt =====
-- The slots that a client saw at startup, and what the end of startup writes of them.
use solana_indexer_plugin.Base.{
  ℕ, zero, suc, as_u64, Bool, true, ◌||◌, String, none, some, List, [], ◌∷◌, any, get_elem?, ◌==◌,
  ==_iff, ◌≡◌, ◌⊎◌, refl, sym, ap, ◌∙◌, arith, inl, inr, Bool-cases, Option-cases,
}
use solana_indexer_plugin.Errors.{ok, err, panic}
use solana_indexer_plugin.Account.{DbAccountInfo}
use solana_indexer_plugin.Crates.{Crates, rooted}
use solana_indexer_plugin.Database.{Database}
use solana_indexer_plugin.Slot.{update_slot}
use solana_indexer_plugin.Sql.Slots.{IsStored, written-IsStored, kept-IsStored}
use solana_indexer_plugin.Sql.Tables.{Tables, execute_all, execute}
use solana_indexer_plugin.Client.{
  SimplePostgresClient, insert_slot, later, flush_slots, then_slots, Reply,
}
use solana_indexer_plugin.Client.Pending.{client-flush, with_account}
use solana_indexer_plugin.Client.Refinement.{
  IsTransactional, run_startup, run_startup-next, run_startup-first, update_at_startup-cases,
}

abbrev has : ℕ → List ℕ → Bool
has x slots = any (λ s. s == x) slots

has-insert_slot : (x s : ℕ) (slots : List ℕ) → has x (insert_slot s slots) ≡ (s == x || has x slots)
unfolding insert_slot any
has-insert_slot x s [] = ground arith
has-insert_slot x s (y ∷ slots) =
    ground (arith, has-insert_slot x s slots, ==_iff y s, ==_iff y x, ==_iff s x)

module _ (X : Crates) (D : Database) (view : D.State → Tables)
    (postgres : IsTransactional D view) where
  abbrev IsRooted : ℕ → D.State → Type 0
  IsRooted slot db = IsStored slot (X.status_text rooted) (view db)

  flush_slots-next :
      (now : ℕ → String) (s : ℕ) (slots : List ℕ) (c : SimplePostgresClient) (db : D.State)
      → (D.batch_execute (update_slot X (now 0) s none rooted ∷ []) db).0 ≡ none
      → flush_slots X D now (s ∷ slots) c db
        ≡ flush_slots X D
            (later 1 now)
            slots
            c
            (D.batch_execute (update_slot X (now 0) s none rooted ∷ []) db).1
  unfolding flush_slots
  flush_slots-next now s slots c db e = rw (flush_slots, e) refl

  module _ (now : ℕ → String) (s : ℕ) (db : D.State) (x : ℕ)
      (accepted : (D.batch_execute (update_slot X (now 0) s none rooted ∷ []) db).0 ≡ none) where
    abbrev after_slot : D.State
    after_slot = (D.batch_execute (update_slot X (now 0) s none rooted ∷ []) db).1

    view-after_slot : view after_slot ≡ execute (update_slot X (now 0) s none rooted) (view db)
    unfolding execute_all
    view-after_slot = postgres.executed (update_slot X (now 0) s none rooted ∷ []) db accepted

    slot_kept : IsRooted x db → IsRooted x after_slot
    slot_kept stored = rw view-after_slot (kept-IsStored x _ (view db) stored)

    slot_written : (s == x) ≡ true → IsRooted x after_slot
    slot_written same = rw view-after_slot (written-IsStored x _ (view db) same)

  flush_slots-IsRooted :
      (now : ℕ → String) (slots : List ℕ) (c : SimplePostgresClient) (db : D.State) (x : ℕ)
      → (flush_slots X D now slots c db).0 ≡ ok tt
      → (has x slots ≡ true) ⊎ IsRooted x db
      → IsRooted x (flush_slots X D now slots c db).2
  unfolding flush_slots any
  flush_slots-IsRooted now [] c db x done (inl h) = absurd (ground arith)
  flush_slots-IsRooted now [] c db x done (inr h) = h
  flush_slots-IsRooted now (s ∷ slots) c db x done h =
      elim (Option-cases (D.batch_execute (update_slot X (now 0) s none rooted ∷ []) db).0) [
        | inl e ↦
            let goes_on = flush_slots-next now s slots c db e in
            let db' = (D.batch_execute (update_slot X (now 0) s none rooted ∷ []) db).1 in
            rw goes_on (
              flush_slots-IsRooted (later 1 now) slots c db' x (sym (ap (λ r. r.0) goes_on) ∙ done)
                (elim h [
                  | inr stored ↦ inr (slot_kept now s db x e stored)
                  | inl member ↦ elim (Bool-cases (s == x)) [
                    | inl here ↦ inr (slot_written now s db x e here)
                    | inr other ↦ inl (rw other at member)
                  ]
                ]))
        | inr (m, e) ↦ absurd (ground arith)
      ]

module _ (X : Crates) (D : Database) (t : String) where
  -- One more update of the startup adds the slot of its account.
  run_startup-adds :
      (a : DbAccountInfo) (accounts : List DbAccountInfo) (c : SimplePostgresClient) (db : D.State)
      → (run_startup X D t (a ∷ accounts) c db).0 ≡ ok tt
      → (c' : SimplePostgresClient) × (db' : D.State) × (run_startup X D t (a ∷ accounts) c db
          ≡ run_startup X D t accounts c' db')
        × (c'.slots_at_startup ≡ insert_slot (as_u64 a.slot) c.slots_at_startup)
  run_startup-adds a accounts c db done =
      let next =
        run_startup-next X D t a accounts c db (run_startup-first X D t a accounts c db done) in
      elim (update_at_startup-cases X D t a c db) [
        | inl full ↦ (
          _,
          _,
          next,
          ap (λ (u : Reply X D). u.1.slots_at_startup) full
              ∙ ap (λ (d : SimplePostgresClient). d.slots_at_startup)
                  (client-flush X D _ (λ _. t) (with_account a c) db),
        )
        | inr below ↦ (_, _, next, ap (λ (u : Reply X D). u.1.slots_at_startup) below)
      ]

  slots-run_startup :
      (accounts : List DbAccountInfo) (c : SimplePostgresClient) (db : D.State) (x : ℕ)
      → (run_startup X D t accounts c db).0 ≡ ok tt
      → has x c.slots_at_startup ≡ true
      → has x (run_startup X D t accounts c db).1.slots_at_startup ≡ true
  unfolding run_startup
  slots-run_startup [] c db x done h =
      rw (client-flush X D "[notify_end_of_startup][flush_accounst_error] error=[" (λ _. t) c db) h
  slots-run_startup (a ∷ accounts) c db x done h =
      let (c', db', next, slots) = run_startup-adds a accounts c db done in
      rw next (
        slots-run_startup accounts c' db' x (sym (ap (λ r. r.0) next) ∙ done) (
          ap (has x) slots ∙ (has-insert_slot x (as_u64 a.slot) c.slots_at_startup ∙ ground arith)))

  first_slot :
      (b a : DbAccountInfo) (slots : List ℕ)
      → b ≡ a
      → (as_u64 b.slot == as_u64 a.slot || has (as_u64 a.slot) slots) ≡ true
  first_slot b a slots same =
      rw
        ((==_iff (as_u64 b.slot) (as_u64 a.slot)).1
          (ap (λ (u : DbAccountInfo). as_u64 u.slot) same))
        refl

  slot-run_startup :
      (accounts : List DbAccountInfo) (c : SimplePostgresClient) (db : D.State) (i : ℕ)
      (a : DbAccountInfo)
      → (run_startup X D t accounts c db).0 ≡ ok tt
      → get_elem? accounts i ≡ some a
      → has (as_u64 a.slot) (run_startup X D t accounts c db).1.slots_at_startup ≡ true
  slot-run_startup [] c db i a done h = cc
  slot-run_startup (b ∷ accounts) c db zero a done h =
      let (c', db', next, slots) = run_startup-adds b accounts c db done in
      rw next (
        slots-run_startup accounts c' db' (as_u64 a.slot) (sym (ap (λ r. r.0) next) ∙ done) (
          ap (has (as_u64 a.slot)) slots
          ∙ (has-insert_slot (as_u64 a.slot) (as_u64 b.slot) c.slots_at_startup
              ∙ first_slot b a c.slots_at_startup (cc))))
  slot-run_startup (b ∷ accounts) c db (suc i) a done h =
      let (c', db', next, slots) = run_startup-adds b accounts c db done in
      rw next (slot-run_startup accounts c' db' i a (sym (ap (λ r. r.0) next) ∙ done) h)

  module _ (view : D.State → Tables) (postgres : IsTransactional D view) where
    -- If PostgreSQL runs a query of several statements as a transaction, a client is given accounts
    -- at startup (with one reading of the clock), flushes them and then its slots, and no call fails, then the slot of every one
    -- of the accounts is in the table of slots, with the status of a rooted slot.
    pub startup-IsStored :
        (slot_now : ℕ → String) (accounts : List DbAccountInfo) (c : SimplePostgresClient)
        (db : D.State) (i : ℕ) (a : DbAccountInfo)
        → (then_slots X D slot_now (run_startup X D t accounts c db)).0 ≡ ok tt
        → get_elem? accounts i ≡ some a
        → IsStored
            (as_u64 a.slot)
            (X.status_text rooted)
            (view (then_slots X D slot_now (run_startup X D t accounts c db)).2)
    unfolding then_slots
    startup-IsStored slot_now accounts c db i a done h =
        at_reply (run_startup X D t accounts c db) done
          (λ e. slot-run_startup accounts c db i a e h)
      where
        at_reply :
            (r : Reply X D)
            → (then_slots X D slot_now r).0 ≡ ok tt
            → (r.0 ≡ ok tt → has (as_u64 a.slot) r.1.slots_at_startup ≡ true)
            → IsStored (as_u64 a.slot) (X.status_text rooted) (view (then_slots X D slot_now r).2)
        at_reply (ok _, c', db') finished member =
            flush_slots-IsRooted X D view postgres slot_now c'.slots_at_startup c' db'
              (as_u64 a.slot) finished (inl (member refl))
        at_reply (err e, c', db') finished member = cc
        at_reply (panic, c', db') finished member = cc
