-- ===== src/Client/Unknown.antt =====
-- What the handler of unknown accounts writes in a batch.
use mathlib.Core.Option
use mathlib.Core.Option.{some-injective}
use solana_indexer_plugin.Base.{
  arith, false, ℕ, true, String, Option, some, List, [], ◌≡◌, inl, inr, refl, sym, ap, ◌∙◌, subst,
  Has, bind-eq-some, Option-cases, length,
}
use solana_indexer_plugin.Account.{DbAccountInfo}
use solana_indexer_plugin.Block.{DbBlockInfo}
use solana_indexer_plugin.Transaction.{DbTransaction}
use solana_indexer_plugin.Crates.{Crates}
use solana_indexer_plugin.Config.{AccountHandlerConfig, AccountsSelectorConfig}
use solana_indexer_plugin.Database.{Database}
use solana_indexer_plugin.Handlers.{
  all_account_handlers, from_str, get_handler, unknown_account, select_account_handlers,
  account_update, update_unknown_account,
}
use solana_indexer_plugin.Errors.{ok}
use solana_indexer_plugin.Sql.{is_empty-query_text, Statement, AccountRow}
use solana_indexer_plugin.Sql.Tables.{Tables}
use solana_indexer_plugin.Sql.UpToDate.{
  IsUpToDate, Writes, execute_all-IsUpToDate, Writes-IsUpToDate, Writes-no_statements,
  Writes-append, append-Writes,
}
use solana_indexer_plugin.Client.{
  SimplePostgresClient, update_later, execute_query, handler_query, handlers_query, account_query,
  batch_query, later,
}
use solana_indexer_plugin.Client.Refinement.{IsTransactional}
use solana_indexer_plugin.Client.Stable.{IsStable}
use solana_indexer_plugin.Client.Delivery.{IsDelivering}

-- The prepared statements of blocks and transactions write to tables of their own.
pub record IsSeparate (D : Database) (view : D.State → Tables) : Type 0 where
  pub block :
      (statement : String) (info : DbBlockInfo) (now : String) (db : D.State)
      → view (D.query_block statement info now db).1 ≡ view db
  pub transaction :
      (statement : String) (info : DbTransaction) (now : String) (db : D.State)
      → view (D.query_transaction statement info now db).1 ≡ view db

-- The row of an account, less the time at which it is written.
abbrev pub version_of : Crates → DbAccountInfo → AccountRow
version_of X account = record {
  pubkey = X.hex_encode account.pubkey;
  slot = account.slot;
  owner = X.hex_encode account.owner;
  lamports = account.lamports;
  executable = account.executable;
  rent_epoch = account.rent_epoch;
  contents = X.hex_encode account.contents;
  write_version = account.write_version;
  updated_on = "";
  txn_signature = Option.map X.hex_encode account.txn_signature;
}

module _ (X : Crates) (a : DbAccountInfo) where
  handler_query-Writes :
      (now : String) (h : AccountHandlerConfig) (q : List Statement)
      → from_str h.handler_id ≡ some unknown_account
      → handler_query X all_account_handlers now a h ≡ some q
      → Writes (version_of X a) q
  unfolding handler_query get_handler account_update update_unknown_account
  handler_query-Writes now h q id e =
      subst (λ r. Writes (version_of X a) r) (some-injective _ _ (rw id at e))
        (Writes.first (record (version_of X a) { updated_on = now }) [] refl refl refl)

  handlers_query-Writes :
      (h : AccountHandlerConfig) (id : from_str h.handler_id ≡ some unknown_account)
      (hs : List AccountHandlerConfig)
      → Has h hs
      → (now : ℕ → String) (q : List Statement)
      → handlers_query X all_account_handlers now a hs ≡ some q
      → Writes (version_of X a) q
  unfolding handlers_query
  handlers_query-Writes h id _ (Has.head b bs same) now q e =
      let (p, at_p, e') = bind-eq-some (handler_query X all_account_handlers (now 0) a b) _ e in
      let (rest, _, whole) =
        bind-eq-some (handlers_query X all_account_handlers (later 1 now) a bs) _ e' in
      subst (λ r. Writes (version_of X a) r) (some-injective _ _ whole)
        (append-Writes (version_of X a) p rest (
          handler_query-Writes (now 0) b p
            (ap (λ (k : AccountHandlerConfig). from_str k.handler_id) same ∙ id) at_p))
  handlers_query-Writes h id _ (Has.tail b bs has) now q e =
      let (p, _, e') = bind-eq-some (handler_query X all_account_handlers (now 0) a b) _ e in
      let (rest, at_rest, whole) =
        bind-eq-some (handlers_query X all_account_handlers (later 1 now) a bs) _ e' in
      subst (λ r. Writes (version_of X a) r) (some-injective _ _ whole)
        (Writes-append (version_of X a) p rest
          (handlers_query-Writes h id bs has (later 1 now) rest at_rest))

  module _ (selector : Option AccountsSelectorConfig) (h : AccountHandlerConfig)
      (id : from_str h.handler_id ≡ some unknown_account)
      (selected : Has h (select_account_handlers X selector a true)) where
    batch_query-Writes :
        (pending : List DbAccountInfo)
        → Has a pending
        → (now : ℕ → String) (q : List Statement)
        → batch_query X all_account_handlers selector now pending ≡ some q
        → Writes (version_of X a) q
    unfolding batch_query account_query
    batch_query-Writes _ (Has.head b bs same) now q e =
        let (p, at_p, e') =
          bind-eq-some (account_query X all_account_handlers selector now b true) _ e in
        let (rest, _, whole) =
          bind-eq-some (batch_query X all_account_handlers selector _ bs) _ e' in
        subst (λ r. Writes (version_of X a) r) (some-injective _ _ whole)
          (append-Writes (version_of X a) p rest (
            handlers_query-Writes h id (select_account_handlers X selector a true) selected now p (
              ap (λ k. account_query X all_account_handlers selector now k true) (sym same)
              ∙ at_p)))
    batch_query-Writes _ (Has.tail b bs has) now q e =
        let (p, _, e') =
          bind-eq-some (account_query X all_account_handlers selector now b true) _ e in
        let (rest, at_rest, whole) =
          bind-eq-some (batch_query X all_account_handlers selector _ bs) _ e' in
        subst (λ r. Writes (version_of X a) r) (some-injective _ _ whole)
          (Writes-append (version_of X a) p rest (
            batch_query-Writes bs has
              (later (length (select_account_handlers X selector b true)) now) rest at_rest))

module _ (X : Crates) (D : Database) (view : D.State → Tables)
    (postgres : IsTransactional D view) where
  pub IsUpToDate-IsStable :
      (separate : IsSeparate D view) (written : AccountRow)
      → IsStable D (λ db. IsUpToDate written (view db))
  IsUpToDate-IsStable separate written = record {
    batch = λ q db h. elim (Option-cases (D.batch_execute q db).0) [
      | inl done ↦ rw (postgres.executed q db done) (execute_all-IsUpToDate written q (view db) h)
      | inr (e, failed) ↦ rw (postgres.rolled_back q db e failed) h
    ];
    block = λ statement info now db h. rw (separate.block statement info now db) h;
    transaction = λ statement info now db h. rw (separate.transaction statement info now db) h;
  }

  pub unknown-IsDelivering :
      (a : DbAccountInfo) (c : SimplePostgresClient) (h : AccountHandlerConfig)
      → c.account_handlers ≡ all_account_handlers
      → Has h (select_account_handlers X c.account_selector a true)
      → from_str h.handler_id ≡ some unknown_account
      → IsDelivering X D a (λ db. IsUpToDate (version_of X a) (view db)) c
  unknown-IsDelivering a c h handlers selected id = λ now pending q db has e accepted.
      rw (postgres.executed q db accepted) (
        Writes-IsUpToDate (version_of X a) q (view db) (
          batch_query-Writes X a c.account_selector h id selected pending has now q
            (ap (λ hs. batch_query X hs c.account_selector now pending) (sym handlers) ∙ e)))

  -- An update after the startup that succeeds leaves the table up to date.
  pub update_later-IsUpToDate :
      (now : ℕ → String) (a : DbAccountInfo) (c : SimplePostgresClient) (db : D.State)
      (h : AccountHandlerConfig)
      → c.account_handlers ≡ all_account_handlers
      → Has h (select_account_handlers X c.account_selector a false)
      → from_str h.handler_id ≡ some unknown_account
      → (update_later X D now a c db).0 ≡ ok tt
      → IsUpToDate (version_of X a) (view (update_later X D now a c db).2)
  unfolding update_later execute_query account_query
  update_later-IsUpToDate now a c db h handlers selected id done =
      elim (Option-cases (account_query X c.account_handlers c.account_selector now a false)) [
        | inl e ↦ absurd (ground arith)
        | inr (q, e) ↦
            let written =
              handlers_query-Writes X a h id (select_account_handlers X c.account_selector a false)
                selected now q
                (ap (λ hs. account_query X hs c.account_selector now a false) (sym handlers) ∙ e) in
            let some_text =
              is_empty-query_text q ∙ Writes-no_statements (version_of X a) q written in
            elim (Option-cases (D.batch_execute q db).0) [
              | inl f ↦
                  rw (update_later, e, some_text, execute_query, f)
                    (rw (postgres.executed q db f)
                      (Writes-IsUpToDate (version_of X a) q (view db) written))
              | inr (m, f) ↦ absurd (ground (arith, some_text))
            ]
      ]
