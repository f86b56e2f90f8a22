-- ===== src/Tests/Delivery.antt =====
-- That no account is lost, in a run with one worker.
use solana_indexer_plugin.Base.{
  zero, suc, ℕ, ◌<◌, true, false, [], ◌∷◌, ◌++◌, refl, arith, lookup, Has, none,
}
use solana_indexer_plugin.Client
use solana_indexer_plugin.Client.{
  SimplePostgresClient, update_later, update_at_startup, insert_slot, flush, execute_query,
  batch_query, account_query, handlers_query, handler_query, then_slots, flush_slots,
}
use solana_indexer_plugin.Handlers.{
  select_account_handlers, replaced_by, not_skipped, from_str, get_handler, account_update,
  update_unknown_account,
}
use solana_indexer_plugin.Sql.{is_empty-query_text, upsert_account}
use solana_indexer_plugin.Sql.Tables.{no_rows}
use solana_indexer_plugin.Worker
use solana_indexer_plugin.Worker.{
  WorkRequest, handle_request, handle_end_of_startup, after_call, flow, perform, do_work, Received,
  exiting, ParallelClientWorker,
}
use solana_indexer_plugin.Parallel.{System, Reach, Step, Move, initial, receiving, busy}
use solana_indexer_plugin.Parallel.Answered.{IsFree, later_account-IsUpToDate}
use solana_indexer_plugin.Parallel.UpToDate.{startup_account-IsUpToDate}
use solana_indexer_plugin.Client.Unknown.{IsSeparate, version_of}
use solana_indexer_plugin.Sql.UpToDate.{IsUpToDate}
use solana_indexer_plugin.Tests.Data.{
  crates, memory, memory-IsTransactional, client, account, account_row,
}
use solana_indexer_plugin.Tests.Startup.{
  clock, worked, started, sent, ended, sent-Reach, flushed-Reach,
}

-- The tables hold neither blocks nor transactions.
memory-IsSeparate : IsSeparate memory (λ tables. tables)
memory-IsSeparate = record {
  block = λ statement info now tables. refl;
  transaction = λ statement info now tables. refl;
}

startup_account-IsUpToDate_example : IsUpToDate (version_of crates account) ended.shared.db
unfolding from_str select_account_handlers replaced_by not_skipped lookup
startup_account-IsUpToDate_example =
    startup_account-IsUpToDate crates memory (λ tables. tables) memory-IsTransactional
      memory-IsSeparate 1 no_rows client sent ended account
      (record { handler_id = "unknown_account"; skip_on_startup = none }) refl refl
      (Has.head _ _ refl) refl sent-Reach (Has.head _ _ refl) flushed-Reach refl

abbrev requested : System memory
requested = record started {
  shared = record started.shared { queue = [] ++ (Worker.update_account account false ∷ []) };
}

requested-Reach : Reach crates memory true 1 (initial memory no_rows client) requested
requested-Reach =
    Reach.next {t = started}
      (Reach.next Reach.here
        (Step.work _ 0 _ _ (omega arith) (Move.start _ _ client refl refl (refl, refl))))
      (Step.send _ (Worker.update_account account false) refl (λ done. refl) (omega arith))

abbrev in_hand : System memory
in_hand =
    worked requested (record requested.shared { queue = [] })
      (record (requested.workers 0) { phase = busy (Worker.update_account account false) })

abbrev answered : System memory
answered =
    worked in_hand
      (record in_hand.shared {
        db =
            (handle_request crates memory true clock (Worker.update_account account false)
              (in_hand.workers 0).worker no_rows).2;
      })
      (record {
        phase = receiving;
        worker =
            (handle_request crates memory true clock (Worker.update_account account false)
              (in_hand.workers 0).worker no_rows).1;
      })

answered-Reach : Reach crates memory true 1 requested answered
unfolding handle_request after_call flow perform solana_indexer_plugin.Client.update_account
    update_later execute_query account_query handlers_query handler_query select_account_handlers
    replaced_by not_skipped from_str get_handler account_update update_unknown_account lookup
answered-Reach =
    Reach.next {t = in_hand}
      (Reach.next Reach.here (
        Step.work _ 0 _ _ (omega arith)
          (Move.take _ _ (Worker.update_account account false) [] refl refl)))
      (Step.work _ 0 _ _ (omega arith) (
        Move.finish _ _ (Worker.update_account account false) clock refl
          (rw (is_empty-query_text (upsert_account (account_row 7 1) ∷ [])) refl)))

answered-IsFree : (i : ℕ) → i < 1 → IsFree (answered.workers i).phase
answered-IsFree zero b = tt
answered-IsFree (suc i) b = absurd (omega arith)

later_account-IsUpToDate_example : IsUpToDate (version_of crates account) answered.shared.db
unfolding from_str select_account_handlers replaced_by not_skipped lookup
later_account-IsUpToDate_example =
    later_account-IsUpToDate crates memory (λ tables. tables) memory-IsTransactional
      memory-IsSeparate 1 no_rows client requested answered account
      (record { handler_id = "unknown_account"; skip_on_startup = none }) refl (Has.head _ _ refl)
      refl requested-Reach (Has.head _ _ refl) answered-Reach refl answered-IsFree
