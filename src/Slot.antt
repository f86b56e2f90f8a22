-- ===== src/Slot.antt =====
-- slot_handler.rs
use solana_indexer_plugin.Base.{ℕ, as_u64, String, ◌<>◌, Option, none, some}
use solana_indexer_plugin.Errors.{Exit, ok, err, slot_status_update_error}
use solana_indexer_plugin.Crates.{Crates, SlotStatus}
use solana_indexer_plugin.Config.{done, failed}
use solana_indexer_plugin.Database.{Database}
use solana_indexer_plugin.Sql.{Statement, upsert_slot}

-- `SlotHandler::update`; `now` is the reading of the clock
abbrev pub update_slot : Crates → String → ℕ → Option ℕ → SlotStatus → Statement
update_slot X now slot parent status =
    upsert_slot
      (record { slot = slot; parent = parent; status = X.status_text status; updated_on = now })

-- `SlotHandler::get_highest_available_slot`
unfoldable pub get_highest_available_slot : (D : Database) → D.State → Exit ℕ
get_highest_available_slot D db =
    elim (D.query_opt "SELECT slot FROM slot ORDER BY slot DESC LIMIT 1;" db) [
      | done none ↦ ok 0
      | done (some raw_slot) ↦ ok (as_u64 raw_slot)
      | failed e ↦ err (
          slot_status_update_error
            ("Failed to receive last slot from PostgreSQL database. Error: " <> e))
    ]
