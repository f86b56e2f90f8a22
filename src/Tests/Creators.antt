-- ===== src/Tests/Creators.antt =====
-- The rows of a creator whose share changes.
use solana_indexer_plugin.Base.{ℕ, true, pos, ◌≡◌, some, [], ◌∷◌, refl}
use solana_indexer_plugin.Sql.{CreatorRow, upsert_creator}
use solana_indexer_plugin.Sql.Tables.{Tables, no_rows, execute_all}
use solana_indexer_plugin.Sql.Latest.{find}
use solana_indexer_plugin.Sql.Creators.{is_of, Keeps, find-Keeps}

abbrev creator_row : ℕ → ℕ → CreatorRow
creator_row share slot = record {
  mint = "m";
  creator = "c";
  verified = true;
  share = share;
  position = 0;
  slot = pos slot;
}

-- The table with a creator that has all of the shares.
abbrev stored : Tables
stored = record no_rows { creators = creator_row 100 7 ∷ [] }

find-Keeps_example :
    (row : CreatorRow) × (find
        (is_of "m" "c")
        (execute_all (upsert_creator (creator_row 50 8) ∷ []) stored).creators
      ≡ some row)
    × Keeps (creator_row 100 7) row
unfolding find
find-Keeps_example =
    find-Keeps "m" "c" (creator_row 100 7) (upsert_creator (creator_row 50 8) ∷ []) stored refl
