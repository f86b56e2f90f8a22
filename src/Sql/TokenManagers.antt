-- ===== src/Sql/TokenManagers.antt =====
-- The table `token_manager`: what its `ON CONFLICT` clause keeps. token_manager_handler.rs.
use solana_indexer_plugin.Base.{
  Bool, true, some, String, [], ◌∷◌, ◌≡◌, refl, ◌∙◌, arith, str_eq, eq_iff, ltb_ℤ,
}
use solana_indexer_plugin.Sql.Rows.{TokenManagerRow, upsert_token_manager}
use solana_indexer_plugin.Sql.Tables.{
  Tables, execute, execute_all, token_manager_conflicts, merge_token_manager,
}
use solana_indexer_plugin.Sql.Latest.{find, IsKey, find-upsert}

abbrev pub has_id : String → TokenManagerRow → Bool
has_id id row = str_eq row.id id

id-IsKey : (id : String) → IsKey token_manager_conflicts (has_id id)
id-IsKey id = record {
  agree = λ a b h. ground (arith, eq_iff a.id b.id);
  total = λ a b h k. ground (arith, eq_iff a.id id, eq_iff b.id id, eq_iff a.id b.id);
}

merge_token_manager-keeps_id :
    (id : String) (a b : TokenManagerRow) → has_id id (merge_token_manager a b) ≡ has_id id a
unfolding merge_token_manager
merge_token_manager-keeps_id id a b = ground arith

-- One more statement for a row that is there.
find-execute :
    (t : Tables) (old new : TokenManagerRow) (id : String)
    → find (has_id id) t.token_managers ≡ some old
    → has_id id new ≡ true
    → find (has_id id) (execute (upsert_token_manager new) t).token_managers
      ≡ some (merge_token_manager old new)
unfolding execute
find-execute t old new id h k =
    find-upsert token_manager_conflicts merge_token_manager (has_id id) (id-IsKey id)
      (merge_token_manager-keeps_id id) new t.token_managers
    ∙ rw (k, h) refl

-- An update of a token manager that is stored leaves the stored slot as it was, whatever the
-- update's slot is.
pub slot-find :
    (t : Tables) (old new : TokenManagerRow) (id : String)
    → find (has_id id) t.token_managers ≡ some old
    → has_id id new ≡ true
    → (row : TokenManagerRow) × (find
          (has_id id)
          (execute (upsert_token_manager new) t).token_managers
        ≡ some row)
      × (row.slot ≡ old.slot)
unfolding merge_token_manager
slot-find t old new id h k =
    (merge_token_manager old new, find-execute t old new id h k, ground arith)

-- A stale update wins: with a stored row, two updates of later slots that arrive newest first leave
-- the state of the older update.
pub state-find_stale :
    (t : Tables) (old older newest : TokenManagerRow) (id : String)
    → find (has_id id) t.token_managers ≡ some old
    → has_id id older ≡ true
    → has_id id newest ≡ true
    → ltb_ℤ old.slot older.slot ≡ true
    → ltb_ℤ older.slot newest.slot ≡ true
    → (row : TokenManagerRow) × (find
          (has_id id)
          (execute_all
            (upsert_token_manager newest ∷ upsert_token_manager older ∷ [])
            t).token_managers
        ≡ some row)
      × (row.state ≡ older.state)
unfolding execute_all merge_token_manager
state-find_stale t old older newest id h k l p q = (
  merge_token_manager (merge_token_manager old newest) older,
  find-execute (execute (upsert_token_manager newest) t) (merge_token_manager old newest) older id
      (find-execute t old newest id h l) k,
  ground arith,
)
