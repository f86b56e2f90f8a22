-- ===== src/Sql/Creators.antt =====
-- The table `token_metadata_creators`: what its `ON CONFLICT` clause keeps.
-- metadata_creators_account_handler.rs.
use solana_indexer_plugin.Base.{
  Bool, false, ◌&&◌, some, String, List, [], ◌∷◌, ◌≡◌, refl, ◌∙◌, arith, str_eq, eq_iff, ltb_ℤ,
  Bool-cases, inl, inr,
}
use solana_indexer_plugin.Sql.Rows.{
  CreatorRow, Statement, upsert_slot, upsert_account, upsert_token_account, upsert_creator,
  upsert_token_manager,
}
use solana_indexer_plugin.Sql.Tables.{
  Tables, execute, execute_all, creator_conflicts, merge_creator,
}
use solana_indexer_plugin.Sql.Latest.{find, IsKey, find-upsert}

abbrev pub is_of : String → String → CreatorRow → Bool
is_of mint creator row = str_eq row.mint mint && str_eq row.creator creator

creator-IsKey : (mint creator : String) → IsKey creator_conflicts (is_of mint creator)
creator-IsKey mint creator = record {
  agree = λ a b h. ground (arith, eq_iff a.mint b.mint, eq_iff a.creator b.creator);
  total = λ a b h k. ground (
    arith,
    eq_iff a.mint mint,
    eq_iff b.mint mint,
    eq_iff a.mint b.mint,
    eq_iff a.creator creator,
    eq_iff b.creator creator,
    eq_iff a.creator b.creator,
  );
}

merge_creator-keeps_key :
    (mint creator : String) (a b : CreatorRow)
    → is_of mint creator (merge_creator a b) ≡ is_of mint creator a
unfolding merge_creator
merge_creator-keeps_key mint creator a b = ground arith

-- The columns of a stored row that an update should change, but does not; and its slot.
pub record Keeps (old row : CreatorRow) : Type 0 where
  pub share : row.share ≡ old.share
  pub position : row.position ≡ old.position
  pub slot : ltb_ℤ row.slot old.slot ≡ false

Keeps-merge_creator : (old row new : CreatorRow) → Keeps old row → Keeps old (merge_creator row new)
unfolding merge_creator
Keeps-merge_creator old row new k = record {
  share = ground (arith, k.share);
  position = ground (arith, k.position);
  slot = ground (arith, k.slot);
}

module _ (mint creator : String) (old : CreatorRow) where
  abbrev IsKept : Tables → Type 0
  IsKept t = (row : CreatorRow) × (find (is_of mint creator) t.creators ≡ some row) × Keeps old row

  written-IsKept :
      (new : CreatorRow) (t : Tables) → IsKept t → IsKept (execute (upsert_creator new) t)
  unfolding execute
  written-IsKept new t (row, found, k) =
      let after =
        find-upsert creator_conflicts merge_creator (is_of mint creator)
          (creator-IsKey mint creator) (merge_creator-keeps_key mint creator) new t.creators in
      elim (Bool-cases (is_of mint creator new)) [
        | inl own ↦
            (merge_creator row new, after ∙ rw (own, found) refl, Keeps-merge_creator old row new k)
        | inr other ↦ (row, after ∙ rw (other, found) refl, k)
      ]

  execute_all-IsKept : (q : List Statement) (t : Tables) → IsKept t → IsKept (execute_all q t)
  unfolding execute_all execute
  execute_all-IsKept [] t k = k
  execute_all-IsKept (upsert_slot row ∷ q) t k = execute_all-IsKept q _ k
  execute_all-IsKept (upsert_account row ∷ q) t k = execute_all-IsKept q _ k
  execute_all-IsKept (upsert_token_account row ∷ q) t k = execute_all-IsKept q _ k
  execute_all-IsKept (upsert_creator row ∷ q) t k =
      execute_all-IsKept q (execute (upsert_creator row) t) (written-IsKept row t k)
  execute_all-IsKept (upsert_token_manager row ∷ q) t k = execute_all-IsKept q _ k

  -- Whatever statements follow, the stored row of a mint's creator is never removed, keeps its share
  -- and its position, and its slot never decreases.
  pub find-Keeps :
      (q : List Statement) (t : Tables)
      → find (is_of mint creator) t.creators ≡ some old
      → (row : CreatorRow) × (find (is_of mint creator) (execute_all q t).creators ≡ some row)
        × Keeps old row
  find-Keeps q t found =
      execute_all-IsKept q t
        (old, found, record { share = refl; position = refl; slot = ground arith })
