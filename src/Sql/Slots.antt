-- ===== src/Sql/Slots.antt =====
-- The table of slots.
use solana_indexer_plugin.Base.{
  ℕ, String, Bool, true, Option, none, some, ◌≡◌, refl, ◌∙◌, arith, ◌==◌, ==_iff, if◌then◌else◌,
  Bool-cases, inl, inr,
}
use solana_indexer_plugin.Sql.Rows.{SlotRow, upsert_slot}
use solana_indexer_plugin.Sql.Tables.{Tables, slot_conflicts, merge_slot, execute}
use solana_indexer_plugin.Sql.Latest.{find, IsKey, find-upsert, absorb}

abbrev pub has_slot : ℕ → SlotRow → Bool
has_slot slot row = row.slot == slot

slot-IsKey : (slot : ℕ) → IsKey slot_conflicts (has_slot slot)
slot-IsKey slot = record {
  agree = λ a b h. ground (arith, ==_iff a.slot b.slot);
  total = λ a b p q. ground (arith, ==_iff a.slot slot, ==_iff b.slot slot);
}

find-execute_slot :
    (slot : ℕ) (row : SlotRow) (t : Tables)
    → find (has_slot slot) (execute (upsert_slot row) t).slots ≡ (
        if has_slot slot row
        then some (absorb merge_slot (find (has_slot slot) t.slots) row)
        else find (has_slot slot) t.slots)
unfolding execute merge_slot
find-execute_slot slot row t =
    find-upsert slot_conflicts merge_slot (has_slot slot) (slot-IsKey slot) (λ a b. refl) row
      t.slots

-- The table has a row of the slot, with the status.
abbrev pub IsStored : ℕ → String → Tables → Type 0
IsStored slot status t =
    (row : SlotRow) × (find (has_slot slot) t.slots ≡ some row) × (row.status ≡ status)

status-absorb : (o : Option SlotRow) (row : SlotRow) → (absorb merge_slot o row).status ≡ row.status
unfolding merge_slot
status-absorb none row = refl
status-absorb (some old) row = refl

-- A row that is written has its status, whatever was stored.
pub written-IsStored :
    (slot : ℕ) (row : SlotRow) (t : Tables)
    → has_slot slot row ≡ true
    → IsStored slot row.status (execute (upsert_slot row) t)
written-IsStored slot row t h = (
  absorb merge_slot (find (has_slot slot) t.slots) row,
  find-execute_slot slot row t ∙ rw h refl,
  status-absorb (find (has_slot slot) t.slots) row,
)

-- A status stays when it is written again, for this slot or another.
pub kept-IsStored :
    (slot : ℕ) (row : SlotRow) (t : Tables)
    → IsStored slot row.status t
    → IsStored slot row.status (execute (upsert_slot row) t)
kept-IsStored slot row t (old, found, status) = elim (Bool-cases (has_slot slot row)) [
  | inl same ↦ written-IsStored slot row t same
  | inr other ↦ (old, find-execute_slot slot row t ∙ rw other found, status)
]
