-- ===== src/Sql/TokenAccounts.antt =====
-- The table `spl_token_account` after any statements, whatever their order: token_account_handler.rs.
use mathlib.Core.List.{Permᴰ}
use solana_indexer_plugin.Base.{
  Bool, true, some, String, List, [], ◌∷◌, ◌≡◌, refl, ◌∙◌, ap, arith, str_eq, eq_iff, if◌then◌else◌,
  ltb_ℤ, ◌&&◌,
}
use solana_indexer_plugin.Sql.Rows.{
  SplTokenAccountRow, Statement, upsert_slot, upsert_account, upsert_token_account, upsert_creator,
  upsert_token_manager,
}
use solana_indexer_plugin.Sql.Tables.{
  Tables, upsert_all, execute, execute_all, token_account_conflicts, merge_token_account,
}
use solana_indexer_plugin.Sql.Latest.{
  IsVersionOrder, IsLatest, AllOrdered, settle, settle-IsLatest, settle-Permᴰ, find, IsKey,
  find-upsert_all,
}

-- The account rows that a query writes.
unfoldable pub token_account_rows : List Statement → List SplTokenAccountRow
token_account_rows [] = []
token_account_rows (upsert_slot _ ∷ q) = token_account_rows q
token_account_rows (upsert_account _ ∷ q) = token_account_rows q
token_account_rows (upsert_token_account row ∷ q) = row ∷ token_account_rows q
token_account_rows (upsert_creator _ ∷ q) = token_account_rows q
token_account_rows (upsert_token_manager _ ∷ q) = token_account_rows q

-- The unique index of the table, and a value of it.
pub record Key : Type 0 where
  pub pubkey : String
  pub owner : String
  pub mint : String

abbrev pub has_key : Key → SplTokenAccountRow → Bool
has_key k row = str_eq row.pubkey k.pubkey && (str_eq row.owner k.owner && str_eq row.mint k.mint)

-- spl_token_entry.slot < excluded.slot
abbrev pub slot_newer : SplTokenAccountRow → SplTokenAccountRow → Bool
slot_newer old new = ltb_ℤ old.slot new.slot

token_accounts-execute_all :
    (q : List Statement) (t : Tables)
    → (execute_all q t).token_accounts
      ≡ upsert_all token_account_conflicts merge_token_account
          (token_account_rows q)
          t.token_accounts
unfolding execute_all execute token_account_rows upsert_all
token_accounts-execute_all [] t = refl
token_accounts-execute_all (upsert_slot row ∷ q) t = token_accounts-execute_all q _
token_accounts-execute_all (upsert_account row ∷ q) t = token_accounts-execute_all q _
token_accounts-execute_all (upsert_token_account row ∷ q) t = token_accounts-execute_all q _
token_accounts-execute_all (upsert_creator row ∷ q) t = token_accounts-execute_all q _
token_accounts-execute_all (upsert_token_manager row ∷ q) t = token_accounts-execute_all q _

pub slot_newer-IsVersionOrder : IsVersionOrder slot_newer
slot_newer-IsVersionOrder = record {
  asym = λ a b h. ground arith;
  cotrans = λ a b c h k. ground arith;
}

has_key_eq :
    (k : Key) (a b : SplTokenAccountRow)
    → has_key k a ≡ true
    → has_key k b ≡ true
    → (a.pubkey ≡ b.pubkey) × (a.owner ≡ b.owner) × (a.mint ≡ b.mint)
has_key_eq k a b h g = ground (
  arith,
  eq_iff a.pubkey k.pubkey,
  eq_iff b.pubkey k.pubkey,
  eq_iff a.owner k.owner,
  eq_iff b.owner k.owner,
  eq_iff a.mint k.mint,
  eq_iff b.mint k.mint,
)

key-IsKey : (k : Key) → IsKey token_account_conflicts (has_key k)
key-IsKey k = record {
  agree = λ a b h.
      ground (arith, eq_iff a.pubkey b.pubkey, eq_iff a.owner b.owner, eq_iff a.mint b.mint);
  total = λ a b h g. ground (
    arith,
    has_key_eq k a b,
    eq_iff a.pubkey b.pubkey,
    eq_iff a.owner b.owner,
    eq_iff a.mint b.mint,
  );
}

merge_token_account-keeps_key :
    (k : Key) (a b : SplTokenAccountRow) → has_key k (merge_token_account a b) ≡ has_key k a
unfolding merge_token_account
merge_token_account-keeps_key k a b = ground arith

merge_token_account_exact :
    (k : Key) (a b : SplTokenAccountRow)
    → has_key k a ≡ true
    → has_key k b ≡ true
    → merge_token_account a b ≡ (if slot_newer a b then b else a)
unfolding merge_token_account
merge_token_account_exact k a b h g = ground (arith, has_key_eq k a b h g)

pub find-execute_all :
    (q : List Statement) (t : Tables) (k : Key)
    → find (has_key k) (execute_all q t).token_accounts
      ≡ settle slot_newer (has_key k) (find (has_key k) t.token_accounts) (token_account_rows q)
find-execute_all q t k =
    ap (find (has_key k)) (token_accounts-execute_all q t)
    ∙ find-upsert_all token_account_conflicts merge_token_account (has_key k) (key-IsKey k)
        (merge_token_account-keeps_key k) slot_newer (merge_token_account_exact k)
        (token_account_rows q) t.token_accounts

-- After any statements, none of the rows that they write for the key of a row of the table has a
-- later slot than that row.
pub token_find-IsLatest :
    (q : List Statement) (t : Tables) (k : Key) (row : SplTokenAccountRow)
    → find (has_key k) (execute_all q t).token_accounts ≡ some row
    → IsLatest slot_newer (has_key k) (token_account_rows q) row
token_find-IsLatest q t k row h =
    settle-IsLatest slot_newer slot_newer-IsVersionOrder (has_key k) _ (token_account_rows q) row
      (rw find-execute_all at h)

-- Two histories that write the same token account rows in different orders leave the same row for each
-- key, if any two different rows of that key in the first have different versions.
pub token_find-order_independent :
    (p q : List Statement) (t : Tables) (k : Key)
    → Permᴰ (token_account_rows p) (token_account_rows q)
    → AllOrdered slot_newer (has_key k) (token_account_rows p)
    → find (has_key k) (execute_all p t).token_accounts
      ≡ find (has_key k) (execute_all q t).token_accounts
token_find-order_independent p q t k d h =
    rw (find-execute_all p t k, find-execute_all q t k)
      (settle-Permᴰ slot_newer slot_newer-IsVersionOrder (has_key k) _ d h)
