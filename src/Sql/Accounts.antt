-- ===== src/Sql/Accounts.antt =====
-- The table `account` after any statements, whatever their order: unknown_account_handler.rs.
use mathlib.Core.List.{Permᴰ}
use solana_indexer_plugin.Base.{
  Bool, true, some, String, List, [], ◌∷◌, ◌≡◌, refl, ◌∙◌, ap, arith, str_eq, eq_iff, if◌then◌else◌,
}
use solana_indexer_plugin.Sql.Rows.{
  AccountRow, Statement, upsert_slot, upsert_account, upsert_token_account, upsert_creator,
  upsert_token_manager,
}
use solana_indexer_plugin.Sql.Tables.{
  Tables, upsert_all, execute, execute_all, account_conflicts, merge_account, account_newer,
}
use solana_indexer_plugin.Sql.Latest.{
  IsVersionOrder, IsLatest, AllOrdered, settle, settle-IsLatest, settle-Permᴰ, find, IsKey,
  find-upsert_all,
}

-- The account rows that a query writes.
unfoldable pub account_rows : List Statement → List AccountRow
account_rows [] = []
account_rows (upsert_slot _ ∷ q) = account_rows q
account_rows (upsert_account row ∷ q) = row ∷ account_rows q
account_rows (upsert_token_account _ ∷ q) = account_rows q
account_rows (upsert_creator _ ∷ q) = account_rows q
account_rows (upsert_token_manager _ ∷ q) = account_rows q

abbrev pub has_pubkey : String → AccountRow → Bool
has_pubkey pubkey row = str_eq row.pubkey pubkey

accounts-execute_all :
    (q : List Statement) (t : Tables)
    → (execute_all q t).accounts
      ≡ upsert_all account_conflicts merge_account (account_rows q) t.accounts
unfolding execute_all execute account_rows upsert_all
accounts-execute_all [] t = refl
accounts-execute_all (upsert_slot row ∷ q) t = accounts-execute_all q _
accounts-execute_all (upsert_account row ∷ q) t = accounts-execute_all q _
accounts-execute_all (upsert_token_account row ∷ q) t = accounts-execute_all q _
accounts-execute_all (upsert_creator row ∷ q) t = accounts-execute_all q _
accounts-execute_all (upsert_token_manager row ∷ q) t = accounts-execute_all q _

pub account_newer-IsVersionOrder : IsVersionOrder account_newer
unfolding account_newer
account_newer-IsVersionOrder = record {
  asym = λ a b h. ground arith;
  cotrans = λ a b c h k. ground arith;
}

pubkey-IsKey : (pubkey : String) → IsKey account_conflicts (has_pubkey pubkey)
pubkey-IsKey pubkey = record {
  agree = λ a b h. ground (arith, eq_iff a.pubkey b.pubkey);
  total = λ a b h k.
      ground (arith, eq_iff a.pubkey pubkey, eq_iff b.pubkey pubkey, eq_iff a.pubkey b.pubkey);
}

merge_account-keeps_pubkey :
    (pubkey : String) (a b : AccountRow)
    → has_pubkey pubkey (merge_account a b) ≡ has_pubkey pubkey a
unfolding merge_account
merge_account-keeps_pubkey pubkey a b = ground arith

merge_account_exact :
    (pubkey : String) (a b : AccountRow)
    → has_pubkey pubkey a ≡ true
    → has_pubkey pubkey b ≡ true
    → merge_account a b ≡ (if account_newer a b then b else a)
unfolding merge_account
merge_account_exact pubkey a b h k = ground (arith, eq_iff a.pubkey pubkey, eq_iff b.pubkey pubkey)

pub find-execute_all :
    (q : List Statement) (t : Tables) (pubkey : String)
    → find (has_pubkey pubkey) (execute_all q t).accounts
      ≡ settle account_newer
          (has_pubkey pubkey)
          (find (has_pubkey pubkey) t.accounts)
          (account_rows q)
find-execute_all q t pubkey =
    ap (find (has_pubkey pubkey)) (accounts-execute_all q t)
    ∙ find-upsert_all account_conflicts merge_account (has_pubkey pubkey) (pubkey-IsKey pubkey)
        (merge_account-keeps_pubkey pubkey) account_newer (merge_account_exact pubkey)
        (account_rows q) t.accounts

-- After any statements, none of the rows that they write for the public key of a row of the table
-- has a later version (slot, then write version) than that row.
pub find-IsLatest :
    (q : List Statement) (t : Tables) (pubkey : String) (row : AccountRow)
    → find (has_pubkey pubkey) (execute_all q t).accounts ≡ some row
    → IsLatest account_newer (has_pubkey pubkey) (account_rows q) row
find-IsLatest q t pubkey row h =
    settle-IsLatest account_newer account_newer-IsVersionOrder (has_pubkey pubkey) _
      (account_rows q) row (rw find-execute_all at h)

-- Two histories that write the same account rows in different orders leave the same row for each
-- public key, if any two different rows of that key in the first have different versions.
pub find-order_independent :
    (p q : List Statement) (t : Tables) (pubkey : String)
    → Permᴰ (account_rows p) (account_rows q)
    → AllOrdered account_newer (has_pubkey pubkey) (account_rows p)
    → find (has_pubkey pubkey) (execute_all p t).accounts
      ≡ find (has_pubkey pubkey) (execute_all q t).accounts
find-order_independent p q t pubkey d h =
    rw (find-execute_all p t pubkey, find-execute_all q t pubkey)
      (settle-Permᴰ account_newer account_newer-IsVersionOrder (has_pubkey pubkey) _ d h)
