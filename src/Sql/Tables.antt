-- ===== src/Sql/Tables.antt =====
-- What the statements do to the tables: `INSERT .. ON CONFLICT (key) DO UPDATE SET .. WHERE ..`.
use solana_indexer_plugin.Base.{
  ltb_ℤ, eqb_ℤ, str_eq, Bool, ◌&&◌, ◌||◌, List, [], ◌∷◌, ◌++◌, ◌≡◌, refl, ◌==◌, if◌then◌else◌,
}
use solana_indexer_plugin.Sql.Rows.{
  SlotRow, AccountRow, SplTokenAccountRow, CreatorRow, TokenManagerRow,
}
use solana_indexer_plugin.Sql.Rows.{
  Statement, upsert_slot, upsert_account, upsert_token_account, upsert_creator,
  upsert_token_manager,
}

-- A table holds at most one row that conflicts with a new one: `merge old new` replaces it.
module _ {R : Type 0} (conflicts : R → R → Bool) (merge : R → R → R) where
  unfoldable pub upsert : R → List R → List R
  upsert new [] = new ∷ []
  upsert new (old ∷ rows) =
      if conflicts old new then merge old new ∷ rows else old ∷ upsert new rows

  -- New rows in turn.
  unfoldable pub upsert_all : List R → List R → List R
  unfolding upsert
  upsert_all [] rows = rows
  upsert_all (new ∷ news) rows = upsert_all news (upsert new rows)

-- ON CONFLICT (slot) DO UPDATE SET parent, status, updated_on
abbrev pub slot_conflicts : SlotRow → SlotRow → Bool
slot_conflicts old new = old.slot == new.slot

unfoldable pub merge_slot : SlotRow → SlotRow → SlotRow
merge_slot old new = record old {
  parent = new.parent;
  status = new.status;
  updated_on = new.updated_on;
}

-- ON CONFLICT (pubkey) DO UPDATE SET all other columns, where the new version is later
abbrev pub account_conflicts : AccountRow → AccountRow → Bool
account_conflicts old new = str_eq old.pubkey new.pubkey

-- acct.slot < excluded.slot
-- OR (acct.slot = excluded.slot AND acct.write_version < excluded.write_version)
unfoldable pub account_newer : AccountRow → AccountRow → Bool
account_newer old new =
    ltb_ℤ old.slot new.slot
    || (eqb_ℤ old.slot new.slot && ltb_ℤ old.write_version new.write_version)

unfoldable pub merge_account : AccountRow → AccountRow → AccountRow
merge_account old new =
    if account_newer old new
    then record old {
      slot = new.slot;
      owner = new.owner;
      lamports = new.lamports;
      executable = new.executable;
      rent_epoch = new.rent_epoch;
      contents = new.contents;
      write_version = new.write_version;
      updated_on = new.updated_on;
      txn_signature = new.txn_signature;
    }
    else old

-- ON CONFLICT (pubkey, owner, mint) DO UPDATE SET slot, where the new slot is later
abbrev pub token_account_conflicts : SplTokenAccountRow → SplTokenAccountRow → Bool
token_account_conflicts old new =
    str_eq old.pubkey new.pubkey && (str_eq old.owner new.owner && str_eq old.mint new.mint)

unfoldable pub merge_token_account : SplTokenAccountRow → SplTokenAccountRow → SplTokenAccountRow
merge_token_account old new =
    if ltb_ℤ old.slot new.slot then record old { slot = new.slot } else old

-- ON CONFLICT (mint, creator) DO UPDATE SET slot, verified, where the new slot is later
abbrev pub creator_conflicts : CreatorRow → CreatorRow → Bool
creator_conflicts old new = str_eq old.mint new.mint && str_eq old.creator new.creator

unfoldable pub merge_creator : CreatorRow → CreatorRow → CreatorRow
merge_creator old new =
    if ltb_ℤ old.slot new.slot then record old { slot = new.slot; verified = new.verified } else old

-- ON CONFLICT (id) DO UPDATE SET seven columns, `slot` not among them, where the new slot is later
abbrev pub token_manager_conflicts : TokenManagerRow → TokenManagerRow → Bool
token_manager_conflicts old new = str_eq old.id new.id

unfoldable pub merge_token_manager : TokenManagerRow → TokenManagerRow → TokenManagerRow
merge_token_manager old new =
    if ltb_ℤ old.slot new.slot
    then record old {
      num_invalidators = new.num_invalidators;
      issuer = new.issuer;
      kind = new.kind;
      state = new.state;
      state_changed_at = new.state_changed_at;
      invalidation_type = new.invalidation_type;
      invalidators = new.invalidators;
    }
    else old

pub record Tables : Type 0 where
  pub slots : List SlotRow
  pub accounts : List AccountRow
  pub token_accounts : List SplTokenAccountRow
  pub creators : List CreatorRow
  pub token_managers : List TokenManagerRow

abbrev pub no_rows : Tables
no_rows = record {
  slots = [];
  accounts = [];
  token_accounts = [];
  creators = [];
  token_managers = [];
}

unfoldable pub execute : Statement → Tables → Tables
unfolding upsert
execute (upsert_slot row) t = record t { slots = upsert slot_conflicts merge_slot row t.slots }
execute (upsert_account row) t = record t {
  accounts = upsert account_conflicts merge_account row t.accounts;
}
execute (upsert_token_account row) t = record t {
  token_accounts = upsert token_account_conflicts merge_token_account row t.token_accounts;
}
execute (upsert_creator row) t = record t {
  creators = upsert creator_conflicts merge_creator row t.creators;
}
execute (upsert_token_manager row) t = record t {
  token_managers = upsert token_manager_conflicts merge_token_manager row t.token_managers;
}

-- The statements of a query, in order.
unfoldable pub execute_all : List Statement → Tables → Tables
execute_all [] t = t
execute_all (s ∷ q) t = execute_all q (execute s t)

pub execute_all-append :
    (p q : List Statement) (t : Tables) → execute_all (p ++ q) t ≡ execute_all q (execute_all p t)
unfolding execute_all
execute_all-append [] q t = refl
execute_all-append (s ∷ p) q t = execute_all-append p q (execute s t)
