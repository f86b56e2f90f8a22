-- ===== src/Sql/UpToDate.antt =====
-- The table of accounts has a version of an account that is not older than one that was written.
use solana_indexer_plugin.Base.{
  Bool, true, false, Option, none, some, List, [], ◌∷◌, ◌≡◌, inl, inr, refl, ◌∙◌, arith, Bool-cases,
  eq_iff, ◌++◌,
}
use solana_indexer_plugin.Sql.Text.{no_statements}
use solana_indexer_plugin.Sql.Rows.{AccountRow, Statement, upsert_account}
use solana_indexer_plugin.Sql.Tables.{Tables, execute_all, account_newer}
use solana_indexer_plugin.Sql.Latest.{find, settle, latest, settle-not_older}
use solana_indexer_plugin.Sql.Accounts.{
  has_pubkey, account_rows, account_newer-IsVersionOrder, find-execute_all,
}

-- The table has a row of the public key, and its version is not older than that of `written`.
abbrev pub IsUpToDate : AccountRow → Tables → Type 0
IsUpToDate written t =
    (row : AccountRow) × (find (has_pubkey written.pubkey) t.accounts ≡ some row)
    × (account_newer row written ≡ false)

-- The query writes a row of the same public key and version.
pub data Writes (written : AccountRow) : List Statement → Type 0 where
  first :
      (row : AccountRow) (q : List Statement)
      → row.pubkey ≡ written.pubkey
      → row.slot ≡ written.slot
      → row.write_version ≡ written.write_version
      → Writes written (upsert_account row ∷ q)
  others : (s : Statement) (q : List Statement) → Writes written q → Writes written (s ∷ q)

settle-some :
    (mine : AccountRow → Bool) (r : AccountRow) (us : List AccountRow)
    → (z : AccountRow) × (settle account_newer mine (some r) us ≡ some z)
unfolding settle
settle-some mine r [] = (r, refl)
settle-some mine r (u ∷ us) = elim (Bool-cases (mine u)) [
  | inl own ↦ rw (settle, own) (settle-some mine (latest account_newer (some r) u) us)
  | inr other ↦ rw (settle, other) (settle-some mine r us)
]

not_newer_trans :
    (a b c : AccountRow)
    → account_newer a b ≡ false
    → account_newer b c ≡ false
    → account_newer a c ≡ false
not_newer_trans a b c h k = ground (arith, account_newer-IsVersionOrder.cotrans a c b)

-- More statements keep the table up to date.
pub execute_all-IsUpToDate :
    (written : AccountRow) (q : List Statement) (t : Tables)
    → IsUpToDate written t
    → IsUpToDate written (execute_all q t)
execute_all-IsUpToDate written q t (row, found, not_older) =
    let mine = has_pubkey written.pubkey in
    let (z, settled) = settle-some mine row (account_rows q) in
    let newer =
      settle-not_older account_newer account_newer-IsVersionOrder mine row (account_rows q) z
        settled in
    (
      z,
      find-execute_all q t written.pubkey ∙ (rw found settled),
      not_newer_trans z row written newer not_older,
    )

same_version :
    (row written : AccountRow)
    → row.slot ≡ written.slot
    → row.write_version ≡ written.write_version
    → account_newer row written ≡ false
unfolding account_newer
same_version row written s v = ground arith

latest_not_older :
    (o : Option AccountRow) (row : AccountRow)
    → account_newer (latest account_newer o row) row ≡ false
latest_not_older none row = ground (arith, account_newer-IsVersionOrder.asym row row)
latest_not_older (some r) row = ground (arith, account_newer-IsVersionOrder.asym row row)

row-IsUpToDate :
    (written row : AccountRow) (t : Tables)
    → row.pubkey ≡ written.pubkey
    → row.slot ≡ written.slot
    → row.write_version ≡ written.write_version
    → IsUpToDate written (execute_all (upsert_account row ∷ []) t)
unfolding account_rows settle
row-IsUpToDate written row t k s v =
    let mine = has_pubkey written.pubkey in
    let o = find mine t.accounts in
    let own : mine row ≡ true = (eq_iff row.pubkey written.pubkey).1 k in
    (
      latest account_newer o row,
      find-execute_all (upsert_account row ∷ []) t written.pubkey ∙ rw own refl,
      not_newer_trans (latest account_newer o row) row written (latest_not_older o row)
          (same_version row written s v),
    )

-- A query that writes the version leaves the table up to date.
pub Writes-IsUpToDate :
    (written : AccountRow) (q : List Statement) (t : Tables)
    → Writes written q
    → IsUpToDate written (execute_all q t)
unfolding execute_all
Writes-IsUpToDate written _ t (Writes.first row q k s v) =
    execute_all-IsUpToDate written q _ (row-IsUpToDate written row t k s v)
Writes-IsUpToDate written _ t (Writes.others s q w) = Writes-IsUpToDate written q _ w

pub Writes-append :
    (written : AccountRow) (p q : List Statement) → Writes written q → Writes written (p ++ q)
Writes-append written [] q w = w
Writes-append written (s ∷ p) q w = Writes.others s (p ++ q) (Writes-append written p q w)

pub append-Writes :
    (written : AccountRow) (p q : List Statement) → Writes written p → Writes written (p ++ q)
append-Writes written _ q (Writes.first row p k s v) = Writes.first row (p ++ q) k s v
append-Writes written _ q (Writes.others s p w) =
    Writes.others s (p ++ q) (append-Writes written p q w)

pub Writes-no_statements :
    (written : AccountRow) (q : List Statement) → Writes written q → no_statements q ≡ false
Writes-no_statements written _ (Writes.first row q k s v) = refl
Writes-no_statements written _ (Writes.others s q w) = refl
