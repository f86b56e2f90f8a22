-- ===== src/Tests/Tables.antt =====
-- The tables after some statements.
use std.HLevel.{hedberg}
use mathlib.Core.Logic.Or
use mathlib.Core.List.{Permᴰ, Mem, eq-or-mem_of_mem-cons, not-mem-nil}
use solana_indexer_plugin.Base.{
  String, str_eq, eq_iff, Bool-cases, false, sym, ◌∙◌, ℕ, pos, true, none, some, List, [], ◌∷◌, ◌≡◌,
  refl, arith, inl, inr,
}
use solana_indexer_plugin.Sql.{
  Statement, AccountRow, SplTokenAccountRow, TokenManagerRow, upsert_account, upsert_token_account,
  upsert_token_manager,
}
use solana_indexer_plugin.Sql.Tables.{
  Tables, no_rows, execute, execute_all, upsert, account_newer, merge_account, merge_token_account,
}
use solana_indexer_plugin.Sql.Latest.{find, IsLatest, AllOrdered}
use solana_indexer_plugin.Sql.Accounts.{
  account_rows, has_pubkey, find-IsLatest, find-order_independent,
}
use solana_indexer_plugin.Sql.TokenAccounts.{
  token_account_rows, has_key, slot_newer, Key, token_find-IsLatest, token_find-order_independent,
}
use solana_indexer_plugin.Sql.TokenManagers.{has_id, slot-find, state-find_stale}
use solana_indexer_plugin.Tests.Data.{account_row}

-- The newer version of an account arrives first.
abbrev history : List Statement
history = upsert_account (account_row 7 2) ∷ upsert_account (account_row 7 1) ∷ []

find-IsLatest_example :
    IsLatest account_newer (has_pubkey "aaab") (account_rows history) (account_row 7 2)
unfolding execute_all execute upsert merge_account account_newer find
find-IsLatest_example = find-IsLatest history no_rows "aaab" (account_row 7 2) refl

-- The same statements in the other order.
abbrev other_history : List Statement
other_history = upsert_account (account_row 7 1) ∷ upsert_account (account_row 7 2) ∷ []

String-discrete : Discrete String
String-discrete s t = elim (Bool-cases (str_eq s t)) [
  | inl e ↦ yes ((eq_iff s t).0 e)
  | inr d ↦ no (λ e. ground (arith, eq_iff s t))
]

AccountRow-set : IsSet AccountRow
AccountRow-set = hlevel (hedberg String-discrete)

swapped : Permᴰ (account_rows history) (account_rows other_history)
unfolding account_rows
swapped = Permᴰ.swap refl refl

one_of :
    {C : Type 0} {u : AccountRow}
    → IsProp C
    → (u ≡ account_row 7 2 → C)
    → (u ≡ account_row 7 1 → C)
    → Mem u (account_rows history)
    → C
unfolding account_rows
one_of c f g m =
    Or.elim c (eq-or-mem_of_mem-cons m) f
      (λ n. Or.elim c (eq-or-mem_of_mem-cons n) g (λ k. absurd (not-mem-nil k)))

same :
    (u v : AccountRow)
    → Mem u (account_rows history)
    → Mem v (account_rows history)
    → account_newer u v ≡ false
    → account_newer v u ≡ false
    → u ≡ v
unfolding account_newer
same u v m n p q =
    let newer : account_newer (account_row 7 1) (account_row 7 2) ≡ true = refl in
    one_of (AccountRow-set u v) (λ e. one_of (AccountRow-set u v) (λ f. e ∙ sym f) (λ f. cc) n)
      (λ e. one_of (AccountRow-set u v) (λ f. cc) (λ f. e ∙ sym f) n) m

ordered : AllOrdered account_newer (has_pubkey "aaab") (account_rows history)
ordered u v m n p q = elim (Bool-cases (account_newer u v)) [
  | inl later ↦ inr (inl later)
  | inr r ↦ elim (Bool-cases (account_newer v u)) [
    | inl later ↦ inr (inr later)
    | inr t ↦ inl (same u v m n r t)
  ]
]

find-order_independent_example :
    find (has_pubkey "aaab") (execute_all history no_rows).accounts
    ≡ find (has_pubkey "aaab") (execute_all other_history no_rows).accounts
find-order_independent_example =
    find-order_independent history other_history no_rows "aaab" swapped ordered

abbrev key : Key
key = record { pubkey = "a"; owner = "b"; mint = "c" }

abbrev token_row : ℕ → SplTokenAccountRow
token_row slot = record { pubkey = "a"; owner = "b"; mint = "c"; slot = pos slot }

abbrev token_history : List Statement
token_history = upsert_token_account (token_row 8) ∷ upsert_token_account (token_row 7) ∷ []

token_find-IsLatest_example :
    IsLatest slot_newer (has_key key) (token_account_rows token_history) (token_row 8)
unfolding execute_all execute upsert merge_token_account find
token_find-IsLatest_example = token_find-IsLatest token_history no_rows key (token_row 8) refl

abbrev other_token_history : List Statement
other_token_history = upsert_token_account (token_row 7) ∷ upsert_token_account (token_row 8) ∷ []

token_swapped : Permᴰ (token_account_rows token_history) (token_account_rows other_token_history)
unfolding token_account_rows
token_swapped = Permᴰ.swap refl refl

SplTokenAccountRow-set : IsSet SplTokenAccountRow
SplTokenAccountRow-set = hlevel (hedberg String-discrete)

one_of_tokens :
    {C : Type 0} {u : SplTokenAccountRow}
    → IsProp C
    → (u ≡ token_row 8 → C)
    → (u ≡ token_row 7 → C)
    → Mem u (token_account_rows token_history)
    → C
unfolding token_account_rows
one_of_tokens c f g m =
    Or.elim c (eq-or-mem_of_mem-cons m) f
      (λ n. Or.elim c (eq-or-mem_of_mem-cons n) g (λ k. absurd (not-mem-nil k)))

same_token :
    (u v : SplTokenAccountRow)
    → Mem u (token_account_rows token_history)
    → Mem v (token_account_rows token_history)
    → slot_newer u v ≡ false
    → slot_newer v u ≡ false
    → u ≡ v
same_token u v m n p q =
    let newer : slot_newer (token_row 7) (token_row 8) ≡ true = refl in
    one_of_tokens (SplTokenAccountRow-set u v)
      (λ e. one_of_tokens (SplTokenAccountRow-set u v) (λ f. e ∙ sym f) (λ f. cc) n)
      (λ e. one_of_tokens (SplTokenAccountRow-set u v) (λ f. cc) (λ f. e ∙ sym f) n) m

token_ordered : AllOrdered slot_newer (has_key key) (token_account_rows token_history)
token_ordered u v m n p q = elim (Bool-cases (slot_newer u v)) [
  | inl later ↦ inr (inl later)
  | inr r ↦ elim (Bool-cases (slot_newer v u)) [
    | inl later ↦ inr (inr later)
    | inr t ↦ inl (same_token u v m n r t)
  ]
]

token_find-order_independent_example :
    find (has_key key) (execute_all token_history no_rows).token_accounts
    ≡ find (has_key key) (execute_all other_token_history no_rows).token_accounts
token_find-order_independent_example =
    token_find-order_independent token_history other_token_history no_rows key token_swapped
      token_ordered

-- A token manager's row of a slot and a state.
abbrev manager : ℕ → ℕ → TokenManagerRow
manager slot state = record {
  id = "m";
  version = 0;
  bump = 0;
  count = 0;
  num_invalidators = 0;
  issuer = "";
  mint = "";
  amount = 1;
  kind = 0;
  state = state;
  state_changed_at = pos 0;
  invalidation_type = 0;
  recipient_token_account = "";
  receipt_mint = none;
  claim_approver = none;
  transfer_authority = none;
  invalidators = [];
  slot = pos slot;
}

abbrev managers : Tables
managers = record no_rows { token_managers = manager 5 0 ∷ [] }

slot-find_example :
    (row : TokenManagerRow) × (find
        (has_id "m")
        (execute (upsert_token_manager (manager 9 1)) managers).token_managers
      ≡ some row)
    × (row.slot ≡ pos 5)
unfolding find
slot-find_example = slot-find managers (manager 5 0) (manager 9 1) "m" refl refl

state-find_stale_example :
    (row : TokenManagerRow) × (find
        (has_id "m")
        (execute_all
          (upsert_token_manager (manager 9 2) ∷ upsert_token_manager (manager 7 1) ∷ [])
          managers).token_managers
      ≡ some row)
    × (row.state ≡ 1)
unfolding find
state-find_stale_example =
    state-find_stale managers (manager 5 0) (manager 7 1) (manager 9 2) "m" refl refl refl refl refl
