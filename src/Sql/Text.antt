-- ===== src/Sql/Text.antt =====
-- The text of each statement, as `format!` writes it, and the text of a query.
use solana_indexer_plugin.Base.{
  ℕ, Bool, ◌≡◌, refl, true, false, ◌<>◌, String, Option, none, some, List, [], ◌∷◌, ◌++◌,
}
use solana_indexer_plugin.Base.{decimal, signed, bool_text, join, is_empty, is_empty-append}
use text.Mathlib.TextLemmas.{append_assoc, nil-append}
use solana_indexer_plugin.Sql.Rows.{
  SlotRow, AccountRow, SplTokenAccountRow, CreatorRow, TokenManagerRow, Statement, upsert_slot,
  upsert_account, upsert_token_account, upsert_creator, upsert_token_manager,
}

-- `parent.map_or("NULL".to_string(), |p| p.to_string())`
or_null : Option ℕ → String
or_null none = "NULL"
or_null (some n) = decimal n

-- `map_or("NULL".to_string(), |t| format!("'..'", t))`, with what stands before the text
quoted_or_null : String → Option String → String
quoted_or_null prefix none = "NULL"
quoted_or_null prefix (some t) = "'" <> (prefix <> (t <> "'"))

-- slot_handler.rs
slot_text : SlotRow → String
slot_text row =
    "\n                INSERT INTO slot (slot, parent, status, updated_on) VALUES ("
    <> decimal row.slot
    <> ", "
    <> or_null row.parent
    <> ", '"
    <> row.status
    <> "', '"
    <> row.updated_on
    <> "') ON CONFLICT (slot) DO UPDATE SET parent=excluded.parent, status=excluded.status, updated_on=excluded.updated_on;\n            "

-- unknown_account_handler.rs
account_text : AccountRow → String
account_text row =
    "\n                INSERT INTO account AS acct (pubkey, slot, owner, lamports, executable, rent_epoch, data, write_version, updated_on, txn_signature) VALUES ('\\x"
    <> row.pubkey
    <> "', "
    <> signed row.slot
    <> ", '\\x"
    <> row.owner
    <> "', "
    <> signed row.lamports
    <> ", "
    <> bool_text row.executable
    <> ", "
    <> signed row.rent_epoch
    <> ", '\\x"
    <> row.contents
    <> "', "
    <> signed row.write_version
    <> ", '"
    <> row.updated_on
    <> "', "
    <> quoted_or_null "\\x" row.txn_signature
    <> ") ON CONFLICT (pubkey) DO UPDATE SET\n                    slot=excluded.slot, owner=excluded.owner, lamports=excluded.lamports, executable=excluded.executable, rent_epoch=excluded.rent_epoch, data=excluded.data, write_version=excluded.write_version, updated_on=excluded.updated_on, txn_signature=excluded.txn_signature WHERE acct.slot < excluded.slot OR (acct.slot = excluded.slot AND acct.write_version < excluded.write_version);\n            "

-- token_account_handler.rs
token_account_text : SplTokenAccountRow → String
token_account_text row =
    "\n                INSERT INTO spl_token_account AS spl_token_entry (pubkey, owner, mint, slot) VALUES ('"
    <> row.pubkey
    <> "', '"
    <> row.owner
    <> "', '"
    <> row.mint
    <> "', "
    <> signed row.slot
    <> ") ON CONFLICT (pubkey, owner, mint) DO UPDATE SET slot=excluded.slot WHERE spl_token_entry.slot < excluded.slot;\n            "

-- metadata_creators_account_handler.rs
creator_text : CreatorRow → String
creator_text row =
    "\n                    INSERT INTO token_metadata_creators AS acc (mint, creator, verified, share, position, slot) VALUES ('"
    <> row.mint
    <> "', '"
    <> row.creator
    <> "', "
    <> bool_text row.verified
    <> ", "
    <> decimal row.share
    <> ", "
    <> decimal row.position
    <> ", "
    <> signed row.slot
    <> ") ON CONFLICT (mint, creator) DO UPDATE SET slot=excluded.slot, verified=excluded.verified WHERE acc.slot < excluded.slot;\n                "

-- token_manager_handler.rs
token_manager_text : TokenManagerRow → String
token_manager_text row =
    "\n            INSERT INTO token_manager AS acc (id, version, bump, count, num_invalidators, issuer, mint, amount, kind, state, state_changed_at, invalidation_type, recipient_token_account, receipt_mint, claim_approver, transfer_authority, invalidators, slot) VALUES ('"
    <> row.id
    <> "', "
    <> decimal row.version
    <> ", "
    <> decimal row.bump
    <> ", "
    <> decimal row.count
    <> ", "
    <> decimal row.num_invalidators
    <> ", '"
    <> row.issuer
    <> "', '"
    <> row.mint
    <> "', "
    <> decimal row.amount
    <> ", "
    <> decimal row.kind
    <> ", "
    <> decimal row.state
    <> ", "
    <> signed row.state_changed_at
    <> ", "
    <> decimal row.invalidation_type
    <> ", '"
    <> row.recipient_token_account
    <> "', "
    <> quoted_or_null "" row.receipt_mint
    <> ", "
    <> quoted_or_null "" row.claim_approver
    <> ", "
    <> quoted_or_null "" row.transfer_authority
    <> ", '"
    <> ("{" <> (join "," row.invalidators <> "}"))
    <> "', "
    <> signed row.slot
    <> ") ON CONFLICT (id) DO UPDATE SET num_invalidators=excluded.num_invalidators, issuer=excluded.issuer, kind=excluded.kind, state=excluded.state, state_changed_at=excluded.state_changed_at, invalidation_type=excluded.invalidation_type, invalidators=excluded.invalidators WHERE acc.slot < excluded.slot;\n            "

unfoldable pub statement_text : Statement → String
unfolding slot_text account_text token_account_text creator_text token_manager_text or_null
    quoted_or_null
statement_text (upsert_slot row) = slot_text row
statement_text (upsert_account row) = account_text row
statement_text (upsert_token_account row) = token_account_text row
statement_text (upsert_creator row) = creator_text row
statement_text (upsert_token_manager row) = token_manager_text row

-- `.collect::<Vec<String>>().join("")`
unfoldable pub query_text : List Statement → String
query_text [] = ""
query_text (s ∷ q) = statement_text s <> query_text q

pub query_text-append : (p q : List Statement) → query_text (p ++ q) ≡ query_text p <> query_text q
unfolding query_text
query_text-append [] q = rw nil-append
query_text-append (s ∷ p) q = rw (query_text-append p q, append_assoc)

is_empty-statement_text : (s : Statement) → is_empty (statement_text s) ≡ false
unfolding statement_text
is_empty-statement_text (upsert_slot row) = simp is_empty-append
is_empty-statement_text (upsert_account row) = simp is_empty-append
is_empty-statement_text (upsert_token_account row) = simp is_empty-append
is_empty-statement_text (upsert_creator row) = simp is_empty-append
is_empty-statement_text (upsert_token_manager row) = simp is_empty-append

abbrev pub no_statements : List Statement → Bool
no_statements [] = true
no_statements (s ∷ q) = false

-- The text is empty only if there is no statement.
pub is_empty-query_text : (q : List Statement) → is_empty (query_text q) ≡ no_statements q
unfolding query_text
is_empty-query_text [] = refl
is_empty-query_text (s ∷ q) = rw (is_empty-append, is_empty-statement_text s)
