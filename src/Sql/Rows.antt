-- ===== src/Sql/Rows.antt =====
-- The values that one statement writes, a record for each `INSERT` of the handlers.
use solana_indexer_plugin.Base.{ℕ, ℤ, String, Bool, Option, List}

-- slot_handler.rs, `SlotHandler::update`
pub record SlotRow : Type 0 where
  pub slot : ℕ
  pub parent : Option ℕ
  pub status : String
  pub updated_on : String

-- unknown_account_handler.rs; the byte columns are the hexadecimal digits of their literals
pub record AccountRow : Type 0 where
  pub pubkey : String
  pub slot : ℤ
  pub owner : String
  pub lamports : ℤ
  pub executable : Bool
  pub rent_epoch : ℤ
  pub contents : String
  pub write_version : ℤ
  pub updated_on : String
  pub txn_signature : Option String

-- token_account_handler.rs
pub record SplTokenAccountRow : Type 0 where
  pub pubkey : String
  pub owner : String
  pub mint : String
  pub slot : ℤ

-- metadata_creators_account_handler.rs
pub record CreatorRow : Type 0 where
  pub mint : String
  pub creator : String
  pub verified : Bool
  pub share : ℕ
  pub position : ℕ
  pub slot : ℤ

-- token_manager_handler.rs
pub record TokenManagerRow : Type 0 where
  pub id : String
  pub version : ℕ
  pub bump : ℕ
  pub count : ℕ
  pub num_invalidators : ℕ
  pub issuer : String
  pub mint : String
  pub amount : ℕ
  pub kind : ℕ
  pub state : ℕ
  pub state_changed_at : ℤ
  pub invalidation_type : ℕ
  pub recipient_token_account : String
  pub receipt_mint : Option String
  pub claim_approver : Option String
  pub transfer_authority : Option String
  pub invalidators : List String
  pub slot : ℤ

pub data Statement : Type 0 where
  upsert_slot : SlotRow → Statement
  upsert_account : AccountRow → Statement
  upsert_token_account : SplTokenAccountRow → Statement
  upsert_creator : CreatorRow → Statement
  upsert_token_manager : TokenManagerRow → Statement
