-- ===== src/Account.antt =====
-- The account data of account_handler.rs, and the records that the handlers decode from it.
use solana_indexer_plugin.Base.{ℕ, ℤ, as_i64, Bytes, Bool, Option, none, List}

-- `ReplicaAccountInfoV2` of the plugin interface: what the validator hands over.
pub record ReplicaAccountInfoV2 : Type 0 where
  pub pubkey : Bytes
  pub lamports : ℕ
  pub owner : Bytes
  pub executable : Bool
  pub rent_epoch : ℕ
  pub contents : Bytes
  pub write_version : ℕ

-- `DbAccountInfo`; the field `data` is `contents` here.
pub record DbAccountInfo : Type 0 where
  pub pubkey : Bytes
  pub lamports : ℤ
  pub owner : Bytes
  pub executable : Bool
  pub rent_epoch : ℤ
  pub contents : Bytes
  pub slot : ℤ
  pub write_version : ℤ
  pub txn_signature : Option Bytes

-- `DbAccountInfo::new`
unfoldable pub new_account : ReplicaAccountInfoV2 → ℕ → DbAccountInfo
new_account account slot = record {
  pubkey = account.pubkey;
  lamports = as_i64 account.lamports;
  owner = account.owner;
  executable = account.executable;
  rent_epoch = as_i64 account.rent_epoch;
  contents = account.contents;
  slot = as_i64 slot;
  write_version = as_i64 account.write_version;
  txn_signature = none;
}

-- `Creator`
pub record Creator : Type 0 where
  pub address : Bytes
  pub verified : Bool
  pub share : ℕ

-- `TokenManager`
pub record TokenManager : Type 0 where
  pub version : ℕ
  pub bump : ℕ
  pub count : ℕ
  pub num_invalidators : ℕ
  pub issuer : Bytes
  pub mint : Bytes
  pub amount : ℕ
  pub kind : ℕ
  pub state : ℕ
  pub state_changed_at : ℤ
  pub invalidation_type : ℕ
  pub recipient_token_account : Bytes
  pub receipt_mint : Option Bytes
  pub claim_approver : Option Bytes
  pub transfer_authority : Option Bytes
  pub invalidators : List Bytes
