-- ===== src/Handlers/MetadataCreators.antt =====
-- metadata_creators_account_handler.rs
use solana_indexer_plugin.Base.{
  ℕ, suc, ℤ, Bool, not, ◌&&◌, Bytes, bytes_eq, Option, none, some, List, [], ◌∷◌, get_elem?,
  get_range?, get_from?, bind, if◌then◌else◌, ◌==◌,
}
use mathlib.Core.Option.{get_or}
use solana_indexer_plugin.Account.{DbAccountInfo, Creator}
use solana_indexer_plugin.Crates.{Crates}
use solana_indexer_plugin.Sql.{Statement, upsert_creator}

abbrev pub metadata_program_id : Crates → Bytes
metadata_program_id X = X.pubkey "metaqbxxUerdq28cj1RbAWkYQm3ybzjb6a8bt518x1s"

abbrev pub token_metadata_mint_offset : ℕ
token_metadata_mint_offset = 33

abbrev pub token_metadata_creators_offset : ℕ
token_metadata_creators_offset = 322

-- `MetadataCreatorsAccountHandler::account_match`
unfoldable pub match_metadata : Crates → DbAccountInfo → Bool
match_metadata X account =
    bytes_eq account.owner (metadata_program_id X) && (4 == get_or (get_elem? account.contents 0) 0)

-- One statement for each creator, numbered from `index`.
unfoldable pub creator_statements : Crates → Bytes → ℤ → ℕ → List Creator → List Statement
creator_statements X mint slot index [] = []
creator_statements X mint slot index (c ∷ creators) =
    upsert_creator (record {
      mint = X.bs58_encode mint;
      creator = X.bs58_encode c.address;
      verified = c.verified;
      share = c.share;
      position = index;
      slot = slot;
    })
    ∷ creator_statements X mint slot (suc index) creators

-- The creators decoded from the bytes at their offset.
unfoldable pub creators_of : Crates → DbAccountInfo → Bytes → Option (List Statement)
unfolding creator_statements
creators_of X account buf = elim (X.deserialize_creators buf) [
  | none ↦ some []
  | some creators ↦
      bind (get_range? account.contents token_metadata_mint_offset 32)
        (λ mint. some (creator_statements X mint account.slot 0 creators))
]

-- From the first byte at the offset on: a zero there means that there is no creator.
unfoldable pub creators_at : Crates → DbAccountInfo → Bytes → Option (List Statement)
creators_at X account buf =
    bind (get_elem? buf 0) (λ first. if first == 0 then some [] else creators_of X account buf)

-- `MetadataCreatorsAccountHandler::account_update`
unfoldable pub update_metadata_creators : Crates → DbAccountInfo → Option (List Statement)
update_metadata_creators X account =
    if not (match_metadata X account)
    then some []
    else bind (get_from? account.contents token_metadata_creators_offset) (creators_at X account)
