-- ===== src/Transaction/ReadBack/Laws.antt =====
-- A row keeps all of a transaction's message and status, but the text of an error.
use solana_indexer_plugin.Base.{
  ℕ, as_u64, as_i64, as_u8, as_i16, as_u8-as_i16, as_u64-as_i64, none, some, List, map, All,
  AllSome, map_undone, map_undone_some, ◌≡◌, refl, arith, Option,
}
use solana_indexer_plugin.Transaction.{
  CompiledInstruction, InnerInstructions, TransactionTokenBalance, RewardType, Reward,
  TransactionStatusMeta, MessageHeader, MessageAddressTableLookup, LegacyMessage, LoadedMessage,
  SanitizedMessage, legacy, v0, db_header, db_instruction, db_address_table_lookup, db_message,
  db_loaded_message, db_inner_instructions, db_token_balance, db_reward_type, db_reward,
}
use solana_indexer_plugin.Transaction.ReadBack.{
  IsByte, IsWord, read_header, read_instruction, read_lookup, read_legacy, read_loaded, read_inner,
  read_token_balance, read_reward_type, read_reward,
}

-- What the types of the fields are in the source: `u8` for indices and counts, `u64` for amounts.
abbrev pub IsHeader : MessageHeader → Type 0
IsHeader h =
    IsByte h.num_required_signatures
    × IsByte h.num_readonly_signed_accounts
    × IsByte h.num_readonly_unsigned_accounts

abbrev pub IsInstruction : CompiledInstruction → Type 0
IsInstruction i = IsByte i.program_id_index × All IsByte i.accounts

abbrev pub IsLookup : MessageAddressTableLookup → Type 0
IsLookup l = All IsByte l.writable_indexes × All IsByte l.readonly_indexes

abbrev pub IsMessage : SanitizedMessage → Type 0
IsMessage (legacy m) = IsHeader m.header × All IsInstruction m.instructions
IsMessage (v0 m) =
    IsHeader m.message.header
    × All IsInstruction m.message.instructions
    × All IsLookup m.message.address_table_lookups

abbrev pub IsInner : InnerInstructions → Type 0
IsInner i = IsByte i.index × All IsInstruction i.instructions

abbrev pub IsTokenBalance : TransactionTokenBalance → Type 0
IsTokenBalance b = IsByte b.account_index

abbrev pub IsReward : Reward → Type 0
IsReward r = IsWord r.post_balance × AllSome IsByte r.commission

abbrev pub IsMeta : TransactionStatusMeta → Type 0
IsMeta m =
    IsWord m.fee
    × All IsWord m.pre_balances
    × All IsWord m.post_balances
    × AllSome (All IsInner) m.inner_instructions
    × AllSome (All IsTokenBalance) m.pre_token_balances
    × AllSome (All IsTokenBalance) m.post_token_balances
    × AllSome (All IsReward) m.rewards

pub bytes_back : (xs : List ℕ) → All IsByte xs → map as_u8 (map as_i16 xs) ≡ xs
bytes_back = map_undone IsByte as_i16 as_u8 as_u8-as_i16

pub words_back : (xs : List ℕ) → All IsWord xs → map as_u64 (map as_i64 xs) ≡ xs
words_back = map_undone IsWord as_i64 as_u64 as_u64-as_i64

pub read-db_header : (h : MessageHeader) → IsHeader h → read_header (db_header h) ≡ h
unfolding read_header db_header
read-db_header h ok = ground (
  arith,
  as_u8-as_i16 h.num_required_signatures ok.0,
  as_u8-as_i16 h.num_readonly_signed_accounts ok.1,
  as_u8-as_i16 h.num_readonly_unsigned_accounts ok.2,
)

pub read-db_instruction :
    (i : CompiledInstruction) → IsInstruction i → read_instruction (db_instruction i) ≡ i
unfolding read_instruction db_instruction
read-db_instruction i ok =
    ground (arith, as_u8-as_i16 i.program_id_index ok.0, bytes_back i.accounts ok.1)

pub read-db_lookup :
    (l : MessageAddressTableLookup) → IsLookup l → read_lookup (db_address_table_lookup l) ≡ l
unfolding read_lookup db_address_table_lookup
read-db_lookup l ok =
    ground (arith, bytes_back l.writable_indexes ok.0, bytes_back l.readonly_indexes ok.1)

pub instructions_back :
    (xs : List CompiledInstruction)
    → All IsInstruction xs
    → map read_instruction (map db_instruction xs) ≡ xs
instructions_back = map_undone IsInstruction db_instruction read_instruction read-db_instruction

pub read-db_message :
    (m : LegacyMessage)
    → IsHeader m.header
    → All IsInstruction m.instructions
    → read_legacy (db_message m) ≡ m
unfolding read_legacy db_message
read-db_message m h is =
    ground (arith, read-db_header m.header h, instructions_back m.instructions is)

pub read-db_loaded_message :
    (m : LoadedMessage)
    → IsHeader m.message.header
    → All IsInstruction m.message.instructions
    → All IsLookup m.message.address_table_lookups
    → read_loaded (db_loaded_message m) ≡ m
unfolding read_loaded db_loaded_message
read-db_loaded_message m h is ls = ground (
  arith,
  read-db_header m.message.header h,
  instructions_back m.message.instructions is,
  map_undone IsLookup db_address_table_lookup read_lookup read-db_lookup
      m.message.address_table_lookups ls,
)

pub read-db_inner : (i : InnerInstructions) → IsInner i → read_inner (db_inner_instructions i) ≡ i
unfolding read_inner db_inner_instructions
read-db_inner i ok =
    ground (arith, as_u8-as_i16 i.index ok.0, instructions_back i.instructions ok.1)

pub read-db_token_balance :
    (b : TransactionTokenBalance) → IsTokenBalance b → read_token_balance (db_token_balance b) ≡ b
unfolding read_token_balance db_token_balance
read-db_token_balance b ok = ground (arith, as_u8-as_i16 b.account_index ok)

pub read-db_reward_type : (t : RewardType) → Unit {0} → read_reward_type (db_reward_type t) ≡ t
unfolding read_reward_type db_reward_type
read-db_reward_type RewardType.fee h = refl
read-db_reward_type RewardType.rent h = refl
read-db_reward_type RewardType.staking h = refl
read-db_reward_type RewardType.voting h = refl

always : {A : Type 0} (o : Option A) → AllSome (λ a. Unit {0}) o
always none = tt
always (some a) = tt

pub read-db_reward : (r : Reward) → IsReward r → read_reward (db_reward r) ≡ r
unfolding read_reward db_reward
read-db_reward r ok = ground (
  arith,
  as_u64-as_i64 r.post_balance ok.0,
  map_undone_some IsByte as_i16 as_u8 as_u8-as_i16 r.commission ok.1,
  map_undone_some (λ t. Unit {0}) db_reward_type read_reward_type read-db_reward_type r.reward_type
      (always r.reward_type),
)
