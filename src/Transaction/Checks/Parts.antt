-- ===== src/Transaction/Checks/Parts.antt =====
-- The checks of the unit tests on the parts of a row that the code builds.
use mathlib.Core.Option
use mathlib.Core.Option.{some-injective}
use solana_indexer_plugin.Base.{
  ℕ, ℤ, as_u64, as_i64, as_u8, as_i16, as_u8-as_i16, as_u64-as_i64, eqb_ℤ, pos, negsuc, Bytes,
  bytes_eq, bytes_eq_iff, str_eq, eq_iff, Bool, true, ◌==◌, ==_iff, String, Option, none, some,
  List, [], ◌∷◌, map, All, AllSome, ◌≡◌, refl, sym, arith,
}
use solana_indexer_plugin.Transaction.Source.{
  CompiledInstruction, InnerInstructions, Reward, MessageHeader, MessageAddressTableLookup,
  LegacyMessage, V0Message, LoadedMessage, SanitizedMessage, legacy, v0,
}
use solana_indexer_plugin.Transaction.Rows.{DbRewardType, DbTransaction}
use solana_indexer_plugin.Transaction.Conversion.{
  db_header, db_instruction, db_address_table_lookup, db_message, db_message_v0, db_loaded_message,
  db_loaded_addresses, db_inner_instructions, db_reward, get_reward_type, legacy_message,
  v0_loaded_message, message_type,
}
use solana_indexer_plugin.Transaction.ReadBack.{IsByte, IsWord}
use solana_indexer_plugin.Transaction.ReadBack.Laws.{
  IsHeader, IsInstruction, IsLookup, IsMessage, IsInner, IsReward,
}
use solana_indexer_plugin.Transaction.Checks.{
  each, both, reward_type_eq, check_compiled_instruction_equality,
  check_inner_instructions_equality, check_address_table_lookups_equality, check_reward_equality,
  check_message_header_equality, check_transaction_message_equality,
  check_transaction_message_v0_equality, check_loaded_addresses, check_loaded_message_v0_equality,
  check_message,
}

-- A check that every converted item passes.
pub each-map {ℓ κ μ} :
    {A : Type ℓ} {B : Type κ} (P : A → Type μ) (check : A → B → Bool) (f : A → B)
    → ((x : A) → P x → check x (f x) ≡ true)
    → (xs : List A) → All P xs
    → each check xs (map f xs) ≡ true
unfolding each
each-map P check f passes [] h = refl
each-map P check f passes (x ∷ xs) h =
    ground (arith, passes x h.0, each-map P check f passes xs h.1)

pub each-same {ℓ μ} :
    {A : Type ℓ} (P : A → Type μ) (check : A → A → Bool)
    → ((x : A) → P x → check x x ≡ true)
    → (xs : List A) → All P xs
    → each check xs xs ≡ true
unfolding each
each-same P check passes [] h = refl
each-same P check passes (x ∷ xs) h = ground (arith, passes x h.0, each-same P check passes xs h.1)

pub both-map {ℓ κ μ} :
    {A : Type ℓ} {B : Type κ} (P : A → Type μ) (check : A → B → Bool) (f : A → B)
    → ((x : A) → P x → check x (f x) ≡ true)
    → (o : Option A) → AllSome P o
    → both check o (Option.map f o) ≡ true
unfolding both
both-map P check f passes none h = refl
both-map P check f passes (some x) h = passes x h

pub both-same {ℓ} :
    {A : Type ℓ} (check : A → A → Bool)
    → ((x : A) → check x x ≡ true)
    → (o : Option A) → both check o o ≡ true
unfolding both
both-same check passes none = refl
both-same check passes (some x) = passes x

pub all {ℓ} : {A : Type ℓ} (xs : List A) → All (λ x. Unit {0}) xs
all [] = tt
all (x ∷ xs) = (tt, all xs)

pub str_eq-same : (s : String) → str_eq s s ≡ true
str_eq-same s = (eq_iff s s).1 refl

pub bytes_eq-same : (xs : Bytes) → bytes_eq xs xs ≡ true
bytes_eq-same xs = (bytes_eq_iff xs xs).1 refl

pub same_keys : (ks : List Bytes) → each bytes_eq ks ks ≡ true
same_keys ks = each-same (λ k. Unit {0}) bytes_eq (λ k h. bytes_eq-same k) ks (all ks)

pub byte_passes : (n : ℕ) → IsByte n → (n == as_u8 (as_i16 n)) ≡ true
byte_passes n h = (==_iff n (as_u8 (as_i16 n))).1 (sym (as_u8-as_i16 n h))

pub word_passes : (n : ℕ) → IsWord n → (n == as_u64 (as_i64 n)) ≡ true
word_passes n h = (==_iff n (as_u64 (as_i64 n))).1 (sym (as_u64-as_i64 n h))

pub bytes_pass :
    (ns : List ℕ) → All IsByte ns → each (λ a b. a == as_u8 b) ns (map as_i16 ns) ≡ true
bytes_pass = each-map IsByte (λ a b. a == as_u8 b) as_i16 byte_passes

pub words_pass :
    (ns : List ℕ) → All IsWord ns → each (λ a b. a == as_u64 b) ns (map as_i64 ns) ≡ true
words_pass = each-map IsWord (λ a b. a == as_u64 b) as_i64 word_passes

pub eqb_ℤ-same : (z : ℤ) → eqb_ℤ z z ≡ true
eqb_ℤ-same (pos n) = ground arith
eqb_ℤ-same (negsuc n) = ground arith

pub instruction_passes :
    (i : CompiledInstruction)
    → IsInstruction i
    → check_compiled_instruction_equality i (db_instruction i) ≡ true
unfolding check_compiled_instruction_equality db_instruction
instruction_passes i ok = ground (
  arith,
  byte_passes i.program_id_index ok.0,
  bytes_pass i.accounts ok.1,
  bytes_eq-same i.contents,
)

pub header_passes :
    (h : MessageHeader) → IsHeader h → check_message_header_equality h (db_header h) ≡ true
unfolding check_message_header_equality db_header
header_passes h ok = ground (
  arith,
  byte_passes h.num_required_signatures ok.0,
  byte_passes h.num_readonly_signed_accounts ok.1,
  byte_passes h.num_readonly_unsigned_accounts ok.2,
)

pub instructions_pass :
    (xs : List CompiledInstruction)
    → All IsInstruction xs
    → each check_compiled_instruction_equality xs (map db_instruction xs) ≡ true
instructions_pass =
    each-map IsInstruction check_compiled_instruction_equality db_instruction instruction_passes

pub lookup_passes :
    (l : MessageAddressTableLookup)
    → IsLookup l
    → check_address_table_lookups_equality l (db_address_table_lookup l) ≡ true
unfolding check_address_table_lookups_equality db_address_table_lookup
lookup_passes l ok =
    ground (arith, bytes_pass l.writable_indexes ok.0, bytes_pass l.readonly_indexes ok.1)

pub inner_passes :
    (i : InnerInstructions)
    → IsInner i
    → check_inner_instructions_equality i (db_inner_instructions i) ≡ true
unfolding check_inner_instructions_equality db_inner_instructions
inner_passes i ok = ground (arith, byte_passes i.index ok.0, instructions_pass i.instructions ok.1)

pub reward_type-same : (t : DbRewardType) → reward_type_eq t t ≡ true
unfolding reward_type_eq
reward_type-same DbRewardType.fee = refl
reward_type-same DbRewardType.rent = refl
reward_type-same DbRewardType.staking = refl
reward_type-same DbRewardType.voting = refl

pub commission_passes :
    (o : Option ℕ)
    → AllSome IsByte o
    → both (λ a b. a == b) o (Option.map as_u8 (Option.map as_i16 o)) ≡ true
unfolding both
commission_passes none h = refl
commission_passes (some n) h = byte_passes n h

pub reward_passes : (r : Reward) → IsReward r → check_reward_equality r (db_reward r) ≡ true
unfolding check_reward_equality db_reward
reward_passes r ok = ground (
  arith,
  str_eq-same r.pubkey,
  eqb_ℤ-same r.lamports,
  word_passes r.post_balance ok.0,
  both-same reward_type_eq reward_type-same (get_reward_type r.reward_type),
  commission_passes r.commission ok.1,
)

pub message_passes :
    (m : LegacyMessage)
    → IsHeader m.header
    → All IsInstruction m.instructions
    → check_transaction_message_equality m (db_message m) ≡ true
unfolding check_transaction_message_equality db_message
message_passes m h is =
    ground (
      arith,
      header_passes m.header h,
      same_keys m.account_keys,
      instructions_pass m.instructions is,
    )

pub message_v0_passes :
    (m : V0Message)
    → IsHeader m.header
    → All IsInstruction m.instructions
    → All IsLookup m.address_table_lookups
    → check_transaction_message_v0_equality m (db_message_v0 m) ≡ true
unfolding check_transaction_message_v0_equality db_message_v0
message_v0_passes m h is ls = ground (
  arith,
  header_passes m.header h,
  same_keys m.account_keys,
  instructions_pass m.instructions is,
  each-map IsLookup check_address_table_lookups_equality db_address_table_lookup lookup_passes
      m.address_table_lookups ls,
)

pub loaded_passes :
    (m : LoadedMessage)
    → IsHeader m.message.header
    → All IsInstruction m.message.instructions
    → All IsLookup m.message.address_table_lookups
    → check_loaded_message_v0_equality m (db_loaded_message m) ≡ true
unfolding check_loaded_message_v0_equality db_loaded_message check_loaded_addresses
    db_loaded_addresses
loaded_passes m h is ls = ground (
  arith,
  message_v0_passes m.message h is ls,
  same_keys m.loaded_addresses.writable,
  same_keys m.loaded_addresses.readonly,
)

pub sanitized_passes :
    (m : SanitizedMessage) (row : DbTransaction)
    → IsMessage m
    → row.message_type ≡ message_type m
    → row.legacy_message ≡ legacy_message m
    → row.v0_loaded_message ≡ v0_loaded_message m
    → check_message m row ≡ true
unfolding check_message both
sanitized_passes (legacy m) row ok p q r = rw (p, q) (ground (arith, message_passes m ok.0 ok.1))
sanitized_passes (v0 m) row ok p q r = rw (p, r) (ground (arith, loaded_passes m ok.0 ok.1 ok.2))
