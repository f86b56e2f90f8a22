-- ===== src/Handlers/Totality.antt =====
-- When the handlers panic, and when their queries are empty.
use solana_indexer_plugin.Base.{
  ℕ, suc, zero, ◌≤◌, ◌<◌, true, false, Bytes, bytes_eq_iff, none, some, [], ◌∷◌, length, take, drop,
  get_elem?, ◌≡◌, ◌≢◌, ◌↔◌, ◌∙◌, sym, refl, arith, if◌then◌else◌, ◌==◌, leb, Bool-cases, inl, inr,
}
use mathlib.Core.Option.{get_or}
use native.Mathlib.Decide.{dec_lt}
use solana_indexer_plugin.Account.{DbAccountInfo}
use solana_indexer_plugin.Crates.{Crates}
use solana_indexer_plugin.Sql.{upsert_token_account}
use solana_indexer_plugin.Handlers.{
  update_token_account, match_token_account, update_metadata_creators, match_metadata, creators_of,
  creators_at, update_token_manager, token_manager_discriminator, eight_zeros,
  token_metadata_creators_offset,
}

get_elem?-length : (xs : Bytes) (i : ℕ) → get_or (get_elem? xs i) 0 ≢ 0 → i < length xs
get_elem?-length [] i h = absurd (h refl)
get_elem?-length (x ∷ xs) zero h = omega arith
get_elem?-length (x ∷ xs) (suc i) h = omega (arith, get_elem?-length xs i h)

-- A token account that the handler matches is at least 165 bytes long.
length-match_token_account :
    (X : Crates) (account : DbAccountInfo)
    → match_token_account X account ≡ true
    → 165 ≤ length account.contents
unfolding match_token_account
length-match_token_account X account h = ground (arith, get_elem?-length account.contents 165)

-- The token account handler never panics on an account with a public key of 32 bytes: it writes one
-- row for a matching account, of the account's slot and key, and nothing for another.
pub update_token_account-total :
    (X : Crates) (account : DbAccountInfo)
    → length account.pubkey ≡ 32
    → update_token_account X account
      ≡ some (
          if match_token_account X account
          then upsert_token_account (record {
            pubkey = X.bs58_encode account.pubkey;
            owner = X.bs58_encode (take 32 (drop 32 account.contents));
            mint = X.bs58_encode (take 32 account.contents);
            slot = account.slot;
          })
            ∷ []
          else [])
unfolding update_token_account
update_token_account-total X account h = ground (arith, length-match_token_account X account)

get_elem?-drop : (xs : Bytes) (n : ℕ) → n < length xs → (b : ℕ) × (get_elem? (drop n xs) 0 ≡ some b)
get_elem?-drop [] n h = elim h [ ]
get_elem?-drop (x ∷ xs) zero h = (x, refl)
get_elem?-drop (x ∷ xs) (suc n) h = get_elem?-drop xs n (omega arith)

get_elem?-drop_all : (xs : Bytes) (n : ℕ) → length xs ≤ n → get_elem? (drop n xs) 0 ≡ none
get_elem?-drop_all [] zero h = refl
get_elem?-drop_all [] (suc n) h = refl
get_elem?-drop_all (x ∷ xs) zero h = absurd (omega arith)
get_elem?-drop_all (x ∷ xs) (suc n) h = get_elem?-drop_all xs n (omega arith)

creators_of-total :
    (X : Crates) (account : DbAccountInfo) (buf : Bytes)
    → token_metadata_creators_offset < length account.contents
    → creators_of X account buf ≢ none
unfolding creators_of
creators_of-total X account buf h e = ground arith

creators_at-total :
    (X : Crates) (account : DbAccountInfo)
    → token_metadata_creators_offset < length account.contents
    → creators_at X account (drop 322 account.contents) ≢ none
unfolding creators_at
creators_at-total X account h e =
    let (b, p) = get_elem?-drop account.contents 322 h in
    let total = creators_of-total X account (drop 322 account.contents) h in
    elim (Bool-cases (b == 0)) [ inl z ↦ ground arith | inr z ↦ total (ground arith) ]

creators_at-panics :
    (X : Crates) (account : DbAccountInfo)
    → length account.contents ≤ token_metadata_creators_offset
    → creators_at X account (drop 322 account.contents) ≡ none
unfolding creators_at
creators_at-panics X account h = rw (get_elem?-drop_all account.contents 322 h) refl

leb_of_le : (a b : ℕ) → a ≤ b → leb a b ≡ true
leb_of_le a b h = ground arith

leb_of_lt : (a b : ℕ) → b < a → leb a b ≡ false
leb_of_lt a b h = ground arith

update_metadata_creators_long :
    (X : Crates) (account : DbAccountInfo)
    → match_metadata X account ≡ true
    → token_metadata_creators_offset ≤ length account.contents
    → update_metadata_creators X account ≡ creators_at X account (drop 322 account.contents)
unfolding update_metadata_creators
update_metadata_creators_long X account m h = rw (m, leb_of_le 322 (length account.contents) h) refl

update_metadata_creators_short :
    (X : Crates) (account : DbAccountInfo)
    → match_metadata X account ≡ true
    → length account.contents < token_metadata_creators_offset
    → update_metadata_creators X account ≡ none
unfolding update_metadata_creators
update_metadata_creators_short X account m h =
    rw (m, leb_of_lt 322 (length account.contents) h) refl

update_metadata_creators_unmatched :
    (X : Crates) (account : DbAccountInfo)
    → match_metadata X account ≡ false
    → update_metadata_creators X account ≡ some []
unfolding update_metadata_creators
update_metadata_creators_unmatched X account m = rw m refl

update_metadata_creators-panic_data :
    (X : Crates) (account : DbAccountInfo)
    → update_metadata_creators X account ≡ none
    → (match_metadata X account ≡ true) × (length account.contents ≤ token_metadata_creators_offset)
update_metadata_creators-panic_data X account e = elim (Bool-cases (match_metadata X account)) [
  | inr other ↦ cc (update_metadata_creators_unmatched X account other)
  | inl own ↦ elim (dec_lt token_metadata_creators_offset (length account.contents)) [
    | no short ↦ (own, omega arith)
    | yes long ↦ absurd (
        creators_at-total X account long
          (sym (update_metadata_creators_long X account own (omega arith)) ∙ e))
  ]
]

update_metadata_creators-panic :
    (X : Crates) (account : DbAccountInfo)
    → match_metadata X account ≡ true
    → length account.contents ≤ token_metadata_creators_offset
    → update_metadata_creators X account ≡ none
update_metadata_creators-panic X account m short =
    elim (dec_lt (length account.contents) token_metadata_creators_offset) [
      | yes less ↦ update_metadata_creators_short X account m less
      | no equal ↦
          update_metadata_creators_long X account m (omega arith)
          ∙ creators_at-panics X account short
    ]

-- The metadata handler panics exactly on an account that it matches and whose data ends at or before
-- the offset of the creators, 322.
pub update_metadata_creators-panics_iff :
    (X : Crates) (account : DbAccountInfo)
    → (update_metadata_creators X account ≡ none) ↔ (
        (match_metadata X account ≡ true)
        × (length account.contents ≤ token_metadata_creators_offset))
update_metadata_creators-panics_iff X account = (
  update_metadata_creators-panic_data X account,
  λ (m, short). update_metadata_creators-panic X account m short,
)

-- The token manager handler never panics on an account with a public key of 32 bytes, unless the
-- discriminator is eight zeros.
pub update_token_manager-total :
    (X : Crates) (account : DbAccountInfo)
    → length account.pubkey ≡ 32
    → token_manager_discriminator X ≢ eight_zeros
    → update_token_manager X account ≢ none
unfolding update_token_manager
update_token_manager-total X account h nonzero =
    ground (arith, bytes_eq_iff (token_manager_discriminator X) eight_zeros)
