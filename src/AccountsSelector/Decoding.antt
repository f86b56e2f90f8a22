-- ===== src/AccountsSelector/Decoding.antt =====
-- The set of decoded keys, as a test on the keys.
use solana_indexer_plugin.Base.{
  Bool, false, Bytes, ByteSet, contains, bytes_eq, String, Option, none, some, List, [], ◌∷◌, any,
  ◌≡◌, refl, arith,
}
use solana_indexer_plugin.Crates.{Crates}
use solana_indexer_plugin.AccountsSelector.{decode_keys}

-- The key decodes to these bytes.
abbrev pub decodes_to : Crates → String → Bytes → Bool
decodes_to X key a = elim (X.bs58_decode key) [ none ↦ false | some bytes ↦ bytes_eq bytes a ]

pub contains-decode_keys :
    (X : Crates) (keys : List String) (set : ByteSet) (a : Bytes)
    → decode_keys X keys ≡ some set
    → contains set a ≡ any (λ key. decodes_to X key a) keys
unfolding decode_keys contains any
contains-decode_keys X [] set a h = ground arith
contains-decode_keys X (key ∷ keys) set a h =
    next (X.bs58_decode key) (decode_keys X keys) refl refl
      (λ bs q. contains-decode_keys X keys bs a q)
  where
    next :
        (d : Option Bytes) (ds : Option ByteSet)
        → X.bs58_decode key ≡ d
        → decode_keys X keys ≡ ds
        → ((bs : ByteSet)
            → decode_keys X keys ≡ some bs
            → contains bs a ≡ any (λ key. decodes_to X key a) keys)
        → contains set a ≡ any (λ key. decodes_to X key a) (key ∷ keys)
    next none ds p q ih = ground arith
    next (some b) none p q ih = ground arith
    next (some b) (some bs) p q ih = ground (arith, ih bs q)
