-- ===== src/Base/Maps.antt =====
-- Byte strings compared, a set of them, and a map with text keys.
use Prim.Native.String.{String}
use mathlib.Core.Path.{◌≡◌}
use mathlib.Core.Logic.{◌↔◌}
use mathlib.Core.Bool.{Bool, true, false, ◌&&◌, ◌||◌}
use mathlib.Core.Option.{Option, none, some}
use mathlib.Core.List.{List, [], ◌∷◌}
use native.Mathlib.Omega.{arith}
use text.Mathlib.Text.{◌==◌ as str_eq}
use solana_indexer_plugin.Base.Branch.{if◌then◌else◌, ◌==◌}
use solana_indexer_plugin.Base.Text.{Bytes}

-- `a == b` on byte slices
unfoldable pub bytes_eq : Bytes → Bytes → Bool
bytes_eq [] [] = true
bytes_eq [] (b ∷ ys) = false
bytes_eq (a ∷ xs) [] = false
bytes_eq (a ∷ xs) (b ∷ ys) = a == b && bytes_eq xs ys

pub bytes_eq_iff : (xs ys : Bytes) → (bytes_eq xs ys ≡ true) ↔ (xs ≡ ys)
unfolding bytes_eq
bytes_eq_iff [] [] = ground arith
bytes_eq_iff [] (b ∷ ys) = ground arith
bytes_eq_iff (a ∷ xs) [] = ground arith
bytes_eq_iff (a ∷ xs) (b ∷ ys) = ground (arith, bytes_eq_iff xs ys)

-- `HashSet<Vec<u8>>`, of which the program asks `contains` and `is_empty` only.
abbrev pub ByteSet : Type 0
ByteSet = List Bytes

unfoldable pub contains : ByteSet → Bytes → Bool
unfolding bytes_eq
contains [] a = false
contains (b ∷ bs) a = bytes_eq b a || contains bs a

abbrev pub no_bytes : ByteSet → Bool
no_bytes [] = true
no_bytes (b ∷ bs) = false

-- `HashMap<String, V>`; the order of the entries is that of an iteration over the map.
abbrev pub StringMap {ℓ} : Type ℓ → Type ℓ
StringMap V = List (String × V)

unfoldable pub lookup {ℓ} : {V : Type ℓ} → String → StringMap V → Option V
lookup k [] = none
lookup k ((j, v) ∷ m) = if str_eq j k then some v else lookup k m
