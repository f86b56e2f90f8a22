-- ===== src/Base/Text.antt =====
-- Texts as `format!` writes them: decimals, `join`, and the test for the empty text.
use Prim.Native.Nat.{ℕ, zero, suc, ◌/◌, ◌%◌}
use Prim.Native.Char.{code}
use Prim.Native.String.{String, ◌++◌ as ◌<>◌}
use mathlib.Core.Path.{◌≡◌}
use mathlib.Core.Bool.{Bool, true, false, ◌&&◌}
use mathlib.Core.List.{List, [], ◌∷◌}
use text.Mathlib.TextLemmas.{cons-append, nil-append}
use solana_indexer_plugin.Base.Branch.{if◌then◌else◌, ltb, ◌==◌}
use solana_indexer_plugin.Base.Int.{ℤ, pos, negsuc}

abbrev pub Bytes : Type 0
Bytes = List ℕ

-- `text.as_bytes()` of an ASCII text
abbrev pub ascii : String → Bytes
ascii String.[] = []
ascii (String.◌∷◌ c s) = code c ∷ ascii s

unfoldable pub digit : ℕ → String
digit d =
    if d == 0
    then "0"
    else if d == 1
    then "1"
    else if d == 2
    then "2"
    else if d == 3
    then "3"
    else if d == 4
    then "4"
    else if d == 5
    then "5"
    else if d == 6
    then "6"
    else if d == 7
    then "7"
    else if d == 8
    then "8"
    else "9"

-- The digits of `n`, in front of those already written; `n` rounds are enough.
unfoldable pub digits : ℕ → ℕ → String → String
digits zero n written = digit n <> written
digits (suc fuel) n written =
    let rest = digits fuel (n / 10) (digit (n % 10) <> written) in
    if ltb n 10 then digit n <> written else rest

-- `n.to_string()` of an unsigned integer
unfoldable pub decimal : ℕ → String
unfolding digit digits
decimal n = digits n n ""

-- `z.to_string()` of a signed integer
unfoldable pub signed : ℤ → String
unfolding decimal
signed (pos n) = decimal n
signed (negsuc n) = "-" <> decimal (suc n)

-- `{}` of a `bool`
abbrev pub bool_text : Bool → String
bool_text true = "true"
bool_text false = "false"

-- `String::is_empty`
abbrev pub is_empty : String → Bool
is_empty String.[] = true
is_empty (String.◌∷◌ c s) = false

pub is_empty-append : (s t : String) → is_empty (s <> t) ≡ (is_empty s && is_empty t)
is_empty-append String.[] t = rw nil-append
is_empty-append (String.◌∷◌ c s) t = rw cons-append

-- `parts.join(separator)`
unfoldable pub join : String → List String → String
join separator [] = ""
join separator (part ∷ []) = part
join separator (part ∷ next ∷ parts) = part <> (separator <> join separator (next ∷ parts))
