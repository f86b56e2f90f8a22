-- ===== src/Base/Lists.antt =====
-- Sequences measured and indexed by native numbers, and what the standard library's iterators do.
use Prim.Native.Nat.{ℕ, zero, suc, ◌+◌}
use mathlib.Core.Path.{◌≡◌, refl, ap, ap₂}
use mathlib.Core.Bool.{Bool, false, ◌||◌}
use mathlib.Core.List.{List, [], ◌∷◌, ◌++◌, map}
use mathlib.Core.Option
use mathlib.Core.Option.{Option, none, some}
use native.Mathlib.Omega.{arith}
use solana_indexer_plugin.Base.Branch.{if◌then◌else◌, leb}

module _ {ℓ} {A : Type ℓ} where
  abbrev pub length : List A → ℕ
  length [] = 0
  length (x ∷ xs) = suc (length xs)

  abbrev pub get_elem? : List A → ℕ → Option A
  get_elem? [] i = none
  get_elem? (x ∷ xs) zero = some x
  get_elem? (x ∷ xs) (suc i) = get_elem? xs i

  abbrev pub take : ℕ → List A → List A
  take zero xs = []
  take (suc n) [] = []
  take (suc n) (x ∷ xs) = x ∷ take n xs

  abbrev pub drop : ℕ → List A → List A
  drop zero xs = xs
  drop (suc n) [] = []
  drop (suc n) (x ∷ xs) = drop n xs

  pub length-append : (xs ys : List A) → length (xs ++ ys) ≡ length xs + length ys
  length-append [] ys = omega arith
  length-append (x ∷ xs) ys = omega (arith, length-append xs ys)

  -- `slice.get(from..from + len)`
  abbrev pub get_range? : List A → ℕ → ℕ → Option (List A)
  get_range? xs from len =
      if leb (from + len) (length xs) then some (take len (drop from xs)) else none

  -- `slice.get(from..)`; the index `[from..]` panics where this is `none`
  abbrev pub get_from? : List A → ℕ → Option (List A)
  get_from? xs from = if leb from (length xs) then some (drop from xs) else none

  -- `Iterator::any`
  unfoldable pub any : (A → Bool) → List A → Bool
  any p [] = false
  any p (x ∷ xs) = p x || any p xs

-- A step that may panic, `none`, and what follows it.
abbrev pub bind {ℓ κ} : {A : Type ℓ} {B : Type κ} → Option A → (A → Option B) → Option B
bind none f = none
bind (some a) f = f a

-- The keys of a map, in the order of its iteration.
abbrev pub keys {ℓ κ} : {K : Type ℓ} {V : Type κ} → List (K × V) → List K
keys [] = []
keys ((k, v) ∷ m) = k ∷ keys m

pub bind-eq-some {ℓ κ} :
    {A : Type ℓ} {B : Type κ} (o : Option A) (f : A → Option B) {b : B}
    → bind o f ≡ some b
    → (a : A) × (o ≡ some a) × (f a ≡ some b)
bind-eq-some none f h = cc
bind-eq-some (some a) f h = (a, refl, h)

-- A property of all items, and of the value if there is one.
abbrev pub All {ℓ κ} : {A : Type ℓ} → (A → Type κ) → List A → Type κ
All P [] = Unit
All P (x ∷ xs) = P x × All P xs

abbrev pub AllSome {ℓ κ} : {A : Type ℓ} → (A → Type κ) → Option A → Type κ
AllSome P none = Unit
AllSome P (some x) = P x

-- A function that undoes another on such items undoes it on a list of them.
pub map_undone {ℓ κ μ} :
    {A : Type ℓ} {B : Type κ} (P : A → Type μ) (f : A → B) (g : B → A)
    → ((x : A) → P x → g (f x) ≡ x)
    → (xs : List A) → All P xs
    → map g (map f xs) ≡ xs
map_undone P f g undo [] h = refl
map_undone P f g undo (x ∷ xs) h = ap₂ ◌∷◌ (undo x h.0) (map_undone P f g undo xs h.1)

pub map_undone_some {ℓ κ μ} :
    {A : Type ℓ} {B : Type κ} (P : A → Type μ) (f : A → B) (g : B → A)
    → ((x : A) → P x → g (f x) ≡ x)
    → (o : Option A) → AllSome P o
    → Option.map g (Option.map f o) ≡ o
map_undone_some P f g undo none h = refl
map_undone_some P f g undo (some x) h = ap some (undo x h)

-- The item is one of the list.
pub data Has {ℓ} {A : Type ℓ} (a : A) : List A → Type ℓ where
  head : (b : A) (bs : List A) → b ≡ a → Has a (b ∷ bs)
  tail : (b : A) (bs : List A) → Has a bs → Has a (b ∷ bs)

pub Has-append {ℓ} : {A : Type ℓ} (a : A) (xs ys : List A) → Has a xs → Has a (xs ++ ys)
Has-append a _ ys (Has.head b bs e) = Has.head b (bs ++ ys) e
Has-append a _ ys (Has.tail b bs h) = Has.tail b (bs ++ ys) (Has-append a bs ys h)

pub Has-last {ℓ} : {A : Type ℓ} (a b : A) (xs : List A) → b ≡ a → Has a (xs ++ (b ∷ []))
Has-last a b [] e = Has.head b [] e
Has-last a b (x ∷ xs) e = Has.tail x (xs ++ (b ∷ [])) (Has-last a b xs e)

pub Has-nil {ℓ} : {A : Type ℓ} (a : A) (xs : List A) → xs ≡ [] → Has a xs → ⊥
Has-nil a _ e (Has.head b bs f) = cc
Has-nil a _ e (Has.tail b bs h) = cc
