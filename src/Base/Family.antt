-- ===== src/Base/Family.antt =====
-- Families indexed by worker: an update at one index, and sums of weights over the first `n`.
use Prim.Native.Nat.{ℕ, zero, suc, ◌+◌, ◌≤◌, ◌<◌}
use mathlib.Core.Path.{◌≡◌, refl}
use native.Mathlib.Omega.{arith}
use native.Mathlib.Decide.{dec_lt}
use solana_indexer_plugin.Base.Branch.{if◌then◌else◌, ◌==◌}

-- `family`, with `new` at the index `at`.
abbrev pub update {ℓ} : {A : Type ℓ} → (ℕ → A) → ℕ → A → ℕ → A
update family at new j = if at == j then new else family j

module _ {ℓ} {A : Type ℓ} (w : A → ℕ) where
  pub sum_below : ℕ → (ℕ → A) → ℕ
  sum_below (suc n) family = w (family n) + sum_below n family
  sum_below zero family = 0

  module _ (family : ℕ → A) (at : ℕ) (new : A) where
    sum_below-update_above :
        (bound : ℕ) → bound ≤ at → sum_below bound (update family at new) ≡ sum_below bound family
    unfolding sum_below
    sum_below-update_above (suc n) far = ground (arith, sum_below-update_above n)
    sum_below-update_above zero far = omega arith

    -- A change of weight at one index is a change of the sum.
    sum_below-update_below :
        (bound : ℕ)
        → at < bound
        → sum_below bound (update family at new) + w (family at) ≡ sum_below bound family + w new
    unfolding sum_below
    sum_below-update_below (suc n) near = elim (dec_lt at n) [
      | no last ↦ ground (arith, sum_below-update_above n)
      | yes nearer ↦ ground (arith, sum_below-update_below n nearer)
    ]
    sum_below-update_below zero near = elim near [ ]

  pub sum_below-update :
      (n : ℕ) (f : ℕ → A) (i : ℕ) (a : A)
      → i < n
      → sum_below n (update f i a) + w (f i) ≡ sum_below n f + w a
  sum_below-update n f i a = sum_below-update_below f i a n

  pub sum_below_const : (n : ℕ) (a : A) → w a ≡ 0 → sum_below n (λ _. a) ≡ 0
  unfolding sum_below
  sum_below_const zero a h = refl
  sum_below_const (suc n) a h = omega (arith, h, sum_below_const n a h)

module _ {ℓ} {A : Type ℓ} (v w : A → ℕ) (le : (a : A) → v a ≤ w a) where
  sum_below_mono : (n : ℕ) (f : ℕ → A) → sum_below v n f ≤ sum_below w n f
  unfolding sum_below
  sum_below_mono zero f = omega arith
  sum_below_mono (suc n) f = omega (arith, le (f n), sum_below_mono n f)

  -- Where one weight is below the other everywhere and the sums agree, the weights agree.
  pub sum_below_tight :
      (n : ℕ) (f : ℕ → A) (i : ℕ) → i < n → sum_below w n f ≤ sum_below v n f → v (f i) ≡ w (f i)
  unfolding sum_below
  sum_below_tight zero f i h e = elim h [ ]
  sum_below_tight (suc n) f i h e = elim (dec_lt i n) [
    | yes below ↦ sum_below_tight n f i below (omega (arith, le (f n), sum_below_mono n f))
    | no last ↦ ground (arith, le (f n), sum_below_mono n f)
  ]

-- Weights that agree below the bound have the same sum.
pub sum_below_eq {ℓ} :
    {A : Type ℓ} (v w : A → ℕ) (bound : ℕ) (family : ℕ → A)
    → ((i : ℕ) → i < bound → v (family i) ≡ w (family i))
    → sum_below v bound family ≡ sum_below w bound family
unfolding sum_below
sum_below_eq v w zero family same = refl
sum_below_eq v w (suc k) family same =
    omega (arith, same k (omega arith), sum_below_eq v w k family (λ i below. same i (omega arith)))
