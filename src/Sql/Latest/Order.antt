-- ===== src/Sql/Latest/Order.antt =====
-- The latest of some rows by a strict order of versions.
use mathlib.Core.List.{Permᴰ, Mem, mem-cons}
use mathlib.Core.List.Permᴰ
use mathlib.Core.Logic.Or
use solana_indexer_plugin.Base.{
  Bool, true, false, Option, none, some, List, [], ◌∷◌, ◌≡◌, refl, ◌∙◌, ap, ◌⊎◌, inl, inr, arith,
  if◌then◌else◌, Bool-cases,
}

-- What a strict weak order satisfies, as a Boolean test.
pub record IsVersionOrder {R : Type 0} (newer : R → R → Bool) : Type 0 where
  pub asym : (a b : R) → newer a b ≡ true → newer b a ≡ false
  pub cotrans : (a b c : R) → newer a b ≡ true → newer a c ≡ false → newer c b ≡ true

module _ {R : Type 0} (newer : R → R → Bool) where
  -- The row kept when `u` meets what is there.
  abbrev pub latest : Option R → R → R
  latest none u = u
  latest (some r) u = if newer r u then u else r

  -- What is left of the rows that pass `mine`, taken in order.
  unfoldable pub settle : (R → Bool) → Option R → List R → Option R
  settle mine o [] = o
  settle mine o (u ∷ us) = settle mine (if mine u then some (latest o u) else o) us

  -- No row of `us` that passes `mine` is newer than `r`.
  abbrev pub IsLatest : (R → Bool) → List R → R → Type 0
  IsLatest mine [] r = Unit
  IsLatest mine (u ∷ us) r = (mine u ≡ true → newer r u ≡ false) × IsLatest mine us r

  -- Two rows of the same key are one, or one of them is newer.
  abbrev pub AreOrdered : R → R → Type 0
  AreOrdered u v = (u ≡ v) ⊎ ((newer u v ≡ true) ⊎ (newer v u ≡ true))

  -- So it is of all rows of `us` that pass `mine`.
  abbrev pub AllOrdered : (R → Bool) → List R → Type 0
  AllOrdered mine us =
      (u v : R) → Mem u us → Mem v us → mine u ≡ true → mine v ≡ true → AreOrdered u v

module _ {R : Type 0} (newer : R → R → Bool) (order : IsVersionOrder newer) (mine : R → Bool) where
  -- A row that was there is not newer than what is left.
  pub settle-not_older :
      (r : R) (us : List R) (z : R) → settle newer mine (some r) us ≡ some z → newer z r ≡ false
  unfolding settle
  settle-not_older r [] z h = ground (arith, order.asym r r)
  settle-not_older r (u ∷ us) z h = elim (Bool-cases (mine u)) [
    | inr other ↦ settle-not_older r us z (rw other at h)
    | inl own ↦ elim (Bool-cases (newer r u)) [
      | inl later ↦ ground (arith, settle-not_older u us z, order.cotrans z r u, order.asym r u)
      | inr kept ↦ ground (arith, settle-not_older r us z)
    ]
  ]

  pub settle-IsLatest :
      (o : Option R) (us : List R) (z : R)
      → settle newer mine o us ≡ some z
      → IsLatest newer mine us z
  unfolding settle
  settle-IsLatest o [] z h = tt
  settle-IsLatest o (u ∷ us) z h =
      (first o h, settle-IsLatest (if mine u then some (latest newer o u) else o) us z h)
    where
      first :
          (p : Option R)
          → settle newer mine (if mine u then some (latest newer p u) else p) us ≡ some z
          → mine u ≡ true
          → newer z u ≡ false
      first none e own = settle-not_older u us z (rw own at e)
      first (some r) e own = elim (Bool-cases (newer r u)) [
        | inl later ↦ ground (arith, settle-not_older u us z)
        | inr kept ↦ ground (arith, settle-not_older r us z, order.cotrans z u r)
      ]

  latest_comm :
      (o : Option R) (u v : R)
      → AreOrdered newer u v
      → latest newer (some (latest newer o u)) v ≡ latest newer (some (latest newer o v)) u
  latest_comm none u v (inl e) = rw e
  latest_comm none u v (inr d) = ground (arith, order.asym u v, order.asym v u)
  latest_comm (some r) u v (inl e) = rw e
  latest_comm (some r) u v (inr d) = ground (
    arith,
    order.asym u v,
    order.asym v u,
    order.cotrans u v r,
    order.cotrans v u r,
    order.cotrans r u v,
    order.cotrans r v u,
    order.asym r u,
    order.asym r v,
  )

  settle-swap :
      (o : Option R) (u v : R) (us : List R)
      → (mine u ≡ true → mine v ≡ true → AreOrdered newer u v)
      → settle newer mine o (u ∷ v ∷ us) ≡ settle newer mine o (v ∷ u ∷ us)
  unfolding settle
  settle-swap o u v us h = elim (Bool-cases (mine u)) [
    | inr p ↦ rw p
    | inl p ↦ elim (Bool-cases (mine v)) [
      | inr q ↦ rw (p, q)
      | inl q ↦ rw (p, q) (ap (λ r. settle newer mine (some r) us) (latest_comm o u v (h p q)))
    ]
  ]

  pub settle-Permᴰ :
      {us vs : List R} (o : Option R)
      → Permᴰ us vs
      → AllOrdered newer mine us
      → settle newer mine o us ≡ settle newer mine o vs
  unfolding settle
  settle-Permᴰ o Permᴰ.nil h = refl
  settle-Permᴰ o (Permᴰ.cons {a} {b} {l₁} {l₂} e d) h =
      settle-Permᴰ (if mine a then some (latest newer o a) else o) d
        (λ u v m n. h u v (mem-cons.1 (Or.inr m)) (mem-cons.1 (Or.inr n)))
      ∙ ap (λ x. settle newer mine (if mine x then some (latest newer o x) else o) l₂) e
  settle-Permᴰ o (Permᴰ.swap {a} {b} {a'} {b'} {l} e f) h =
      settle-swap o a b l
        (h a b (mem-cons.1 (Or.inl refl)) (mem-cons.1 (Or.inr (mem-cons.1 (Or.inl refl)))))
      ∙ rw (e, f)
  settle-Permᴰ o (Permᴰ.trans d e) h =
      settle-Permᴰ o d h ∙ settle-Permᴰ o e (λ u v m n. h u v (back d m) (back d n))
    where
      back : {us vs : List R} {u : R} → Permᴰ us vs → Mem u vs → Mem u us
      back d m = Permᴰ.mem (Permᴰ.symm d) m
