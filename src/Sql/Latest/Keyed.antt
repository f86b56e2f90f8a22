-- ===== src/Sql/Latest/Keyed.antt =====
-- The row of one key after some `INSERT .. ON CONFLICT`.
use solana_indexer_plugin.Base.{
  Bool, true, Option, none, some, List, [], ◌∷◌, ◌≡◌, refl, ap, ◌∙◌, arith, if◌then◌else◌,
  Bool-cases, inl, inr,
}
use solana_indexer_plugin.Sql.Tables.{upsert, upsert_all}
use solana_indexer_plugin.Sql.Latest.Order.{latest, settle}

unfoldable pub find : {R : Type 0} → (R → Bool) → List R → Option R
find mine [] = none
find mine (r ∷ rows) = if mine r then some r else find mine rows

mine-find :
    {R : Type 0} (mine : R → Bool) (rows : List R) (r : R) → find mine rows ≡ some r → mine r ≡ true
unfolding find
mine-find mine [] r h = ground arith
mine-find mine (x ∷ rows) r h = ground (arith, mine-find mine rows r)

-- `mine` holds of the rows of one key, which is what `conflicts` compares.
pub record IsKey {R : Type 0} (conflicts : R → R → Bool) (mine : R → Bool) : Type 0 where
  pub agree : (a b : R) → conflicts a b ≡ true → mine a ≡ mine b
  pub total : (a b : R) → mine a ≡ true → mine b ≡ true → conflicts a b ≡ true

-- What is stored of a key once a new row is written.
abbrev pub absorb : {R : Type 0} → (R → R → R) → Option R → R → R
absorb merge none new = new
absorb merge (some old) new = merge old new

module _ {R : Type 0} (conflicts : R → R → Bool) (merge : R → R → R) (mine : R → Bool)
    (is_key : IsKey conflicts mine) (kept : (a b : R) → mine (merge a b) ≡ mine a) where
  pub find-upsert :
      (new : R) (rows : List R)
      → find mine (upsert conflicts merge new rows)
        ≡ (if mine new then some (absorb merge (find mine rows) new) else find mine rows)
  unfolding find upsert
  find-upsert new [] = ground arith
  find-upsert new (old ∷ rows) = elim (Bool-cases (conflicts old new)) [
    | inl c ↦ ground (arith, kept old new, is_key.agree old new c)
    | inr d ↦ ground (arith, find-upsert new rows, is_key.total old new)
  ]

  module _ (newer : R → R → Bool)
      (exact : (a b : R)
        → mine a ≡ true
        → mine b ≡ true
        → merge a b ≡ (if newer a b then b else a)) where
    pub find-upsert_all :
        (us rows : List R)
        → find mine (upsert_all conflicts merge us rows) ≡ settle newer mine (find mine rows) us
    unfolding upsert_all settle
    find-upsert_all [] rows = refl
    find-upsert_all (u ∷ us) rows =
        find-upsert_all us (upsert conflicts merge u rows)
        ∙ ap (λ o. settle newer mine o us) (step (find mine rows) refl)
      where
        step :
            (o : Option R)
            → find mine rows ≡ o
            → find mine (upsert conflicts merge u rows)
              ≡ (if mine u then some (latest newer (find mine rows) u) else find mine rows)
        step none e = ground (arith, find-upsert u rows)
        step (some r) e = ground (arith, find-upsert u rows, exact r u, mine-find mine rows r)
