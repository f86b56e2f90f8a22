-- ===== src/Builder/Unloaded.antt =====
-- What unloading does.
use solana_indexer_plugin.Base.{ℕ, List, [], ◌∷◌, ◌++◌, ◌≡◌, ◌⊎◌}
use solana_indexer_plugin.Errors.{Exit, ok, panic}
use solana_indexer_plugin.ParallelClient.{ParallelClient, Thread, panicked}

-- No thread of the handles ends by a panic.
abbrev pub NonePanics : (ℕ → Thread) → List ℕ → Type 0
NonePanics ends [] = Unit
NonePanics ends (i ∷ workers) = ((ends i ≡ panicked) → ⊥) × NonePanics ends workers

-- The handles of `workers` are `calm` ones, whose threads do not panic, then that of a thread that
-- panics, then `left`.
abbrev pub PanicsAt : (ℕ → Thread) → List ℕ → List ℕ → ℕ → List ℕ → Type 0
PanicsAt ends workers calm i left =
    (workers ≡ calm ++ (i ∷ left)) × NonePanics ends calm × (ends i ≡ panicked)

-- Either no thread panics and all handles are joined, or the join panics at the first that does.
abbrev Joins : (ℕ → Thread) → List ℕ → Exit (Unit {0}) × List ℕ → Type 0
Joins ends workers r =
    (NonePanics ends workers × (r ≡ (ok tt, [])))
    ⊎ ((calm : List ℕ) × (i : ℕ) × (left : List ℕ) × PanicsAt ends workers calm i left
        × (r ≡ (panic, left)))
