-- ===== src/Errors.antt =====
-- The errors of geyser_plugin_postgres.rs and of the plugin interface, and how a call ends.
use solana_indexer_plugin.Base.{String, ◌≡◌, refl, ◌⊎◌, inl, inr}

-- `GeyserPluginPostgresError`
pub data GeyserPluginPostgresError : Type 0 where
  connection_error : String → GeyserPluginPostgresError
  data_schema_error : String → GeyserPluginPostgresError

-- The cases of the plugin interface's `GeyserPluginError` that the program builds, with their text.
pub data GeyserPluginError : Type 0 where
  config_file_open_error : String → GeyserPluginError
  config_file_read_error : String → GeyserPluginError
  accounts_update_error : String → GeyserPluginError
  slot_status_update_error : String → GeyserPluginError
  custom : GeyserPluginPostgresError → GeyserPluginError

-- How a call ends: `Ok`, `Err`, or a panic, which unwinds the thread.
pub data Exit {ℓ} (A : Type ℓ) : Type ℓ where
  ok : A → Exit A
  err : GeyserPluginError → Exit A
  panic : Exit A

module _ {ℓ κ} {A : Type ℓ} {B : Type κ} where
  -- What follows a call that returned.
  infixl 5 ◌>>=◌
  abbrev pub ◌>>=◌ : Exit A → (A → Exit B) → Exit B
  panic >>= next = panic
  err error >>= next = err error
  ok value >>= next = next value

  pub >>=-eq-ok :
      (call : Exit A) (next : A → Exit B) {result : B}
      → call >>= next ≡ ok result
      → (value : A) × (call ≡ ok value) × (next value ≡ ok result)
  >>=-eq-ok panic next returned = cc
  >>=-eq-ok (err error) next returned = cc
  >>=-eq-ok (ok value) next returned = (value, refl, returned)

pub Exit-cases {ℓ} :
    {A : Type ℓ} (r : Exit A)
    → ((a : A) × (r ≡ ok a)) ⊎ (((e : GeyserPluginError) × (r ≡ err e)) ⊎ (r ≡ panic))
Exit-cases (ok a) = inl (a, refl)
Exit-cases (err e) = inr (inl (e, refl))
Exit-cases panic = inr (inr refl)
