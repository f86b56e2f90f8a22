-- ===== src/Connect/Settings.antt =====
-- How a connection depends on the settings of TLS.
use solana_indexer_plugin.Base.{
  true, String, ◌<>◌, none, some, Option-cases, ◌≡◌, refl, ◌⊎◌, inl, inr, arith,
}
use solana_indexer_plugin.Errors.{err, config_file_read_error}
use solana_indexer_plugin.Config.{GeyserPluginPostgresConfig}
use solana_indexer_plugin.Database.{Database}
use solana_indexer_plugin.Connect.{Connector, required, tls_files, connect_to_db}

abbrev unset : String → String
unset name = "\"" <> (name <> "\" must be specified when \"use_ssl\" is set")

module _ {D : Database} (C : Connector D) where
  -- A configuration that asks for TLS and lacks one of the three files is refused with an error of
  -- the configuration.
  pub connect_to_db-missing :
      (config : GeyserPluginPostgresConfig)
      → config.use_ssl ≡ some true
      → (config.server_ca ≡ none) ⊎ ((config.client_cert ≡ none) ⊎ (config.client_key ≡ none))
      → (message : String) × (connect_to_db C config ≡ err (config_file_read_error message))
  unfolding connect_to_db tls_files required
  connect_to_db-missing config tls missing = elim (Option-cases config.server_ca) [
    | inl a ↦ (unset "server_ca", rw (tls, a) refl)
    | inr (a, ea) ↦ elim (Option-cases config.client_cert) [
      | inl b ↦ (unset "client_cert", rw (tls, ea, b) refl)
      | inr (b, eb) ↦ elim (Option-cases config.client_key) [
        | inl c ↦ (unset "client_key", rw (tls, ea, eb, c) refl)
        | inr (c, ec) ↦ ground arith
      ]
    ]
  ]
