-- ===== src/Connect.antt =====
-- `connect_to_db` and `SimplePostgresClient::new` of postgres_client/mod.rs.
pub mod Settings
use solana_indexer_plugin.Base.{true, false, String, ◌<>◌, Option, none, some, []}
use solana_indexer_plugin.Errors.{
  Exit, ok, err, panic, ◌>>=◌, custom, connection_error, data_schema_error, config_file_read_error,
}
use solana_indexer_plugin.Config.{GeyserPluginPostgresConfig, Attempt, done, failed}
use solana_indexer_plugin.Database.{Database}
use solana_indexer_plugin.Client.{SimplePostgresClient}
use solana_indexer_plugin.Handlers.{all_account_handlers}
use solana_indexer_plugin.Schema.{upsert_block, upsert_transaction}

-- The certificate files of a TLS connection.
pub record TlsFiles : Type 0 where
  pub server_ca : String
  pub client_cert : String
  pub client_key : String

-- What `openssl` and `postgres` do: `builder` is `SslConnector::builder(SslMethod::tls())`; the three
-- settings of the builder give `none` or an error's text; `connect` takes the connection string, and the files or `none` for no TLS.
pub record Connector (D : Database) : Type 0 where
  pub builder : Attempt (Unit {0})
  pub set_ca_file : String → Option String
  pub set_certificate_file : String → Option String
  pub set_private_key_file : String → Option String
  pub connect : String → Option TlsFiles → Attempt D.State

-- One setting of the builder.
unfoldable pub setting : Option String → String → Exit (Unit {0})
setting none message = ok tt
setting (some e) message = err (config_file_read_error (message <> (". Error: (" <> (e <> ")"))))

-- `unwrap` of the builder
unfoldable pub unwrapped : Attempt (Unit {0}) → Exit (Unit {0})
unwrapped (done _) = ok tt
unwrapped (failed e) = panic

-- `config.field.is_none()` and its message, or the field's value
unfoldable pub required : String → Option String → Exit String
required name none =
    err (config_file_read_error ("\"" <> (name <> "\" must be specified when \"use_ssl\" is set")))
required name (some value) = ok value

module _ {D : Database} (C : Connector D) where
  unfoldable pub connected : String → Attempt D.State → Exit D.State
  connected connection_str (done db) = ok db
  connected connection_str (failed e) = err (
      custom (
        connection_error
          ("[connect_to_db] connection_str=" <> (connection_str <> (" error=" <> e)))))

  unfoldable pub tls_files : GeyserPluginPostgresConfig → Exit TlsFiles
  unfolding required unwrapped setting
  tls_files config = do
    server_ca ← required "server_ca" config.server_ca
    client_cert ← required "client_cert" config.client_cert
    client_key ← required "client_key" config.client_key
    _ ← unwrapped C.builder
    _ ←
        setting (C.set_ca_file server_ca)
          ("Failed to set the server certificate specified by \"server_ca\": " <> server_ca)
    _ ←
        setting (C.set_certificate_file client_cert)
          ("Failed to set the client certificate specified by \"client_cert\": " <> client_cert)
    _ ←
        setting (C.set_private_key_file client_key)
          ("Failed to set the client key specified by \"client_key\": " <> client_key)
    ok (record { server_ca = server_ca; client_cert = client_cert; client_key = client_key })

  -- `SimplePostgresClient::connect_to_db`
  unfoldable pub connect_to_db : GeyserPluginPostgresConfig → Exit D.State
  unfolding connected tls_files
  connect_to_db config = elim config.use_ssl [
    | some true ↦ do
      files ← tls_files config
      connected config.connection_str (C.connect config.connection_str (some files))
    | some false ↦ connected config.connection_str (C.connect config.connection_str none)
    | none ↦ connected config.connection_str (C.connect config.connection_str none)
  ]

module _ (D : Database) where
  -- `BlockHandler::new`
  unfoldable pub new_block_handler : D.State → Exit String
  new_block_handler db = elim (D.prepare upsert_block db) [
    | done statement ↦ ok statement
    | failed e ↦ err (custom (data_schema_error ("[block_handler::new] error=" <> e)))
  ]

  -- `TransactionHandler::new`
  unfoldable pub new_transaction_handler : D.State → Exit String
  new_transaction_handler db = elim (D.prepare upsert_transaction db) [
    | done statement ↦ ok statement
    | failed e ↦
        err (custom (data_schema_error ("[transction_handler::new] error=[" <> (e <> "]"))))
  ]

module _ {D : Database} (C : Connector D) where
  -- `SimplePostgresClient::new`
  unfoldable pub new_client : GeyserPluginPostgresConfig → Exit (SimplePostgresClient × D.State)
  unfolding connect_to_db new_block_handler new_transaction_handler
  new_client config = do
    db ← connect_to_db C config
    block_statement ← new_block_handler D db
    transaction_statement ← new_transaction_handler D db
    ok (
      record {
        batch_size = config.batch_size;
        slots_at_startup = [];
        pending_account_updates = [];
        block_statement = block_statement;
        transaction_statement = transaction_statement;
        account_handlers = all_account_handlers;
        account_selector = config.accounts_selector;
      },
      db,
    )
