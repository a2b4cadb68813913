-- ===== src/Mysql8.antt =====
-- include/net/mysql8/connector.hpp: the connection string, the client options and `init`. The client
-- library, the struct-to-JSON library and the URL encoder are parameters: what their calls give, or
-- `thrown`. A text is the list of its bytes. `stringFromTs` only calls the standard library.
use mlnsdk.Base.{
  ℕ, ◌≡◌, refl, ap, sym, ◌∙◌, Bool, true, false, Option, none, some, List, ◌∷◌, ◌++◌, append_assoc,
  if◌then◌else◌,
}
use mlnsdk.Base.Outcome.{Outcome, ok, thrown, fault, ◌>>=◌}
use mlnsdk.Text.{codes}

-- `ClientOptions::Pooling`
pub record Pooling : Type 0 where
  pub enabled : Bool
  pub max_size : ℕ
  pub queue_timeout : ℕ
  pub max_idle_time : ℕ

-- `ClientOptions`
pub record ClientOptions : Type 0 where
  pub pooling : Pooling

abbrev pub default_options : ClientOptions
default_options = record {
  pooling = record { enabled = true; max_size = 25; queue_timeout = 5000; max_idle_time = 5000 };
}

-- `Connector`, with the client of the library.
pub record MysqlConnector (K : Type 0) : Type 0 where
  pub client : Option K
  pub dbname : List ℕ

-- What `init` calls.
pub record Libraries (K : Type 0) : Type 0 where
  pub encode_uri : List ℕ → List ℕ
  pub map_struct_to_json : ClientOptions → Outcome (List ℕ)
  pub make_client : List ℕ → List ℕ → Outcome K

-- The `format` of "mysqlx://{}:{}@{}/{}".
unfoldable pub connection_string : List ℕ → List ℕ → List ℕ → List ℕ → List ℕ
connection_string id pw host dbname =
    codes "mysqlx://" ++ (id ++ 58 ∷ (pw ++ 64 ∷ (host ++ 47 ∷ dbname)))

abbrev pub options_or_default : Option ClientOptions → ClientOptions
options_or_default none = default_options
options_or_default (some o) = o

-- A call that ended, or the exception that leaves it, and the connector behind it.
pub data Ended : Type 0 where
  returned rethrown broken : Ended

module _ {K : Type 0} (lib : Libraries K) where
  abbrev pub encoded : Bool → List ℕ → List ℕ
  encoded use_encode_url t = if use_encode_url then lib.encode_uri t else t

  -- The body of the `try`.
  unfoldable pub make : Option ClientOptions → List ℕ → Outcome K
  make opts conn_string = do
    json ← lib.map_struct_to_json (options_or_default opts)
    lib.make_client conn_string json

  unfoldable pub after_make : List ℕ → MysqlConnector K → Outcome K → MysqlConnector K × Ended
  after_make dbname c (ok client) = (record { client = some client; dbname = dbname }, returned)
  after_make dbname c thrown = (c, rethrown)
  after_make dbname c fault = (c, broken)

  unfoldable pub connector_init :
      List ℕ
      → List ℕ
      → List ℕ
      → List ℕ
      → Option ClientOptions
      → Bool
      → MysqlConnector K
      → MysqlConnector K × Ended
  connector_init id pw host dbname opts use_encode_url c = after_make dbname c (
      make opts
        (connection_string (encoded use_encode_url id) (encoded use_encode_url pw) host dbname))

  -- Where the struct-to-JSON library or the client library raises an exception, it leaves init, and
  -- the connector keeps the client and the database that it had.
  pub failed_init_stays :
      (id pw host dbname : List ℕ) (opts : Option ClientOptions) (use_encode_url : Bool)
      (c : MysqlConnector K)
      → make opts
          (connection_string (encoded use_encode_url id) (encoded use_encode_url pw) host dbname)
        ≡ thrown
      → connector_init id pw host dbname opts use_encode_url c ≡ (c, rethrown)
  unfolding connector_init after_make
  failed_init_stays id pw host dbname opts use_encode_url c e = rw e refl

  -- Without the encoder, a password with a @ makes the same call as what stands before the @ as the
  -- password and the rest of it in front of the host.
  pub password_moves_host :
      (id pw more host dbname : List ℕ) (opts : Option ClientOptions) (c : MysqlConnector K)
      → connector_init id (pw ++ 64 ∷ more) host dbname opts false c
        ≡ connector_init id pw (more ++ 64 ∷ host) dbname opts false c
  unfolding connector_init connection_string
  password_moves_host id pw more host dbname opts c =
      ap (λ (t : List ℕ). after_make dbname c (make opts (codes "mysqlx://" ++ (id ++ 58 ∷ t))))
        (append_assoc pw (64 ∷ more) (64 ∷ (host ++ 47 ∷ dbname))
          ∙ ap (λ (t : List ℕ). pw ++ 64 ∷ t) (sym (append_assoc more (64 ∷ host) (47 ∷ dbname))))
