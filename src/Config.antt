-- ===== src/Config.antt =====
-- src/server/config.cpp and src/server/configValidator.cpp. An exception of the constructor is no
-- value. The arguments are those after the program's name.
pub mod Bounds
pub mod Queues
use client_server_architectu.World.{Config}
use client_server_architectu.Prelude.{
  ◌∷◌, ◌==◌, ◌&&◌, ℕ, some, not, none, false, [], String, Option, List, Bool,
}
use client_server_architectu.Prelude.Int.{leb_ℤ, ltb_ℤ, ℤ, pos}
use client_server_architectu.Prelude.Options.{◌>>=◌, ◌>>◌, guard}

-- What the code calls: `YAML::LoadFile`, with the scalars of a document by section and key, the
-- conversion `as<int>()`, `std::stoi`, `getenv` and `std::filesystem::exists`. No value stands for an
-- exception, and for a key that is missing or no scalar.
pub record Settings : Type 0 where
  pub load_file : String → Option (String → String → Option String)
  pub as_int : String → Option ℤ
  pub stoi : String → Option ℤ
  pub getenv : String → Option String
  pub exists : String → Bool

abbrev pub max_port : ℕ
max_port = 65535

abbrev pub config_file_path : String
config_file_path = "./etc/config.yaml"

abbrev pub in_port_range : ℤ → Bool
in_port_range z = ltb_ℤ (pos 0) z && leb_ℤ z (pos max_port)

module _ ⦃y : Settings⦄ where
  abbrev pub is_port : String → Bool
  is_port s = elim (y.stoi s) [ none ↦ false | some z ↦ in_port_range z ]

  -- `ConfigValidator::validateArguments`
  unfoldable pub validate_arguments : List String → Bool
  validate_arguments [] = y.exists config_file_path
  validate_arguments (path ∷ []) = y.exists path
  validate_arguments (path ∷ tcp ∷ []) = y.exists path && is_port tcp
  validate_arguments (path ∷ tcp ∷ udp ∷ []) = y.exists path && (is_port tcp && is_port udp)
  validate_arguments (path ∷ tcp ∷ udp ∷ more ∷ rest) = false

  -- a scalar that is a positive `int`
  unfoldable pub positive_int : (String → String → Option String) → String → String → Option ℤ
  positive_int node section key = do
    text ← node section key
    n ← y.as_int text
    guard (ltb_ℤ (pos 0) n)
    some n

  -- a scalar that is not empty
  unfoldable pub non_empty : (String → String → Option String) → String → String → Option String
  non_empty node section key = do text ← node section key; guard (not (text == "")); some text

  -- the port of the environment variable, or that of the file
  unfoldable pub environment_port : ℤ → Option String → Option (ℤ × ℤ)
  environment_port port none = some (port, port)
  environment_port port (some text) = do n ← y.stoi text; guard (in_port_range n); some (n, n)

  -- the ports for TCP and UDP, from the arguments where they name some
  unfoldable pub argument_ports : ℤ → List String → Option (ℤ × ℤ)
  argument_ports port [] = environment_port port (y.getenv "SERVER_PORT")
  argument_ports port (path ∷ []) = environment_port port (y.getenv "SERVER_PORT")
  argument_ports port (path ∷ tcp ∷ []) = do t ← y.stoi tcp; some (t, t)
  argument_ports port (path ∷ tcp ∷ udp ∷ []) = do t ← y.stoi tcp; u ← y.stoi udp; some (t, u)
  argument_ports port (path ∷ tcp ∷ udp ∷ more ∷ rest) = do t ← y.stoi tcp; some (t, t)

  -- `Config::validatePort`
  unfoldable pub validate_port : (String → String → Option String) → List String → Option (ℤ × ℤ)
  validate_port node args = do
    text ← node "server" "port"
    port ← y.as_int text
    guard (in_port_range port)
    argument_ports port args

  -- `Config::Config`, of a document: `serverConfig`, `databaseConfig`, `securityConfig`, `logConfig`
  unfoldable pub load_config : (String → String → Option String) → List String → Option Config
  load_config node args = do
    ports ← validate_port node args
    max_clients ← positive_int node "server" "max_clients"
    max_unix_connections ← positive_int node "server" "max_unix_connections"
    metric_host_port ← non_empty node "server" "metric_host_port"
    queue_size ← positive_int node "server" "queue_size"
    unix_socket_path ← non_empty node "server" "unix_socket_path"
    db_path ← non_empty node "database" "path"
    secret_phrase ← non_empty node "security" "unlock_secret_phrase"
    block_time_seconds ← positive_int node "security" "block_time_seconds"
    max_log_size ← positive_int node "logger" "max_log_size_mb"
    log_path ← non_empty node "logger" "log_path"
    some (record {
      max_log_size = max_log_size;
      log_path = log_path;
      max_clients = max_clients;
      max_unix_connections = max_unix_connections;
      block_time_seconds = block_time_seconds;
      tcp_port = ports.0;
      udp_port = ports.1;
      queue_size = queue_size;
      metric_host_port = metric_host_port;
      db_path = db_path;
      secret_phrase = secret_phrase;
      unix_socket_path = unix_socket_path;
    })

  abbrev pub config_path : List String → String
  config_path [] = config_file_path
  config_path (path ∷ rest) = path

  -- the start of `main`: the arguments are checked, and the configuration is loaded
  unfoldable pub configure : List String → Option Config
  configure args = do
    guard (validate_arguments args)
    node ← y.load_file (config_path args)
    load_config node args
