-- ===== src/Config/Bounds.antt =====
-- What a configuration that the server starts with satisfies.
use client_server_architectu.World.{Config}
use client_server_architectu.Prelude.Options.{some-injective, guard-eq-some, guard, >>=-eq-some}
use client_server_architectu.Config.{
  config_path, validate_arguments, positive_int, load_config, environment_port, non_empty,
  validate_port, argument_ports, configure, in_port_range, is_port, Settings,
}
use client_server_architectu.Prelude.Int.{negsuc, pos, ltb_ℤ, ℤ}
use client_server_architectu.Prelude.{
  ◌<◌, ℕ, ltb→lt, ◌≡◌, ◌∷◌, ◌==◌, true, some, not, none, false, arith, [], String, Option, List,
  refl,
}

abbrev pub IsPort : ℤ → Type 0
IsPort z = in_port_range z ≡ true

abbrev pub IsPositive : ℤ → Type 0
IsPositive z = ltb_ℤ (pos 0) z ≡ true

abbrev pub IsText : String → Type 0
IsText s = (s == "") ≡ false

pub record IsConfig (c : Config) : Type 0 where
  pub ports : IsPort c.tcp_port × IsPort c.udp_port
  pub limits : IsPositive c.max_clients × IsPositive c.max_unix_connections
  pub queue : IsPositive c.queue_size
  pub block_time : IsPositive c.block_time_seconds
  pub log_size : IsPositive c.max_log_size
  pub paths : IsText c.db_path × IsText c.log_path × IsText c.unix_socket_path
  pub texts : IsText c.secret_phrase × IsText c.metric_host_port

module _ ⦃y : Settings⦄ where
  positive_int-IsPositive :
      (node : String → String → Option String) (section key : String) {z : ℤ}
      → positive_int node section key ≡ some z
      → IsPositive z
  unfolding positive_int
  positive_int-IsPositive node section key {z} h =
      let (text, _, a) = >>=-eq-some (node section key) _ h in
      let (n, _, b) = >>=-eq-some (y.as_int text) _ a in
      let (_, g, c) = >>=-eq-some (guard (ltb_ℤ (pos 0) n)) (λ _. some n) b in
      let e : n ≡ z = cc in rw (← e) (guard-eq-some g)

  non_empty-IsText :
      (node : String → String → Option String) (section key : String) {s : String}
      → non_empty node section key ≡ some s
      → IsText s
  unfolding non_empty
  non_empty-IsText node section key {s} h =
      let (text, _, a) = >>=-eq-some (node section key) _ h in
      let (_, g, c) = >>=-eq-some (guard (not (text == ""))) (λ _. some text) a in
      let e : text ≡ s = cc in rw (← e) (ground (arith, guard-eq-some g))

  environment_port-IsPort :
      (port : ℤ) (text : Option String) {r : ℤ × ℤ}
      → IsPort port
      → environment_port port text ≡ some r
      → IsPort r.0 × IsPort r.1
  unfolding environment_port
  environment_port-IsPort port none {r} good h =
      let e : (port, port) ≡ r = cc in rw (← e) (good, good)
  environment_port-IsPort port (some text) {r} good h =
      let (n, _, a) = >>=-eq-some (y.stoi text) _ h in
      let (_, g, c) = >>=-eq-some (guard (in_port_range n)) (λ _. some (n, n)) a in
      let e : (n, n) ≡ r = cc in rw (← e) (guard-eq-some g, guard-eq-some g)

  stoi-IsPort : (s : String) {z : ℤ} → is_port s ≡ true → y.stoi s ≡ some z → IsPort z
  stoi-IsPort s h e = rw (is_port, e) at h

  argument_ports-IsPort :
      (port : ℤ) (args : List String) {r : ℤ × ℤ}
      → IsPort port
      → validate_arguments args ≡ true
      → argument_ports port args ≡ some r
      → IsPort r.0 × IsPort r.1
  unfolding argument_ports validate_arguments
  argument_ports-IsPort port [] good v h =
      environment_port-IsPort port (y.getenv "SERVER_PORT") good h
  argument_ports-IsPort port (path ∷ []) good v h =
      environment_port-IsPort port (y.getenv "SERVER_PORT") good h
  argument_ports-IsPort port (path ∷ tcp ∷ []) {r} good v h =
      let (t, a, c) = >>=-eq-some (y.stoi tcp) _ h in
      let e : (t, t) ≡ r = cc in
      let both = stoi-IsPort tcp (ground (arith, v)) a in rw (← e) (both, both)
  argument_ports-IsPort port (path ∷ tcp ∷ udp ∷ []) {r} good v h =
      let (t, a, c) = >>=-eq-some (y.stoi tcp) _ h in
      let (u, b, d) = >>=-eq-some (y.stoi udp) _ c in
      let e : (t, u) ≡ r = cc in
      rw (← e) (stoi-IsPort tcp (ground (arith, v)) a, stoi-IsPort udp (ground (arith, v)) b)
  argument_ports-IsPort port (path ∷ tcp ∷ udp ∷ more ∷ rest) good v h = cc

  validate_port-IsPort :
      (node : String → String → Option String) (args : List String) {r : ℤ × ℤ}
      → validate_arguments args ≡ true
      → validate_port node args ≡ some r
      → IsPort r.0 × IsPort r.1
  unfolding validate_port
  validate_port-IsPort node args v h =
      let (text, _, a) = >>=-eq-some (node "server" "port") _ h in
      let (port, _, b) = >>=-eq-some (y.as_int text) _ a in
      let (_, g, c) = >>=-eq-some (guard (in_port_range port)) (λ _. argument_ports port args) b in
      argument_ports-IsPort port args (guard-eq-some g) v c

  load_config-IsConfig :
      (node : String → String → Option String) (args : List String) {c : Config}
      → validate_arguments args ≡ true
      → load_config node args ≡ some c
      → IsConfig c
  unfolding load_config
  load_config-IsConfig node args {c} v h =
      let (ports, a, h1) = >>=-eq-some (validate_port node args) _ h in
      let (_, b, h2) = >>=-eq-some (positive_int node "server" "max_clients") _ h1 in
      let (_, d, h3) = >>=-eq-some (positive_int node "server" "max_unix_connections") _ h2 in
      let (_, e, h4) = >>=-eq-some (non_empty node "server" "metric_host_port") _ h3 in
      let (_, f, h5) = >>=-eq-some (positive_int node "server" "queue_size") _ h4 in
      let (_, g, h6) = >>=-eq-some (non_empty node "server" "unix_socket_path") _ h5 in
      let (_, i, h7) = >>=-eq-some (non_empty node "database" "path") _ h6 in
      let (_, j, h8) = >>=-eq-some (non_empty node "security" "unlock_secret_phrase") _ h7 in
      let (_, k, h9) = >>=-eq-some (positive_int node "security" "block_time_seconds") _ h8 in
      let (_, l, h10) = >>=-eq-some (positive_int node "logger" "max_log_size_mb") _ h9 in
      let (_, m, h11) = >>=-eq-some (non_empty node "logger" "log_path") _ h10 in
      let same = some-injective h11 in
      rw (← same) (record {
        ports = validate_port-IsPort node args v a;
        limits = (
          positive_int-IsPositive node "server" "max_clients" b,
          positive_int-IsPositive node "server" "max_unix_connections" d,
        );
        queue = positive_int-IsPositive node "server" "queue_size" f;
        block_time = positive_int-IsPositive node "security" "block_time_seconds" k;
        log_size = positive_int-IsPositive node "logger" "max_log_size_mb" l;
        paths = (
          non_empty-IsText node "database" "path" i,
          non_empty-IsText node "logger" "log_path" m,
          non_empty-IsText node "server" "unix_socket_path" g,
        );
        texts = (
          non_empty-IsText node "security" "unlock_secret_phrase" j,
          non_empty-IsText node "server" "metric_host_port" e,
        );
      })

  -- Whatever the arguments, the file and the environment: a configuration that the server starts
  -- with has both ports between 1 and 65535, positive limits, queue size, block time and log size,
  -- and no empty path, phrase or address.
  pub configure-IsConfig : (args : List String) (c : Config) → configure args ≡ some c → IsConfig c
  unfolding configure
  configure-IsConfig args c h =
      let (_, g, a) = >>=-eq-some (guard (validate_arguments args)) _ h in
      let (node, _, b) = >>=-eq-some (y.load_file (config_path args)) _ a in
      load_config-IsConfig node args (guard-eq-some g) b

  pub positive-pos : (z : ℤ) → IsPositive z → (n : ℕ) × (z ≡ pos n) × (0 < n)
  positive-pos (pos n) h = (n, refl, ltb→lt 0 n (ground (arith, h)))
  positive-pos (negsuc n) h = absurd (ground (arith, h))
