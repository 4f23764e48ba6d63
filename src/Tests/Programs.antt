-- ===== src/Tests/Programs.antt =====
-- The theorems on the program of the server, from its start on.
use client_server_architectu.Prelude.Dict
use client_server_architectu.ClientSession.{written}
use client_server_architectu.Inventory.Coherent.{IsCoherent}
use client_server_architectu.Prelude.{ℕ, none, some, true, refl, arith, [], ◌∷◌, ◌≡◌, if◌then◌else◌}
use client_server_architectu.Server.Program.{Host, announced, launch, services}
use client_server_architectu.Server.Program.Launched.{launch-IsCoherent}
use client_server_architectu.Server.Setup.{Listener, new_listener, setup_server}
use client_server_architectu.Server.Steps.{accepts, moves, stays}
use client_server_architectu.Server.{Server, accepted, handle_tcp_connection, inet, new_server}
use client_server_architectu.Storage.Schema.{IsSchema}
use client_server_architectu.Storage.Setup.{initialize_schema, missing-IsDatabase}
use client_server_architectu.Tests.Starts.{calls}
use client_server_architectu.Tests.Systems.{loaded, test_settings}
use client_server_architectu.Tests.{test_platform}

-- a new database
abbrev host : Host
host = record {
  directory = true;
  opens = true;
  pragmas = true;
  database = record { users = none; inventory = none; logs = none };
  log_content = none;
  rotated_logs = [];
  calls = calls;
}

abbrev launched : Listener
launched =
    announced
      (setup_server calls
        (new_listener (services loaded host (initialize_schema 0 host.database).1))).1

launches : launch ("a.yaml" ∷ "9000" ∷ []) host ≡ some launched
unfolding launch client_server_architectu.Config.configure
    client_server_architectu.Config.validate_arguments client_server_architectu.Config.load_config
    client_server_architectu.Config.validate_port client_server_architectu.Config.argument_ports
    client_server_architectu.Config.positive_int client_server_architectu.Config.non_empty
    setup_server client_server_architectu.Server.Setup.set_tcp_config
    client_server_architectu.Server.Setup.listen_tcp
    client_server_architectu.Server.Setup.bind_first
    client_server_architectu.Server.Setup.set_udp_config
    client_server_architectu.Server.Setup.set_unix_config initialize_schema
    client_server_architectu.Storage.Setup.open_database
    client_server_architectu.Server.create_default_admin
    client_server_architectu.Storage.user_exists client_server_architectu.Prelude.Dict.count
    client_server_architectu.Storage.create_user client_server_architectu.Prelude.Dict.lookup
launches = refl

abbrev connected : Server
connected =
    handle_tcp_connection (accepted 7 true (inet (some "10.0.0.2")) (written 90))
      (new_server launched.world)

launch-IsCoherent_example : IsSchema connected.world × IsCoherent connected.world
launch-IsCoherent_example =
    launch-IsCoherent ("a.yaml" ∷ "9000" ∷ []) host launched missing-IsDatabase launches
      (moves stays (accepts (accepted 7 true (inet (some "10.0.0.2")) (written 90)) refl))
