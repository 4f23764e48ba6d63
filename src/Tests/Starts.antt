-- ===== src/Tests/Starts.antt =====
-- The theorems on the starts and the ends of the two programs.
use client_server_architectu.ClientSession.{written}
use client_server_architectu.Server.Steps.{accepts, receives, moves, stays, Run}
use client_server_architectu.Storage.{find_stock}
use client_server_architectu.Server.{
  inet, accepted, new_server, udp_task, handle_tcp_connection, Server,
}
use client_server_architectu.Storage.Schema.{IsSchema}
use client_server_architectu.Tests.Examples.{test_world-IsCoherent}
use client_server_architectu.Inventory.Coherent.{IsCoherent}
use client_server_architectu.Server.Invariants.{Run-IsSchema, Run-IsCoherent}
use client_server_architectu.Prelude.Dict
use client_server_architectu.Client.Connection.{System}
use client_server_architectu.Client.Session.{receive_end}
use client_server_architectu.Prelude.{push_back, arith, ◌∷◌, true, some, refl, none, false, []}
use client_server_architectu.Server.Setup.{Calls, Listener, addresses, new_listener, setup_server}
use client_server_architectu.Tests.{test_platform, test_world}
use client_server_architectu.Tests.Terminal.{test_library}

-- The first address refuses, and the second one is taken.
abbrev system : System
system = record {
  log_opens = true;
  tcp_addresses = some (
      record { bytes = 1 ∷ []; socket = some 3; connects = false }
      ∷ record { bytes = 2 ∷ []; socket = some 4; connects = true }
      ∷ []);
  udp_addresses = some (
      record { bytes = 3 ∷ []; socket = none; connects = true }
      ∷ record { bytes = 4 ∷ []; socket = some 5; connects = true }
      ∷ []);
  queue_opens = true;
  welcome = some "Welcome!";
  rounds = record { line = "end\n"; exchange = receive_end; threads_start = true } ∷ [];
  delivered = true;
}

abbrev pub calls : Calls
calls = record {
  epoll = some 3;
  tcp = addresses (
      record { socket = some 4; takes_ipv4 = true; reuses = true; binds = false }
      ∷ record { socket = some 5; takes_ipv4 = true; reuses = true; binds = true }
      ∷ []);
  tcp_listens = true;
  tcp_watched = true;
  udp_resolves = true;
  udp_socket = some 6;
  udp_binds = true;
  udp_watched = true;
  unix_socket = some 7;
  unix_binds = true;
  unix_listens = true;
  unix_watched = true;
}

abbrev ready : Listener
ready = (setup_server calls (new_listener test_world)).1

test_world-IsSchema : IsSchema test_world
unfolding Dict.lookup find_stock
test_world-IsSchema = record {
  distinct_users = (refl, tt);
  checked_users = ((refl, omega arith), tt);
  distinct_stock = (refl, tt);
  checked_stock = ((refl, refl, refl, refl), tt);
  checked_logs = tt;
}

-- A client connects, and a datagram arrives.
abbrev first_client : Server
first_client =
    handle_tcp_connection (accepted 7 true (inet (some "10.0.0.2")) (written 90))
      (new_server test_world)

abbrev second_state : Server
second_state = record first_client { tasks = push_back first_client.tasks udp_task }

server_run : Run (new_server test_world) second_state
server_run =
    moves (moves stays (accepts (accepted 7 true (inet (some "10.0.0.2")) (written 90)) refl))
      receives

Run-IsSchema_example : IsSchema second_state.world
Run-IsSchema_example = Run-IsSchema server_run test_world-IsSchema

Run-IsCoherent_example : IsCoherent second_state.world
Run-IsCoherent_example = Run-IsCoherent server_run test_world-IsCoherent
