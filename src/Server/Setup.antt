-- ===== src/Server/Setup.antt =====
-- src/server/server.cpp: the setup of the server's own descriptors in the constructor, and their end
-- in the destructor. What the system calls give is an argument; a step that throws stops the
-- constructor, and then there is no object and no destructor.
pub mod Destroyed
pub mod Tables
use client_server_architectu.Logger.{close_log_file, error, info, log}
use client_server_architectu.Platform.{Platform}
use client_server_architectu.Prelude.Int.{to_string}
use client_server_architectu.Prelude.{
  if◌then◌else◌, ◌∷◌, ◌&&◌, not, ℕ, true, some, none, push_back, false, [], String, Option, List,
  Bool,
}
use client_server_architectu.Resources.{
  Resources, no_resources, acquire, give_back, close_if_open, descriptor, address_list, socket_path,
}
use client_server_architectu.Server.{create_default_admin, perform}
use client_server_architectu.World.{World, Exec, ok, err, Result}
use Prim.Native.String.{◌++◌}

-- The descriptors of the server, no value for -1, the one of the UDP handler, those that epoll
-- watches, and what the process holds for them.
pub record Listener : Type 0 where
  pub world : World
  pub epoll_fd : Option ℕ
  pub tcp_fd : Option ℕ
  pub udp_fd : Option ℕ
  pub unix_fd : Option ℕ
  pub handler_fd : Option ℕ
  pub watched : List ℕ
  pub resources : Resources

abbrev pub new_listener : World → Listener
new_listener w = record {
  world = w;
  epoll_fd = none;
  tcp_fd = none;
  udp_fd = none;
  unix_fd = none;
  handler_fd = none;
  watched = [];
  resources = no_resources;
}

-- an address of `getaddrinfo`: what `socket`, the two calls of `setsockopt` and `bind` give
pub record Candidate : Type 0 where
  pub socket : Option ℕ
  pub takes_ipv4 : Bool
  pub reuses : Bool
  pub binds : Bool

-- what `getaddrinfo` gives: the text of its error, or addresses
pub data Addresses : Type 0 where
  address_error : String → Addresses
  addresses : List Candidate → Addresses

-- what `socket` gives for the UDP and for the UNIX socket, and whether the calls after it succeed
pub record Calls : Type 0 where
  pub epoll : Option ℕ
  pub tcp : Addresses
  pub tcp_listens : Bool
  pub tcp_watched : Bool
  pub udp_resolves : Bool
  pub udp_socket : Option ℕ
  pub udp_binds : Bool
  pub udp_watched : Bool
  pub unix_socket : Option ℕ
  pub unix_binds : Bool
  pub unix_listens : Bool
  pub unix_watched : Bool

-- whether a step returns, or throws, and the state after it
abbrev pub Step : Type 0
Step = Bool × Listener

abbrev pub ◌then◌ : Step → (Listener → Step) → Step
(true, s) then f = f s
(false, s) then f = (false, s)

infixl 5 ◌then◌
abbrev pub opened : ℕ → Listener → Listener
opened fd s = record s { resources = acquire (descriptor fd) s.resources }

abbrev pub listed : Listener → Listener
listed s = record s { resources = acquire address_list s.resources }

abbrev pub unlisted : Listener → Listener
unlisted s = record s { resources = give_back address_list s.resources }

abbrev pub watch : ℕ → Listener → Listener
watch fd s = record s { watched = push_back s.watched fd }

module _ ⦃p : Platform⦄ where
  abbrev pub note : Exec (Unit {0}) → Listener → Listener
  note m s = record s { world = perform m s.world }

  abbrev pub fails : String → Listener → Step
  fails message s = (false, note (log error "Server" message) s)

  -- The loop over the addresses: it throws, or gives the first descriptor that is bound.
  unfoldable pub bind_first : List Candidate → Listener → Option (Option ℕ) × Listener
  bind_first [] s = (some none, s)
  bind_first (c ∷ cs) s = elim c.socket [
    | none ↦ bind_first cs s
    | some fd ↦ elim (c.takes_ipv4 && c.reuses) [
      | false ↦ (none, opened fd s)
      | true ↦ elim c.binds [
        | true ↦ (some (some fd), record (opened fd s) { tcp_fd = some fd })
        | false ↦
            bind_first cs (record s { resources = close_if_open (some fd) (opened fd s).resources })
      ]
    ]
  ]

  unfoldable pub listen_tcp : Calls → Option (Option ℕ) × Listener → Step
  listen_tcp c (none, s) = (false, s)
  listen_tcp c (some none, s) = fails "Failed to bind to any address." (unlisted s)
  listen_tcp c (some (some fd), s) =
      if not c.tcp_listens
      then fails "Failed to listen on socket." (unlisted s)
      else if not c.tcp_watched
      then fails "Failed to add server TCP socket to epoll" (unlisted s)
      else (
        true,
        note
            (log info "Server"
              ("Server TCP socket listening on port " ++ to_string s.world.config.tcp_port))
            (watch fd (unlisted s)),
      )

  unfoldable pub set_tcp_config : Calls → Listener → Step
  set_tcp_config c s = elim c.tcp [
    | address_error text ↦ fails ("getaddrinfo failed: " ++ text) s
    | addresses candidates ↦ listen_tcp c (bind_first candidates (listed s))
  ]

  abbrev pub serve_udp : Calls → ℕ → Listener → Step
  serve_udp c fd s =
      if not c.udp_binds
      then fails "Failed to bind to any address." s
      else if not c.udp_watched
      then fails "Failed to add server UDP socket to epoll"
          (record (unlisted s) { handler_fd = some fd })
      else (
        true,
        note
            (log info "Server"
              ("UDP socket listening on port " ++ to_string s.world.config.udp_port))
            (watch fd (record (unlisted s) { handler_fd = some fd })),
      )

  -- The list of addresses is freed after `bind` alone.
  unfoldable pub set_udp_config : Calls → Listener → Step
  set_udp_config c s = if not c.udp_resolves then (false, s) else elim c.udp_socket [
    | none ↦ fails "Failed to create socket." (listed s)
    | some fd ↦ serve_udp c fd (record (opened fd (listed s)) { udp_fd = some fd })
  ]

  abbrev pub serve_unix : Calls → ℕ → Listener → Step
  serve_unix c fd s =
      if not c.unix_binds
      then (false, s)
      else let bound = record s { resources = acquire socket_path s.resources } in
        if not c.unix_listens
        then (false, bound)
        else if not c.unix_watched
        then (false, record bound { resources = close_if_open (some fd) bound.resources })
        else (
          true,
          note (log info "Server" ("IPC socket listening on " ++ s.world.config.unix_socket_path))
              (watch fd bound),
        )

  -- A file of an earlier run at the path of the socket is removed first.
  unfoldable pub set_unix_config : Calls → Listener → Step
  set_unix_config c s = elim c.unix_socket [
    | none ↦ (false, s)
    | some fd ↦ serve_unix c fd (record (opened fd s) { unix_fd = some fd })
  ]

  abbrev pub admin_created : Listener → Result (Unit {0}) × World → Step
  admin_created s (ok u, w) = (true, record s { world = w })
  admin_created s (err e, w) = (false, record s { world = w })

  abbrev pub create_epoll : Calls → Listener → Step
  create_epoll c s = elim c.epoll [
    | none ↦ (false, s)
    | some fd ↦ (true, record (opened fd s) { epoll_fd = some fd })
  ]

  unfoldable pub setup_server : Calls → Listener → Step
  setup_server c s =
      create_epoll c s then set_tcp_config c then set_udp_config c then set_unix_config c then λ t.
      admin_created t (create_default_admin t.world)

  abbrev pub unlink_path : Option ℕ → Resources → Resources
  unlink_path none r = r
  unlink_path (some fd) r = give_back socket_path (close_if_open (some fd) r)

  -- `~Server`, after the pool has stopped and the sessions are gone
  unfoldable pub destroy : Listener → Listener
  unfolding close_log_file
  destroy s =
      let closed = close_if_open s.udp_fd (close_if_open s.tcp_fd s.resources) in
      let w = s.world in
      let j = w.journal in
      record s {
        resources = close_if_open s.epoll_fd (unlink_path s.unix_fd closed);
        world = record w { journal = record j { file = close_log_file j.file } };
      }
