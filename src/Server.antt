-- ===== src/Server.antt =====
-- src/server/server.cpp: the loop of `run` and the tasks that it gives to the thread pool. What the
-- system calls give is an argument; a client's descriptor is a number. Printing is left out.
pub mod Steps
pub mod Setup
pub mod Program
pub mod Tables
pub mod Invariants
pub mod Kept
pub mod Served
pub mod Reuse
mod Descriptors
pub use Descriptors.{
  Entry, absent, vacant, held, Interest, unregistered, disarmed, every_event, one_event, Task,
  session_task, udp_task, unix_task, PeerAddress, inet, inet6, other_family, Accepted, accept_fails,
  accepted, Server, new_server, set_at, perform, close_descriptor, is_used,
}
unfoldable pub use Descriptors.{get_client_ip, change_interest, release}
use client_server_architectu.Storage.{create_user, user_exists}
use client_server_architectu.Prelude.Int.{to_string, pos}
use client_server_architectu.ClientSession.{Output}
use client_server_architectu.Logger.{debug, error, info, warning, log}
use client_server_architectu.ClientSession.Run.{
  send_welcome_message, try_send_pending_message, has_pending_messages,
}
use client_server_architectu.World.{pure, World, Session, Exec, ◌>>=◌, ◌>>◌, ok, err, Result}
use client_server_architectu.Platform.{Platform}
use client_server_architectu.Prelude.{
  ◌||◌, map, if◌then◌else◌, ◌∷◌, ◌==◌, ℕ, true, suc, some, push_back, none, false, eqb, [], String,
  Option, List, Bool,
}
use mathlib.Core.Option
use Prim.Native.String.{◌++◌}

abbrev pub new_session : ℕ → String → Session
new_session fd ip = record {
  client_socket = pos fd;
  is_authenticated = false;
  client_id = "";
  client_ip = ip;
  udp_address = none;
  pending_messages = [];
}

module _ ⦃p : Platform⦄ where
  -- the default user of `setupServer`
  unfoldable pub create_default_admin : Exec (Unit {0})
  create_default_admin = do
    exists ← user_exists "admin"
    if exists then pure tt else (do
      b ← create_user "admin" "admin"
      log info "Server" "Default admin user created with username 'admin' and password 'admin'")

  -- what `handleTcpConnection` does after the new descriptor is registered
  unfoldable pub open_session : ℕ → String → Output → Server → Server
  open_session fd ip out s =
      let w =
        if ip == "UNKNOWN"
        then perform (log error "Server" "Error while trying to get client IP.") s.world
        else s.world in
      let v : World = record w { objects = set_at s.next_session (new_session fd ip) w.objects } in
      let t : Server = record s {
        client_sessions = set_at fd (held s.next_session) s.client_sessions;
        next_session = suc s.next_session;
        world =
            perform
              (do
                log info "ClientSession" ("New connection accepted from IP " ++ ip)
                send_welcome_message s.next_session out)
              v;
      } in
      release (s.client_sessions fd) fd t

  unfoldable pub handle_tcp_connection : Accepted → Server → Server
  handle_tcp_connection accept_fails s = record s {
    world = perform (log error "Server" "Error while trying to accept.") s.world;
  }
  handle_tcp_connection (accepted fd false ip out) s = record s {
    world = perform (log error "Server" "Failed to add client socket to epoll") s.world;
  }
  handle_tcp_connection (accepted fd true ip out) s =
      open_session fd (get_client_ip ip) out (record s {
        open_fd = set_at fd true s.open_fd;
        interest = set_at fd (one_event false) s.interest;
      })

  abbrev pub invalid_session : ℕ → Server → Server
  invalid_session fd s = record s {
    world =
        perform (log warning "Server" ("Invalid client session for FD: " ++ to_string (pos fd)))
          s.world;
  }

  -- `tcpHandling`: `operator[]` leaves a null pointer where there was no entry
  unfoldable pub tcp_handling : ℕ → Server → Server
  tcp_handling fd s = elim (s.client_sessions fd) [
    | held n ↦ record s { tasks = push_back s.tasks (session_task n fd) }
    | vacant ↦ invalid_session fd s
    | absent ↦
        invalid_session fd (record s { client_sessions = set_at fd vacant s.client_sessions })
  ]

  abbrev pub stop_writing : ℕ → ℕ → Server → World → Server
  stop_writing fd n s w =
      if has_pending_messages n w
      then record s { world = w }
      else change_interest fd every_event (record s { world = w })

  abbrev pub sent_pending : ℕ → ℕ → Server → Result Bool × World → Option Server
  sent_pending fd n s (ok b, w) = some (stop_writing fd n s w)
  sent_pending fd n s (err e, w) = none

  -- `pendingMessages`, with no value for undefined behaviour
  unfoldable pub pending_messages : ℕ → Output → Server → Option Server
  pending_messages fd out s = elim (s.client_sessions fd) [
    | held n ↦ sent_pending fd n s (try_send_pending_message n out s.world)
    | vacant ↦ some (invalid_session fd s)
    | absent ↦
        some
          (invalid_session fd (record s { client_sessions = set_at fd vacant s.client_sessions }))
  ]

  abbrev pub ignore_event : ℕ → Server → Server
  ignore_event fd s = record s {
    world =
        perform (log debug "Server" ("Ignoring event for closed FD: " ++ to_string (pos fd)))
          s.world;
  }

  -- the part of the loop body of `run` for a client's descriptor
  unfoldable pub client_input : ℕ → Server → Server
  client_input fd s = elim (s.client_sessions fd) [
    | absent ↦ ignore_event fd s
    | vacant ↦ tcp_handling fd s
    | held n ↦ tcp_handling fd s
  ]

  unfoldable pub client_event : ℕ → Bool → Output → Server → Option Server
  client_event fd writable out s =
      Option.map (client_input fd) (if writable then pending_messages fd out s else some s)

  -- the ends of a session's task: the descriptor is armed again, or closed
  unfoldable pub rearm : ℕ → ℕ → Server → Server
  rearm n fd s =
      release (held n) fd (change_interest fd (one_event (has_pending_messages n s.world)) s)

  unfoldable pub close_client : ℕ → ℕ → Server → Server
  close_client n fd s =
      let w =
        perform
          (do
            log info "Server" ("Closing client connection from FD: " ++ to_string (pos fd))
            if s.open_fd fd
                then pure tt
                else log warning "Server" ("FD already removed or closed: " ++ to_string (pos fd)))
          s.world in
      close_descriptor fd (record s { world = w; closed = (n, fd) ∷ s.closed })

  -- `m_clientSessions.erase(fd)`, after the descriptor is closed
  unfoldable pub erase_session : ℕ → ℕ → Server → Server
  erase_session n fd s = release (s.client_sessions fd) fd (record s {
    client_sessions = set_at fd absent s.client_sessions;
    ending = (n, fd) ∷ s.ending;
  })

  unfoldable pub handle_unix_connection : Bool → Server → Server
  handle_unix_connection false s = record s {
    world = perform (log error "Server" "Error while trying to accept.") s.world;
  }
  handle_unix_connection true s = record s {
    tasks = push_back s.tasks unix_task;
    world = perform (log info "Server" "IPC connection established.") s.world;
  }
