-- ===== src/Server/Tables.antt =====
-- Whatever the server does, in whatever order, it keeps every invariant of the tables and the cache.
use client_server_architectu.Invariant.{log-Keeps, Holds, IsInvariant, Property}
use client_server_architectu.AlertManager.Tables.{handle_connection-Keeps}
use client_server_architectu.ClientSession.Run.{
  has_pending_messages, send_welcome_message, try_send_pending_message,
}
use client_server_architectu.ClientSession.Tables.{
  run-Keeps, send_welcome_message-Keeps, try_send_pending_message-Keeps,
}
use client_server_architectu.ClientSession.{Output}
use client_server_architectu.Logger.{debug, error, info, warning, log, LogLevel}
use client_server_architectu.Platform.{Platform}
use client_server_architectu.Prelude.Options.{some-injective}
use client_server_architectu.Prelude.{
  ◌≡◌, ◌++◌ as ◌+++◌, ap, refl, subst, sym, Bool, ℕ, Option, String, false, none, some, true, arith,
  if◌then◌else◌, ◌==◌,
}
use client_server_architectu.Server.Steps.{
  Step, accepts, delivers, receives, accepts_unix, serves_udp, serves_unix, keeps, closes, erases,
  ends, Run, stays, moves, delivered, done,
}
use client_server_architectu.Server.{
  Accepted, Entry, Interest, Server, absent, accept_fails, accepted, change_interest, client_event,
  client_input, close_client, erase_session, every_event, get_client_ip, handle_tcp_connection,
  handle_unix_connection, held, one_event, open_session, pending_messages, perform, rearm, release,
  sent_pending, tcp_handling, vacant,
}
use client_server_architectu.Traffic.Tables.{counted_rules}
use client_server_architectu.UdpHandler.Tables.{handle_message-Keeps}
use client_server_architectu.World.Keeps.{Keeps}
use client_server_architectu.World.{Result, World, err, ok, pure, ◌>>◌}
use mathlib.Core.Option
use Prim.Native.String.{◌++◌}

release-world : (e : Entry) (fd : ℕ) (s : Server) → (release e fd s).world ≡ s.world
unfolding release
release-world e fd s = ground arith

change_interest-world :
    (fd : ℕ) (i : Interest) (s : Server) → (change_interest fd i s).world ≡ s.world
unfolding change_interest
change_interest-world fd i s = ground arith

module _ ⦃p : Platform⦄ (P : Property) (inv : IsInvariant P) where
  abbrev HasTables : Server → Type 0
  HasTables s = Holds P s.world

  released : (e : Entry) (fd : ℕ) (s : Server) → HasTables s → HasTables (release e fd s)
  released e fd s = subst (Holds P) (sym (release-world e fd s))

  interested :
      (fd : ℕ) (i : Interest) (s : Server) → HasTables s → HasTables (change_interest fd i s)
  interested fd i s = subst (Holds P) (sym (change_interest-world fd i s))

  logged :
      (level : LogLevel) (component message : String) (w : World)
      → Holds P w
      → Holds P (perform (log level component message) w)
  logged level component message w = (log-Keeps P inv level component message).at w

  greet-Keeps :
      (n : ℕ) (ip : String) (out : Output)
      → Keeps (Holds P) (do
        log info "ClientSession" ("New connection accepted from IP " ++ ip)
        send_welcome_message n out)
  greet-Keeps n ip out = search (counted_rules, send_welcome_message-Keeps)

  named :
      (b : Bool) (w : World)
      → Holds P w
      → Holds P
          (if b then perform (log error "Server" "Error while trying to get client IP.") w else w)
  named true w h = logged error "Server" _ w h
  named false w h = h

  open_session-tables :
      (fd : ℕ) (ip : String) (out : Output) (s : Server)
      → HasTables s
      → HasTables (open_session fd ip out s)
  unfolding open_session
  open_session-tables fd ip out s h =
      released (s.client_sessions fd) fd _
        ((greet-Keeps s.next_session ip out).at _ (named (ip == "UNKNOWN") s.world h))

  handle_tcp_connection-tables :
      (a : Accepted) (s : Server) → HasTables s → HasTables (handle_tcp_connection a s)
  unfolding handle_tcp_connection
  handle_tcp_connection-tables accept_fails s h = logged error "Server" _ s.world h
  handle_tcp_connection-tables (accepted fd false ip out) s h = logged error "Server" _ s.world h
  handle_tcp_connection-tables (accepted fd true ip out) s h =
      open_session-tables fd (get_client_ip ip) out _ h

  tcp_handling-tables : (fd : ℕ) (s : Server) → HasTables s → HasTables (tcp_handling fd s)
  unfolding tcp_handling
  tcp_handling-tables fd s h = go (s.client_sessions fd) refl
    where
      go : (e : Entry) → s.client_sessions fd ≡ e → HasTables (tcp_handling fd s)
      go (held m) e = rw (tcp_handling, e) h
      go vacant e = rw (tcp_handling, e) (logged warning "Server" _ s.world h)
      go absent e = rw (tcp_handling, e) (logged warning "Server" _ s.world h)

  client_input-tables : (fd : ℕ) (s : Server) → HasTables s → HasTables (client_input fd s)
  unfolding client_input
  client_input-tables fd s h = go (s.client_sessions fd) refl
    where
      go : (e : Entry) → s.client_sessions fd ≡ e → HasTables (client_input fd s)
      go (held m) e = rw (client_input, e) (tcp_handling-tables fd s h)
      go vacant e = rw (client_input, e) (tcp_handling-tables fd s h)
      go absent e = rw (client_input, e) (logged debug "Server" _ s.world h)

  sent_pending-tables :
      (fd n : ℕ) (s : Server) (r : Result Bool × World) {t : Server}
      → Holds P r.1
      → sent_pending fd n s r ≡ some t
      → HasTables t
  sent_pending-tables fd n s (err e, w) h q = cc
  sent_pending-tables fd n s (ok b, w) h q =
      subst HasTables (some-injective q) (go (has_pending_messages n w))
    where
      go :
          (c : Bool)
          → HasTables (
              if c
              then record s { world = w }
              else change_interest fd every_event (record s { world = w }))
      go true = h
      go false = interested fd every_event (record s { world = w }) h

  pending_messages-tables :
      (fd : ℕ) (out : Output) (s : Server) {t : Server}
      → HasTables s
      → pending_messages fd out s ≡ some t
      → HasTables t
  unfolding pending_messages
  pending_messages-tables fd out s h q = go (s.client_sessions fd) refl q
    where
      go :
          {t : Server} (e : Entry)
          → s.client_sessions fd ≡ e
          → pending_messages fd out s ≡ some t
          → HasTables t
      go (held n) e q =
          sent_pending-tables fd n s (try_send_pending_message n out s.world)
            ((try_send_pending_message-Keeps P inv n out).at s.world h)
            (rw (pending_messages, e) at q)
      go vacant e q =
          subst HasTables (some-injective (rw (pending_messages, e) at q))
            (logged warning "Server" _ s.world h)
      go absent e q =
          subst HasTables (some-injective (rw (pending_messages, e) at q))
            (logged warning "Server" _ s.world h)

  client_event-tables :
      (fd : ℕ) (writable : Bool) (out : Output) (s : Server) {t : Server}
      → HasTables s
      → client_event fd writable out s ≡ some t
      → HasTables t
  unfolding client_event
  client_event-tables fd true out s h q = go (pending_messages fd out s) refl q
    where
      go :
          {t : Server} (o : Option Server)
          → pending_messages fd out s ≡ o
          → Option.map (client_input fd) o ≡ some t
          → HasTables t
      go none e q = cc
      go (some u) e q =
          subst HasTables (some-injective q)
            (client_input-tables fd u (pending_messages-tables fd out s h e))
  client_event-tables fd false out s h q =
      subst HasTables (some-injective q) (client_input-tables fd s h)

  ended-Keeps :
      (open' : Bool) (first second : String)
      → Keeps
          (Holds P)
          (do log info "Server" first; if open' then pure tt else log warning "Server" second)
  ended-Keeps open' first second = search counted_rules

  close_client-tables : (n fd : ℕ) (s : Server) → HasTables s → HasTables (close_client n fd s)
  unfolding close_client
  close_client-tables n fd s h = (ended-Keeps (s.open_fd fd) _ _).at s.world h

  Step-tables : {s t : Server} → Step s t → HasTables s → HasTables t
  unfolding rearm handle_unix_connection erase_session
  Step-tables {s} (accepts a fresh) h = handle_tcp_connection-tables a s h
  Step-tables {s} (delivers fd writable out armed e) h =
      client_event-tables fd writable out (delivered fd s) h e
  Step-tables receives h = h
  Step-tables {s} (accepts_unix true) h = logged info "Server" _ s.world h
  Step-tables {s} (accepts_unix false) h = logged error "Server" _ s.world h
  Step-tables {s} (serves_udp before after r address e) h =
      (handle_message-Keeps P inv r address).at s.world h
  Step-tables {s} (serves_unix before after i e) h = (handle_connection-Keeps P inv i).at s.world h
  Step-tables {s} (keeps before after n fd input out late {w} e r) h = released (held n) fd _ (
      interested fd (one_event (has_pending_messages n w)) (done (before +++ after) w s) (
        subst (Holds P) (ap (λ (x : Result Bool × World). x.1) r)
          ((run-Keeps P inv n input out late).at s.world h)))
  Step-tables {s} (closes before after n fd input out late {w} e r) h =
      close_client-tables n fd (done (before +++ after) w s) (
        subst (Holds P) (ap (λ (x : Result Bool × World). x.1) r)
          ((run-Keeps P inv n input out late).at s.world h))
  Step-tables {s} (erases before after n fd e) h = released (s.client_sessions fd) fd _ h
  Step-tables {s} (ends before after n fd e) h = released (held n) fd _ h

  pub Run-Holds : {s t : Server} → Run s t → Holds P s.world → Holds P t.world
  Run-Holds stays h = h
  Run-Holds (moves before step) h = Step-tables step (Run-Holds before h)
