-- ===== src/ClientSession/Run.antt =====
-- The rest of src/server/clientSession.cpp: one turn of a connection, the delivery of queued events,
-- the welcome message and the messages that wait for the socket.
use client_server_architectu.Prelude.Int.{pos, ltb_ℤ}
use client_server_architectu.Platform.{Platform}
use client_server_architectu.Prelude.{
  if◌then◌else◌, ◌||◌, ◌==◌, ℕ, true, some, push_back, not, none, is_empty, false, drop, String,
  Option, Bool,
}
use Prim.Native.String.{◌++◌}
use client_server_architectu.ClientSession.{
  Input, would_block, read_error, end_of_stream, text, Output, blocked, write_error, written,
  update_session, process_message,
}
use client_server_architectu.CommandProcessor.{CommandResult}
use client_server_architectu.EventQueue.{pop_event}
use client_server_architectu.Logger.{info, warning, error, log}
use client_server_architectu.SessionManager.{unregister_session}
use client_server_architectu.Traffic.{increment_error}
use client_server_architectu.UdpHandler.{send_message_to_client}
use client_server_architectu.World.{
  World, Event, Exec, ok, err, undefined_behaviour, pure, gets, modify, ◌>>=◌, ◌>>◌,
}

abbrev pub welcome : String
welcome =
    "Welcome to the C++ Server! Please login to start operating or type 'end' to disconnect.\n"

abbrev pub add_pending : ℕ → String → World → World
add_pending n message =
    update_session n (λ s. record s { pending_messages = push_back s.pending_messages message })

abbrev pub or_address : Option String → Option String → Option String
or_address (some a) late = some a
or_address none late = late

module _ ⦃p : Platform⦄ where
  -- Without an address the call sleeps, and another thread may set one (`late`).
  unfoldable pub wait_for_address : ℕ → Option String → Exec (Option String)
  wait_for_address n late w =
      let address = or_address (w.objects n).udp_address late in
      (
        ok address,
        update_session n (λ s. record s { udp_address = or_address s.udp_address late }) w,
      )

  unfoldable pub deliver : String → String → Option String → Exec Bool
  deliver client message (some address) = do
    send_message_to_client client message address
    pure true
  deliver client message none = do
    log error "ClientSession"
        ("UDP address not set for client " ++ client ++ ". Cannot send event \"NOTIFICATION\".")
    pure false

  -- The loop body returns in every case, so at most one event is taken.
  unfoldable pub handle_event : ℕ → Option String → String → Option Event → Exec Bool
  handle_event n late client none = pure true
  handle_event n late client (some event) = do
    address ← wait_for_address n late
    deliver client event.message address

  unfoldable pub handle_event_queue : ℕ → Option String → Exec Bool
  handle_event_queue n late = do
    client ← gets (λ w. (w.objects n).client_id)
    event ← pop_event client
    handle_event n late client event

  unfoldable pub unregister_if_named : ℕ → Exec (Unit {0})
  unregister_if_named n w =
      if (w.objects n).client_id == ""
      then (ok tt, w)
      else unregister_session (w.objects n).client_id w

  -- the error of a write, counted and logged
  unfoldable pub report_write_error : ℕ → Exec (Unit {0})
  report_write_error n = do
    increment_error "tcp" "tx"
    ip ← gets (λ w. (w.objects n).client_ip)
    log error "ClientSession" ("Error writing to client socket from IP: " ++ ip)

  -- what follows the write of the response
  unfoldable pub finish : ℕ → Option String → Bool → Exec Bool
  finish n late keep = do
    s ← gets (λ w. w.objects n)
    delivered ← (if s.is_authenticated then handle_event_queue n late else pure true)
    if delivered
        then pure tt
        else log error "ClientSession"
            ("Failed to send event to client " ++ s.client_id ++ " from IP: " ++ s.client_ip ++ ".")
    if keep then pure true else (do
      log info "ClientSession"
          ("Closing connection with client: " ++ s.client_id ++ " from IP: " ++ s.client_ip)
      unregister_if_named n
      pure false)

  -- A write of zero bytes is taken for an error or a block; a partial write counts as a write.
  unfoldable pub respond : ℕ → Option String → Output → CommandResult → Exec Bool
  respond n late write_error (response, keep) = do
    report_write_error n
    unregister_if_named n
    pure false
  respond n late blocked (response, keep) = do modify (add_pending n response); finish n late keep
  respond n late (written k) (response, keep) = finish n late keep

  -- `run`: whether the connection stays open
  unfoldable pub run : ℕ → Input → Output → Option String → Exec Bool
  run n would_block out late = pure true
  run n read_error out late = do
    ip ← gets (λ w. (w.objects n).client_ip)
    log error "ClientSession"
        ("Error reading from client socket from IP: " ++ ip ++ ". Closing session.")
    pure false
  run n end_of_stream out late = do
    ip ← gets (λ w. (w.objects n).client_ip)
    log warning "ClientSession" ("Client connection from IP: " ++ ip ++ "has been disconnected.")
    unregister_if_named n
    pure false
  run n (text message) out late = do result ← process_message n message; respond n late out result

  unfoldable pub send_welcome_message : ℕ → Output → Exec Bool
  send_welcome_message n (written k) = pure true
  send_welcome_message n blocked = do modify (add_pending n welcome); pure true
  send_welcome_message n write_error = do report_write_error n; pure false

  unfoldable pub report_pending_error : ℕ → Exec (Unit {0})
  report_pending_error n = do
    increment_error "tcp" "tx"
    ip ← gets (λ w. (w.objects n).client_ip)
    log error "ClientSession" ("Error writing pending message to client socket from IP: " ++ ip)

  -- `msg` names the first message; after `pop_front` reading it is undefined
  unfoldable pub send_first : ℕ → Output → Exec Bool
  send_first n blocked w = (ok true, w)
  send_first n write_error w = (do report_pending_error n; pure false) w
  send_first n (written k) w = (
    err undefined_behaviour,
    update_session n (λ s. record s { pending_messages = drop 1 s.pending_messages }) w,
  )

  unfoldable pub try_send_pending_message : ℕ → Output → Exec Bool
  try_send_pending_message n out w =
      if is_empty (w.objects n).pending_messages || ltb_ℤ (w.objects n).client_socket (pos 0)
      then (ok false, w)
      else send_first n out w

abbrev pub has_pending_messages : ℕ → World → Bool
has_pending_messages n w = not (is_empty (w.objects n).pending_messages)
