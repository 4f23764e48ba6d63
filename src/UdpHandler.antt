-- ===== src/UdpHandler.antt =====
-- src/server/udpHandler.cpp. What `recvfrom` gives is an argument; `sendto` is the platform's, and
-- every datagram handed to it is recorded. Maps and sets are walked in the order of their lists.
pub mod Broadcast
pub mod Tables
use client_server_architectu.Prelude.Int.{pos, leb_ℤ, ℤ, ltb_ℤ}
use client_server_architectu.Platform.{Platform}
use client_server_architectu.Prelude.{
  if◌then◌else◌, ◌∷◌, ◌==◌, ℕ, some, push_back, none, length, eqb, [], String, Option, List,
}
use Prim.Native.String.{◌++◌}
use client_server_architectu.Json.{Json, end, string, object, member}
use client_server_architectu.Logger.{debug, info, warning, error, log}
use client_server_architectu.Traffic.{increment_error, increment_message}
use client_server_architectu.EventQueue.{push_event}
use client_server_architectu.SessionManager.{
  get_session, get_active_udp_addresses, get_offline_users,
}
use client_server_architectu.World.{
  notification, World, Exec, ok, pure, gets, modify, json_or_throw, catch_json, ◌>>=◌, ◌>>◌,
}

-- what a read of a socket gives: nothing now, an error, or the text up to its first zero byte
pub data Received : Type 0 where
  would_block failed : Received
  bytes : String → Received

-- `clientSession::setUdpAddress`
abbrev pub set_udp_address : ℕ → String → World → World
set_udp_address n address w = record w {
  objects =
      λ m. if eqb m n then record (w.objects m) { udp_address = some address } else w.objects m;
}

abbrev pub pong : Json
pong = object (
    member "category" (string "keepalive") (
      member "status" (string "success") (
        member "message"
          (string "PONG: Server received keepalive from client and connection is active.") end)))

module _ ⦃p : Platform⦄ where
  unfoldable pub send : String → String → Exec ℤ
  send address text w =
      (ok (p.sendto (length w.sent)), record w { sent = push_back w.sent (address, text) })

  unfoldable pub answer_keepalive : String → String → Option ℕ → Exec (Unit {0})
  answer_keepalive address client none =
      log error "UdpHandler" ("Couldn't find session for keepalive message from client " ++ client)
  answer_keepalive address client (some n) = do
    modify (set_udp_address n address)
    log debug "UdpHandler" ("Updated UDP address for client " ++ client)
    sent ← send address (p.dump pong)
    if ltb_ℤ sent (pos 0)
        then (do
          log error "UdpHandler" ("Error sending PONG message to client " ++ client)
          increment_error "udp" "tx")
        else (do
          increment_message "udp" "tx"
          log info "UdpHandler" ("Sent PONG message to client " ++ client))

  unfoldable pub handle_keepalive : Json → String → Exec (Unit {0})
  handle_keepalive request address =
      catch_json (log warning "UdpHandler" "Malformed keepalive message received.") (do
        member' ← json_or_throw (p.at "clientId" request)
        client ← json_or_throw (p.get_string member')
        session ← gets (get_session client)
        answer_keepalive address client session)

  -- `value` throws on a document that is no object, and nothing here catches it
  unfoldable pub handle_request : Option Json → String → Exec (Unit {0})
  handle_request none address = log warning "UdpHandler" "Receiveed invalid JSON via UDP."
  handle_request (some request) address = do
    cmd ← json_or_throw (p.value "command" "unknown" request)
    if cmd == "keepalive"
        then handle_keepalive request address
        else log warning "UdpHandler" ("Received unknown UDP command: " ++ cmd)

  unfoldable pub handle_message : Received → String → Exec (Unit {0})
  handle_message would_block address = pure tt
  handle_message failed address = do
    log error "UdpHandler" "UDP recvfrom error"
    increment_error "udp" "rx"
  handle_message (bytes text) address = do
    log info "UdpHandler" ("Received UDP message: " ++ text)
    increment_message "udp" "rx"
    handle_request (p.parse text) address

  unfoldable pub broadcast_to : String → String → Exec (Unit {0})
  broadcast_to text address = do
    sent ← send address text
    if ltb_ℤ sent (pos 0)
        then (do
          log error "UdpHandler" "Error broadcasting alert message"
          increment_error "udp" "tx")
        else increment_message "udp" "tx"

  unfoldable pub send_all : String → List String → Exec (Unit {0})
  send_all text [] = pure tt
  send_all text (a ∷ as') = broadcast_to text a >> send_all text as'

  unfoldable pub queue_for : String → String → Exec (Unit {0})
  queue_for text user = do
    push_event user (record { type = notification; message = text })
    log info "UdpHandler"
        ("User " ++ user ++ " is offline, alert has been queued for later delivery.")

  unfoldable pub queue_all : String → List String → Exec (Unit {0})
  queue_all text [] = pure tt
  queue_all text (u ∷ us) = queue_for text u >> queue_all text us

  unfoldable pub broadcast_message : Json → Exec (Unit {0})
  broadcast_message alert = do
    addresses ← gets get_active_udp_addresses
    send_all (p.dump alert) addresses
    log info "UdpHandler" ("Broadcasted alert message to all connected clients: " ++ p.dump alert)
    users ← gets get_offline_users
    queue_all (p.dump alert) users

  unfoldable pub send_message_to_client : String → String → String → Exec (Unit {0})
  send_message_to_client client message address = do
    sent ← send address message
    if leb_ℤ sent (pos 0)
        then (do
          log error "UdpHandler" ("Error sending delayed alert message to client " ++ client)
          increment_error "udp" "tx")
        else (do
          increment_message "udp" "tx"
          log info "UdpHandler" ("Sent delayed alert message to client " ++ client))
