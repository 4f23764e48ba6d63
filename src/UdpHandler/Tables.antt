-- ===== src/UdpHandler/Tables.antt =====
-- The UDP handler keeps every invariant of the tables and the cache.
use client_server_architectu.Platform.{Platform}
use client_server_architectu.Invariant.{Holds, IsInvariant, Property}
use client_server_architectu.Traffic.Tables.{counted_rules}
use client_server_architectu.World.Keeps.{Keeps, Keeps-bind}
use client_server_architectu.Json.{Json}
use client_server_architectu.Prelude.{ℕ, List, Option, String, [], ◌∷◌, none, some}
use client_server_architectu.EventQueue.Tables.{push_event-Keeps}
use client_server_architectu.UdpHandler.{
  Received, would_block, failed, bytes, send, answer_keepalive, handle_keepalive, handle_request,
  handle_message, broadcast_to, send_all, queue_for, queue_all, broadcast_message,
  send_message_to_client,
}

module _ ⦃p : Platform⦄ (P : Property) (inv : IsInvariant P) where
  send-Keeps : (address : String) (text : String) → Keeps (Holds P) (send address text)
  unfolding send
  send-Keeps address text = record { at = λ w h. h }

  answer_keepalive-Keeps :
      (address : String) (client : String) (o : Option ℕ)
      → Keeps (Holds P) (answer_keepalive address client o)
  unfolding answer_keepalive
  answer_keepalive-Keeps address client none = search counted_rules depth 12
  answer_keepalive-Keeps address client (some n) = search (counted_rules, send-Keeps) depth 12

  handle_keepalive-Keeps :
      (request : Json) (address : String) → Keeps (Holds P) (handle_keepalive request address)
  unfolding handle_keepalive
  handle_keepalive-Keeps request address = search (counted_rules, answer_keepalive-Keeps)

  handle_request-Keeps :
      (o : Option Json) (address : String) → Keeps (Holds P) (handle_request o address)
  unfolding handle_request
  handle_request-Keeps none address = search counted_rules
  handle_request-Keeps (some request) address = search (counted_rules, handle_keepalive-Keeps)

  pub handle_message-Keeps :
      (r : Received) (address : String) → Keeps (Holds P) (handle_message r address)
  unfolding handle_message
  handle_message-Keeps would_block address = search counted_rules
  handle_message-Keeps failed address = search counted_rules
  handle_message-Keeps (bytes text) address = search (counted_rules, handle_request-Keeps)

  broadcast_to-Keeps :
      (text : String) (address : String) → Keeps (Holds P) (broadcast_to text address)
  unfolding broadcast_to
  broadcast_to-Keeps text address = search (counted_rules, send-Keeps)

  send_all-Keeps : (text : String) (as' : List String) → Keeps (Holds P) (send_all text as')
  unfolding send_all
  send_all-Keeps text [] = search counted_rules
  send_all-Keeps text (a ∷ as') =
      Keeps-bind (broadcast_to text a) _ (broadcast_to-Keeps text a) λ u. send_all-Keeps text as'

  queue_for-Keeps : (text : String) (user : String) → Keeps (Holds P) (queue_for text user)
  unfolding queue_for
  queue_for-Keeps text user = search (counted_rules, push_event-Keeps)

  queue_all-Keeps : (text : String) (us : List String) → Keeps (Holds P) (queue_all text us)
  unfolding queue_all
  queue_all-Keeps text [] = search counted_rules
  queue_all-Keeps text (u ∷ us) =
      Keeps-bind (queue_for text u) _ (queue_for-Keeps text u) λ t. queue_all-Keeps text us

  pub broadcast_message-Keeps : (alert : Json) → Keeps (Holds P) (broadcast_message alert)
  unfolding broadcast_message
  broadcast_message-Keeps alert = search (counted_rules, send_all-Keeps, queue_all-Keeps)

  pub send_message_to_client-Keeps :
      (client : String) (message : String) (address : String)
      → Keeps (Holds P) (send_message_to_client client message address)
  unfolding send_message_to_client
  send_message_to_client-Keeps client message address = search (counted_rules, send-Keeps)
