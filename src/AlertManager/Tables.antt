-- ===== src/AlertManager/Tables.antt =====
-- The alerts keep every invariant of the tables and the cache.
use client_server_architectu.Platform.{Platform}
use client_server_architectu.Invariant.{Holds, IsInvariant, Property}
use client_server_architectu.Traffic.Tables.{counted_rules}
use client_server_architectu.World.Keeps.{Keeps}
use client_server_architectu.Json.{Json}
use client_server_architectu.Prelude.{String}
use client_server_architectu.SessionManager.Tables.{lock_client-Keeps}
use client_server_architectu.UdpHandler.Tables.{broadcast_message-Keeps}
use client_server_architectu.AlertManager.{
  Incoming, no_data, read_error, closed, bytes, lock_if_dangerous, process_alert, handle_connection,
}

module _ ⦃p : Platform⦄ (P : Property) (inv : IsInvariant P) where
  lock_if_dangerous-Keeps :
      (type : String) (alert : Json) → Keeps (Holds P) (lock_if_dangerous type alert)
  unfolding lock_if_dangerous
  lock_if_dangerous-Keeps type alert = search (counted_rules, lock_client-Keeps)

  process_alert-Keeps : (text : String) → Keeps (Holds P) (process_alert text)
  unfolding process_alert
  process_alert-Keeps text =
      search (counted_rules, lock_if_dangerous-Keeps, broadcast_message-Keeps) depth 12

  pub handle_connection-Keeps : (i : Incoming) → Keeps (Holds P) (handle_connection i)
  unfolding handle_connection
  handle_connection-Keeps no_data = search counted_rules
  handle_connection-Keeps read_error = search counted_rules
  handle_connection-Keeps closed = search counted_rules
  handle_connection-Keeps (bytes text) = search (counted_rules, process_alert-Keeps)
