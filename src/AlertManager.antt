-- ===== src/AlertManager.antt =====
-- src/server/alertManager.cpp and src/server/ipcHandler.cpp: alerts that arrive on the UNIX socket.
-- What `read` gives is an argument. The text of a JSON error (`what()`) is left out of the log.
pub mod Alerts
pub mod Tables
use client_server_architectu.Platform.{Platform}
use client_server_architectu.Prelude.{
  contains, if◌then◌else◌, ◌||◌, ◌==◌, true, false, String, Bool,
}
use Prim.Native.String.{◌++◌}
use client_server_architectu.Json.Access.{string_at}
use client_server_architectu.Json.{Json, string}
use client_server_architectu.Logger.{debug, info, warning, error, log}
use client_server_architectu.Traffic.{increment_error, increment_message}
use client_server_architectu.SessionManager.{lock_client}
use client_server_architectu.UdpHandler.{broadcast_message}
use client_server_architectu.World.{World, Exec, ok, pure, json_or_throw, catch_json, ◌>>=◌, ◌>>◌}

-- what a read of the connection gives
pub data Incoming : Type 0 where
  no_data read_error closed : Incoming
  bytes : String → Incoming

module _ ⦃p : Platform⦄ where
  abbrev ignore : Bool → Exec (Unit {0})
  ignore b = pure tt

  -- a dangerous alert that names a client locks it
  unfoldable pub lock_if_dangerous : String → Json → Exec (Unit {0})
  lock_if_dangerous type alert =
      if p.contains "clientId" alert
      then (do
        client ← string_at "clientId" alert
        if (type == "infection") || (type == "enemy_threat")
            then (do b ← lock_client client; ignore b)
            else pure tt)
      else pure tt

  unfoldable pub process_alert : String → Exec (Unit {0})
  process_alert text =
      catch_json (log error "AlertManager" "Failed to process incoming alert. Reason: ") (do
        parsed ← json_or_throw (p.parse text)
        alert ← json_or_throw (p.set_member "category" (string "alert") parsed)
        type ← string_at "type" alert
        message ← string_at "message" alert
        log warning "AlertManager"
            ("Received alert from sensor. Type: " ++ type ++ ", Message: " ++ message)
        lock_if_dangerous type alert
        broadcast_message alert)

  -- `IpcHandler::handleConnection`: whether the connection was served
  unfoldable pub handle_connection : Incoming → Exec Bool
  handle_connection no_data = do log debug "IpcHandler" "No data available on IPC socket"; pure true
  handle_connection read_error = do
    log error "IpcHandler" "IPC read error"
    increment_error "ipc" "rx"
    pure false
  handle_connection closed = pure false
  handle_connection (bytes text) = do
    process_alert text
    log info "IpcHandler" "UNIX message processed successfully"
    increment_message "ipc" "rx"
    pure true
