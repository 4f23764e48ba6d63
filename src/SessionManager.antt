-- ===== src/SessionManager.antt =====
-- src/server/sessionManager.cpp. The maps and sets are guarded by one mutex. A method here is a run of
-- it alone; `LockRace` has the two parts of `lockClient` and `unlockClient` as steps, since they hold
-- the mutex for the second part only.
-- A shared pointer to a session is the number of its object.
pub mod Presence
pub mod Locks
pub mod LockRace
pub mod Tables
use client_server_architectu.Prelude.Dict.{Dict, is_some}
use client_server_architectu.Platform.{Platform}
use client_server_architectu.Prelude.Dict
use client_server_architectu.Prelude.{
  if◌then◌else◌, ◌∷◌, ℕ, true, some, set_insert, set_erase, none, false, contains, [], String,
  Option, List, Bool,
}
use Prim.Native.String.{◌++◌}
use client_server_architectu.Storage
use client_server_architectu.Logger.{info, log, log_for}
use client_server_architectu.Traffic.{increment_reconnection}
use client_server_architectu.World.{
  Session, World, Sessions, Exec, ok, pure, gets, modify, ◌>>=◌, ◌>>◌,
}

abbrev set_sessions : (Sessions → Sessions) → Exec (Unit {0})
set_sessions f = modify (λ w. record w { sessions = f w.sessions })

abbrev pub registered : String → ℕ → Sessions → Sessions
registered client session s = record s {
  active_sessions = Dict.insert client session s.active_sessions;
  offline_users = set_erase client s.offline_users;
}

abbrev pub unregistered : String → Sessions → Sessions
unregistered client s = record s {
  active_sessions = Dict.erase client s.active_sessions;
  offline_users = set_insert client s.offline_users;
}

abbrev add_locked : String → Sessions → Sessions
add_locked client s = record s { locked_clients = set_insert client s.locked_clients }

abbrev drop_locked : String → Sessions → Sessions
drop_locked client s = record s { locked_clients = set_erase client s.locked_clients }

module _ ⦃p : Platform⦄ where
  -- the first connection is remembered, a later one is counted and logged
  unfoldable pub note_connection : String → Exec (Unit {0})
  note_connection client w =
      if contains w.sessions.connected_users client
      then (do
        increment_reconnection "tcp" "rx"
        log info "SessionManager" ("User '" ++ client ++ "' has reconnected."))
          w
      else (
        ok tt,
        record w {
          sessions = record w.sessions {
            connected_users = set_insert client w.sessions.connected_users;
          };
        },
      )

  unfoldable pub register_session : String → ℕ → Exec (Unit {0})
  unfolding note_connection
  register_session client session = do
    set_sessions (registered client session)
    note_connection client

  unfoldable pub unregister_session : String → Exec (Unit {0})
  unregister_session client = set_sessions (unregistered client)

  -- what `lockClient` and `unlockClient` do after a statement that succeeds; their mutex is held
  -- here alone
  abbrev pub settle_lock : String → Bool → Exec (Unit {0})
  settle_lock client true = do
    log_for (some client) info "SessionManager"
        ("Client '" ++ client ++ "' has been locked due to alert trigger.")
    set_sessions (add_locked client)
  settle_lock client false = do
    log_for (some client) info "SessionManager" ("Client '" ++ client ++ "' has been unlocked.")
    set_sessions (drop_locked client)

  unfoldable pub lock_client : String → Exec Bool
  lock_client client = do
    success ← Storage.set_client_lock_status client true
    if success then (do settle_lock client true; pure success) else (do
      log_for (some client) info "SessionManager"
          ("Couldn't lock client '" ++ client ++ "'. Client was not found. May not be registered.")
      pure success)

  unfoldable pub unlock_client : String → Exec Bool
  unlock_client client = do
    success ← Storage.set_client_lock_status client false
    if success then (do settle_lock client false; pure success) else (do
      log_for (some client) info "SessionManager" (
          "Couldn't unlock client '" ++ client ++ "'. Client was not found. May not be registered.")
      pure success)

  -- a lock found in the database is put in the cache
  unfoldable pub remember_lock : String → Bool → Exec Bool
  remember_lock client true = do set_sessions (add_locked client); pure true
  remember_lock client false = pure false

  unfoldable pub is_client_locked : String → Exec Bool
  is_client_locked client w =
      if contains w.sessions.locked_clients client
      then (ok true, w)
      else (do locked ← Storage.is_client_locked client; remember_lock client locked) w

abbrev pub is_client_registered : String → World → Bool
is_client_registered client w = is_some (Dict.lookup client w.sessions.active_sessions)

-- `nullptr` is no value
abbrev pub get_session : String → World → Option ℕ
get_session client w = Dict.lookup client w.sessions.active_sessions

abbrev add_address : Option String → List String → List String
add_address none as' = as'
add_address (some a) as' = a ∷ as'

unfoldable pub active_addresses : (ℕ → Session) → Dict ℕ → List String
active_addresses objects [] = []
active_addresses objects ((_, n) ∷ m) =
    add_address (objects n).udp_address (active_addresses objects m)

abbrev pub get_active_udp_addresses : World → List String
get_active_udp_addresses w = active_addresses w.objects w.sessions.active_sessions

abbrev pub get_offline_users : World → List String
get_offline_users w = w.sessions.offline_users
