-- ===== src/ClientSession.antt =====
-- src/server/clientSession.cpp. A session is an object of the state, named by its number. What the
-- socket gives and takes is an argument of each method, and so is the UDP address that another
-- thread may set while `handleEventQueue` sleeps. The texts of `what()` are left out of the log.
pub mod Run
pub mod Gate
pub mod Tables
pub mod Events
use client_server_architectu.Platform.{Platform}
use client_server_architectu.Prelude.{
  contains, if◌then◌else◌, ◌==◌, ℕ, true, some, none, false, eqb, String, Option,
}
use Prim.Native.String.{◌++◌}
use client_server_architectu.Authenticator.{
  AuthResult, success, failed_user_not_found, failed_account_locked, failed_bad_credentials,
  failed_alert_locked, authenticate,
}
use client_server_architectu.CommandProcessor.{
  CommandResult, error_reply, success_reply, reply_members, reply, refuse, process_command,
}
use client_server_architectu.EventQueue.{pop_event}
use client_server_architectu.Json.Access.{string_at}
use client_server_architectu.Json.{Json, object, string, member, end}
use client_server_architectu.Logger.{debug, info, warning, error, log}
use client_server_architectu.SessionManager.{register_session, unregister_session}
use client_server_architectu.Traffic.{increment_error, increment_message}
use client_server_architectu.UdpHandler.{send_message_to_client}
use client_server_architectu.World.{
  World, Session, Event, Exec, ok, err, undefined_behaviour, pure, gets, modify, json_or_throw,
  catch_json, catch_std, ◌>>=◌, ◌>>◌,
}

-- what a read of the client's socket gives: nothing now, an error, the end, or a text
pub data Input : Type 0 where
  would_block read_error end_of_stream : Input
  text : String → Input

-- what a write to the client's socket does: nothing now, an error, or some bytes
pub data Output : Type 0 where
  blocked write_error : Output
  written : ℕ → Output

abbrev pub update_session : ℕ → (Session → Session) → World → World
update_session n f w = record w { objects = λ m. if eqb m n then f (w.objects m) else w.objects m }

module _ ⦃p : Platform⦄ where
  -- `createLoggableRequest`: the password of the payload is masked
  abbrev pub redact : Json → Json
  redact payload = elim (p.set_member "password" (string "[REDACTED]") payload) [
    | none ↦ payload
    | some j ↦ j
  ]

  abbrev redact_in : Json → Option Json → Json
  redact_in request none = request
  redact_in request (some payload) =
      if p.contains "password" payload
      then elim (p.set_member "payload" (redact payload) request) [ none ↦ request | some j ↦ j ]
      else request

  unfoldable pub create_loggable_request : Json → Json
  create_loggable_request request =
      if p.contains "payload" request then redact_in request (p.at "payload" request) else request

  -- the case `AuthResult::SUCCESS`
  unfoldable pub log_in : ℕ → String → Exec CommandResult
  log_in n user = do
    modify (update_session n (λ s. record s { is_authenticated = true; client_id = user }))
    register_session user n
    ip ← gets (λ w. (w.objects n).client_ip)
    log info "ClientSession" ("Client " ++ user ++ " authenticated successfully from IP: " ++ ip)
    reply (
        object (
          reply_members "success" ("Login successful! Welcome " ++ user ++ ".")
            (member "client_id" (string user) end)))

  unfoldable pub login_result : ℕ → String → AuthResult → Exec CommandResult
  login_result n user success = log_in n user
  login_result n user failed_account_locked =
      refuse "Account is temporarily locked due to too many failed attempts."
  login_result n user failed_alert_locked =
      refuse "Account is locked untill manually freed by an admin, due to alert trigger."
  login_result n user failed_user_not_found = refuse "Login failed. Invalid hostname or password."
  login_result n user failed_bad_credentials = refuse "Login failed. Invalid hostname or password."

  -- `catch (const std::exception &)`: an error reply, and the connection is closed
  unfoldable pub internal_error : (World → String) → Exec CommandResult
  internal_error message = do
    m ← gets message
    log error "ClientSession" m
    increment_error "tcp" "rx"
    pure (p.dump (error_reply "An internal server error occurred. Please reconnect"), false)

  unfoldable pub malformed_login : ℕ → Exec CommandResult
  malformed_login n = do
    ip ← gets (λ w. (w.objects n).client_ip)
    log warning "ClientSession" ("Malformed login request from ClientIP: " ++ ip)
    refuse
        "Malformed login request. Please provide a valid JSON with 'payload', 'hostname' and 'password'."

  -- the body of the `try` of `login`
  unfoldable pub try_login : ℕ → Json → Exec CommandResult
  try_login n request = do
    payload ← json_or_throw (p.at "payload" request)
    user ← string_at "hostname" payload
    payload' ← json_or_throw (p.at "payload" request)
    pass ← string_at "password" payload'
    block ← gets (λ w. w.config.block_time_seconds)
    result ← authenticate user pass block
    login_result n user result

  unfoldable pub login : ℕ → Json → Exec CommandResult
  login n request =
      catch_std
        (internal_error λ w.
          "CRITICAL: Unhandled exception during login attempt from clientIP: "
          ++ (w.objects n).client_ip
          ++ ". Error: ")
        (catch_json (malformed_login n) (try_login n request))

  -- `value` throws on a document that is no object, outside every `try`
  unfoldable pub before_login : ℕ → Json → Exec CommandResult
  before_login n request = do
    cmd ← json_or_throw (p.value "command" "" request)
    if cmd == "login"
        then login n request
        else refuse "Authentication required. Please log in first."

  unfoldable pub after_login : ℕ → Json → Exec CommandResult
  after_login n request =
      catch_std
        (internal_error λ w.
          "CRITICAL: Unhandled exception for client " ++ (w.objects n).client_id ++ ". Error: ")
        (do client ← gets (λ w. (w.objects n).client_id); process_command request client false)

  unfoldable pub process_request : ℕ → Json → Exec CommandResult
  process_request n request = do
    increment_message "tcp" "rx"
    log debug "ClientSession" ("Received message: " ++ p.dump (create_loggable_request request))
    authenticated ← gets (λ w. (w.objects n).is_authenticated)
    if authenticated then after_login n request else before_login n request

  unfoldable pub process_parsed : ℕ → Option Json → Exec CommandResult
  process_parsed n (some request) = process_request n request
  process_parsed n none = do
    ip ← gets (λ w. (w.objects n).client_ip)
    log warning "ClientSession" ("Invalid JSON format from clientIP: " ++ ip)
    increment_error "tcp" "rx"
    pure ("{\"status\":\"error\",\"message\":\"Invalid JSON format.\"}", true)

  -- `processMessage`
  unfoldable pub process_message : ℕ → String → Exec CommandResult
  process_message n message = process_parsed n (p.parse message)
