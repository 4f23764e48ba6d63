-- ===== src/ClientSession/Tables.antt =====
-- The messages of a connection keep every invariant of the tables and the cache.
use client_server_architectu.Platform.{Platform}
use client_server_architectu.Invariant.{Holds, IsInvariant, Property}
use client_server_architectu.Traffic.Tables.{counted_rules}
use client_server_architectu.World.Keeps.{Keeps, Keeps-test}
use client_server_architectu.Json.{Json}
use client_server_architectu.Prelude.Int.{pos, ltb_ℤ}
use client_server_architectu.Prelude.{
  if◌then◌else◌, ◌||◌, ◌==◌, is_empty, ℕ, Bool, Option, String, false, none, some, true,
}
use client_server_architectu.World.{World, Event, Result, ok, pure, ◌>>◌}
use client_server_architectu.Authenticator.{
  AuthResult, success, failed_account_locked, failed_alert_locked, failed_user_not_found,
  failed_bad_credentials,
}
use client_server_architectu.Authenticator.Tables.{authenticate-Keeps}
use client_server_architectu.SessionManager.Tables.{
  register_session-Keeps, unregister_session-Keeps,
}
use client_server_architectu.SessionManager.{unregister_session}
use client_server_architectu.EventQueue.Tables.{pop_event-Keeps}
use client_server_architectu.UdpHandler.Tables.{send_message_to_client-Keeps}
use client_server_architectu.CommandProcessor.Tables.{process_command-Keeps}
use client_server_architectu.CommandProcessor.{CommandResult}
use client_server_architectu.ClientSession.{
  Input, Output, would_block, read_error, end_of_stream, text, blocked, write_error, written,
  log_in, login_result, internal_error, malformed_login, try_login, login, before_login,
  after_login, process_request, process_parsed, process_message,
}
use client_server_architectu.ClientSession.Run.{
  wait_for_address, deliver, handle_event, handle_event_queue, unregister_if_named,
  report_write_error, finish, respond, run, send_welcome_message, report_pending_error, send_first,
  try_send_pending_message,
}

module _ ⦃p : Platform⦄ (P : Property) (inv : IsInvariant P) where
  log_in-Keeps : (n : ℕ) (user : String) → Keeps (Holds P) (log_in n user)
  unfolding log_in
  log_in-Keeps n user = search (counted_rules, register_session-Keeps) depth 12

  login_result-Keeps :
      (n : ℕ) (user : String) (r : AuthResult) → Keeps (Holds P) (login_result n user r)
  unfolding login_result
  login_result-Keeps n user success = search (counted_rules, log_in-Keeps)
  login_result-Keeps n user failed_account_locked = search counted_rules
  login_result-Keeps n user failed_alert_locked = search counted_rules
  login_result-Keeps n user failed_user_not_found = search counted_rules
  login_result-Keeps n user failed_bad_credentials = search counted_rules

  internal_error-Keeps : (message : World → String) → Keeps (Holds P) (internal_error message)
  unfolding internal_error
  internal_error-Keeps message = search counted_rules depth 12

  malformed_login-Keeps : (n : ℕ) → Keeps (Holds P) (malformed_login n)
  unfolding malformed_login
  malformed_login-Keeps n = search counted_rules depth 12

  try_login-Keeps : (n : ℕ) (request : Json) → Keeps (Holds P) (try_login n request)
  unfolding try_login
  try_login-Keeps n request =
      search (counted_rules, authenticate-Keeps, login_result-Keeps) depth 14

  login-Keeps : (n : ℕ) (request : Json) → Keeps (Holds P) (login n request)
  unfolding login
  login-Keeps n request =
      search (counted_rules, internal_error-Keeps, malformed_login-Keeps, try_login-Keeps)

  before_login-Keeps : (n : ℕ) (request : Json) → Keeps (Holds P) (before_login n request)
  unfolding before_login
  before_login-Keeps n request = search (counted_rules, login-Keeps) depth 12

  after_login-Keeps : (n : ℕ) (request : Json) → Keeps (Holds P) (after_login n request)
  unfolding after_login
  after_login-Keeps n request = search (counted_rules, internal_error-Keeps, process_command-Keeps)

  process_request-Keeps : (n : ℕ) (request : Json) → Keeps (Holds P) (process_request n request)
  unfolding process_request
  process_request-Keeps n request =
      search (counted_rules, before_login-Keeps, after_login-Keeps) depth 12

  process_parsed-Keeps : (n : ℕ) (o : Option Json) → Keeps (Holds P) (process_parsed n o)
  unfolding process_parsed
  process_parsed-Keeps n none = search counted_rules depth 12
  process_parsed-Keeps n (some request) = search (counted_rules, process_request-Keeps) depth 12

  process_message-Keeps : (n : ℕ) (message : String) → Keeps (Holds P) (process_message n message)
  unfolding process_message
  process_message-Keeps n message = process_parsed-Keeps n (p.parse message)

  wait_for_address-Keeps :
      (n : ℕ) (late : Option String) → Keeps (Holds P) (wait_for_address n late)
  unfolding wait_for_address
  wait_for_address-Keeps n late = record { at = λ w h. h }

  deliver-Keeps :
      (client : String) (message : String) (o : Option String)
      → Keeps (Holds P) (deliver client message o)
  unfolding deliver
  deliver-Keeps client message none = search counted_rules
  deliver-Keeps client message (some address) = search (counted_rules, send_message_to_client-Keeps)

  handle_event-Keeps :
      (n : ℕ) (late : Option String) (client : String) (o : Option Event)
      → Keeps (Holds P) (handle_event n late client o)
  unfolding handle_event
  handle_event-Keeps n late client none = search counted_rules
  handle_event-Keeps n late client (some event) =
      search (counted_rules, wait_for_address-Keeps, deliver-Keeps)

  handle_event_queue-Keeps :
      (n : ℕ) (late : Option String) → Keeps (Holds P) (handle_event_queue n late)
  unfolding handle_event_queue
  handle_event_queue-Keeps n late =
      search (counted_rules, pop_event-Keeps, handle_event-Keeps) depth 12

  unnamed :
      (b : Bool) (client : String) (w : World)
      → Holds P w
      → Holds P
          (if◌then◌else◌ {A = Result (Unit {0}) × World} b
            (ok tt, w)
            (unregister_session client w)).1
  unnamed true client w h = h
  unnamed false client w h = (unregister_session-Keeps P inv client).at w h

  unregister_if_named-Keeps : (n : ℕ) → Keeps (Holds P) (unregister_if_named n)
  unfolding unregister_if_named
  unregister_if_named-Keeps n = record {
    at = λ w. unnamed ((w.objects n).client_id == "") (w.objects n).client_id w;
  }

  report_write_error-Keeps : (n : ℕ) → Keeps (Holds P) (report_write_error n)
  unfolding report_write_error
  report_write_error-Keeps n = search counted_rules depth 12

  finish-Keeps : (n : ℕ) (late : Option String) (keep : Bool) → Keeps (Holds P) (finish n late keep)
  unfolding finish
  finish-Keeps n late keep =
      search (counted_rules, handle_event_queue-Keeps, unregister_if_named-Keeps) depth 14

  respond-Keeps :
      (n : ℕ) (late : Option String) (out : Output) (r : CommandResult)
      → Keeps (Holds P) (respond n late out r)
  unfolding respond
  respond-Keeps n late write_error (response, keep) =
      search (counted_rules, report_write_error-Keeps, unregister_if_named-Keeps)
  respond-Keeps n late blocked (response, keep) = search (counted_rules, finish-Keeps)
  respond-Keeps n late (written k) (response, keep) = search (counted_rules, finish-Keeps)

  pub run-Keeps :
      (n : ℕ) (input : Input) (out : Output) (late : Option String)
      → Keeps (Holds P) (run n input out late)
  unfolding run
  run-Keeps n would_block out late = search counted_rules depth 12
  run-Keeps n read_error out late = search counted_rules depth 12
  run-Keeps n end_of_stream out late = search (counted_rules, unregister_if_named-Keeps) depth 12
  run-Keeps n (text message) out late =
      search (counted_rules, process_message-Keeps, respond-Keeps) depth 12

  pub send_welcome_message-Keeps :
      (n : ℕ) (out : Output) → Keeps (Holds P) (send_welcome_message n out)
  unfolding send_welcome_message
  send_welcome_message-Keeps n (written k) = search counted_rules
  send_welcome_message-Keeps n blocked = search counted_rules
  send_welcome_message-Keeps n write_error = search (counted_rules, report_write_error-Keeps)

  report_pending_error-Keeps : (n : ℕ) → Keeps (Holds P) (report_pending_error n)
  unfolding report_pending_error
  report_pending_error-Keeps n = search counted_rules depth 12

  send_first-Keeps : (n : ℕ) (out : Output) → Keeps (Holds P) (send_first n out)
  unfolding send_first
  send_first-Keeps n blocked = record { at = λ w h. h }
  send_first-Keeps n write_error = record { at = reported.at }
    where
      reported : Keeps (Holds P) (report_pending_error n >> pure false)
      reported = search (counted_rules, report_pending_error-Keeps)
  send_first-Keeps n (written k) = record { at = λ w h. h }

  pub try_send_pending_message-Keeps :
      (n : ℕ) (out : Output) → Keeps (Holds P) (try_send_pending_message n out)
  unfolding try_send_pending_message
  try_send_pending_message-Keeps n out =
      Keeps-test
        (λ w. is_empty (w.objects n).pending_messages || ltb_ℤ (w.objects n).client_socket (pos 0))
        (pure false) (send_first n out) (search counted_rules) (send_first-Keeps n out)
