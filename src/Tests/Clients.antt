-- ===== src/Tests/Clients.antt =====
-- The theorems on the client and on the server's loop, at the small state.
use client_server_architectu.Client.Notices.{udp_listener-alert, queued, arriving}
use client_server_architectu.Client.Ipc.{udp_listener}
use client_server_architectu.Client.{Library}
use client_server_architectu.Server.Served.{Reach-IsServed}
use client_server_architectu.Server.Reuse.{release-closes}
use client_server_architectu.Client.Requests.{login-before_login, update_stock-process_command}
use client_server_architectu.Authenticator.{authenticate}
use client_server_architectu.Inventory.{update_stock}
use client_server_architectu.CommandProcessor.{update_reply, refuse_logged, process_command}
use client_server_architectu.World.{catch_std, catch_json, ◌>>=◌, json_or_throw}
use client_server_architectu.Client.Sent.{communication_loop-sent, requests}
use client_server_architectu.Client.Login.{login-client_id}
use client_server_architectu.Client.Tokens.{join}
use client_server_architectu.Client.Output.{client_context_init, ClientContext}
use client_server_architectu.Json.{Json}
use client_server_architectu.Prelude.Int.{pos, to_int32}
use client_server_architectu.Tests.Documents
use client_server_architectu.Tests.{test_platform, test_world}
use client_server_architectu.Tests.Terminal.{test_library, reader, agrees}
use client_server_architectu.Client.Session.{
  end_request, execute_client_action, Round, communication_loop, received, receive_end,
  transaction_login_success,
}
use client_server_architectu.Client.Input.{
  stock_payload, pair, build_success, request, build_json_from_input, action_send,
}
use client_server_architectu.Server.{
  inet6, inet, set_at, open_session, new_server, handle_tcp_connection, Server, held, absent,
  disarmed, accepted,
}
use client_server_architectu.Server.Steps.{Step, Reach, begins, goes_on, accepts}
use client_server_architectu.ClientSession.{
  login_result, malformed_login, internal_error, before_login, log_in, end_of_stream, blocked,
  written,
}
use client_server_architectu.Json.{object, end, member, string}
use Prim.Native.String.{◌++◌}
use client_server_architectu.Prelude.{
  none, ℕ, contains, ◌≡◌, ◌∷◌, true, some, refl, false, arith, [], String, List, ◌++◌ as ◌+++◌,
}

abbrev root : Json
root = object end

-- The documents of two typed lines, and the servers that read them.
abbrev login_document : Json
login_document = request root "login" (pair root "hostname" "Ship1" "password" "pw")

abbrev update_document : Json
update_document = request root "update_stock" (stock_payload root "food" "water" (pos 5))

login-before_login_example :
    (text : String) × (build_json_from_input (join ("login" ∷ "Ship1" ∷ "pw" ∷ []))
      ≡ some (build_success text))
    × ((json_or_throw ((reader login_document).parse text)
            >>= before_login ⦃p = reader login_document⦄ 0)
          test_world
        ≡ catch_std
            (internal_error ⦃p = reader login_document⦄ λ w'.
              "CRITICAL: Unhandled exception during login attempt from clientIP: "
              ++ (w'.objects 0).client_ip
              ++ ". Error: ")
            (catch_json (malformed_login ⦃p = reader login_document⦄ 0) (
              authenticate ⦃p = reader login_document⦄ "Ship1" "pw"
                test_world.config.block_time_seconds
              >>= login_result ⦃p = reader login_document⦄ 0 "Ship1"))
            test_world)
login-before_login_example =
    login-before_login ⦃p = reader login_document⦄ (agrees login_document) root 0 "Ship1" "pw"
      test_world refl (omega arith) (omega arith) refl

update_stock-process_command_example :
    (text : String) × (build_json_from_input (join ("update_stock" ∷ "food" ∷ "water" ∷ "5" ∷ []))
      ≡ some (build_success text))
    × ((json_or_throw ((reader update_document).parse text) >>= λ j.
            process_command ⦃p = reader update_document⦄ j "Ship1" false)
          test_world
        ≡ catch_json
            (refuse_logged ⦃p = reader update_document⦄ "Ship1"
              "Invalid or missing field in update_stock payload."
              "Invalid or missing field in update_stock payload.")
            (update_stock ⦃p = reader update_document⦄ "Ship1" "food" "water" (pos 5)
              >>= update_reply ⦃p = reader update_document⦄)
            test_world)
unfolding to_int32
update_stock-process_command_example =
    update_stock-process_command ⦃p = reader update_document⦄ (agrees update_document) root "Ship1"
      "food" "water" "5" (pos 5) test_world refl (omega arith) (omega arith) (omega arith) refl refl
      refl refl

login-client_id_example :
    (final : ClientContext) × (execute_client_action client_context_init action_send
        (join ("login" ∷ "Ship1" ∷ "pw" ∷ []))
        (received "success")
      ≡ some (transaction_login_success, final))
    × (final.client_id ≡ ((log_in 0 "Ship1" test_world).1.objects 0).client_id)
unfolding Documents.at Documents.find Documents.get_string log_in
    client_server_architectu.SessionManager.register_session
    client_server_architectu.Prelude.contains client_server_architectu.Client.Output.plain_from
    client_server_architectu.Client.Tokens.prefix
login-client_id_example =
    login-client_id root client_context_init 0 "Ship1" "pw" "success" test_world refl (omega arith)
      (omega arith) (omega arith) refl refl refl refl refl refl

-- one line, `end`, at which the server closes the connection
abbrev end_rounds : List Round
end_rounds = record { line = "end\n"; exchange = receive_end; threads_start = true } ∷ []

abbrev ended : ClientContext
ended = record {
  client_id = "";
  exit_requested = false;
  sent = end_request ∷ [];
  printed = "Server closed the connection." ∷ "Closing client..." ∷ [];
  ipc_queue = none;
}

communication_loop-sent_example :
    (done rest : List Round) × (end_rounds ≡ done +++ rest)
    × (ended.sent ≡ client_context_init.sent +++ requests done)
unfolding communication_loop client_server_architectu.Client.Session.execute_round
    execute_client_action client_server_architectu.Client.Input.process_user_input
    client_server_architectu.Client.Tokens.first_line
    client_server_architectu.Client.Session.handle_server_transaction
    client_server_architectu.Client.Session.after_action
communication_loop-sent_example = communication_loop-sent end_rounds client_context_init refl

-- a client connects with the descriptor 7
abbrev connected : Server
connected =
    handle_tcp_connection (accepted 7 true (inet (some "10.0.0.2")) (written 90))
      (new_server test_world)

connected_path : Reach test_world connected
connected_path =
    goes_on begins (accepts (accepted 7 true (inet (some "10.0.0.2")) (written 90)) refl) tt

Reach-IsServed_example : (n : ℕ) × (connected.client_sessions 7 ≡ held n)
unfolding handle_tcp_connection open_session client_server_architectu.Server.release
Reach-IsServed_example = Reach-IsServed connected_path 7 refl

-- Its task has closed the descriptor and erased the session.
abbrev erased : Server
erased = record (new_server test_world) { next_session = 1; ending = (0, 7) ∷ [] }

release-closes_example :
    (t u : Server) × Step erased t
    × Step t u
    × (t.open_fd 7 ≡ true)
    × (u.open_fd 7 ≡ false)
    × (u.client_sessions 7 ≡ held 1)
unfolding handle_tcp_connection open_session client_server_architectu.Server.release
    client_server_architectu.ClientSession.Run.send_welcome_message
    client_server_architectu.Server.get_client_ip
release-closes_example =
    release-closes erased [] [] 0 7 (inet6 (some "10.0.0.3")) (written 90) refl refl refl refl

abbrev alert_library : Library
alert_library = record test_library {
  parse = λ s. some (object (member "category" (string "alert") end));
}

abbrev open_context : ClientContext
open_context = record client_context_init { ipc_queue = some [] }

udp_listener-alert_example :
    (udp_listener ⦃l = alert_library⦄ (arriving ("a" ∷ "b" ∷ [])) open_context).ipc_queue
    ≡ some (queued ⦃l = alert_library⦄ ("a" ∷ []) +++ (2, "b") ∷ [])
unfolding Documents.at Documents.find Documents.get_string
udp_listener-alert_example =
    udp_listener-alert ⦃l = alert_library⦄ ("a" ∷ []) [] "b"
      (object (member "category" (string "alert") end)) open_context [] (refl, (refl, tt)) refl
      (omega arith) refl refl
