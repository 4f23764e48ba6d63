-- ===== src/Client/Session.antt =====
-- src/client/session_handler.c: the loop of the terminal. What the socket gives, what the threads of
-- the login give and the lines typed are arguments. No value stands for undefined behaviour.
use client_server_architectu.Prelude.Int.{negsuc, pos, ℤ}
use client_server_architectu.Client.Input.{
  process_user_input, build_json_from_input, UserInputAction, action_send, action_continue,
  action_quit, action_error, JsonBuild, build_success, build_error_syntax, build_error_memory,
}
use client_server_architectu.Client.Output.{
  client_context_request_exit, print_readable_response, print_lines, ClientContext,
}
use client_server_architectu.Client.{Library}
use Prim.Native.String.{◌++◌}
use client_server_architectu.Prelude.{
  if◌then◌else◌, ◌∷◌, some, none, [], String, Option, List, Bool, ◌++◌ as ◌+++◌,
}
use client_server_architectu.Prelude.Options.{◌>>=◌}

-- `transaction_result`
pub data TransactionResult : Type 0 where
  transaction_success transaction_server_closed transaction_error : TransactionResult
  transaction_close transaction_login_success : TransactionResult

-- what `send` and `recv` of one transaction give
pub data Exchange : Type 0 where
  send_fails receive_fails receive_end : Exchange
  received : String → Exchange

-- a line typed, its transaction, if it makes one, and whether the threads can be created
pub record Round : Type 0 where
  pub line : String
  pub exchange : Exchange
  pub threads_start : Bool

abbrev pub Outcome : Type 0
Outcome = Option (TransactionResult × ClientContext)

abbrev pub send_text : ClientContext → String → ClientContext
send_text context message = record context { sent = context.sent +++ (message ∷ []) }

-- the request of `end`
abbrev pub end_request : String
end_request = "{\"command\":\"end\"}"

module _ ⦃l : Library⦄ where
  abbrev pub after_printing : Bool × ClientContext → TransactionResult × ClientContext
  after_printing (logged_in, context) =
      (if logged_in then transaction_login_success else transaction_success, context)

  -- A failing `send` sends nothing.
  unfoldable pub handle_server_transaction : ClientContext → String → Exchange → String → Outcome
  handle_server_transaction context message send_fails input = some (transaction_error, context)
  handle_server_transaction context message receive_fails input =
      some (transaction_error, send_text context message)
  handle_server_transaction context message receive_end input = some (
    transaction_server_closed,
    print_lines (send_text context message) ("Server closed the connection." ∷ []),
  )
  handle_server_transaction context message (received response) input = do
    r ← print_readable_response (send_text context message) response input
    some (after_printing r)

  abbrev pub send_build : ClientContext → String → Exchange → JsonBuild → Outcome
  send_build context buffer exchange build_error_memory = some (transaction_error, context)
  send_build context buffer exchange build_error_syntax = some (transaction_success, context)
  send_build context buffer exchange (build_success message) =
      handle_server_transaction context message exchange buffer

  abbrev pub after_end : TransactionResult × ClientContext → TransactionResult × ClientContext
  after_end (transaction_error, context) = (transaction_error, context)
  after_end (transaction_success, context) = (transaction_close, context)
  after_end (transaction_server_closed, context) = (transaction_close, context)
  after_end (transaction_close, context) = (transaction_close, context)
  after_end (transaction_login_success, context) = (transaction_close, context)

  -- `strtok` leaves the first token in the buffer that is kept for the response, so the response is
  -- printed for the same command.
  unfoldable pub execute_client_action :
      ClientContext → UserInputAction → String → Exchange → Outcome
  execute_client_action context action_send buffer exchange = do
    build ← build_json_from_input buffer
    send_build context buffer exchange build
  execute_client_action context action_quit buffer exchange = do
    r ← handle_server_transaction context end_request exchange "end"
    some (after_end r)
  execute_client_action context action_continue buffer exchange =
      some (transaction_success, context)
  execute_client_action context action_error buffer exchange = some (transaction_success, context)

  -- The `switch` of `communication_loop`: it returns, or goes on. Whether the dashboard is launched
  -- changes nothing.
  unfoldable pub after_action :
      Bool
      → (ClientContext → Option (ℤ × ClientContext))
      → TransactionResult × ClientContext
      → Option (ℤ × ClientContext)
  after_action threads_start continue (transaction_login_success, context) =
      if threads_start then continue context else some (negsuc 0, context)
  after_action threads_start continue (transaction_error, context) =
      some (negsuc 0, print_lines context ("Closing client..." ∷ []))
  after_action threads_start continue (transaction_server_closed, context) =
      some (pos 0, print_lines context ("Closing client..." ∷ []))
  after_action threads_start continue (transaction_close, context) =
      some (pos 0, print_lines context ("Closing client..." ∷ []))
  after_action threads_start continue (transaction_success, context) = continue context

  unfoldable pub execute_round : ClientContext → Round → Outcome
  execute_round context r =
      let (action, buffer) = process_user_input r.line in
      execute_client_action context action buffer r.exchange

  -- The list ends with the input, or with the signal, which closes it.
  unfoldable pub communication_loop : List Round → ClientContext → Option (ℤ × ClientContext)
  communication_loop [] context = some (pos 0, client_context_request_exit context)
  communication_loop (r ∷ rs) context = do
    outcome ← execute_round context r
    after_action r.threads_start (communication_loop rs) outcome

  -- the text of the welcome, or no value if `recv` gives nothing or fails
  unfoldable pub start_communication :
      Option String → List Round → ClientContext → Option (ℤ × ClientContext)
  start_communication none rs context = some (negsuc 0, context)
  start_communication (some welcome) rs context =
      communication_loop rs (print_lines context (("Server says: " ++ welcome) ∷ []))
