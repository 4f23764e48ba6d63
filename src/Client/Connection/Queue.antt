-- ===== src/Client/Connection/Queue.antt =====
-- The terminal's loop neither opens nor closes the message queue.
use client_server_architectu.Prelude.Int.{ℤ}
use client_server_architectu.Json.{Json}
use client_server_architectu.Client.{Library}
use client_server_architectu.Client.Input.{
  build_json_from_input, UserInputAction, JsonBuild, action_send, action_quit, action_continue,
  action_error, build_error_syntax, build_error_memory, build_success,
}
use client_server_architectu.Client.Output.{
  print_readable_response, client_context_request_exit, client_context_set_id, ClientContext,
  post_login_procedures, handle_login_response, print_for,
}
use client_server_architectu.Client.Session.{
  execute_round, after_action, send_text, after_end, send_build, TransactionResult,
  communication_loop, execute_client_action, handle_server_transaction, end_request, Round,
  received, Exchange, start_communication, transaction_login_success, transaction_error,
  transaction_server_closed, transaction_close, transaction_success, send_fails, receive_fails,
  receive_end,
}
use client_server_architectu.Prelude.{
  true, false, ap, ◌∙◌, sym, ◌≡◌, ◌∷◌, some, none, arith, [], String, Option, List, Bool,
}
use client_server_architectu.Prelude.Options.{◌>>=◌, >>=-eq-some, some-injective}

module _ ⦃l : Library⦄ where
  -- A step that leaves the queue alone wherever it has a result.
  abbrev KeepsQueue : {A : Type 0} → ClientContext → Option (A × ClientContext) → Type 0
  KeepsQueue {A} context o =
      (r : A × ClientContext) → o ≡ some r → r.1.ipc_queue ≡ context.ipc_queue

  handle_login_response-KeepsQueue :
      (context : ClientContext) (response : Option Json)
      → KeepsQueue context (handle_login_response context response)
  unfolding handle_login_response post_login_procedures client_context_set_id
  handle_login_response-KeepsQueue context none r e = cc
  handle_login_response-KeepsQueue context (some root) r e = ground arith

  print_for-KeepsQueue :
      (context : ClientContext) (response : Option Json) (ts : List String)
      → KeepsQueue context (print_for context response ts)
  unfolding print_for
  print_for-KeepsQueue context response [] x e = cc
  print_for-KeepsQueue context response (command ∷ ts) x e =
      ground (arith, handle_login_response-KeepsQueue context response x)

  handle_server_transaction-KeepsQueue :
      (context : ClientContext) (message : String) (exchange : Exchange) (input : String)
      → KeepsQueue context (handle_server_transaction context message exchange input)
  unfolding handle_server_transaction print_readable_response
  handle_server_transaction-KeepsQueue context message send_fails input x e = cc
  handle_server_transaction-KeepsQueue context message receive_fails input x e = cc
  handle_server_transaction-KeepsQueue context message receive_end input x e = cc
  handle_server_transaction-KeepsQueue context message (received response) input x e =
      let (r, printed, q) =
        >>=-eq-some (print_readable_response (send_text context message) response input) _ e in
      ap (λ (x : TransactionResult × ClientContext). x.1.ipc_queue) (sym (some-injective q))
      ∙ print_for-KeepsQueue (send_text context message) (l.parse response) _ r printed

  execute_client_action-KeepsQueue :
      (context : ClientContext) (action : UserInputAction) (buffer : String) (exchange : Exchange)
      → KeepsQueue context (execute_client_action context action buffer exchange)
  unfolding execute_client_action
  execute_client_action-KeepsQueue context action_send buffer exchange x e =
      send (build_json_from_input buffer) x e
    where
      send :
          (build : Option JsonBuild)
          → KeepsQueue context (build >>= send_build context buffer exchange)
      send none y q = cc
      send (some build_error_memory) y q = cc
      send (some build_error_syntax) y q = cc
      send (some (build_success message)) y q =
          handle_server_transaction-KeepsQueue context message exchange buffer y q
  execute_client_action-KeepsQueue context action_quit buffer exchange x e =
      let (r, q, f) =
        >>=-eq-some (handle_server_transaction context end_request exchange "end") _ e in
      ap (λ (x : TransactionResult × ClientContext). x.1.ipc_queue) (sym (some-injective f))
      ∙ after_end_queue r
      ∙ handle_server_transaction-KeepsQueue context end_request exchange "end" r q
    where
      after_end_queue :
          (r : TransactionResult × ClientContext) → (after_end r).1.ipc_queue ≡ r.1.ipc_queue
      after_end_queue r = ground arith
  execute_client_action-KeepsQueue context action_continue buffer exchange x e = cc
  execute_client_action-KeepsQueue context action_error buffer exchange x e = cc

  after_action-queue :
      (threads_start : Bool) (continue : ClientContext → Option (ℤ × ClientContext))
      (o : TransactionResult × ClientContext)
      → KeepsQueue o.1 (continue o.1)
      → KeepsQueue o.1 (after_action threads_start continue o)
  unfolding after_action
  after_action-queue true continue (transaction_login_success, context) h = h
  after_action-queue false continue (transaction_login_success, context) h = λ x e. cc
  after_action-queue b continue (transaction_error, context) h = λ x e. cc
  after_action-queue b continue (transaction_server_closed, context) h = λ x e. cc
  after_action-queue b continue (transaction_close, context) h = λ x e. cc
  after_action-queue b continue (transaction_success, context) h = h

  communication_loop-KeepsQueue :
      (rs : List Round) (context : ClientContext)
      → KeepsQueue context (communication_loop rs context)
  unfolding communication_loop client_context_request_exit execute_round
  communication_loop-KeepsQueue [] context x e = cc
  communication_loop-KeepsQueue (r ∷ rs) context x e =
      let (o, q, f) = >>=-eq-some (execute_round context r) _ e in
      after_action-queue r.threads_start (communication_loop rs) o
        (communication_loop-KeepsQueue rs o.1) x f
      ∙ execute_client_action-KeepsQueue context _ _ r.exchange o q

  pub start_communication-KeepsQueue :
      (welcome : Option String) (rs : List Round) (context : ClientContext) {r : ℤ × ClientContext}
      → start_communication welcome rs context ≡ some r
      → r.1.ipc_queue ≡ context.ipc_queue
  unfolding start_communication
  start_communication-KeepsQueue none rs context e = cc
  start_communication-KeepsQueue (some welcome) rs context e =
      communication_loop-KeepsQueue rs _ _ e
