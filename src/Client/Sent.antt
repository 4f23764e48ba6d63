-- ===== src/Client/Sent.antt =====
-- What the terminal's loop sends to the server.
use client_server_architectu.Client.Tokens.{tokens}
use mathlib.Core.List.{append_assoc, append-nil}
use client_server_architectu.Prelude.Int.{ℤ}
use client_server_architectu.Json.{Json}
use client_server_architectu.Client.Input.{
  process_user_input, build_json_from_input, build_success, JsonBuild, UserInputAction,
}
use client_server_architectu.Client.Output.{
  print_readable_response, client_context_request_exit, client_context_set_id, ClientContext,
  post_login_procedures, handle_login_response, print_for,
}
use client_server_architectu.Client.Session.{
  execute_round, after_action, send_text, after_end, send_build, TransactionResult,
  communication_loop, execute_client_action, handle_server_transaction, end_request, Round,
  received, Exchange,
}
use client_server_architectu.Client.{Library}
use client_server_architectu.Prelude.{
  ◌⊎◌, true, inr, inl, false, ap, ◌∙◌, sym, ◌≡◌, ◌∷◌, ◌++◌, some, refl, none, arith, [], String,
  Option, List, Bool,
}
use client_server_architectu.Client.Session.{
  transaction_login_success, transaction_error, transaction_server_closed, transaction_close,
  transaction_success, send_fails, receive_fails, receive_end, received,
}
use client_server_architectu.Client.Input.{
  action_send, action_quit, action_continue, action_error, build_error_syntax, build_error_memory,
  build_success,
}
use client_server_architectu.Prelude.Options.{◌>>=◌, >>=-eq-some, some-injective}

-- The text that a round sends: the request of its line, unless `send` fails.
abbrev posted : Exchange → String → List String
posted send_fails message = []
posted receive_fails message = message ∷ []
posted receive_end message = message ∷ []
posted (received response) message = message ∷ []

module _ ⦃l : Library⦄ where
  abbrev built : Exchange → Option JsonBuild → List String
  built exchange none = []
  built exchange (some build_error_syntax) = []
  built exchange (some build_error_memory) = []
  built exchange (some (build_success message)) = posted exchange message

  abbrev requested : Exchange → UserInputAction × String → List String
  requested exchange (action_send, buffer) = built exchange (build_json_from_input buffer)
  requested exchange (action_quit, buffer) = posted exchange end_request
  requested exchange (action_continue, buffer) = []
  requested exchange (action_error, buffer) = []

  abbrev pub requests : List Round → List String
  requests [] = []
  requests (r ∷ rs) = requested r.exchange (process_user_input r.line) ++ requests rs

  handle_login_response-sent :
      (context : ClientContext) (response : Option Json) {o : Bool × ClientContext}
      → handle_login_response context response ≡ some o
      → o.1.sent ≡ context.sent
  unfolding handle_login_response post_login_procedures client_context_set_id
  handle_login_response-sent context none e = cc
  handle_login_response-sent context (some root) e = ground arith

  print_for-sent :
      (context : ClientContext) (response : Option Json) (ts : List String)
      {o : Bool × ClientContext}
      → print_for context response ts ≡ some o
      → o.1.sent ≡ context.sent
  unfolding print_for
  print_for-sent context response [] e = cc
  print_for-sent context response (command ∷ ts) {o} e =
      ground (arith, handle_login_response-sent context response {o = o})

  handle_server_transaction-sent :
      (context : ClientContext) (message : String) (exchange : Exchange) (input : String)
      {o : TransactionResult × ClientContext}
      → handle_server_transaction context message exchange input ≡ some o
      → o.1.sent ≡ context.sent ++ posted exchange message
  unfolding handle_server_transaction print_readable_response
  handle_server_transaction-sent context message send_fails input e =
      ground (arith, append-nil context.sent)
  handle_server_transaction-sent context message receive_fails input e = cc
  handle_server_transaction-sent context message receive_end input e = cc
  handle_server_transaction-sent context message (received response) input e =
      let (r, printed, q) =
        >>=-eq-some (print_readable_response (send_text context message) response input) _ e in
      ap (λ (x : TransactionResult × ClientContext). x.1.sent) (sym (some-injective q))
      ∙ print_for-sent (send_text context message) (l.parse response) (tokens input) printed

  execute_client_action-sent :
      (context : ClientContext) (action : UserInputAction) (buffer : String) (exchange : Exchange)
      {o : TransactionResult × ClientContext}
      → execute_client_action context action buffer exchange ≡ some o
      → o.1.sent ≡ context.sent ++ requested exchange (action, buffer)
  unfolding execute_client_action
  execute_client_action-sent context action_send buffer exchange e =
      send (build_json_from_input buffer) e
    where
      send :
          (build : Option JsonBuild) {o : TransactionResult × ClientContext}
          → (build >>= send_build context buffer exchange) ≡ some o
          → o.1.sent ≡ context.sent ++ built exchange build
      send none q = cc
      send (some build_error_memory) q = ground (arith, append-nil context.sent)
      send (some build_error_syntax) q = ground (arith, append-nil context.sent)
      send (some (build_success message)) q =
          handle_server_transaction-sent context message exchange buffer q
  execute_client_action-sent context action_quit buffer exchange e =
      let (r, q, f) =
        >>=-eq-some (handle_server_transaction context end_request exchange "end") _ e in
      ap (λ (x : TransactionResult × ClientContext). x.1.sent) (sym (some-injective f))
      ∙ after_end_sent r
      ∙ handle_server_transaction-sent context end_request exchange "end" q
    where
      after_end_sent : (r : TransactionResult × ClientContext) → (after_end r).1.sent ≡ r.1.sent
      after_end_sent r = ground arith
  execute_client_action-sent context action_continue buffer exchange e =
      ground (arith, append-nil context.sent)
  execute_client_action-sent context action_error buffer exchange e =
      ground (arith, append-nil context.sent)

  execute_round-sent :
      (context : ClientContext) (r : Round) {o : TransactionResult × ClientContext}
      → execute_round context r ≡ some o
      → o.1.sent ≡ context.sent ++ requested r.exchange (process_user_input r.line)
  unfolding execute_round
  execute_round-sent context r e =
      execute_client_action-sent context (process_user_input r.line).0 (process_user_input r.line).1
        r.exchange e

  after_action-cases :
      (threads_start : Bool) (continue : ClientContext → Option (ℤ × ClientContext))
      (o : TransactionResult × ClientContext) {code : ℤ} {final : ClientContext}
      → after_action threads_start continue o ≡ some (code, final)
      → (final.sent ≡ o.1.sent) ⊎ (continue o.1 ≡ some (code, final))
  unfolding after_action
  after_action-cases true continue (transaction_login_success, context) e = inr e
  after_action-cases false continue (transaction_login_success, context) e = inl (cc)
  after_action-cases b continue (transaction_error, context) e = inl (cc)
  after_action-cases b continue (transaction_server_closed, context) e = inl (cc)
  after_action-cases b continue (transaction_close, context) e = inl (cc)
  after_action-cases b continue (transaction_success, context) e = inr e

  -- Where the loop gives a result, it has sent the requests of the first lines that were typed, in
  -- the order in which they were typed, one for a line at most, and nothing else.
  pub communication_loop-sent :
      (rs : List Round) (context : ClientContext) {code : ℤ} {final : ClientContext}
      → communication_loop rs context ≡ some (code, final)
      → (done rest : List Round) × (rs ≡ done ++ rest)
        × (final.sent ≡ context.sent ++ requests done)
  unfolding communication_loop client_context_request_exit
  communication_loop-sent [] context e = ([], [], refl, ground (arith, append-nil context.sent))
  communication_loop-sent (r ∷ rs) context {code} {final} e =
      let (o, q, f) = >>=-eq-some (execute_round context r) _ e in
      let s : o.1.sent ≡ context.sent ++ requests (r ∷ []) =
        execute_round-sent context r q ∙ ap (λ ts. context.sent ++ ts) (sym (append-nil _)) in
      elim (after_action-cases r.threads_start (communication_loop rs) o f) [
        | inl stopped ↦ (r ∷ [], rs, refl, stopped ∙ s)
        | inr goes_on ↦
            let (done, rest, p, h) = communication_loop-sent rs o.1 goes_on in
            (
              r ∷ done,
              rest,
              ap (λ xs. r ∷ xs) p,
              h
                  ∙ ap (λ ts. ts ++ requests done) (execute_round-sent context r q)
                  ∙ append_assoc context.sent (requested r.exchange (process_user_input r.line))
                      (requests done),
            )
      ]
