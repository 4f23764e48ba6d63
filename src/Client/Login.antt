-- ===== src/Client/Login.antt =====
-- A login, from the line that is typed to the name that the client keeps for its threads.
use client_server_architectu.Client.Requests.{build_json_from_input-login}
use client_server_architectu.Client.Tokens.{prefix, prefix-size, size, tokens-join, join, IsWord}
use client_server_architectu.Client.Input.{
  pair, request, action_send, build_json_for_login, build_command, build_tokens,
  build_json_from_input,
}
use client_server_architectu.Client.Session.{
  send_text, transaction_login_success, received, handle_server_transaction, execute_client_action,
}
use client_server_architectu.Client.Output.{
  log_msg, is_plain_format, print_lines, string_item, ClientContext, client_context_set_id,
  post_login_procedures, handle_login_response, print_for, print_readable_response,
}
use client_server_architectu.CommandProcessor.{reply_members}
use client_server_architectu.World.{>>=-ok, ok, World}
use client_server_architectu.SessionManager.{register_session}
use client_server_architectu.Json.{Json}
use client_server_architectu.ClientSession.{update_session, log_in}
use client_server_architectu.Client.{Library}
use client_server_architectu.Platform.{Platform}
use client_server_architectu.Prelude.{
  All, ◌∙◌, sym, ◌≤◌, ◌∷◌, some, [], refl, arith, ◌≡◌, ℕ, true, String,
}
use client_server_architectu.Json.{object, member, string, end}
use Prim.Native.String.{◌++◌}

-- the reply of a successful login
abbrev pub welcome : String → Json
welcome user = object (
    reply_members "success" ("Login successful! Welcome " ++ user ++ ".")
      (member "client_id" (string user) end))

module _ ⦃p : Platform⦄ where
  register_session_lem : (user : String) (n : ℕ) (w : World) → (register_session user n w).0 ≡ ok tt
  unfolding register_session
  register_session_lem user n w = ground arith

  log_in-welcome :
      (n : ℕ) (user : String) (w : World) → (log_in n user w).0 ≡ ok (p.dump (welcome user), true)
  unfolding log_in register_session
  log_in-welcome n user w =
      rw
        (>>=-ok (register_session user n) _
          (update_session n (λ s. record s { is_authenticated = true; client_id = user }) w)
          (register_session_lem user n _))
        refl

  register_session-objects :
      (user : String) (n : ℕ) (w : World) → (register_session user n w).1.objects ≡ w.objects
  unfolding register_session
  register_session-objects user n w = ground arith

  log_in-client_id :
      (n : ℕ) (user : String) (w : World) → ((log_in n user w).1.objects n).client_id ≡ user
  unfolding log_in
  log_in-client_id n user w =
      let v : World =
        update_session n (λ s. record s { is_authenticated = true; client_id = user }) w in
      rw
        (
          >>=-ok (register_session user n) _ v (register_session_lem user n v),
          register_session-objects user n v,
        )
        (ground arith)

module _ ⦃l : Library⦄ ⦃p : Platform⦄ where
  -- A client that types a login, with a name of at most 63 characters and a password, both
  -- non-empty and without a space, where the log message with the name is a format that asks for no
  -- argument, and gets the reply that the server writes when it logs that name
  -- in, keeps the name that the server's session has and reports the login, if its JSON library
  -- reads the three members of that reply back.
  pub login-client_id :
      (root : Json) (context : ClientContext) (n : ℕ) (user password text : String) (w : World)
      → l.create_object ≡ some root
      → IsWord user
      → IsWord password
      → size user ≤ 63
      → is_plain_format (log_msg user) ≡ true
      → (log_in n user w).0 ≡ ok (text, true)
      → l.parse (p.dump (welcome user)) ≡ some (welcome user)
      → string_item (welcome user) "status" ≡ some "success"
      → string_item (welcome user) "message" ≡ some ("Login successful! Welcome " ++ user ++ ".")
      → string_item (welcome user) "client_id" ≡ some user
      → (final : ClientContext) × (execute_client_action context action_send
            (join ("login" ∷ user ∷ password ∷ []))
            (received text)
          ≡ some (transaction_login_success, final))
        × (final.client_id ≡ ((log_in n user w).1.objects n).client_id)
  unfolding execute_client_action build_json_from_input build_tokens build_command
      build_json_for_login handle_server_transaction print_readable_response print_for
      handle_login_response post_login_procedures client_context_set_id
  login-client_id root context n user password text w created h h' short plain accepted parsed
        status message client_id =
      let t : text ≡ p.dump (welcome user) = cc (accepted, log_in-welcome n user w) in
      let typed : All IsWord ("login" ∷ user ∷ password ∷ []) = (omega arith, (h, (h', tt))) in
      let build = build_json_from_input-login root user password created h h' in
      let named : prefix 63 user ≡ user = prefix-size 63 user short in
      (
        client_context_set_id
            (print_lines
              (send_text context
                (l.print (request root "login" (pair root "hostname" user "password" password))))
              ("-Status: success"
                ∷ ("-Message: " ++ "Login successful! Welcome " ++ user ++ ".")
                ∷ []))
            user,
        rw (build) (
            rw
              (
                t,
                parsed,
                tokens-join ("login" ∷ user ∷ password ∷ []) typed,
                status,
                message,
                client_id,
                plain,
              )
              refl),
        named ∙ sym (log_in-client_id n user w),
      )
