-- ===== src/Client/Requests.antt =====
-- A typed command, on its way through the client's builder and the server's reader to the
-- operation that it names.
use client_server_architectu.CommandProcessor.{refuse_logged}
use client_server_architectu.Client.Tokens.{tokens-join, join, IsWord}
use client_server_architectu.Authenticator.{authenticate}
use client_server_architectu.ClientSession.{
  malformed_login, internal_error, login, before_login, login_result, try_login,
}
use client_server_architectu.Inventory.{update_stock}
use client_server_architectu.CommandProcessor.{
  handle_update_stock, dispatch, process_command, update_reply,
}
use client_server_architectu.Prelude.Int.{to_int32, ℤ}
use client_server_architectu.CommandProcessor.{try_update_stock}
use client_server_architectu.Client.Input.{
  build_quantity, build_json_for_update_stock, build_success, build_json_for_login, build_command,
  build_tokens, build_json_from_input, stock_payload, request, pair,
}
use client_server_architectu.Json.Access.{at-get_int, text_at}
use Prim.Native.String.{◌++◌}
use client_server_architectu.World.{catch_json, catch_std, json_or_throw, ◌>>=◌, World}
use client_server_architectu.Json.{Json}
use client_server_architectu.Client.{Library}
use client_server_architectu.Platform.{Platform}
use client_server_architectu.Prelude.{
  starts_with, arith, ◌∷◌, ℕ, [], ◌≡◌, some, refl, false, String,
}
use client_server_architectu.Client.Members.{
  IsRead, command-request, first-pair, second-pair, reads, category-stock_payload,
  item-stock_payload,
}

module _ ⦃l : Library⦄ where
  pub build_json_from_input-login :
      (root : Json) (user password : String)
      → l.create_object ≡ some root
      → IsWord user
      → IsWord password
      → build_json_from_input (join ("login" ∷ user ∷ password ∷ []))
        ≡ some (
            build_success
              (l.print (request root "login" (pair root "hostname" user "password" password))))
  unfolding build_json_from_input build_tokens build_command build_json_for_login
  build_json_from_input-login root user password created h h' =
      rw (tokens-join ("login" ∷ user ∷ password ∷ []) (omega arith, (h, (h', tt))), created) refl

module _ ⦃l : Library⦄ ⦃p : Platform⦄ (laws : IsRead l p) where
  -- The handler of a typed update reads what was typed.
  try_update_stock-request :
      (root o : Json) (client category item : String) (quantity : ℤ) (w : World)
      → to_int32 quantity ≡ quantity
      → try_update_stock
          (request root "update_stock" (stock_payload o category item quantity))
          client
          w
        ≡ (update_stock client category item quantity >>= update_reply) w
  unfolding try_update_stock
  try_update_stock-request root o client category item quantity w e =
      let payload : Json = stock_payload o category item quantity in
      rw
        (
          laws.at-add_item (l.add_string root "command" "update_stock") "payload" payload,
          reads "category" category payload w
              (category-stock_payload laws o category item quantity),
          reads "item" item payload w (item-stock_payload laws o category item quantity),
        )
        (at-get_int _ _
          (laws.int-add_number (pair o "category" category "item" item) "quantity" quantity e) w)

  process_command-request :
      (root payload : Json) (command client : String) (w : World)
      → process_command (request root command payload) client false w
        ≡ dispatch command (request root command payload) client false w
  unfolding process_command
  process_command-request root payload command client w =
      let e : text_at "command" (request root command payload) ≡ some command =
        command-request laws root payload command in
      rw
        (
          laws.contains-at "command" command (request root command payload) e,
          reads "command" command (request root command payload) w e,
        )
        refl

  try_login-request :
      (root o : Json) (n : ℕ) (user password : String) (w : World)
      → try_login n (request root "login" (pair o "hostname" user "password" password)) w
        ≡ (authenticate user password w.config.block_time_seconds >>= login_result n user) w
  unfolding try_login
  try_login-request root o n user password w =
      let payload : Json = pair o "hostname" user "password" password in
      rw
        (
          laws.at-add_item (l.add_string root "command" "login") "payload" payload,
          reads "hostname" user payload w
              (first-pair laws o "hostname" user "password" password refl),
          reads "password" password payload w
              (second-pair laws o "hostname" user "password" password),
        )
        refl

  -- A login typed in the client, with a name and a password that are non-empty and have no space,
  -- becomes a text. Where the server's reader gives the document of that text back and reads from it
  -- what the client put in, the message authenticates that name with that password, and any
  -- exception is answered as the server answers those of a login.
  pub login-before_login :
      (root : Json) (n : ℕ) (user password : String) (w : World)
      → l.create_object ≡ some root
      → IsWord user
      → IsWord password
      → p.parse (l.print (request root "login" (pair root "hostname" user "password" password)))
        ≡ some (request root "login" (pair root "hostname" user "password" password))
      → (text : String) × (build_json_from_input (join ("login" ∷ user ∷ password ∷ []))
          ≡ some (build_success text))
        × ((json_or_throw (p.parse text) >>= before_login n) w
            ≡ catch_std
                (internal_error λ w'.
                  "CRITICAL: Unhandled exception during login attempt from clientIP: "
                  ++ (w'.objects n).client_ip
                  ++ ". Error: ")
                (catch_json
                  (malformed_login n)
                  (authenticate user password w.config.block_time_seconds >>= login_result n user))
                w)
  unfolding before_login login
  login-before_login root n user password w created h h' parsed = (
    l.print (request root "login" (pair root "hostname" user "password" password)),
    build_json_from_input-login root user password created h h',
    rw
        (
          parsed,
          laws.value-at "command" "" "login"
              (request root "login" (pair root "hostname" user "password" password))
              (command-request laws root (pair root "hostname" user "password" password) "login"),
          try_login-request root root n user password w,
        )
        refl,
  )

  -- An update typed in the client, whose category, item and number are non-empty and have no space,
  -- and whose number is one of 32 bits, becomes a text. Where the server's reader gives the document
  -- of that text back and reads from it what the client put in, the command of a client that is not
  -- a Hub makes that update for that client, and a `json::exception` of it is refused.
  pub update_stock-process_command :
      (root : Json) (client category item number : String) (quantity : ℤ) (w : World)
      → l.create_object ≡ some root
      → IsWord category
      → IsWord item
      → IsWord number
      → l.strtol number ≡ some quantity
      → to_int32 quantity ≡ quantity
      → starts_with client "Hub" ≡ false
      → p.parse (l.print (request root "update_stock" (stock_payload root category item quantity)))
        ≡ some (request root "update_stock" (stock_payload root category item quantity))
      → (text : String) × (build_json_from_input
            (join ("update_stock" ∷ category ∷ item ∷ number ∷ []))
          ≡ some (build_success text))
        × ((json_or_throw (p.parse text) >>= λ j. process_command j client false) w
            ≡ catch_json
                (refuse_logged client "Invalid or missing field in update_stock payload."
                  "Invalid or missing field in update_stock payload.")
                (update_stock client category item quantity >>= update_reply)
                w)
  unfolding build_json_from_input build_tokens build_command build_json_for_update_stock
      build_quantity dispatch handle_update_stock
  update_stock-process_command root client category item number quantity w created h h' h'' read
        fits hub parsed =
      (
        l.print (request root "update_stock" (stock_payload root category item quantity)),
        rw
            (
              tokens-join ("update_stock" ∷ category ∷ item ∷ number ∷ [])
                  (omega arith, (h, (h', (h'', tt)))),
              created,
              read,
            )
            refl,
        rw
            (
              parsed,
              process_command-request root (stock_payload root category item quantity)
                  "update_stock" client w,
              hub,
              try_update_stock-request root root client category item quantity w fits,
            )
            refl,
      )
