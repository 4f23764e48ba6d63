-- ===== src/CommandProcessor/Isolation.antt =====
-- What a command of one client may change in the stock: the rows of that client.
use client_server_architectu.CommandProcessor.StockIsolation.{
  handle_get_history-Isolated, handle_get_stock-Isolated, handle_update_stock-Isolated,
  handle_get_inventory-Isolated,
}
use client_server_architectu.Json.Access.{string_at}
use client_server_architectu.Json.{Json}
use client_server_architectu.Inventory.Isolation.{
  json_or_throw-Isolated, string_at-Isolated, Isolates, >>=-Isolated, catch_json-Isolated,
  same_stock, Isolated,
}
use client_server_architectu.World.{json_or_throw, World, Exec}
use client_server_architectu.SessionManager.{unlock_client}
use client_server_architectu.CommandProcessor.{
  refuse_uncounted, refuse_logged, handle_unknown, handle_end, register_reply, unlock_reply,
  handle_status, handle_register_user, dispatch, handle_unlock_client, try_register_user,
  try_unlock_client, unlock_with, process_command,
}
use client_server_architectu.Prelude.Dict
use client_server_architectu.Platform.{Platform}
use client_server_architectu.Storage
use client_server_architectu.Prelude.{
  if◌then◌else◌, ◌≡◌, ◌==◌, true, false, eqb, Bool, inr, inl, arith, String, Bool-cases, refl,
}

stock-unlock_client :
    ⦃p : Platform⦄ (target : String) (w : World) → (unlock_client target w).1.stock ≡ w.stock
unfolding unlock_client Storage.set_client_lock_status
stock-unlock_client ⦃p⦄ target w = elim (Bool-cases (p.db_fault w.journal.statements)) [
  | inl e ↦ rw e refl
  | inr e ↦ rw e (elim (Bool-cases (eqb (Dict.count target w.users) 1)) [
    | inl f ↦ rw f refl
    | inr f ↦ rw f refl
  ])
]

stock-create_user :
    ⦃p : Platform⦄ (target password : String) (w : World)
    → (Storage.create_user target password w).1.stock ≡ w.stock
unfolding Storage.create_user
stock-create_user target password w = ground arith

module _ ⦃p : Platform⦄ (client : String) where
  unlock_client-Isolated : (target : String) → Isolated client (unlock_client target)
  unfolding unlock_client
  unlock_client-Isolated target w =
      same_stock client w (unlock_client target w).1 (stock-unlock_client target w)

  unlock_with-Isolated :
      (phrase target : String) → Isolated client (unlock_with client phrase target)
  unfolding unlock_with unlock_reply
  unlock_with-Isolated phrase target w = elim (Bool-cases (phrase == w.config.secret_phrase)) [
    | inl e ↦ rw e (
        >>=-Isolated client (unlock_client target) (unlock_reply client target)
          (unlock_client-Isolated target) replied w)
    | inr e ↦ rw e (λ j k i other. refl)
  ]
    where
      replied : (b : Bool) → Isolated client (unlock_reply client target b)
      replied true v j k i other = refl
      replied false v j k i other = refl

  try_unlock_client-Isolated : (request : Json) → Isolated client (try_unlock_client request client)
  unfolding try_unlock_client
  try_unlock_client-Isolated request =
      >>=-Isolated client (json_or_throw (p.at "payload" request)) _
        (json_or_throw-Isolated client _)
        λ payload.
          >>=-Isolated client (string_at "secret_phrase" payload) _ (string_at-Isolated client _ _)
            λ phrase.
              >>=-Isolated client (string_at "client_to_unlock" payload) (unlock_with client phrase)
                (string_at-Isolated client _ _) (unlock_with-Isolated phrase)

  handle_unlock_client-Isolated :
      (request : Json) → Isolated client (handle_unlock_client request client)
  unfolding handle_unlock_client
  handle_unlock_client-Isolated request w = elim (Bool-cases (client == "admin")) [
    | inl e ↦ rw e (
        catch_json-Isolated client
          (refuse_logged client "Invalid or missing field in unlock_client payload."
            "Invalid or missing field in unlock_client payload.")
          (try_unlock_client request client) (λ v j k i other. refl)
          (try_unlock_client-Isolated request) w)
    | inr e ↦ rw e (λ j k i other. refl)
  ]

  create_user-Isolated :
      (target password : String) → Isolated client (Storage.create_user target password)
  create_user-Isolated target password w =
      same_stock client w (Storage.create_user target password w).1
        (stock-create_user target password w)

  try_register_user-Isolated : (request : Json) → Isolated client (try_register_user request client)
  unfolding try_register_user register_reply
  try_register_user-Isolated request =
      >>=-Isolated client (json_or_throw (p.at "payload" request)) _
        (json_or_throw-Isolated client _)
        λ payload.
          >>=-Isolated client (string_at "new_client_id" payload) _ (string_at-Isolated client _ _)
            λ target.
              >>=-Isolated client (string_at "new_client_password" payload) _
                (string_at-Isolated client _ _)
                λ password.
                  >>=-Isolated client (Storage.create_user target password)
                    (register_reply client target) (create_user-Isolated target password)
                    (replied target)
    where
      replied : (target : String) (b : Bool) → Isolated client (register_reply client target b)
      replied target true v j k i other = refl
      replied target false v j k i other = refl

  handle_register_user-Isolated :
      (request : Json) → Isolated client (handle_register_user request client)
  unfolding handle_register_user
  handle_register_user-Isolated request w = elim (Bool-cases (client == "admin")) [
    | inl e ↦ rw e (
        catch_json-Isolated client
          (refuse_uncounted client "Invalid or missing field in register_user payload."
            "Invalid or missing field in register_user payload.")
          (try_register_user request client) (λ v j k i other. refl)
          (try_register_user-Isolated request) w)
    | inr e ↦ rw e (λ j k i other. refl)
  ]

  if_Isolated :
      {A : Type 0} (b : Bool) (m k : Exec A)
      → Isolated client m
      → Isolated client k
      → Isolated client (if b then m else k)
  if_Isolated true m k h h' = h
  if_Isolated false m k h h' = h'

  dispatch-Isolated :
      (cmd : String) (request : Json) (maintenance : Bool)
      → Isolated client (dispatch cmd request client maintenance)
  unfolding dispatch handle_status handle_end handle_unknown
  dispatch-Isolated cmd request maintenance =
      if_Isolated (cmd == "status") _ _ (λ w j k i other. refl)
        (if_Isolated maintenance _ _ (λ w j k i other. refl)
          (if_Isolated (cmd == "end") _ _ (λ w j k i other. refl)
            (if_Isolated (cmd == "get_inventory") _ _ (handle_get_inventory-Isolated client) (
              if_Isolated (cmd == "update_stock") _ _ (handle_update_stock-Isolated client request)
                (if_Isolated (cmd == "get_stock") _ _ (handle_get_stock-Isolated client request) (
                  if_Isolated (cmd == "get_history") _ _ (handle_get_history-Isolated client) (
                    if_Isolated (cmd == "unlock_client") _ _ (handle_unlock_client-Isolated request)
                      (if_Isolated (cmd == "register_user") _ _
                        (handle_register_user-Isolated request) (λ w j k i other. refl)))))))))

  -- Whatever the command, its payload and the platform, and whether the command is carried out,
  -- refused, or throws: no quantity of another client changes in the table.
  pub process_command-Isolates :
      (request : Json) (maintenance : Bool) (w : World)
      → Isolates client w (process_command request client maintenance w).1
  unfolding process_command
  process_command-Isolates request maintenance w =
      elim (Bool-cases (p.contains "command" request)) [
        | inl e ↦ rw e (
            >>=-Isolated client (string_at "command" request) _ (string_at-Isolated client _ _)
              (λ cmd. dispatch-Isolated cmd request maintenance) w)
        | inr e ↦ rw e (λ j k i other. refl)
      ]
