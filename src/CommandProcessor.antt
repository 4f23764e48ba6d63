-- ===== src/CommandProcessor.antt =====
-- src/server/commandProcessor.cpp: the commands of an authenticated client. A handler returns the
-- text of the response and whether the connection stays open.
pub mod Isolation
pub mod Tables
pub mod StockIsolation
pub mod Admin
pub mod StockCommands
mod Replies
pub use Replies.{
  CommandResult, reply_members, success_reply, error_reply, data_reply, log_entry_json, reply,
  refuse, refuse_logged,
}
unfoldable pub use Replies.{items_json, inventory_json, history_json}
use client_server_architectu.Prelude.Int.{ℤ}
use client_server_architectu.Prelude.Dict.{Dict}
use client_server_architectu.Platform.{Platform}
use client_server_architectu.Prelude.{
  contains, if◌then◌else◌, ◌∷◌, ◌==◌, true, starts_with, some, none, false, [], String, Option,
  List, Bool,
}
use Prim.Native.String.{◌++◌}
use client_server_architectu.Json.Access.{string_at}
use client_server_architectu.Json.{
  Json, null, string, integer, array, object, Items, nil, cons, Members, end, member,
}
use client_server_architectu.Inventory.{
  UpdateStockResult, update_stock, get_stock, get_inventory_summary,
}
use client_server_architectu.Logger.{info, warning, log_for}
use client_server_architectu.SessionManager.{unlock_client}
use client_server_architectu.Storage
use client_server_architectu.Traffic.{increment_error}
use client_server_architectu.World.{
  World, LogRow, ClientInventoryMap, Exec, ok, pure, gets, json_or_throw, catch_json, ◌>>=◌, ◌>>◌,
}

module _ ⦃p : Platform⦄ where
  unfoldable pub handle_status : Bool → Exec CommandResult
  handle_status maintenance =
      reply (success_reply (if maintenance then "STATUS: MAINTENANCE" else "STATUS: OK"))

  unfoldable pub handle_end : String → Exec CommandResult
  handle_end client = do
    log_for (some client) info "CommandProcessor"
        ("Requested disconnection via end command for client " ++ client)
    pure (p.dump (success_reply "Goodbye!"), false)

  unfoldable pub inventory_reply : String → Option ClientInventoryMap → Exec CommandResult
  inventory_reply client (some m) = do
    log_for (some client) info "CommandProcessor" ("Inventory data retrieved for client " ++ client)
    reply (
        data_reply ("Inventory data for client " ++ client ++ " retrieved.")
          (object (inventory_json m)))
  inventory_reply client none = do
    increment_error "tcp" "rx"
    log_for (some client) info "CommandProcessor" ("No inventory data found for client " ++ client)
    reply (error_reply ("Inventory data for client " ++ client ++ " is empty."))

  unfoldable pub handle_get_inventory : String → Exec CommandResult
  handle_get_inventory client = do m ← get_inventory_summary client; inventory_reply client m

  unfoldable pub update_reply : UpdateStockResult → Exec CommandResult
  update_reply r = if r.success then reply (success_reply r.message) else refuse r.message

  -- the body of the `try` of `handle_update_stock`
  unfoldable pub try_update_stock : Json → String → Exec CommandResult
  try_update_stock request client = do
    payload ← json_or_throw (p.at "payload" request)
    category ← string_at "category" payload
    item ← string_at "item" payload
    v ← json_or_throw (p.at "quantity" payload)
    quantity ← json_or_throw (p.get_int v)
    r ← update_stock client category item quantity
    update_reply r

  unfoldable pub handle_update_stock : Json → String → Exec CommandResult
  handle_update_stock request client =
      if starts_with client "Hub"
      then refuse_logged client "update_stock command is not allowed for Hub clients."
          "update_stock command is not allowed for Hub clients."
      else catch_json
          (refuse_logged client "Invalid or missing field in update_stock payload."
            "Invalid or missing field in update_stock payload.")
          (try_update_stock request client)

  unfoldable pub stock_reply : String → String → Option ℤ → Exec CommandResult
  stock_reply category item (some q) = reply (
      data_reply "Stock data retrieved successfully." (
        object (
          member "category" (string category)
            (member "item" (string item) (member "quantity" (integer q) end)))))
  stock_reply category item none = refuse "Item not found for the specified client/category."

  -- the body of the `try` of `handle_get_stock`
  unfoldable pub try_get_stock : Json → String → Exec CommandResult
  try_get_stock request client = do
    payload ← json_or_throw (p.at "payload" request)
    category ← string_at "category" payload
    item ← string_at "item" payload
    q ← get_stock client category item
    stock_reply category item q

  unfoldable pub handle_get_stock : Json → String → Exec CommandResult
  handle_get_stock request client =
      catch_json
        (refuse_logged client "Invalid or missing field in get_stock payload."
          "Invalid or missing field in get_stock payload.")
        (try_get_stock request client)

  unfoldable pub handle_get_history : String → Exec CommandResult
  handle_get_history client = do
    history ← Storage.get_inventory_history_transaction client
    log_for (some client) info "CommandProcessor"
        ("Inventory history retrieved for client " ++ client)
    reply (data_reply "Inventory history retrieved." (array (history_json history)))

  unfoldable pub unlock_reply : String → String → Bool → Exec CommandResult
  unlock_reply client target true =
      reply (success_reply ("Client `" ++ target ++ "` successfully unlocked."))
  unlock_reply client target false =
      refuse_logged client
        ("Couldn't unlock Client `" ++ target ++ "`. Client didn't found or misspelled.")
        ("Couldn't unlock Client `" ++ target ++ "`. Client didn't found or misspelled.")

  unfoldable pub unlock_with : String → String → String → Exec CommandResult
  unlock_with client phrase target w =
      if phrase == w.config.secret_phrase
      then (do success ← unlock_client target; unlock_reply client target success) w
      else refuse_logged client "Wrong secret phrase. Try again."
          "Wrong secret phrase provided for unlock_client command." w

  -- the body of the `try` of `handle_unlock_client`
  unfoldable pub try_unlock_client : Json → String → Exec CommandResult
  try_unlock_client request client = do
    payload ← json_or_throw (p.at "payload" request)
    phrase ← string_at "secret_phrase" payload
    target ← string_at "client_to_unlock" payload
    unlock_with client phrase target

  unfoldable pub handle_unlock_client : Json → String → Exec CommandResult
  handle_unlock_client request client =
      if client == "admin"
      then catch_json
          (refuse_logged client "Invalid or missing field in unlock_client payload."
            "Invalid or missing field in unlock_client payload.")
          (try_unlock_client request client)
      else refuse_logged client "Command only available for admin user."
          "Trying to execute admin commands with a invalid user."

  -- The errors of this command are logged and not counted.
  abbrev pub refuse_uncounted : String → String → String → Exec CommandResult
  refuse_uncounted client message logged = do
    log_for (some client) warning "CommandProcessor" logged
    reply (error_reply message)

  unfoldable pub register_reply : String → String → Bool → Exec CommandResult
  register_reply client target true = do
    log_for (some client) info "CommandProcessor"
        ("Client `" ++ target ++ "` registered successfully.")
    reply (success_reply ("Client `" ++ target ++ "` successfully registered."))
  register_reply client target false =
      refuse_uncounted client ("Couldn't register Client `" ++ target ++ "`.")
        ("Couldn't register Client `" ++ target ++ "`.")

  -- the body of the `try` of `handle_register_user`
  unfoldable pub try_register_user : Json → String → Exec CommandResult
  try_register_user request client = do
    payload ← json_or_throw (p.at "payload" request)
    target ← string_at "new_client_id" payload
    password ← string_at "new_client_password" payload
    success ← Storage.create_user target password
    register_reply client target success

  unfoldable pub handle_register_user : Json → String → Exec CommandResult
  handle_register_user request client =
      if client == "admin"
      then catch_json
          (refuse_uncounted client "Invalid or missing field in register_user payload."
            "Invalid or missing field in register_user payload.")
          (try_register_user request client)
      else refuse_uncounted client "Command only available for admin user."
          "Trying to execute admin commands with a invalid user."

  unfoldable pub handle_unknown : String → String → Exec CommandResult
  handle_unknown cmd client = do
    log_for (some client) warning "CommandProcessor"
        ("Received unknown command '" ++ cmd ++ "' from client " ++ client)
    reply (success_reply "ACK: Unknown command received.")

  -- the ladder of `processCommand`
  unfoldable pub dispatch : String → Json → String → Bool → Exec CommandResult
  dispatch cmd request client maintenance =
      if cmd == "status"
      then handle_status maintenance
      else if maintenance
      then reply (error_reply "Server is in maintenance mode.")
      else if cmd == "end"
      then handle_end client
      else if cmd == "get_inventory"
      then handle_get_inventory client
      else if cmd == "update_stock"
      then handle_update_stock request client
      else if cmd == "get_stock"
      then handle_get_stock request client
      else if cmd == "get_history"
      then handle_get_history client
      else if cmd == "unlock_client"
      then handle_unlock_client request client
      else if cmd == "register_user"
      then handle_register_user request client
      else handle_unknown cmd client

  unfoldable pub process_command : Json → String → Bool → Exec CommandResult
  process_command request client maintenance =
      if p.contains "command" request
      then (do cmd ← string_at "command" request; dispatch cmd request client maintenance)
      else (do
        log_for (some client) warning "CommandProcessor"
            ("Request from client " ++ client ++ " is missing 'command' field.")
        increment_error "tcp" "rx"
        reply (error_reply "Missing 'command' field in request."))
