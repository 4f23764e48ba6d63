-- ===== src/Tests/Commands.antt =====
-- The theorems on commands and on the journal and the counters at the small state.
use client_server_architectu.CommandProcessor.StockCommands.{get_stock_command-update_stock}
use client_server_architectu.CommandProcessor.Admin.{register-authenticate}
use client_server_architectu.CommandProcessor.Isolation.{process_command-Isolates}
use client_server_architectu.ClientSession.Gate.{login-Admits, Admits}
use client_server_architectu.Prelude.Int.{pos}
use client_server_architectu.Json.Access.{text_at}
use client_server_architectu.CommandProcessor.{
  process_command, handle_update_stock, handle_get_stock, handle_register_user,
}
use client_server_architectu.Authenticator.{success, authenticate}
use client_server_architectu.Inventory.Isolation.{Isolates}
use client_server_architectu.World.{ok}
use client_server_architectu.Json.{Json, object, member, end, string, integer}
use client_server_architectu.Tests.Documents
use client_server_architectu.Tests.{test_platform, reliable, bcrypt, test_world}
use client_server_architectu.Prelude.{
  List, contains, ◌≡◌, ◌∷◌, true, some, none, false, [], String, refl,
}
use client_server_architectu.Prelude.Dict
use client_server_architectu.Storage

abbrev update_payload : Json
update_payload = object (
    member "category" (string "food")
      (member "item" (string "water") (member "quantity" (integer (pos 3)) end)))

abbrev update_request : Json
update_request =
    object (member "command" (string "update_stock") (member "payload" update_payload end))

abbrev register_payload : Json
register_payload =
    object
      (member "new_client_id" (string "Ship2") (member "new_client_password" (string "word") end))

abbrev register_request : Json
register_request =
    object (member "command" (string "register_user") (member "payload" register_payload end))

abbrev login_payload : Json
login_payload = object (member "hostname" (string "Ship1") (member "password" (string "pw") end))

abbrev login_request : Json
login_request = object (member "command" (string "login") (member "payload" login_payload end))

get_stock_command-update_stock_example :
    (handle_get_stock update_request "Ship1"
      (handle_update_stock update_request "Ship1" test_world).1).0
    ≡ ok ("success", true)
unfolding Dict.lookup client_server_architectu.Inventory.validate_inventory
    client_server_architectu.Prelude.contains Documents.at Documents.find Documents.get_string
    Documents.get_int client_server_architectu.Prelude.Int.to_int32
    client_server_architectu.CommandProcessor.stock_reply
get_stock_command-update_stock_example =
    (get_stock_command-update_stock update_request update_request "Ship1" "food" "water" 3
      test_world reliable refl refl refl refl
      (update_payload, refl, refl, refl, integer (pos 3), refl, refl)
      (update_payload, refl, refl, refl)).1

process_command-Isolates_example :
    Isolates "Ship1" test_world (process_command update_request "Ship1" false test_world).1
process_command-Isolates_example = process_command-Isolates "Ship1" update_request false test_world

register-authenticate_example :
    (authenticate "Ship2" "word"
      (pos 900)
      (handle_register_user register_request "admin" test_world).1).0
    ≡ ok success
unfolding Dict.lookup Documents.at Documents.find Documents.get_string
register-authenticate_example =
    (register-authenticate register_request "Ship2" "word" (pos 900) test_world reliable bcrypt
      (refl, tt) (register_payload, refl, refl, refl) refl).1

login-Admits_example :
    (payload : Json) × (user : String) × (password : String) × (Documents.at "payload" login_request
      ≡ some payload)
    × (text_at "hostname" payload ≡ some user)
    × (text_at "password" payload ≡ some password)
    × Admits user password test_world
unfolding client_server_architectu.ClientSession.login
    client_server_architectu.ClientSession.try_login Documents.at Documents.find
    Documents.get_string authenticate Storage.get_user_login_data
    client_server_architectu.Authenticator.check_user Dict.lookup
    client_server_architectu.Authenticator.clear_expired
    client_server_architectu.Authenticator.check_password Storage.update_login_attempts
    client_server_architectu.ClientSession.login_result
    client_server_architectu.ClientSession.log_in
    client_server_architectu.SessionManager.register_session contains
login-Admits_example = login-Admits 0 login_request test_world refl refl
