-- ===== src/CommandProcessor/Tables.antt =====
-- The commands keep every invariant of the tables and the cache.
use client_server_architectu.Platform.{Platform}
use client_server_architectu.Invariant.{Holds, IsInvariant, Property}
use client_server_architectu.Traffic.Tables.{counted_rules}
use client_server_architectu.World.Keeps.{Keeps, Keeps-test}
use client_server_architectu.Json.{Json}
use client_server_architectu.Prelude.Int.{ℤ}
use client_server_architectu.Prelude.{◌==◌, Bool, Option, String, false, none, some, true}
use client_server_architectu.Inventory.Tables.{
  update_stock-Keeps, get_stock-Keeps, get_inventory_summary-Keeps,
}
use client_server_architectu.SessionManager.Tables.{unlock_client-Keeps}
use client_server_architectu.Inventory.{UpdateStockResult}
use client_server_architectu.World.{ClientInventoryMap}
use client_server_architectu.CommandProcessor.{
  handle_status, handle_end, inventory_reply, handle_get_inventory, update_reply, try_update_stock,
  handle_update_stock, stock_reply, try_get_stock, handle_get_stock, handle_get_history,
  unlock_reply, unlock_with, try_unlock_client, handle_unlock_client, register_reply,
  try_register_user, handle_register_user, handle_unknown, dispatch, process_command,
}

module _ ⦃p : Platform⦄ (P : Property) (inv : IsInvariant P) where
  handle_status-Keeps : (maintenance : Bool) → Keeps (Holds P) (handle_status maintenance)
  unfolding handle_status
  handle_status-Keeps maintenance = search counted_rules

  handle_end-Keeps : (client : String) → Keeps (Holds P) (handle_end client)
  unfolding handle_end
  handle_end-Keeps client = search counted_rules

  inventory_reply-Keeps :
      (client : String) (m : Option ClientInventoryMap) → Keeps (Holds P) (inventory_reply client m)
  unfolding inventory_reply
  inventory_reply-Keeps client none = search counted_rules
  inventory_reply-Keeps client (some m) = search counted_rules

  handle_get_inventory-Keeps : (client : String) → Keeps (Holds P) (handle_get_inventory client)
  unfolding handle_get_inventory
  handle_get_inventory-Keeps client =
      search (counted_rules, get_inventory_summary-Keeps, inventory_reply-Keeps)

  update_reply-Keeps : (r : UpdateStockResult) → Keeps (Holds P) (update_reply r)
  unfolding update_reply
  update_reply-Keeps r = search counted_rules

  try_update_stock-Keeps :
      (request : Json) (client : String) → Keeps (Holds P) (try_update_stock request client)
  unfolding try_update_stock
  try_update_stock-Keeps request client =
      search (counted_rules, update_stock-Keeps, update_reply-Keeps) depth 12

  handle_update_stock-Keeps :
      (request : Json) (client : String) → Keeps (Holds P) (handle_update_stock request client)
  unfolding handle_update_stock
  handle_update_stock-Keeps request client = search (counted_rules, try_update_stock-Keeps)

  stock_reply-Keeps :
      (category : String) (item : String) (q : Option ℤ)
      → Keeps (Holds P) (stock_reply category item q)
  unfolding stock_reply
  stock_reply-Keeps category item none = search counted_rules
  stock_reply-Keeps category item (some q) = search counted_rules

  try_get_stock-Keeps :
      (request : Json) (client : String) → Keeps (Holds P) (try_get_stock request client)
  unfolding try_get_stock
  try_get_stock-Keeps request client = search (counted_rules, get_stock-Keeps, stock_reply-Keeps)

  handle_get_stock-Keeps :
      (request : Json) (client : String) → Keeps (Holds P) (handle_get_stock request client)
  unfolding handle_get_stock
  handle_get_stock-Keeps request client = search (counted_rules, try_get_stock-Keeps)

  handle_get_history-Keeps : (client : String) → Keeps (Holds P) (handle_get_history client)
  unfolding handle_get_history
  handle_get_history-Keeps client = search counted_rules

  unlock_reply-Keeps :
      (client : String) (target : String) (b : Bool)
      → Keeps (Holds P) (unlock_reply client target b)
  unfolding unlock_reply
  unlock_reply-Keeps client target true = search counted_rules
  unlock_reply-Keeps client target false = search counted_rules

  unlock_with-Keeps :
      (client : String) (phrase : String) (target : String)
      → Keeps (Holds P) (unlock_with client phrase target)
  unfolding unlock_with
  unlock_with-Keeps client phrase target =
      Keeps-test (λ w. phrase == w.config.secret_phrase) _ _
        (search (counted_rules, unlock_client-Keeps, unlock_reply-Keeps)) (search counted_rules)

  try_unlock_client-Keeps :
      (request : Json) (client : String) → Keeps (Holds P) (try_unlock_client request client)
  unfolding try_unlock_client
  try_unlock_client-Keeps request client = search (counted_rules, unlock_with-Keeps)

  handle_unlock_client-Keeps :
      (request : Json) (client : String) → Keeps (Holds P) (handle_unlock_client request client)
  unfolding handle_unlock_client
  handle_unlock_client-Keeps request client = search (counted_rules, try_unlock_client-Keeps)

  register_reply-Keeps :
      (client : String) (target : String) (b : Bool)
      → Keeps (Holds P) (register_reply client target b)
  unfolding register_reply
  register_reply-Keeps client target true = search counted_rules
  register_reply-Keeps client target false = search counted_rules

  try_register_user-Keeps :
      (request : Json) (client : String) → Keeps (Holds P) (try_register_user request client)
  unfolding try_register_user
  try_register_user-Keeps request client = search (counted_rules, register_reply-Keeps)

  handle_register_user-Keeps :
      (request : Json) (client : String) → Keeps (Holds P) (handle_register_user request client)
  unfolding handle_register_user
  handle_register_user-Keeps request client = search (counted_rules, try_register_user-Keeps)

  handle_unknown-Keeps :
      (cmd : String) (client : String) → Keeps (Holds P) (handle_unknown cmd client)
  unfolding handle_unknown
  handle_unknown-Keeps cmd client = search counted_rules

  dispatch-Keeps :
      (cmd : String) (request : Json) (client : String) (maintenance : Bool)
      → Keeps (Holds P) (dispatch cmd request client maintenance)
  unfolding dispatch
  dispatch-Keeps cmd request client maintenance =
      search
        (
          counted_rules, handle_status-Keeps, handle_end-Keeps, handle_get_inventory-Keeps,
          handle_update_stock-Keeps, handle_get_stock-Keeps, handle_get_history-Keeps,
          handle_unlock_client-Keeps, handle_register_user-Keeps, handle_unknown-Keeps,
        )
        depth 14

  pub process_command-Keeps :
      (request : Json) (client : String) (maintenance : Bool)
      → Keeps (Holds P) (process_command request client maintenance)
  unfolding process_command
  process_command-Keeps request client maintenance = search (counted_rules, dispatch-Keeps)
