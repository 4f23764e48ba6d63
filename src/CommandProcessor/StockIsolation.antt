-- ===== src/CommandProcessor/StockIsolation.antt =====
-- The commands on the stock, of which each leaves the stock of other clients alone.
use client_server_architectu.Json.Access.{string_at}
use client_server_architectu.Json.{Json}
use client_server_architectu.Prelude.Int.{ℤ}
use client_server_architectu.Inventory.{get_inventory_summary, UpdateStockResult}
use client_server_architectu.Inventory.Isolation.{
  update_stock-Isolated, get_stock-Isolated, json_or_throw-Isolated, string_at-Isolated,
  get_inventory_summary-Isolated, >>=-Isolated, catch_json-Isolated, Isolated,
}
use client_server_architectu.World.{json_or_throw, ClientInventoryMap}
use client_server_architectu.CommandProcessor.{
  refuse_logged, inventory_reply, handle_get_inventory, handle_update_stock, try_get_stock,
  handle_get_history, try_update_stock, update_reply, handle_get_stock, stock_reply,
}
use client_server_architectu.Platform.{Platform}
use client_server_architectu.Storage
use client_server_architectu.Inventory
use client_server_architectu.Prelude.{
  starts_with, some, none, inr, inl, String, Option, Bool-cases, refl,
}

module _ ⦃p : Platform⦄ (client : String) where
  update_reply-Isolated : (r : UpdateStockResult) → Isolated client (update_reply r)
  unfolding update_reply
  update_reply-Isolated r w = elim (Bool-cases r.success) [
    | inl e ↦ rw e (λ j k i other. refl)
    | inr e ↦ rw e (λ j k i other. refl)
  ]

  stock_reply-Isolated :
      (category item : String) (q : Option ℤ) → Isolated client (stock_reply category item q)
  unfolding stock_reply
  stock_reply-Isolated category item none w j k i other = refl
  stock_reply-Isolated category item (some q) w j k i other = refl

  try_update_stock-Isolated : (request : Json) → Isolated client (try_update_stock request client)
  unfolding try_update_stock
  try_update_stock-Isolated request =
      >>=-Isolated client (json_or_throw (p.at "payload" request)) _
        (json_or_throw-Isolated client _)
        λ payload.
          >>=-Isolated client (string_at "category" payload) _ (string_at-Isolated client _ _)
            λ category.
              >>=-Isolated client (string_at "item" payload) _ (string_at-Isolated client _ _)
                λ item.
                  >>=-Isolated client (json_or_throw (p.at "quantity" payload)) _
                    (json_or_throw-Isolated client _)
                    λ v.
                      >>=-Isolated client (json_or_throw (p.get_int v)) _
                        (json_or_throw-Isolated client _)
                        λ quantity.
                          >>=-Isolated client (Inventory.update_stock client category item quantity)
                            update_reply
                            (update_stock-Isolated client client category item quantity refl)
                            update_reply-Isolated

  pub handle_update_stock-Isolated :
      (request : Json) → Isolated client (handle_update_stock request client)
  unfolding handle_update_stock
  handle_update_stock-Isolated request w = elim (Bool-cases (starts_with client "Hub")) [
    | inl e ↦ rw e (λ j k i other. refl)
    | inr e ↦ rw e (
        catch_json-Isolated client
          (refuse_logged client "Invalid or missing field in update_stock payload."
            "Invalid or missing field in update_stock payload.")
          (try_update_stock request client) (λ v j k i other. refl)
          (try_update_stock-Isolated request) w)
  ]

  try_get_stock-Isolated : (request : Json) → Isolated client (try_get_stock request client)
  unfolding try_get_stock
  try_get_stock-Isolated request =
      >>=-Isolated client (json_or_throw (p.at "payload" request)) _
        (json_or_throw-Isolated client _)
        λ payload.
          >>=-Isolated client (string_at "category" payload) _ (string_at-Isolated client _ _)
            λ category.
              >>=-Isolated client (string_at "item" payload) _ (string_at-Isolated client _ _)
                λ item.
                  >>=-Isolated client (Inventory.get_stock client category item)
                    (stock_reply category item) (get_stock-Isolated client category item)
                    (stock_reply-Isolated category item)

  pub handle_get_stock-Isolated :
      (request : Json) → Isolated client (handle_get_stock request client)
  unfolding handle_get_stock
  handle_get_stock-Isolated request =
      catch_json-Isolated client
        (refuse_logged client "Invalid or missing field in get_stock payload."
          "Invalid or missing field in get_stock payload.")
        (try_get_stock request client) (λ v j k i other. refl) (try_get_stock-Isolated request)

  pub handle_get_history-Isolated : Isolated client (handle_get_history client)
  unfolding handle_get_history Storage.get_inventory_history_transaction
  handle_get_history-Isolated w = elim (Bool-cases (p.db_fault w.journal.statements)) [
    | inl e ↦ rw e (λ j k i other. refl)
    | inr e ↦ rw e (λ j k i other. refl)
  ]

  pub handle_get_inventory-Isolated : Isolated client (handle_get_inventory client)
  unfolding handle_get_inventory inventory_reply
  handle_get_inventory-Isolated =
      >>=-Isolated client (get_inventory_summary client) (inventory_reply client)
        (get_inventory_summary-Isolated client) replied
    where
      replied : (m : Option ClientInventoryMap) → Isolated client (inventory_reply client m)
      replied none w j k i other = refl
      replied (some m) w j k i other = refl
