-- ===== src/Inventory.antt =====
-- src/server/inventory.cpp: a write-through cache over the table `inventory`. The map of a client in
-- the cache holds what was read or written so far; a client in `m_fullyCachedClients` has it all.
-- Here each method runs whole; Inventory/Interleaved has the order of several threads.

pub mod Coherent
pub mod Calls
pub mod Isolation
pub mod Reads
pub mod Interleaved
pub mod Tables
use client_server_architectu.Platform.{Platform}
use client_server_architectu.Prelude.{
  if◌then◌else◌, ◌∷◌, true, some, set_insert, none, false, contains, [], String, Option, List, Bool,
}
use Prim.Native.String.{◌++◌}
use client_server_architectu.Prelude.Dict
use client_server_architectu.Prelude.Dict.{Dict}
use client_server_architectu.Prelude.Int.{ℤ, pos, ltb_ℤ, to_string}
use client_server_architectu.Storage
use client_server_architectu.Storage.{quantity_in, or_empty, put_item}
use client_server_architectu.Logger.{info, warning, log, log_for}
use client_server_architectu.World.{
  World, Cache, ClientInventoryMap, Exec, ok, pure, gets, modify, ◌>>=◌, ◌>>◌,
}

pub record UpdateStockResult : Type 0 where
  pub success : Bool
  pub message : String

-- `s_validItems`
abbrev pub valid_items : Dict (List String)
valid_items =
    ("food", "meat" ∷ "vegetables" ∷ "fruits" ∷ "water" ∷ "bread" ∷ [])
    ∷ ("medicine", "antibiotics" ∷ "analgesics" ∷ "bandages" ∷ [])
    ∷ ("ammo", "pistol_rounds" ∷ "shotgun_shells" ∷ "grenades" ∷ [])
    ∷ []

unfoldable pub validate_inventory : String → String → UpdateStockResult
validate_inventory category item = elim (Dict.lookup category valid_items) [
  | none ↦ record {
    success = false;
    message = "Update rejected: Invalid category '" ++ category ++ "'.";
  }
  | some items ↦
      if contains items item
      then record { success = true; message = "valid ok" }
      else record { success = false; message = "Update rejected: Invalid item '" ++ item ++ "'." }
]

-- `getStockonCache`
unfoldable pub get_stock_on_cache : String → String → String → Cache → Option ℤ
get_stock_on_cache client category item c =
    quantity_in category item (Dict.lookup client c.inventories)

-- `m_inventories[client][category][item] = quantity`
unfoldable pub cache_put : String → String → String → ℤ → World → World
cache_put client category item quantity w = record w {
  cache = record w.cache {
    inventories =
        Dict.insert client
          (put_item category item quantity (or_empty (Dict.lookup client w.cache.inventories)))
          w.cache.inventories;
  };
}

module _ ⦃p : Platform⦄ where
  unfoldable pub update_valid : String → String → String → ℤ → Exec UpdateStockResult
  update_valid client category item quantity = do
    Storage.save_stock_update client category item quantity
    log_for (some client) info "Inventory" (
        "Stock succesfully updated for "
        ++ category
        ++ ":"
        ++ item
        ++ " to "
        ++ to_string quantity
        ++ " for client "
        ++ client)
    modify (cache_put client category item quantity)
    pure (record {
      success = true;
      message =
          "Stock for '"
          ++ category
          ++ ":"
          ++ item
          ++ "' successfully updated to "
          ++ to_string quantity
          ++ ".";
    })

  unfoldable pub update_stock : String → String → String → ℤ → Exec UpdateStockResult
  update_stock client category item quantity =
      if ltb_ℤ quantity (pos 0)
      then (do
        log warning "Inventory" (
            "Client " ++ client ++ " trying to update negative quantity for item '" ++ item ++ "'.")
        pure
            (record { success = false; message = "Update rejected: Quantity cannot be negative." }))
      else if (validate_inventory category item).success
      then update_valid client category item quantity
      else pure (validate_inventory category item)

  -- a row found in the database is put in the cache
  unfoldable pub remember : String → String → String → Option ℤ → Exec (Option ℤ)
  remember client category item none = pure none
  remember client category item (some q) = do
    modify (cache_put client category item q)
    pure (some q)

  unfoldable pub fetch : String → String → String → Option ℤ → Exec (Option ℤ)
  fetch client category item (some q) = pure (some q)
  fetch client category item none = do
    found ← Storage.get_stock client category item
    remember client category item found

  unfoldable pub get_stock : String → String → String → Exec (Option ℤ)
  get_stock client category item = do
    cached ← gets (λ w. get_stock_on_cache client category item w.cache)
    fetch client category item cached

  -- `m_inventories[client] = *result; m_fullyCachedClients.insert(client)`
  unfoldable pub remember_all :
      String → Option ClientInventoryMap → Exec (Option ClientInventoryMap)
  remember_all client none = pure none
  remember_all client (some m) = do
    modify (λ w. record w {
      cache = record {
        inventories = Dict.insert client m w.cache.inventories;
        fully_cached_clients = set_insert client w.cache.fully_cached_clients;
      };
    })
    pure (some m)

  unfoldable pub load_summary : String → Exec (Option ClientInventoryMap)
  load_summary client = do result ← Storage.get_full_inventory client; remember_all client result

  unfoldable pub get_inventory_summary : String → Exec (Option ClientInventoryMap)
  get_inventory_summary client = do
    log_for (some client) info "Inventory"
        ("Full inventory summary requested for client " ++ client ++ ".")
    cache ← gets (λ w. w.cache)
    if contains cache.fully_cached_clients client
        then pure (Dict.lookup client cache.inventories)
        else load_summary client
