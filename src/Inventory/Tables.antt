-- ===== src/Inventory/Tables.antt =====
-- The inventory keeps what the schema promises of the tables.
use client_server_architectu.Inventory.{
  cache_put, fetch, get_inventory_summary, get_stock, load_summary, remember, remember_all,
  update_stock, update_valid,
}
use client_server_architectu.Logger.Tables.{table_rules}
use client_server_architectu.Platform.{Platform}
use client_server_architectu.Prelude.Int.{ℤ}
use client_server_architectu.Prelude.{Option, String, none, some}
use client_server_architectu.Storage.Schema.{IsSchema}
use client_server_architectu.World.Keeps.{Keeps}
use client_server_architectu.World.{ClientInventoryMap}

module _ ⦃p : Platform⦄ where
  update_valid-Keeps : (c k i : String) (q : ℤ) → Keeps IsSchema (update_valid c k i q)
  unfolding update_valid cache_put
  update_valid-Keeps c k i q = search table_rules

  pub update_stock-Keeps : (c k i : String) (q : ℤ) → Keeps IsSchema (update_stock c k i q)
  unfolding update_stock
  update_stock-Keeps c k i q = search (table_rules, update_valid-Keeps)

  remember-Keeps : (c k i : String) (q : Option ℤ) → Keeps IsSchema (remember c k i q)
  unfolding remember cache_put
  remember-Keeps c k i none = search table_rules
  remember-Keeps c k i (some q) = search table_rules

  fetch-Keeps : (c k i : String) (q : Option ℤ) → Keeps IsSchema (fetch c k i q)
  unfolding fetch
  fetch-Keeps c k i none = search (table_rules, remember-Keeps)
  fetch-Keeps c k i (some q) = search table_rules

  pub get_stock-Keeps : (c k i : String) → Keeps IsSchema (get_stock c k i)
  unfolding get_stock
  get_stock-Keeps c k i = search (table_rules, fetch-Keeps)

  remember_all-Keeps :
      (c : String) (m : Option ClientInventoryMap) → Keeps IsSchema (remember_all c m)
  unfolding remember_all
  remember_all-Keeps c none = search table_rules
  remember_all-Keeps c (some m) = search table_rules

  load_summary-Keeps : (c : String) → Keeps IsSchema (load_summary c)
  unfolding load_summary
  load_summary-Keeps c = search (table_rules, remember_all-Keeps)

  pub get_inventory_summary-Keeps : (c : String) → Keeps IsSchema (get_inventory_summary c)
  unfolding get_inventory_summary
  get_inventory_summary-Keeps c = search (table_rules, load_summary-Keeps)
