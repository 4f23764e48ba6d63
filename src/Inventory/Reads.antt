-- ===== src/Inventory/Reads.antt =====
-- What the inventory answers: the table's quantities, and what was last written.
use client_server_architectu.Storage.Stock.{quantity_in-client_map}
use client_server_architectu.Prelude.Dict
use client_server_architectu.Storage.{client_map, find_stock, quantity_in}
use client_server_architectu.World.{ok, ClientInventoryMap, World}
use client_server_architectu.Prelude.Int.{ℤ}
use client_server_architectu.Platform.{IsReliable, Platform}
use client_server_architectu.Prelude.{
  refl, contains, Bool-cases, ◌≡◌, some, inr, inl, eq_iff, arith, String, Option-cases, Option,
}
use client_server_architectu.Storage
use client_server_architectu.Inventory.Coherent.{IsCoherent, get_stock_on_cache-cache_put}
use client_server_architectu.Inventory.Calls.{Succeeds, update_stock-Writes}
use client_server_architectu.Inventory.{
  update_stock, get_stock, get_inventory_summary, fetch, remember, get_stock_on_cache, load_summary,
  remember_all,
}

module _ ⦃p : Platform⦄ where
  -- After an update that answered success, a query of the same item answers the new quantity, also
  -- if the database fails by then.
  pub get_stock-update_stock :
      (c k i : String) (q : ℤ) (w : World)
      → Succeeds (update_stock c k i q w).0
      → (get_stock c k i (update_stock c k i q w).1).0 ≡ ok (some q)
  unfolding get_stock fetch
  get_stock-update_stock c k i q w done = elim (update_stock-Writes c k i q w) [
    | inl (_, _, n) ↦ absurd (n done)
    | inr (_, e, _) ↦
        let hit : get_stock_on_cache c k i (update_stock c k i q w).1.cache ≡ some q =
          rw (e, get_stock_on_cache-cache_put)
            (ground (arith, eq_iff c c, eq_iff k k, eq_iff i i)) in
        rw hit
  ]

module _ ⦃p : Platform⦄ (r : IsReliable p) where
  -- On a reliable database a coherent cache is transparent: a query answers the table's quantity, or
  -- nothing where the table has no row.
  pub get_stock-eq-find_stock :
      (c k i : String) (w : World)
      → IsCoherent w
      → (get_stock c k i w).0 ≡ ok (find_stock c k i w.stock)
  unfolding get_stock fetch remember Storage.get_stock
  get_stock-eq-find_stock c k i w h = elim (Option-cases (get_stock_on_cache c k i w.cache)) [
    | inl e ↦
        rw (e, r.no_fault w.journal.statements)
          (elim (Option-cases (find_stock c k i w.stock)) [ inl f ↦ rw f | inr (q, f) ↦ rw f ])
    | inr (q, e) ↦ rw (e, h.agrees c k i q e)
  ]

  load_summary_lem : (c : String) (w : World) → (load_summary c w).0 ≡ ok (client_map c w.stock)
  unfolding load_summary remember_all Storage.get_full_inventory
  load_summary_lem c w =
      rw (r.no_fault w.journal.statements)
        (elim (Option-cases (client_map c w.stock)) [ inl f ↦ rw f | inr (m, f) ↦ rw f ])

  -- So is a summary: each quantity of the map that it answers is that of the table.
  pub get_inventory_summary-quantities :
      (c k i : String) (w : World)
      → IsCoherent w
      → (m : Option ClientInventoryMap) × ((get_inventory_summary c w).0 ≡ ok m)
        × (quantity_in k i m ≡ find_stock c k i w.stock)
  unfolding get_inventory_summary
  get_inventory_summary-quantities c k i w h =
      elim (Bool-cases (contains w.cache.fully_cached_clients c)) [
        | inl e ↦ rw e (
          Dict.lookup c w.cache.inventories,
          refl,
          unfold get_stock_on_cache in h.complete c k i e,
        )
        | inr e ↦ rw e (
          client_map c w.stock,
          load_summary_lem c _,
          quantity_in-client_map c k i w.stock h.distinct,
        )
      ]
