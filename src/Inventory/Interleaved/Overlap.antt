-- ===== src/Inventory/Interleaved/Overlap.antt =====
-- Two updates of one item at the same time.
use client_server_architectu.Inventory.Interleaved.Apart.{store-ok}
use client_server_architectu.Inventory.Coherent.{get_stock_on_cache-cache_put}
use client_server_architectu.Inventory.Interleaved.{
  Write, store, Threads, idle, perform_write, stores, writes, stops, goes_on,
}
use client_server_architectu.Inventory.{
  get_stock_on_cache, cache_put, fetch, get_stock, validate_inventory,
}
use client_server_architectu.Platform.{Platform}
use client_server_architectu.Prelude.Int.{ltb_ℤ, pos, ℤ}
use client_server_architectu.Prelude.{
  ◌≡◌, ◌∷◌, ◌∙◌, ap, true, false, some, refl, eq_refl, [], String,
}
use client_server_architectu.Storage.{find_stock}
use client_server_architectu.Storage.Stock.{find_stock-upsert}
use client_server_architectu.World.{World, ok}

module _ ⦃p : Platform⦄ where
  -- Two updates of one item, of the same client: both write the table, and then the cache in the
  -- other order. Then no write is pending, the table holds the second quantity, and a query answers
  -- the first one.
  pub get_stock-stale :
      (c k i : String) (q r : ℤ) (w : World)
      → ltb_ℤ q (pos 0) ≡ false
      → ltb_ℤ r (pos 0) ≡ false
      → (validate_inventory k i).success ≡ true
      → (store c k i q w).0 ≡ ok tt
      → (store c k i r (store c k i q w).1).0 ≡ ok tt
      → (t : World) × Threads (idle w) (idle t)
        × (find_stock c k i t.stock ≡ some r)
        × ((get_stock c k i t).0 ≡ ok (some q))
  unfolding get_stock fetch cache_put
  get_stock-stale c k i q r w a b v e f =
      let w1 = (store c k i q w).1 in
      let w2 = (store c k i r w1).1 in
      let first : Write = record { client = c; category = k; item = i; quantity = q } in
      let second : Write = record { client = c; category = k; item = i; quantity = r } in
      let u = perform_write second w2 in
      let hit : get_stock_on_cache c k i (perform_write first u).cache ≡ some q =
        get_stock_on_cache-cache_put c k i q u c k i ∙ rw (eq_refl c, eq_refl k, eq_refl i) refl in
      let (stored, kept) = store-ok c k i r w1 f in
      (
        perform_write first u,
        goes_on
            (goes_on (goes_on (goes_on stops (stores c k i q a v e)) (stores c k i r b v f))
              (writes [] (first ∷ []) second refl))
            (writes [] [] first refl),
        ap (find_stock c k i) stored
            ∙ find_stock-upsert c k i r c k i w1.stock
            ∙ rw (eq_refl c, eq_refl k, eq_refl i) refl,
        rw hit refl,
      )
