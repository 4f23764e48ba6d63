-- ===== src/Inventory/Coherent.antt =====
-- The cache against the table: what the cache answers, the table holds.
use client_server_architectu.Prelude.Dict.{lookup-insert}
use client_server_architectu.Storage.{client_map, or_empty, put_item, find_stock, upsert}
use client_server_architectu.Storage.Stock.{
  quantity_in-client_map, quantity_in-or_empty, quantity_in-put_item, find_stock-upsert,
  upsert-NodupStock, NodupStock,
}
use client_server_architectu.World.{ClientInventoryMap, World}
use client_server_architectu.Prelude.Int.{ℤ}
use client_server_architectu.Prelude.Dict
use client_server_architectu.Prelude.{
  set_insert, contains-set_insert, refl, if◌then◌else◌, ◌≡◌, ◌==◌, ◌&&◌, true, some, eq_iff,
  contains, arith, String,
}
use client_server_architectu.Inventory.{cache_put, get_stock_on_cache}

-- The keys of the table are distinct; every cached quantity is that of the table; and the maps of the
-- fully cached clients miss nothing.
pub record IsCoherent (w : World) : Type 0 where
  pub distinct : NodupStock w.stock
  pub agrees :
      (c k i : String) (q : ℤ)
      → get_stock_on_cache c k i w.cache ≡ some q
      → find_stock c k i w.stock ≡ some q
  pub complete :
      (c k i : String)
      → contains w.cache.fully_cached_clients c ≡ true
      → get_stock_on_cache c k i w.cache ≡ find_stock c k i w.stock

pub get_stock_on_cache-cache_put :
    (c k i : String) (q : ℤ) (w : World) (c' k' i' : String)
    → get_stock_on_cache c' k' i' (cache_put c k i q w).cache ≡ (
        if (c == c') && ((k == k') && (i == i'))
        then some q
        else get_stock_on_cache c' k' i' w.cache)
unfolding get_stock_on_cache cache_put
get_stock_on_cache-cache_put c k i q w c' k' i' = ground (
  arith,
  lookup-insert c c' (put_item k i q (or_empty (Dict.lookup c w.cache.inventories)))
      w.cache.inventories,
  quantity_in-put_item k i q (or_empty (Dict.lookup c w.cache.inventories)) k' i',
  quantity_in-or_empty k' i' (Dict.lookup c w.cache.inventories),
  eq_iff c c',
)

pub fully-cache_put :
    (c k i : String) (q : ℤ) (w : World)
    → (cache_put c k i q w).cache.fully_cached_clients ≡ w.cache.fully_cached_clients
unfolding cache_put
fully-cache_put c k i q w = refl

module _ (c k i : String) (q : ℤ) {w : World} (h : IsCoherent w) where
  -- the same write to the table and to the cache
  pub write-IsCoherent :
      (v : World)
      → v.stock ≡ upsert c k i q w.stock
      → v.cache ≡ (cache_put c k i q w).cache
      → IsCoherent v
  write-IsCoherent v s e = record {
    distinct = rw s (upsert-NodupStock c k i q w.stock h.distinct);
    agrees = λ c' k' i' q' hit.
        rw (s, find_stock-upsert c k i q c' k' i' w.stock)
          (ground (
            arith,
            h.agrees c' k' i' q',
            get_stock_on_cache-cache_put c k i q w c' k' i',
            rw e at hit,
          ));
    complete = λ c' k' i' full.
        rw
          (
            s,
            e,
            find_stock-upsert c k i q c' k' i' w.stock,
            get_stock_on_cache-cache_put c k i q w c' k' i',
          )
          (ground (arith, h.complete c' k' i', fully-cache_put c k i q w, rw e at full));
  }

  -- a quantity that the table holds is put in the cache
  pub remember-IsCoherent :
      (v : World)
      → find_stock c k i w.stock ≡ some q
      → v.stock ≡ w.stock
      → v.cache ≡ (cache_put c k i q w).cache
      → IsCoherent v
  remember-IsCoherent v held s e = record {
    distinct = rw s h.distinct;
    agrees = λ c' k' i' q' hit. rw s (
        ground (
          arith,
          held,
          h.agrees c' k' i' q',
          get_stock_on_cache-cache_put c k i q w c' k' i',
          rw e at hit,
          eq_iff c c',
          eq_iff k k',
          eq_iff i i',
        ));
    complete = λ c' k' i' full.
        rw (s, e, get_stock_on_cache-cache_put c k i q w c' k' i')
          (ground (
            arith,
            held,
            h.complete c' k' i',
            fully-cache_put c k i q w,
            rw e at full,
            eq_iff c c',
            eq_iff k k',
            eq_iff i i',
          ));
  }

pub keep-IsCoherent :
    {w : World} (v : World) → IsCoherent w → v.stock ≡ w.stock → v.cache ≡ w.cache → IsCoherent v
keep-IsCoherent v h s e = record {
  distinct = rw s h.distinct;
  agrees = λ c k i q. rw (s, e) (h.agrees c k i q);
  complete = λ c k i. rw (s, e) (h.complete c k i);
}

-- the map that a full query found is put in the cache
pub load-IsCoherent :
    (c : String) (m : ClientInventoryMap) {w : World} (v : World)
    → IsCoherent w
    → client_map c w.stock ≡ some m
    → v.stock ≡ w.stock
    → v.cache ≡ record {
      inventories = Dict.insert c m w.cache.inventories;
      fully_cached_clients = set_insert c w.cache.fully_cached_clients;
    }
    → IsCoherent v
unfolding get_stock_on_cache
load-IsCoherent c m {w} v h found s e = record {
  distinct = rw s h.distinct;
  agrees = λ c' k' i' q' hit. rw s (
      ground (
        arith,
        h.agrees c' k' i' q',
        rw (e, lookup-insert) at hit,
        found,
        quantity_in-client_map c k' i' w.stock h.distinct,
        eq_iff c c',
      ));
  complete = λ c' k' i' full.
      rw (s, e, lookup-insert)
        (ground (
          arith,
          h.complete c' k' i',
          rw (e, contains-set_insert) at full,
          found,
          quantity_in-client_map c k' i' w.stock h.distinct,
          eq_iff c c',
        ));
}
