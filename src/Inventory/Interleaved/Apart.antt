-- ===== src/Inventory/Interleaved/Apart.antt =====
-- Calls of several threads that write different items of the cache.
use client_server_architectu.Inventory.Coherent.{IsCoherent}
use client_server_architectu.Inventory.Calls.{save_stock_update-cases}
use client_server_architectu.Inventory.Interleaved.Settling.{
  IsSettling, store-IsSettling, read-IsSettling, keep-IsSettling, load-IsSettling, write-IsSettling,
}
use client_server_architectu.Inventory.Interleaved.{
  Shared, store, Step, IsApart, Threads, IsApartThreads, idle, is_pending, stores, reads, writes,
  summarises, passes, stops, goes_on,
}
use client_server_architectu.Inventory.{
  cache_put, update_valid, get_inventory_summary, load_summary, remember_all,
}
use client_server_architectu.Platform.{Platform}
use client_server_architectu.Prelude.Dict
use client_server_architectu.Prelude.Int.{ℤ}
use client_server_architectu.Prelude.{
  contains, set_insert, ◌≡◌, ◌⊎◌, some, refl, arith, [], String, Bool-cases, Option-cases, inl, inr,
}
use client_server_architectu.Storage
use client_server_architectu.Storage.{find_stock, upsert, client_map}
use client_server_architectu.World.{World, ClientInventoryMap, ok}

module _ ⦃p : Platform⦄ where
  -- `updateStock`, run whole, is the store and then the write of the cache.
  update_valid-store :
      (c k i : String) (q : ℤ) (w : World)
      → (store c k i q w).0 ≡ ok tt
      → (update_valid c k i q w).1 ≡ cache_put c k i q (store c k i q w).1
  unfolding store update_valid
  update_valid-store c k i q w e = elim (save_stock_update-cases c k i q w) [
    | inl f ↦ cc (rw f at e)
    | inr f ↦ rw f refl
  ]

  -- the parts of an update and of a query that read or write the table
  pub store-ok :
      (c k i : String) (q : ℤ) (w : World)
      → (store c k i q w).0 ≡ ok tt
      → ((store c k i q w).1.stock ≡ upsert c k i q w.stock) × ((store c k i q w).1.cache ≡ w.cache)
  unfolding store
  store-ok c k i q w e = elim (save_stock_update-cases c k i q w) [
    | inl f ↦ cc (rw f at e)
    | inr f ↦ rw f (refl, refl)
  ]

  read-ok :
      (c k i : String) (q : ℤ) (w : World)
      → (Storage.get_stock c k i w).0 ≡ ok (some q)
      → (find_stock c k i w.stock ≡ some q)
        × ((Storage.get_stock c k i w).1.stock ≡ w.stock)
        × ((Storage.get_stock c k i w).1.cache ≡ w.cache)
  unfolding Storage.get_stock
  read-ok c k i q w e = ground arith

  -- A summary loads the client's rows, or changes nothing.
  abbrev Summary : String → World → World → Type 0
  Summary c w v =
      ((v.stock ≡ w.stock) × (v.cache ≡ w.cache))
      ⊎ ((m : ClientInventoryMap) × (client_map c w.stock ≡ some m)
          × (v.stock ≡ w.stock)
          × (v.cache ≡ record {
            inventories = Dict.insert c m w.cache.inventories;
            fully_cached_clients = set_insert c w.cache.fully_cached_clients;
          }))

  load_summary-Summary : (c : String) (w : World) → Summary c w (load_summary c w).1
  unfolding load_summary remember_all Storage.get_full_inventory
  load_summary-Summary c w = elim (Bool-cases (p.db_fault w.journal.statements)) [
    | inl f ↦ rw f (inl (refl, refl))
    | inr f ↦ rw f (elim (Option-cases (client_map c w.stock)) [
      | inl g ↦ rw g (inl (refl, refl))
      | inr (m, g) ↦ rw g (inr (m, refl, refl, refl))
    ])
  ]

  Summary-cases : (c : String) (w : World) → Summary c w (get_inventory_summary c w).1
  unfolding get_inventory_summary
  Summary-cases c w = elim (Bool-cases (contains w.cache.fully_cached_clients c)) [
    | inl e ↦ rw e (inl (refl, refl))
    | inr e ↦ rw e (load_summary-Summary c _)
  ]

  Step-IsSettling : {s t : Shared} (step : Step s t) → IsApart step → IsSettling s → IsSettling t
  Step-IsSettling {s} (stores c k i q a b e) alone h =
      let (f, g) = store-ok c k i q s.world e in store-IsSettling c k i q s h alone _ f g
  Step-IsSettling {s} (reads c k i q e) alone h =
      let (f, g, g') = read-ok c k i q s.world e in read-IsSettling c k i q s h alone _ f g g'
  Step-IsSettling {s} (writes before after x e) alone h = write-IsSettling before after x s e h
  Step-IsSettling {s} (summarises c) alone h = elim (Summary-cases c s.world) [
    | inl (a, b) ↦ keep-IsSettling s _ h a b
    | inr (m, f, a, b) ↦ load-IsSettling c m s _ h f a b
  ]
  Step-IsSettling {s} (passes w a b) alone h = keep-IsSettling s w h a b

  Threads-IsSettling :
      {s t : Shared} (run : Threads s t) → IsApartThreads run → IsSettling s → IsSettling t
  Threads-IsSettling stops apart h = h
  Threads-IsSettling (goes_on run step) (apart, alone) h =
      Step-IsSettling step alone (Threads-IsSettling run apart h)

  -- Calls of any number of threads, interleaved in any order: if no call that is to write an item of
  -- the cache begins while another one is about to write the same item, then a cache that was
  -- coherent before is coherent whenever no write is pending.
  pub Threads-IsCoherent :
      {w : World} {t : Shared} (run : Threads (idle w) t)
      → IsApartThreads run
      → IsCoherent w
      → t.pending ≡ []
      → IsCoherent t.world
  unfolding is_pending
  Threads-IsCoherent {w} {t} run apart h e =
      let settled = Threads-IsSettling run apart (record {
        distinct = h.distinct;
        current = tt;
        agrees = λ c k i q free. h.agrees c k i q;
        complete = λ c k i free. h.complete c k i;
      }) in
      record {
        distinct = settled.distinct;
        agrees = λ c k i q. settled.agrees c k i q (rw e refl);
        complete = λ c k i. settled.complete c k i (rw e refl);
      }
