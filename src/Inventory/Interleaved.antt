-- ===== src/Inventory/Interleaved.antt =====
-- src/server/inventory.cpp with several threads: `updateStock` writes the table and then, in another
-- critical section, the cache, and `getStock` reads the cache, the table, and then writes the cache.
-- What a call has still to write to the cache is pending. `getInventorySummary` reads the table with
-- the cache's mutex held, so it is one step.
pub mod Settling
pub mod Apart
pub mod Overlap
use client_server_architectu.Inventory.{
  cache_put, get_inventory_summary, get_stock_on_cache, validate_inventory,
}
use client_server_architectu.Logger.{info, log_for}
use client_server_architectu.Platform.{Platform}
use client_server_architectu.Prelude.Int.{ltb_ℤ, pos, to_string, ℤ}
use client_server_architectu.Prelude.{
  ◌&&◌, ◌++◌ as ◌+++◌, ◌==◌, ◌||◌, ◌∷◌, ◌≡◌, Bool, List, String, [], false, none, some, true,
}
use client_server_architectu.Storage
use client_server_architectu.Storage.{save_stock_update}
use client_server_architectu.World.{Exec, World, ok, ◌>>=◌, ◌>>◌}
use Prim.Native.String.{◌++◌}

-- `m_inventories[client][category][item] = quantity`, not done yet
pub record Write : Type 0 where
  pub client : String
  pub category : String
  pub item : String
  pub quantity : ℤ

pub record Shared : Type 0 where
  pub world : World
  pub pending : List Write

abbrev pub is_same_item : String → String → String → Write → Bool
is_same_item c k i x = (x.client == c) && ((x.category == k) && (x.item == i))

-- a write of the item is pending
unfoldable pub is_pending : String → String → String → List Write → Bool
is_pending c k i [] = false
is_pending c k i (x ∷ xs) = is_same_item c k i x || is_pending c k i xs

abbrev pub perform_write : Write → World → World
perform_write x w = cache_put x.client x.category x.item x.quantity w

module _ ⦃p : Platform⦄ where
  -- the part of `updateStock` before the lock
  unfoldable pub store : String → String → String → ℤ → Exec (Unit {0})
  store c k i q = do
    save_stock_update c k i q
    log_for (some c) info "Inventory" (
        "Stock succesfully updated for "
        ++ k
        ++ ":"
        ++ i
        ++ " to "
        ++ to_string q
        ++ " for client "
        ++ c)

  pub data Step (s : Shared) : Shared → Type 0 where
    stores :
        (c k i : String) (q : ℤ)
        → ltb_ℤ q (pos 0) ≡ false
        → (validate_inventory k i).success ≡ true
        → (store c k i q s.world).0 ≡ ok tt
        → Step s (record {
          world = (store c k i q s.world).1;
          pending = record { client = c; category = k; item = i; quantity = q } ∷ s.pending;
        })
    -- The lookup that found nothing in the cache was a critical section of its own; other threads may
    -- have filled the cache since, so nothing is asked of it here.
    reads :
        (c k i : String) (q : ℤ)
        → (Storage.get_stock c k i s.world).0 ≡ ok (some q)
        → Step s (record {
          world = (Storage.get_stock c k i s.world).1;
          pending = record { client = c; category = k; item = i; quantity = q } ∷ s.pending;
        })
    writes :
        (before after : List Write) (x : Write)
        → s.pending ≡ before +++ x ∷ after
        → Step s (record { world = perform_write x s.world; pending = before +++ after })
    summarises : (c : String) → Step s (record s { world = (get_inventory_summary c s.world).1 })
    -- a call that writes neither, and what other components do
    passes :
        (w : World)
        → w.stock ≡ s.world.stock
        → w.cache ≡ s.world.cache
        → Step s (record s { world = w })

  -- A call that is to write an item of the cache begins when no other one is about to.
  abbrev pub IsApart : {s t : Shared} → Step s t → Type 0
  IsApart {s} (stores c k i q a b d) = is_pending c k i s.pending ≡ false
  IsApart {s} (reads c k i q a) = is_pending c k i s.pending ≡ false
  IsApart _ = Unit

  pub data Threads (s : Shared) : Shared → Type 0 where
    stops : Threads s s
    goes_on : {t u : Shared} → Threads s t → Step t u → Threads s u

  -- every step of the run is apart
  abbrev pub IsApartThreads : {s t : Shared} → Threads s t → Type 0
  IsApartThreads stops = Unit
  IsApartThreads (goes_on run step) = IsApartThreads run × IsApart step

abbrev pub idle : World → Shared
idle w = record { world = w; pending = [] }
