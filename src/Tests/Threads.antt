-- ===== src/Tests/Threads.antt =====
-- The theorems on calls of several threads.
use client_server_architectu.SessionManager.LockRace.{LockSteps, is_client_locked-stale, settled}
use client_server_architectu.SessionManager.{is_client_locked}
use client_server_architectu.Storage.{row_locked}
use client_server_architectu.Prelude.Dict
use client_server_architectu.Inventory.Coherent.{IsCoherent}
use client_server_architectu.Inventory.Interleaved.Apart.{Threads-IsCoherent}
use client_server_architectu.Inventory.Interleaved.Overlap.{get_stock-stale}
use client_server_architectu.Inventory.Interleaved.{
  Threads, Shared, goes_on, idle, perform_write, store, stores, stops, writes,
}
use client_server_architectu.Inventory.{get_stock}
use client_server_architectu.Prelude.Int.{pos}
use client_server_architectu.Prelude.{true, false, contains, [], ◌≡◌, ◌∷◌, refl, some}
use client_server_architectu.Storage.{find_stock}
use client_server_architectu.Tests.Examples.{test_world-IsCoherent}
use client_server_architectu.Tests.{reliable, test_platform, test_world}
use client_server_architectu.World.{World, ok}

-- Two items are stored, and then both are cached, the last one first.
abbrev watered : World
watered = (store "Ship1" "food" "water" (pos 5) test_world).1

abbrev stocked : World
stocked = (store "Ship1" "food" "bread" (pos 6) watered).1

abbrev bread_cached : Shared
bread_cached = record {
  world =
      perform_write
        (record { client = "Ship1"; category = "food"; item = "bread"; quantity = pos 6 }) stocked;
  pending = record { client = "Ship1"; category = "food"; item = "water"; quantity = pos 5 } ∷ [];
}

abbrev all_cached : World
all_cached =
    perform_write (record { client = "Ship1"; category = "food"; item = "water"; quantity = pos 5 })
      bread_cached.world

Threads-IsCoherent_example : IsCoherent all_cached
unfolding client_server_architectu.Inventory.validate_inventory Dict.lookup contains store
    client_server_architectu.Storage.save_stock_update
    client_server_architectu.Inventory.Interleaved.is_pending
Threads-IsCoherent_example =
    Threads-IsCoherent {w = test_world} {t = idle all_cached}
      (goes_on
        (goes_on
          (goes_on (goes_on stops (stores "Ship1" "food" "water" (pos 5) refl refl refl))
            (stores "Ship1" "food" "bread" (pos 6) refl refl refl))
          (writes [] _ _ refl))
        (writes [] [] _ refl))
      ((((tt, refl), refl), tt), tt) test_world-IsCoherent refl

get_stock-stale_example :
    (t : World) × Threads (idle test_world) (idle t)
    × (find_stock "Ship1" "food" "water" t.stock ≡ some (pos 6))
    × ((get_stock "Ship1" "food" "water" t).0 ≡ ok (some (pos 5)))
unfolding client_server_architectu.Inventory.validate_inventory
    client_server_architectu.Prelude.Dict.lookup client_server_architectu.Prelude.contains store
    client_server_architectu.Storage.save_stock_update
get_stock-stale_example =
    get_stock-stale "Ship1" "food" "water" (pos 5) (pos 6) test_world refl refl refl refl refl

is_client_locked-stale_example :
    (t : World) × LockSteps (settled test_world) (settled t)
    × (row_locked (Dict.lookup "Ship1" t.users) ≡ false)
    × ((is_client_locked "Ship1" t).0 ≡ ok true)
unfolding Dict.lookup
is_client_locked-stale_example = is_client_locked-stale "Ship1" test_world reliable (refl, tt) refl
