-- ===== src/Tests/Examples.antt =====
-- The theorems on logins, the inventory, the queues and the logger at the small state.
use client_server_architectu.Inventory
use client_server_architectu.Inventory.Reads.{
  get_stock-eq-find_stock, get_stock-update_stock, get_inventory_summary-quantities,
}
use client_server_architectu.Authenticator.Year2038.{lockout_lost, lockout_exact}
use client_server_architectu.Storage.{find_stock, quantity_in}
use client_server_architectu.Authenticator.Safety.{authenticate-eq-success}
use client_server_architectu.Tests.{empty_journal, reliable, test_world, ship, test_platform}
use client_server_architectu.Inventory.{get_stock_on_cache, get_inventory_summary, update_stock}
use client_server_architectu.Authenticator.Verdict.{authenticate-verdict, IsRow}
use client_server_architectu.Prelude.Int.{pos, ℤ}
use client_server_architectu.Authenticator.{success, failed_account_locked, authenticate}
use client_server_architectu.Platform.{Platform}
use client_server_architectu.Inventory.Coherent.{IsCoherent}
use client_server_architectu.World.{Journal, Config, ok, World, User, ClientInventoryMap}
use client_server_architectu.Prelude.{contains, ◌≢◌, ◌≡◌, ◌∷◌, true, some, arith, [], Option, refl}
use client_server_architectu.Prelude.Dict
use client_server_architectu.Storage

test_world-IsRow : IsRow "Ship1" ship test_world
unfolding Dict.lookup
test_world-IsRow = record { distinct = (refl, tt); found = refl; checked = omega arith }

authenticate-verdict_example :
    (authenticate "Ship1" "wrong" (pos 900) test_world).0 ≡ ok failed_account_locked
authenticate-verdict_example =
    (authenticate-verdict reliable "Ship1" "wrong" (pos 900) ship test_world test_world-IsRow).0

-- the row after the third failure at the given time
abbrev failed_at : ℤ → User
failed_at t = record ship { failed_attempts = 3; last_failed_timestamp = t }

abbrev failed_world : ℤ → World
failed_world t = record test_world { users = ("Ship1", failed_at t) ∷ [] }

lockout_exact_example :
    (authenticate "Ship1" "pw" (pos 900) (failed_world (pos 900))).0 ≡ ok failed_account_locked
unfolding Dict.lookup
lockout_exact_example =
    (lockout_exact reliable "Ship1" "pw" (failed_at (pos 900)) (failed_world (pos 900)) 900 1000 900
      (record { distinct = (refl, tt); found = refl; checked = omega arith }) (λ e. omega arith)
      refl refl (omega arith) refl).0

-- a clock after January 2038
abbrev late_platform : Platform
late_platform = record test_platform { clock = λ n. pos 2147483648 }

lockout_lost_example :
    (authenticate ⦃p = late_platform⦄ "Ship1" "pw" (pos 900) (failed_world (pos 2147483648))).0
    ≡ ok success
unfolding Dict.lookup
lockout_lost_example =
    lockout_lost ⦃p = late_platform⦄ (record { no_fault = λ n. refl }) "Ship1" "pw"
      (failed_at (pos 2147483648)) (failed_world (pos 2147483648)) 2147483648 900
      (record { distinct = (refl, tt); found = refl; checked = omega arith }) (λ e. omega arith)
      refl refl (omega arith) (omega arith) (omega arith) refl refl

authenticate-eq-success_example :
    (u : User) × (Dict.lookup "Ship1" test_world.users ≡ some u)
    × (u.is_locked ≢ 1)
    × (test_platform.validate_password "pw" u.password_hash ≡ true)
authenticate-eq-success_example =
    authenticate-eq-success "Ship1" "pw" (pos 900) test_world
      (authenticate-verdict reliable "Ship1" "pw" (pos 900) ship test_world test_world-IsRow).0

-- the empty cache agrees with every table of distinct keys
pub test_world-IsCoherent : IsCoherent test_world
unfolding find_stock get_stock_on_cache Dict.lookup contains
test_world-IsCoherent = record {
  distinct = (refl, tt);
  agrees = λ c k i q e. cc;
  complete = λ c k i e. cc;
}

get_stock-update_stock_example :
    (Inventory.get_stock "Ship1" "food" "water"
      (update_stock "Ship1" "food" "water" (pos 3) test_world).1).0
    ≡ ok (some (pos 3))
unfolding update_stock Inventory.validate_inventory Dict.lookup contains Inventory.update_valid
    Storage.save_stock_update
get_stock-update_stock_example =
    get_stock-update_stock "Ship1" "food" "water" (pos 3) test_world refl

get_stock-eq-find_stock_example :
    (Inventory.get_stock "Ship1" "food" "water" test_world).0
    ≡ ok (find_stock "Ship1" "food" "water" test_world.stock)
get_stock-eq-find_stock_example =
    get_stock-eq-find_stock reliable "Ship1" "food" "water" test_world test_world-IsCoherent

get_inventory_summary-quantities_example :
    (m : Option ClientInventoryMap) × ((get_inventory_summary "Ship1" test_world).0 ≡ ok m)
    × (quantity_in "food" "water" m ≡ find_stock "Ship1" "food" "water" test_world.stock)
get_inventory_summary-quantities_example =
    get_inventory_summary-quantities reliable "Ship1" "food" "water" test_world
      test_world-IsCoherent

-- a log file of one line that is to be rotated
abbrev full_journal : Journal
full_journal = record empty_journal {
  file = record {
    enabled = true;
    is_open = true;
    is_good = true;
    content = some ("first\n" ∷ []);
    rotated = [];
    errors = [];
  };
}

abbrev small_config : Config
small_config = record test_world.config { max_log_size = pos 0 }
