-- ===== src/Invariant.antt =====
-- An invariant of the tables and of the inventory's cache, as an interface: what the statements, the
-- logger and the inventory have to keep, for a property that every other operation of the server
-- then keeps too.
use client_server_architectu.Inventory
use client_server_architectu.Logger.{LogLevel, log, log_for}
use client_server_architectu.Platform.{Platform}
use client_server_architectu.Prelude.Dict.{Dict}
use client_server_architectu.Prelude.Int.{ℤ}
use client_server_architectu.Prelude.{Bool, List, Option, String, false, if◌then◌else◌, none, true}
use client_server_architectu.Storage.{
  count_statement, create_user, get_inventory_history_transaction, get_user_login_data,
  is_client_locked, set_client_lock_status, update_login_attempts, user_exists,
}
use client_server_architectu.World.Keeps.{Keeps, keeps_rules}
use client_server_architectu.World.{
  Cache, LogRow, Result, StockRow, User, World, err, ok, std_exception,
}

-- A property of the tables `users`, `inventory` and `logs`, and of the cache.
abbrev pub Property : Type 1
Property = Dict User → List StockRow → List LogRow → Cache → Type 0

abbrev pub Holds : Property → World → Type 0
Holds P w = P w.users w.stock w.journal.logs w.cache

pub record IsInvariant ⦃p : Platform⦄ (P : Property) : Type 0 where
  pub log_for :
      (client : Option String) (level : LogLevel) (component message : String)
      → Keeps (Holds P) (log_for client level component message)
  pub create_user : (user password : String) → Keeps (Holds P) (create_user user password)
  pub update_login_attempts :
      (user : String) (success : Bool) (time : ℤ)
      → Keeps (Holds P) (update_login_attempts user success time)
  pub set_client_lock_status :
      (user : String) (locked : Bool) → Keeps (Holds P) (set_client_lock_status user locked)
  pub update_stock : (c k i : String) (q : ℤ) → Keeps (Holds P) (Inventory.update_stock c k i q)
  pub get_stock : (c k i : String) → Keeps (Holds P) (Inventory.get_stock c k i)
  pub get_inventory_summary : (c : String) → Keeps (Holds P) (Inventory.get_inventory_summary c)

module _ ⦃p : Platform⦄ (P : Property) where
  -- A statement that reads.
  read :
      {A : Type 0} (b : Bool) (a : A) (w : World)
      → Holds P w
      → Holds P
          (if◌then◌else◌ {A = Result A × World} b
            (err std_exception, count_statement w)
            (ok a, count_statement w)).1
  read true a w h = h
  read false a w h = h

  pub user_exists-Keeps : (user : String) → Keeps (Holds P) (user_exists user)
  unfolding user_exists
  user_exists-Keeps user = record { at = λ w h. read (p.db_fault w.journal.statements) _ w h }

  pub get_user_login_data-Keeps : (user : String) → Keeps (Holds P) (get_user_login_data user)
  unfolding get_user_login_data
  get_user_login_data-Keeps user = record {
    at = λ w h. read (p.db_fault w.journal.statements) _ w h;
  }

  pub get_inventory_history_transaction-Keeps :
      (c : String) → Keeps (Holds P) (get_inventory_history_transaction c)
  unfolding get_inventory_history_transaction
  get_inventory_history_transaction-Keeps c = record {
    at = λ w h. read (p.db_fault w.journal.statements) _ w h;
  }

  pub is_client_locked-Keeps : (user : String) → Keeps (Holds P) (is_client_locked user)
  unfolding is_client_locked
  is_client_locked-Keeps user = record { at = λ w h. read (p.db_fault w.journal.statements) _ w h }

module _ ⦃p : Platform⦄ (P : Property) (inv : IsInvariant P) where
  pub log_for-Keeps :
      (client : Option String) (level : LogLevel) (component message : String)
      → Keeps (Holds P) (log_for client level component message)
  log_for-Keeps = inv.log_for

  pub log-Keeps :
      (level : LogLevel) (component message : String)
      → Keeps (Holds P) (log level component message)
  log-Keeps = inv.log_for none

  pub create_user-Keeps : (user password : String) → Keeps (Holds P) (create_user user password)
  create_user-Keeps = inv.create_user

  pub update_login_attempts-Keeps :
      (user : String) (success : Bool) (time : ℤ)
      → Keeps (Holds P) (update_login_attempts user success time)
  update_login_attempts-Keeps = inv.update_login_attempts

  pub set_client_lock_status-Keeps :
      (user : String) (locked : Bool) → Keeps (Holds P) (set_client_lock_status user locked)
  set_client_lock_status-Keeps = inv.set_client_lock_status

  pub update_stock-Keeps :
      (c k i : String) (q : ℤ) → Keeps (Holds P) (Inventory.update_stock c k i q)
  update_stock-Keeps = inv.update_stock

  pub get_stock-Keeps : (c k i : String) → Keeps (Holds P) (Inventory.get_stock c k i)
  get_stock-Keeps = inv.get_stock

  pub get_inventory_summary-Keeps :
      (c : String) → Keeps (Holds P) (Inventory.get_inventory_summary c)
  get_inventory_summary-Keeps = inv.get_inventory_summary

pub ruleset invariant_rules = (
  keeps_rules, user_exists-Keeps, get_user_login_data-Keeps,
  get_inventory_history_transaction-Keeps, is_client_locked-Keeps, log_for-Keeps, log-Keeps,
  create_user-Keeps, update_login_attempts-Keeps, set_client_lock_status-Keeps, update_stock-Keeps,
  get_stock-Keeps, get_inventory_summary-Keeps,
)
