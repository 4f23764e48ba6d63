-- ===== src/Storage.antt =====
-- src/server/storage.cpp once its tables are there: each method runs one SQL statement on the tables,
-- with the schema's keys and checks. A statement that breaks one, or that the platform lets fail,
-- throws and changes no table. Foreign keys are on. A lock of `m_dbMutex` makes each method atomic.
mod Rows
pub mod Laws
pub mod Stock
pub mod Schema
pub mod Setup
unfoldable pub use Rows.{
  find_stock, upsert, client_map, history_rows, or_empty, put_item, quantity_in, item_in,
}
use client_server_architectu.Prelude.{
  ℕ, suc, ◌+◌, String, Bool, true, false, not, ◌&&◌, ◌||◌, Option, none, some, List, [], ◌∷◌, ◌++◌,
  map, ◌==◌, leb, eqb, is_empty, if◌then◌else◌,
}
use client_server_architectu.Prelude.Dict
use client_server_architectu.Prelude.Dict.{Dict, is_some}
use client_server_architectu.Prelude.Int.{ℤ, pos, to_int32}
use mathlib.Core.Option
use client_server_architectu.Platform.{Platform}
use client_server_architectu.World.{
  World, Journal, User, StockRow, LogRow, ClientInventoryMap, Result, ok, err, std_exception, Exec,
}

-- what `getUserLoginData` returns
pub record UserAuthData : Type 0 where
  pub password_hash : String
  pub failed_attempts : ℕ
  pub last_failed_timestamp : ℤ
  pub is_locked : Bool

abbrev pub count_statement : World → World
count_statement w = record w {
  journal = record w.journal { statements = suc w.journal.statements };
}

-- the timestamp is read as an `int`
abbrev pub auth_data : User → UserAuthData
auth_data u = record {
  password_hash = u.password_hash;
  failed_attempts = u.failed_attempts;
  last_failed_timestamp = to_int32 u.last_failed_timestamp;
  is_locked = eqb u.is_locked 1;
}

abbrev pub is_registered : String → Dict User → Bool
is_registered hostname users = is_some (Dict.lookup hostname users)

abbrev pub is_null_or_registered : Option String → Dict User → Bool
is_null_or_registered none users = true
is_null_or_registered (some client) users = is_registered client users

-- the row of INSERT INTO users, with the defaults of the table
abbrev pub new_user : String → User
new_user hash = record {
  password_hash = hash;
  failed_attempts = 0;
  last_failed_timestamp = pos 0;
  is_locked = 0;
}

abbrev pub reset_attempts : User → User
reset_attempts u = record u { failed_attempts = 0 }

abbrev pub add_attempt : ℤ → User → User
add_attempt timestamp u = record u {
  failed_attempts = u.failed_attempts + 1;
  last_failed_timestamp = timestamp;
}

abbrev pub set_locked : ℕ → User → User
set_locked flag u = record u { is_locked = flag }

abbrev pub row_locked : Option User → Bool
row_locked none = false
row_locked (some u) = eqb u.is_locked 1

-- CHECK(failed_attempts <= 3) on the rows that the statement would write
unfoldable pub check_attempts : String → Dict User → Bool
check_attempts k [] = true
check_attempts k ((j, u) ∷ m) =
    (if j == k then leb (u.failed_attempts + 1) 3 else true) && check_attempts k m

module _ ⦃p : Platform⦄ where
  -- One SQL statement: it throws where the platform says so, and otherwise runs.
  unfoldable pub statement : {A : Type 0} → Exec A → Exec A
  statement body w =
      if p.db_fault w.journal.statements
      then (err std_exception, count_statement w)
      else body (count_statement w)

  -- `saveStockUpdate`: the checks of the table and the foreign key, then the upsert
  unfoldable pub save_stock_update : String → String → String → ℤ → Exec (Unit {0})
  unfolding statement
  save_stock_update client category item quantity = statement λ w.
      if (client == "") || (category == "") || (item == "") || not (is_registered client w.users)
      then (err std_exception, w)
      else (ok tt, record w { stock = upsert client category item quantity w.stock })

  unfoldable pub get_stock : String → String → String → Exec (Option ℤ)
  unfolding statement
  get_stock client category item = statement λ w. (ok (find_stock client category item w.stock), w)

  unfoldable pub get_full_inventory : String → Exec (Option ClientInventoryMap)
  unfolding statement
  get_full_inventory client = statement λ w. (ok (client_map client w.stock), w)

  -- `createUser`: the hostname is the primary key, and not empty
  unfoldable pub create_user : String → String → Exec Bool
  unfolding statement
  create_user hostname password w =
      statement
        (λ v.
          if (hostname == "") || is_registered hostname v.users then (err std_exception, v) else (
            ok true,
            record v {
              users =
                  Dict.insert hostname (new_user (p.generate_hash w.journal.statements password))
                    v.users;
            },
          ))
        w

  unfoldable pub user_exists : String → Exec Bool
  unfolding statement
  user_exists hostname = statement λ w. (ok (eqb (Dict.count hostname w.users) 1), w)

  unfoldable pub get_user_login_data : String → Exec (Option UserAuthData)
  unfolding statement
  get_user_login_data hostname =
      statement λ w. (ok (Option.map auth_data (Dict.lookup hostname w.users)), w)

  unfoldable pub update_login_attempts : String → Bool → ℤ → Exec (Unit {0})
  unfolding statement check_attempts
  update_login_attempts hostname login_success timestamp = statement λ w.
      if login_success
      then (ok tt, record w { users = Dict.update hostname reset_attempts w.users })
      else if check_attempts hostname w.users
      then (ok tt, record w { users = Dict.update hostname (add_attempt timestamp) w.users })
      else (err std_exception, w)

  unfoldable pub get_inventory_history_transaction : String → Exec (List LogRow)
  unfolding statement
  get_inventory_history_transaction client =
      statement λ w. (ok (history_rows client w.journal.logs), w)

  -- `setClientLockStatus`: whether exactly one row was written
  unfoldable pub set_client_lock_status : String → Bool → Exec Bool
  unfolding statement
  set_client_lock_status hostname locked = statement λ w. (
    ok (eqb (Dict.count hostname w.users) 1),
    record w { users = Dict.update hostname (set_locked (if locked then 1 else 0)) w.users },
  )

  unfoldable pub is_client_locked : String → Exec Bool
  unfolding statement
  is_client_locked hostname = statement λ w. (ok (row_locked (Dict.lookup hostname w.users)), w)

  -- `saveLogEntry`, as the logger calls it: on the journal, beside the table `users` of the foreign
  -- key. It tells whether the row was written; if not, it threw.
  unfoldable pub save_log_entry : Dict User → LogRow → Journal → Bool × Journal
  save_log_entry users row j =
      let counted = record j { statements = suc j.statements } in
      if p.db_fault j.statements || not (is_null_or_registered row.client_id users)
      then (false, counted)
      else (true, record counted { logs = j.logs ++ row ∷ [] })
