-- ===== src/Storage/Schema/Statements.antt =====
-- Every statement keeps what the schema promises of the tables.
use client_server_architectu.Platform.{Platform}
use client_server_architectu.Prelude.Dict
use client_server_architectu.Prelude.Dict.{
  Dict, NodupKeys, insert-NodupKeys, update-NodupKeys, lookup-insert, lookup-update, is_some,
}
use client_server_architectu.Prelude.Int.{ℤ}
use client_server_architectu.Prelude.{
  ◌||◌, ◌==◌, true, false, not, arith, inl, inr, Bool-cases, String, Bool, if◌then◌else◌,
}
use client_server_architectu.Storage.{
  is_registered, new_user, reset_attempts, add_attempt, set_locked, check_attempts,
  save_stock_update, create_user, update_login_attempts, set_client_lock_status,
}
use client_server_architectu.Storage.Stock.{upsert-NodupStock}
use client_server_architectu.World.Keeps.{Keeps}
use client_server_architectu.World.{World}
use client_server_architectu.Storage.Schema.{
  IsSchema, upsert-IsStockRow, insert-IsUser, insert-Grows, update-IsUser, add_attempt-IsUser,
  with_users, updated,
}
use client_server_architectu.Storage.{
  count_statement, get_stock, get_full_inventory, user_exists, get_user_login_data,
  get_inventory_history_transaction, is_client_locked,
}
use client_server_architectu.World.{Result, err, ok, std_exception}

module _ ⦃p : Platform⦄ where
  pub save_stock_update-Keeps :
      (c k i : String) (q : ℤ) → Keeps IsSchema (save_stock_update c k i q)
  unfolding save_stock_update
  save_stock_update-Keeps c k i q = record {
    at = λ w h. elim (Bool-cases (p.db_fault w.journal.statements)) [
      | inl e ↦ rw e h
      | inr e ↦
          rw e
            (elim (Bool-cases
              ((c == "") || (k == "") || (i == "") || not (is_registered c w.users))) [
                | inl f ↦ rw f h
                | inr f ↦ rw f (record {
                  distinct_users = h.distinct_users;
                  checked_users = h.checked_users;
                  distinct_stock = upsert-NodupStock c k i q w.stock h.distinct_stock;
                  checked_stock =
                      upsert-IsStockRow w.users c k i q w.stock (ground arith) h.checked_stock;
                  checked_logs = h.checked_logs;
                })
              ])
    ];
  }

  pub create_user-Keeps : (user password : String) → Keeps IsSchema (create_user user password)
  unfolding create_user
  create_user-Keeps user password = record {
    at = λ w h. elim (Bool-cases (p.db_fault w.journal.statements)) [
      | inl e ↦ rw e h
      | inr e ↦ rw e (elim (Bool-cases ((user == "") || is_registered user w.users)) [
        | inl f ↦ rw f h
        | inr f ↦
            let u = new_user (p.generate_hash w.journal.statements password) in
            rw f (
              with_users w.users (Dict.insert user u w.users) w.stock w.journal.logs
                (insert-Grows user u w.users) (insert-NodupKeys user u w.users h.distinct_users)
                (insert-IsUser user u w.users (ground arith) h.checked_users) h)
      ])
    ];
  }

  pub update_login_attempts-Keeps :
      (user : String) (ok' : Bool) (time : ℤ) → Keeps IsSchema (update_login_attempts user ok' time)
  unfolding update_login_attempts
  update_login_attempts-Keeps user true time = record {
    at = λ w h. elim (Bool-cases (p.db_fault w.journal.statements)) [
      | inl e ↦ rw e h
      | inr e ↦ rw e (
          updated user reset_attempts w.users w.stock w.journal.logs
            (update-IsUser user reset_attempts w.users (λ u b. omega arith) h.checked_users) h)
    ];
  }
  update_login_attempts-Keeps user false time = record {
    at = λ w h. elim (Bool-cases (p.db_fault w.journal.statements)) [
      | inl e ↦ rw e h
      | inr e ↦ rw e (elim (Bool-cases (check_attempts user w.users)) [
        | inl f ↦ rw f (
            updated user (add_attempt time) w.users w.stock w.journal.logs
              (add_attempt-IsUser user time w.users f h.checked_users) h)
        | inr f ↦ rw f h
      ])
    ];
  }

  pub set_client_lock_status-Keeps :
      (user : String) (locked : Bool) → Keeps IsSchema (set_client_lock_status user locked)
  unfolding set_client_lock_status
  set_client_lock_status-Keeps user locked = record {
    at = λ w h. elim (Bool-cases (p.db_fault w.journal.statements)) [
      | inl e ↦ rw e h
      | inr e ↦
          let flag = set_locked (if locked then 1 else 0) in
          rw e (
            updated user flag w.users w.stock w.journal.logs
              (update-IsUser user flag w.users (λ u b. b) h.checked_users) h)
    ];
  }

  -- A statement that reads.
  read :
      {A : Type 0} (b : Bool) (a : A) (w : World)
      → IsSchema w
      → IsSchema
          (if◌then◌else◌ {A = Result A × World} b
            (err std_exception, count_statement w)
            (ok a, count_statement w)).1
  read true a w h = h
  read false a w h = h

  pub get_stock-Keeps : (c k i : String) → Keeps IsSchema (get_stock c k i)
  unfolding get_stock
  get_stock-Keeps c k i = record { at = λ w h. read (p.db_fault w.journal.statements) _ w h }

  pub get_full_inventory-Keeps : (c : String) → Keeps IsSchema (get_full_inventory c)
  unfolding get_full_inventory
  get_full_inventory-Keeps c = record { at = λ w h. read (p.db_fault w.journal.statements) _ w h }

  pub user_exists-Keeps : (user : String) → Keeps IsSchema (user_exists user)
  unfolding user_exists
  user_exists-Keeps user = record { at = λ w h. read (p.db_fault w.journal.statements) _ w h }

  pub get_user_login_data-Keeps : (user : String) → Keeps IsSchema (get_user_login_data user)
  unfolding get_user_login_data
  get_user_login_data-Keeps user = record {
    at = λ w h. read (p.db_fault w.journal.statements) _ w h;
  }

  pub get_inventory_history_transaction-Keeps :
      (c : String) → Keeps IsSchema (get_inventory_history_transaction c)
  unfolding get_inventory_history_transaction
  get_inventory_history_transaction-Keeps c = record {
    at = λ w h. read (p.db_fault w.journal.statements) _ w h;
  }

  pub is_client_locked-Keeps : (user : String) → Keeps IsSchema (is_client_locked user)
  unfolding is_client_locked
  is_client_locked-Keeps user = record { at = λ w h. read (p.db_fault w.journal.statements) _ w h }

pub ruleset statement_rules = (
  save_stock_update-Keeps, create_user-Keeps, update_login_attempts-Keeps,
  set_client_lock_status-Keeps, get_stock-Keeps, get_full_inventory-Keeps, user_exists-Keeps,
  get_user_login_data-Keeps, get_inventory_history_transaction-Keeps, is_client_locked-Keeps,
)
