-- ===== src/Storage/Setup.antt =====
-- src/server/storage.cpp: the constructor of `Storage` and `initializeSchema`. A table that is there
-- is left as it is; what the file system and the engine give is an argument or the platform's.
use client_server_architectu.Platform.{Platform}
use client_server_architectu.Prelude.Dict.{Dict}
use client_server_architectu.Prelude.{
  ◌+◌, ◌++◌, ◌≡◌, ◌∷◌, ℕ, Bool, List, Option, String, [], arith, false, if◌then◌else◌, none, refl,
  some, true,
}
use client_server_architectu.Storage.Schema.{IsTables}
use client_server_architectu.World.{LogRow, StockRow, User}

-- the tables of the database file, no value for one that has not been created
pub record Database : Type 0 where
  pub users : Option (Dict User)
  pub inventory : Option (List StockRow)
  pub logs : Option (List LogRow)

-- The constructor: whether the database opens, and what it prints. Neither a directory that cannot
-- be made nor a pragma that cannot be set keeps it from opening.
unfoldable pub open_database : (directory opens pragmas : Bool) → Bool × List String
open_database directory opens pragmas =
    let first =
      if directory
      then []
      else "Storage: failed to create DB directory or set permissions: " ∷ [] in
    (
      opens,
      if opens
          then first ++ (if pragmas then [] else "Warning: could not set PRAGMA options: " ∷ [])
          else first,
    )

-- CREATE TABLE IF NOT EXISTS
abbrev create_missing : {A : Type 0} → Option (List A) → Option (List A)
create_missing none = some []
create_missing (some rows) = some rows

module _ ⦃p : Platform⦄ where
  -- `initializeSchema`: the pragma and the three tables, each a statement that may throw; what was
  -- created before a throw stays.
  unfoldable pub initialize_schema : ℕ → Database → Bool × Database
  initialize_schema n d =
      let with_users = record d { users = create_missing d.users } in
      let with_inventory = record with_users { inventory = create_missing d.inventory } in
      if p.db_fault n
      then (false, d)
      else if p.db_fault (n + 1)
      then (false, d)
      else if p.db_fault (n + 2)
      then (false, with_users)
      else if p.db_fault (n + 3)
      then (false, with_inventory)
      else (true, record with_inventory { logs = create_missing d.logs })

abbrev pub rows : {A : Type 0} → Option (List A) → List A
rows none = []
rows (some xs) = xs

rows-create_missing : {A : Type 0} (o : Option (List A)) → rows (create_missing o) ≡ rows o
rows-create_missing none = refl
rows-create_missing (some xs) = refl

-- What the schema promises of the rows that are there.
abbrev pub IsDatabase : Database → Type 0
IsDatabase d = IsTables (rows d.users) (rows d.inventory) (rows d.logs)

initialize_schema-rows :
    ⦃p : Platform⦄ (n : ℕ) (d : Database)
    → let e = (initialize_schema n d).1 in
      (rows e.users ≡ rows d.users)
      × (rows e.inventory ≡ rows d.inventory)
      × (rows e.logs ≡ rows d.logs)
unfolding initialize_schema
initialize_schema-rows n d = ground (
  arith,
  rows-create_missing d.users,
  rows-create_missing d.inventory,
  rows-create_missing d.logs,
)

-- Whether it throws or not, the initialization keeps every row and what the schema promises; so it
-- can be run again.
pub initialize_schema-IsDatabase :
    ⦃p : Platform⦄ (n : ℕ) (d : Database) → IsDatabase d → IsDatabase (initialize_schema n d).1
initialize_schema-IsDatabase n d h = let (a, b, c) = initialize_schema-rows n d in rw (a, b, c) h

-- When it returns, the three tables are there, with the rows of before.
initialize_schema-true :
    ⦃p : Platform⦄ (n : ℕ) (d e : Database)
    → initialize_schema n d ≡ (true, e)
    → (e.users ≡ some (rows d.users))
      × (e.inventory ≡ some (rows d.inventory))
      × (e.logs ≡ some (rows d.logs))
unfolding initialize_schema
initialize_schema-true ⦃p⦄ n d e h = ground arith

-- the tables of a new database file
pub missing-IsDatabase : IsDatabase (record { users = none; inventory = none; logs = none })
missing-IsDatabase = record {
  distinct_users = tt;
  checked_users = tt;
  distinct_stock = tt;
  checked_stock = tt;
  checked_logs = tt;
}
