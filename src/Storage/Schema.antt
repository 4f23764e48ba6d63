-- ===== src/Storage/Schema.antt =====
-- What the keys, the checks and the foreign keys of the schema promise of the tables, and how the
-- writes of the statements keep it.
pub mod Statements
use client_server_architectu.Platform.{Platform}
use client_server_architectu.Prelude.Dict
use client_server_architectu.Prelude.Dict.{
  Dict, NodupKeys, insert-NodupKeys, update-NodupKeys, lookup-insert, lookup-update, is_some,
}
use client_server_architectu.Prelude.Int.{ℤ}
use client_server_architectu.Prelude.{
  All, ◌||◌, ◌==◌, ◌++◌, ◌≡◌, ◌∷◌, ◌≤◌, ℕ, true, false, not, some, none, refl, eq_iff, arith, [],
  inl, inr, Bool-cases, Option-cases, String, Option, List, Bool, if◌then◌else◌,
}
use client_server_architectu.Storage.{
  is_registered, is_null_or_registered, new_user, reset_attempts, add_attempt, set_locked,
  check_attempts, save_stock_update, create_user, update_login_attempts, set_client_lock_status,
  save_log_entry, upsert,
}
use client_server_architectu.Storage.Stock.{NodupStock, upsert-NodupStock}
use client_server_architectu.World.Keeps.{Keeps}
use client_server_architectu.World.{World, Journal, User, StockRow, LogRow, Exec}

-- CHECK(length(hostname) > 0) and CHECK(failed_attempts <= 3)
abbrev pub IsUser : String × User → Type 0
IsUser (hostname, u) = ((hostname == "") ≡ false) × (u.failed_attempts ≤ 3)

-- the checks of a row of the stock, and its foreign key
abbrev pub IsStockRow : Dict User → StockRow → Type 0
IsStockRow users r =
    ((r.client_id == "") ≡ false)
    × ((r.category == "") ≡ false)
    × ((r.item == "") ≡ false)
    × (is_registered r.client_id users ≡ true)

-- the foreign key of a row of the log
abbrev pub IsLogRow : Dict User → LogRow → Type 0
IsLogRow users r = is_null_or_registered r.client_id users ≡ true

pub record IsTables (users : Dict User) (stock : List StockRow) (logs : List LogRow) : Type 0 where
  pub distinct_users : NodupKeys users
  pub checked_users : All IsUser users
  pub distinct_stock : NodupStock stock
  pub checked_stock : All (IsStockRow users) stock
  pub checked_logs : All (IsLogRow users) logs

abbrev pub IsSchema : World → Type 0
IsSchema w = IsTables w.users w.stock w.journal.logs

pub upsert-IsStockRow :
    (users : Dict User) (c k i : String) (q : ℤ) (rows : List StockRow)
    → IsStockRow users (record { client_id = c; category = k; item = i; quantity = q })
    → All (IsStockRow users) rows
    → All (IsStockRow users) (upsert c k i q rows)
unfolding upsert
upsert-IsStockRow users c k i q [] h t = (h, tt)
upsert-IsStockRow users c k i q (r ∷ rows) h (a, t) =
    ground (arith, upsert-IsStockRow users c k i q rows h t)

pub insert-IsUser :
    (hostname : String) (u : User) (users : Dict User)
    → IsUser (hostname, u)
    → All IsUser users
    → All IsUser (Dict.insert hostname u users)
unfolding Dict.insert
insert-IsUser hostname u [] h t = (h, tt)
insert-IsUser hostname u ((name, v) ∷ users) h (a, t) =
    ground (arith, insert-IsUser hostname u users h t)

-- A user that is registered stays so.
abbrev pub Grows : Dict User → Dict User → Type 0
Grows users more = (h : String) → is_registered h users ≡ true → is_registered h more ≡ true

pub insert-Grows : (h : String) (u : User) (users : Dict User) → Grows users (Dict.insert h u users)
insert-Grows h u users name e = ground (arith, lookup-insert h name u users)

update-Grows :
    (h : String) (f : User → User) (users : Dict User) → Grows users (Dict.update h f users)
update-Grows h f users name e = elim (Option-cases (Dict.lookup name users)) [
  | inl q ↦ cc (rw q at e)
  | inr (u, q) ↦ rw (lookup-update h name f users, q) (ground arith)
]

grown_stock :
    (users more : Dict User) (rows : List StockRow)
    → Grows users more
    → All (IsStockRow users) rows
    → All (IsStockRow more) rows
grown_stock users more [] g h = tt
grown_stock users more (r ∷ rows) g ((a, b, c, d), h) =
    ((a, b, c, g r.client_id d), grown_stock users more rows g h)

null_grown :
    (users more : Dict User) (o : Option String)
    → Grows users more
    → is_null_or_registered o users ≡ true
    → is_null_or_registered o more ≡ true
null_grown users more none g h = refl
null_grown users more (some c) g h = g c h

grown_logs :
    (users more : Dict User) (rows : List LogRow)
    → Grows users more
    → All (IsLogRow users) rows
    → All (IsLogRow more) rows
grown_logs users more [] g h = tt
grown_logs users more (r ∷ rows) g (a, h) =
    (null_grown users more r.client_id g a, grown_logs users more rows g h)

pub update-IsUser :
    (h : String) (f : User → User) (users : Dict User)
    → ((u : User) → u.failed_attempts ≤ 3 → (f u).failed_attempts ≤ 3)
    → All IsUser users
    → All IsUser (Dict.update h f users)
unfolding Dict.update
update-IsUser h f [] k t = tt
update-IsUser h f ((name, u) ∷ users) k ((a, b), t) =
    ground (arith, k u b, update-IsUser h f users k t)

pub add_attempt-IsUser :
    (h : String) (time : ℤ) (users : Dict User)
    → check_attempts h users ≡ true
    → All IsUser users
    → All IsUser (Dict.update h (add_attempt time) users)
unfolding Dict.update check_attempts
add_attempt-IsUser h time [] e t = tt
add_attempt-IsUser h time ((name, u) ∷ users) e (a, t) =
    ground (arith, add_attempt-IsUser h time users, t)

pub with_users :
    (users more : Dict User) (stock : List StockRow) (logs : List LogRow)
    → Grows users more
    → NodupKeys more
    → All IsUser more
    → IsTables users stock logs
    → IsTables more stock logs
with_users users more stock logs g d c h = record {
  distinct_users = d;
  checked_users = c;
  distinct_stock = h.distinct_stock;
  checked_stock = grown_stock users more stock g h.checked_stock;
  checked_logs = grown_logs users more logs g h.checked_logs;
}

pub updated :
    (k : String) (f : User → User) (users : Dict User) (stock : List StockRow) (logs : List LogRow)
    → All IsUser (Dict.update k f users)
    → IsTables users stock logs
    → IsTables (Dict.update k f users) stock logs
updated k f users stock logs c h =
    with_users users (Dict.update k f users) stock logs (update-Grows k f users)
      (update-NodupKeys k f users h.distinct_users) c h
