-- ===== src/Storage/Rows.antt =====
-- The queries over the tables `inventory` and `logs` of src/server/storage.cpp.
use Prim.Native.Nat.{Ordering}
use Prim.Native.String.{compare}
use client_server_architectu.Prelude.{
  String, Bool, true, false, ◌&&◌, Option, none, some, List, [], ◌∷◌, ◌==◌, if◌then◌else◌,
}
use client_server_architectu.Prelude.Dict
use client_server_architectu.Prelude.Dict.{Dict, is_some}
use client_server_architectu.Prelude.Int.{ℤ}
use client_server_architectu.World.{StockRow, LogRow, ClientInventoryMap}

-- the primary key (client_id, category, item)
abbrev pub has_key : String → String → String → StockRow → Bool
has_key client category item r =
    (r.client_id == client) && ((r.category == category) && (r.item == item))

-- `SELECT quantity … WHERE client_id = ? AND category = ? AND item = ?`, the first row
unfoldable pub find_stock : String → String → String → List StockRow → Option ℤ
find_stock client category item [] = none
find_stock client category item (r ∷ rows) =
    if has_key client category item r then some r.quantity else find_stock client category item rows

-- `INSERT … ON CONFLICT … DO UPDATE SET quantity = excluded.quantity`
unfoldable pub upsert : String → String → String → ℤ → List StockRow → List StockRow
upsert client category item quantity [] =
    record { client_id = client; category = category; item = item; quantity = quantity } ∷ []
upsert client category item quantity (r ∷ rows) =
    if has_key client category item r
    then record r { quantity = quantity } ∷ rows
    else r ∷ upsert client category item quantity rows

-- `m[k]` on a map of maps: an empty map where the key is missing
abbrev pub or_empty {ℓ} : {V : Type ℓ} → Option (Dict V) → Dict V
or_empty none = []
or_empty (some m) = m

-- one quantity of a map of maps, by `find` on each level
abbrev pub item_in : String → Option (Dict ℤ) → Option ℤ
item_in item none = none
item_in item (some items) = Dict.lookup item items

abbrev pub quantity_in : String → String → Option ClientInventoryMap → Option ℤ
quantity_in category item none = none
quantity_in category item (some m) = item_in item (Dict.lookup category m)

-- `inventoryMap[category][item] = quantity`
unfoldable pub put_item : String → String → ℤ → ClientInventoryMap → ClientInventoryMap
put_item category item quantity m =
    Dict.insert category (Dict.insert item quantity (or_empty (Dict.lookup category m))) m

-- the loop of `getFullInventory` over the rows of the client
unfoldable pub fill_map : String → ClientInventoryMap → List StockRow → ClientInventoryMap
fill_map client m [] = m
fill_map client m (r ∷ rows) =
    fill_map client (if r.client_id == client then put_item r.category r.item r.quantity m else m)
      rows

unfoldable pub client_found : String → List StockRow → Bool
client_found client [] = false
client_found client (r ∷ rows) = if r.client_id == client then true else client_found client rows

-- no value for a client with no row
unfoldable pub client_map : String → List StockRow → Option ClientInventoryMap
unfolding fill_map client_found
client_map client rows = if client_found client rows then some (fill_map client [] rows) else none

abbrev pub has_client : String → Option String → Bool
has_client client none = false
has_client client (some c) = c == client

abbrev pub is_history : String → LogRow → Bool
is_history client r = has_client client r.client_id && (r.component == "Inventory")

-- the later timestamp first; rows with one timestamp stay in the order of the table
unfoldable pub insert_by_time : LogRow → List LogRow → List LogRow
insert_by_time r [] = r ∷ []
insert_by_time r (s ∷ rows) = elim (compare r.timestamp s.timestamp) [
  | Ordering.lt ↦ s ∷ insert_by_time r rows
  | _ ↦ r ∷ s ∷ rows
]

-- `WHERE client_id = ? AND component = 'Inventory' ORDER BY timestamp DESC`
unfoldable pub history_rows : String → List LogRow → List LogRow
unfolding insert_by_time
history_rows client [] = []
history_rows client (r ∷ rows) =
    let rest = history_rows client rows in
    if is_history client r then insert_by_time r rest else rest
