-- ===== src/Storage/Stock.antt =====
-- The table `inventory` with distinct keys: the upsert, and the map that `getFullInventory` builds.
use client_server_architectu.Prelude.Dict.{lookup-insert}
use client_server_architectu.Prelude.Int.{ℤ}
use client_server_architectu.World.{ClientInventoryMap, StockRow}
use client_server_architectu.Prelude.{
  ◌∙◌, inr, inl, Bool-cases, if◌then◌else◌, ◌≡◌, ◌∷◌, ◌==◌, ◌&&◌, some, refl, none, false, eq_iff,
  arith, [], String, Option, List,
}
use client_server_architectu.Prelude.Dict
use client_server_architectu.Storage.Rows.{
  item_in, or_empty, quantity_in, put_item, find_stock, upsert, fill_map, client_found, client_map,
}

-- No key (client_id, category, item) stands twice.
abbrev pub NodupStock : List StockRow → Type 0
NodupStock [] = Unit
NodupStock (r ∷ rows) = (find_stock r.client_id r.category r.item rows ≡ none) × NodupStock rows

-- A write of one key changes that quantity and no other.
pub find_stock-upsert :
    (c k i : String) (q : ℤ) (c' k' i' : String) (rows : List StockRow)
    → find_stock c' k' i' (upsert c k i q rows)
      ≡ (if (c == c') && ((k == k') && (i == i')) then some q else find_stock c' k' i' rows)
unfolding find_stock upsert
find_stock-upsert c k i q c' k' i' [] = refl
find_stock-upsert c k i q c' k' i' (r ∷ rows) = ground (
  arith,
  find_stock-upsert c k i q c' k' i' rows,
  eq_iff c c',
  eq_iff k k',
  eq_iff i i',
  eq_iff r.client_id c,
  eq_iff r.category k,
  eq_iff r.item i,
  eq_iff r.client_id c',
  eq_iff r.category k',
  eq_iff r.item i',
)

pub upsert-NodupStock :
    (c k i : String) (q : ℤ) (rows : List StockRow)
    → NodupStock rows
    → NodupStock (upsert c k i q rows)
unfolding upsert find_stock
upsert-NodupStock c k i q [] h = (refl, tt)
upsert-NodupStock c k i q (r ∷ rows) h = ground (
  arith,
  upsert-NodupStock c k i q rows h.1,
  find_stock-upsert c k i q r.client_id r.category r.item rows,
  eq_iff r.client_id c,
  eq_iff r.category k,
  eq_iff r.item i,
  eq_iff c r.client_id,
  eq_iff k r.category,
  eq_iff i r.item,
)

lookup-or_empty : (i : String) (o : Option (Dict.Dict ℤ)) → Dict.lookup i (or_empty o) ≡ item_in i o
unfolding Dict.lookup
lookup-or_empty i none = refl
lookup-or_empty i (some m) = refl

pub quantity_in-put_item :
    (k i : String) (q : ℤ) (m : ClientInventoryMap) (k' i' : String)
    → quantity_in k' i' (some (put_item k i q m))
      ≡ (if (k == k') && (i == i') then some q else quantity_in k' i' (some m))
unfolding put_item
quantity_in-put_item k i q m k' i' = ground (
  arith,
  lookup-insert k k' (Dict.insert i q (or_empty (Dict.lookup k m))) m,
  lookup-insert i i' q (or_empty (Dict.lookup k m)),
  lookup-or_empty i' (Dict.lookup k m),
  eq_iff k k',
)

pub quantity_in-or_empty :
    (k i : String) (o : Option ClientInventoryMap)
    → quantity_in k i (some (or_empty o)) ≡ quantity_in k i o
unfolding Dict.lookup
quantity_in-or_empty k i none = refl
quantity_in-or_empty k i (some m) = refl

abbrev or_else : Option ℤ → Option ℤ → Option ℤ
or_else none o = o
or_else (some q) o = some q

quantity_in-fill_map :
    (c k i : String) (m : ClientInventoryMap) (rows : List StockRow)
    → NodupStock rows
    → quantity_in k i (some (fill_map c m rows))
      ≡ or_else (find_stock c k i rows) (quantity_in k i (some m))
unfolding fill_map find_stock
quantity_in-fill_map c k i m [] h = refl
quantity_in-fill_map c k i m (r ∷ rows) h = ground (
  arith,
  quantity_in-fill_map c k i m rows h.1,
  quantity_in-fill_map c k i (put_item r.category r.item r.quantity m) rows h.1,
  quantity_in-put_item r.category r.item r.quantity m k i,
  h.0,
  eq_iff r.client_id c,
  eq_iff r.category k,
  eq_iff r.item i,
)

not-client_found :
    (c k i : String) (rows : List StockRow)
    → client_found c rows ≡ false
    → find_stock c k i rows ≡ none
unfolding client_found find_stock
not-client_found c k i [] h = refl
not-client_found c k i (r ∷ rows) h = ground (arith, not-client_found c k i rows)

-- The map of `getFullInventory` holds exactly the quantities of the client's rows.
pub quantity_in-client_map :
    (c k i : String) (rows : List StockRow)
    → NodupStock rows
    → quantity_in k i (client_map c rows) ≡ find_stock c k i rows
unfolding client_map
quantity_in-client_map c k i rows h = elim (Bool-cases (client_found c rows)) [
  | inl e ↦ rw e (quantity_in-fill_map c k i [] rows h ∙ none_right (find_stock c k i rows))
  | inr e ↦ rw (e, not-client_found c k i rows e)
]
  where
    none_right : (o : Option ℤ) → or_else o (quantity_in k i (some [])) ≡ o
    none_right none = unfold Dict.lookup in refl
    none_right (some q) = refl
