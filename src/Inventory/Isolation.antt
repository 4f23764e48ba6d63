-- ===== src/Inventory/Isolation.antt =====
-- What the inventory may change in the stock for one client: the rows of that client.
use client_server_architectu.Storage.Stock.{find_stock-upsert}
use client_server_architectu.Inventory.Calls.{update_stock-Writes}
use client_server_architectu.Storage.{client_map, find_stock}
use client_server_architectu.Json.Access.{string_at}
use client_server_architectu.World.Stable.{
  >>=-Stable, catch_json-Stable, json_or_throw-Stable, Stable,
}
use client_server_architectu.Prelude.Int.{ℤ}
use client_server_architectu.Json.{Json}
use client_server_architectu.Inventory.{
  UpdateStockResult, remember_all, get_stock_on_cache, update_stock, load_summary, remember, fetch,
  get_inventory_summary,
}
use client_server_architectu.World.{
  ClientInventoryMap, catch_json, ◌>>=◌, json_or_throw, Exec, World,
}
use client_server_architectu.Platform.{Platform}
use client_server_architectu.Storage
use client_server_architectu.Inventory
use client_server_architectu.Prelude.{
  some, none, ◌≡◌, ◌∙◌, ◌==◌, inr, inl, false, contains, arith, ap, String, Option, Bool-cases,
  refl,
}

-- The stock of every other client is that of before.
abbrev pub Isolates : String → World → World → Type 0
Isolates client w v =
    (j k i : String) → (client == j) ≡ false → find_stock j k i v.stock ≡ find_stock j k i w.stock

Isolates-trans :
    (client : String) (u v w : World)
    → Isolates client u v
    → Isolates client v w
    → Isolates client u w
Isolates-trans client u v w f g j k i other = g j k i other ∙ f j k i other

pub same_stock : (client : String) (w v : World) → v.stock ≡ w.stock → Isolates client w v
same_stock client w v e j k i other = ap (find_stock j k i) e

module _ ⦃p : Platform⦄ (client : String) where
  abbrev pub Isolated : {A : Type 0} → Exec A → Type 0
  Isolated m = Stable (Isolates client) m

  pub >>=-Isolated :
      {A B : Type 0} (m : Exec A) (f : A → Exec B)
      → Isolated m
      → ((a : A) → Isolated (f a))
      → Isolated (m >>= f)
  >>=-Isolated m f = >>=-Stable (Isolates client) m f (Isolates-trans client)

  pub catch_json-Isolated :
      {A : Type 0} (h m : Exec A) → Isolated h → Isolated m → Isolated (catch_json h m)
  catch_json-Isolated h m = catch_json-Stable (Isolates client) h m (Isolates-trans client)

  pub json_or_throw-Isolated : {A : Type 0} (o : Option A) → Isolated (json_or_throw o)
  json_or_throw-Isolated o = json_or_throw-Stable (Isolates client) o (λ w j k i other. refl)

  pub string_at-Isolated : (key : String) (j : Json) → Isolated (string_at key j)
  string_at-Isolated key j =
      >>=-Isolated (json_or_throw (p.at key j)) _ (json_or_throw-Isolated _)
        (λ v. json_or_throw-Isolated _)

  pub update_stock-Isolated :
      (c : String) (k i : String) (q : ℤ) → (c ≡ client) → Isolated (update_stock c k i q)
  update_stock-Isolated c k i q e w j k' i' other = elim (update_stock-Writes c k i q w) [
    | inl (s, _, _) ↦ ap (find_stock j k' i') s
    | inr (s, _, _) ↦ rw (s, find_stock-upsert) (ground (arith, e, other))
  ]

  pub statement-Isolated : (k i : String) → Isolated (Storage.get_stock client k i)
  unfolding Storage.get_stock
  statement-Isolated k i w = elim (Bool-cases (p.db_fault w.journal.statements)) [
    | inl e ↦ rw e (λ j k' i' other. refl)
    | inr e ↦ rw e (λ j k' i' other. refl)
  ]

  pub remember-Isolated : (k i : String) (q : Option ℤ) → Isolated (remember client k i q)
  unfolding remember Inventory.cache_put
  remember-Isolated k i none w j k' i' other = refl
  remember-Isolated k i (some q) w j k' i' other = refl

  pub fetch-Isolated : (k i : String) (q : Option ℤ) → Isolated (fetch client k i q)
  unfolding fetch
  fetch-Isolated k i none =
      >>=-Isolated (Storage.get_stock client k i) _ (statement-Isolated k i) (remember-Isolated k i)
  fetch-Isolated k i (some q) = λ w j k' i' other. refl

  pub get_stock-Isolated : (k i : String) → Isolated (Inventory.get_stock client k i)
  unfolding Inventory.get_stock
  get_stock-Isolated k i w = fetch-Isolated k i (get_stock_on_cache client k i w.cache) w

  pub get_full_inventory-Isolated : Isolated (Storage.get_full_inventory client)
  unfolding Storage.get_full_inventory
  get_full_inventory-Isolated w = elim (Bool-cases (p.db_fault w.journal.statements)) [
    | inl e ↦ rw e (λ j k i other. refl)
    | inr e ↦ rw e (λ j k i other. refl)
  ]

  pub remember_all-Isolated : (m : Option ClientInventoryMap) → Isolated (remember_all client m)
  unfolding remember_all
  remember_all-Isolated none w j k i other = refl
  remember_all-Isolated (some m) w j k i other = refl

  pub load_summary-Isolated : Isolated (load_summary client)
  unfolding load_summary
  load_summary-Isolated =
      >>=-Isolated (Storage.get_full_inventory client) _ get_full_inventory-Isolated
        remember_all-Isolated

  pub get_inventory_summary-Isolated : Isolated (get_inventory_summary client)
  unfolding get_inventory_summary
  get_inventory_summary-Isolated w =
      elim (Bool-cases (contains w.cache.fully_cached_clients client)) [
        | inl e ↦ rw e (λ j k i other. refl)
        | inr e ↦ rw e (λ j k i other. load_summary-Isolated _ j k i other)
      ]
