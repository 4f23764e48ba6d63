-- ===== src/CommandProcessor/StockCommands.antt =====
-- A stock update by one command and the query of it by another.
use client_server_architectu.Inventory.Coherent.{get_stock_on_cache-cache_put}
use client_server_architectu.Inventory.Calls.{update_stock-Writes, Succeeds}
use client_server_architectu.Prelude.Dict
use client_server_architectu.Storage.{is_registered}
use client_server_architectu.Inventory.{get_stock_on_cache, fetch, validate_inventory, update_valid}
use Prim.Native.String.{◌++◌}
use client_server_architectu.World.{>>=-ok, ok, World}
use client_server_architectu.Json.Access.{string_at-text_at, text_at}
use client_server_architectu.Prelude.Int.{ltb_ℤ, pos, to_string, ℤ}
use client_server_architectu.CommandProcessor.{
  success_reply, update_reply, stock_reply, try_get_stock, try_update_stock, handle_get_stock,
  handle_update_stock,
}
use client_server_architectu.Json.{Json}
use client_server_architectu.Platform.{IsReliable, Platform}
use client_server_architectu.Storage
use client_server_architectu.Inventory
use client_server_architectu.Prelude.{
  Bool-cases, inr, inl, eq_iff, contains, arith, ◌==◌, ℕ, ◌≡◌, true, starts_with, some, false,
  String, refl,
}

-- A valid item and its category are not the empty text.
valid_names :
    (category item : String)
    → (validate_inventory category item).success ≡ true
    → ((category == "") ≡ false) × ((item == "") ≡ false)
unfolding validate_inventory Dict.lookup contains
valid_names category item h = (
  elim (Bool-cases (category == "")) [
    | inl e ↦ let c : category ≡ "" = ground (arith, e, eq_iff category "") in cc (rw c at h)
    | inr e ↦ e
  ],
  elim (Bool-cases (item == "")) [
    | inl e ↦
        let i : item ≡ "" = ground (arith, e, eq_iff item "") in absurd (no_empty_item (rw i at h))
    | inr e ↦ e
  ],
)
  where
    no_empty_item : (validate_inventory category "").success ≡ true → ⊥
    no_empty_item h' = elim (Bool-cases ("food" == category)) [
      | inl e ↦ cc (rw (validate_inventory, Dict.lookup, e) at h')
      | inr e ↦ elim (Bool-cases ("medicine" == category)) [
        | inl f ↦ cc (rw (validate_inventory, Dict.lookup, e, f) at h')
        | inr f ↦ elim (Bool-cases ("ammo" == category)) [
          | inl g ↦ cc (rw (validate_inventory, Dict.lookup, e, f, g) at h')
          | inr g ↦ cc (rw (validate_inventory, Dict.lookup, e, f, g) at h')
        ]
      ]
    ]

module _ ⦃p : Platform⦄ where
  -- the members of a request about one item
  abbrev pub NamesItem : Json → String → String → Type 0
  NamesItem request category item =
      (payload : Json) × (p.at "payload" request ≡ some payload)
      × (text_at "category" payload ≡ some category)
      × (text_at "item" payload ≡ some item)

  abbrev pub SetsItem : Json → String → String → ℤ → Type 0
  SetsItem request category item quantity =
      (payload : Json) × (p.at "payload" request ≡ some payload)
      × (text_at "category" payload ≡ some category)
      × (text_at "item" payload ≡ some item)
      × (v : Json) × (p.at "quantity" payload ≡ some v)
      × (p.get_int v ≡ some quantity)

  abbrev pub updated : String → String → ℤ → String
  updated category item quantity =
      "Stock for '"
      ++ category
      ++ ":"
      ++ item
      ++ "' successfully updated to "
      ++ to_string quantity
      ++ "."

  handle_get_stock_lem :
      (request : Json) (client category item : String) (quantity : ℤ) (w : World)
      → NamesItem request category item
      → (Inventory.get_stock client category item w).0 ≡ ok (some quantity)
      → (handle_get_stock request client w).0 ≡ (stock_reply category item (some quantity) w).0
  unfolding handle_get_stock try_get_stock stock_reply
  handle_get_stock_lem request client category item quantity w (payload, e, f, g) found =
      rw
        (
          e,
          string_at-text_at,
          f,
          string_at-text_at,
          g,
          >>=-ok (Inventory.get_stock client category item) (stock_reply category item) w found,
        )
        refl

  handle_update_stock_lem :
      (request : Json) (client category item : String) (quantity : ℤ) (w : World)
      → starts_with client "Hub" ≡ false
      → SetsItem request category item quantity
      → ((Inventory.update_stock client category item quantity w).0
          ≡ ok (record { success = true; message = updated category item quantity }))
      → let (o, v) = handle_update_stock request client w in
        (o ≡ ok (p.dump (success_reply (updated category item quantity)), true))
        × (v.cache ≡ (Inventory.update_stock client category item quantity w).1.cache)
  unfolding handle_update_stock try_update_stock update_reply
  handle_update_stock_lem request client category item quantity w allowed
        (payload, e, f, g, j, h, i) done =
      rw
        (
          allowed,
          e,
          string_at-text_at,
          f,
          string_at-text_at,
          g,
          h,
          i,
          >>=-ok (Inventory.update_stock client category item quantity) update_reply w done,
        )
        (refl, refl)

  update_stock_done :
      (client category item : String) (n : ℕ) (w : World)
      → IsReliable p
      → (client == "") ≡ false
      → is_registered client w.users ≡ true
      → (validate_inventory category item).success ≡ true
      → (Inventory.update_stock client category item (pos n) w).0
        ≡ ok (record { success = true; message = updated category item (pos n) })
  unfolding Inventory.update_stock update_valid Storage.save_stock_update
  update_stock_done client category item n w r named known valid =
      let (c, i) = valid_names category item valid in
      let sign : ltb_ℤ (pos n) (pos 0) ≡ false = ground arith in
      rw (sign, valid, r.no_fault w.journal.statements, named, c, i, known) refl

  get_stock_cached :
      (client category item : String) (q : ℤ) (w v : World)
      → Succeeds (Inventory.update_stock client category item q w).0
      → v.cache ≡ (Inventory.update_stock client category item q w).1.cache
      → (Inventory.get_stock client category item v).0 ≡ ok (some q)
  unfolding Inventory.get_stock fetch
  get_stock_cached client category item q w v done e =
      elim (update_stock-Writes client category item q w) [
        | inl (_, _, n) ↦ absurd (n done)
        | inr (_, f, _) ↦
            let hit : get_stock_on_cache client category item v.cache ≡ some q =
              rw (e, f, get_stock_on_cache-cache_put)
                (ground
                  (arith, eq_iff client client, eq_iff category category, eq_iff item item)) in
            rw hit refl
      ]

  -- On a reliable database, for a registered client whose name is not empty and does not start with
  -- "Hub", and a valid item and a quantity that is not negative: the command `update_stock` answers
  -- success, and after it `get_stock` answers that quantity.
  pub get_stock_command-update_stock :
      (update query : Json) (client category item : String) (n : ℕ) (w : World)
      → IsReliable p
      → starts_with client "Hub" ≡ false
      → (client == "") ≡ false
      → is_registered client w.users ≡ true
      → (validate_inventory category item).success ≡ true
      → SetsItem update category item (pos n)
      → NamesItem query category item
      → let (o, v) = handle_update_stock update client w in
        (o ≡ ok (p.dump (success_reply (updated category item (pos n))), true))
        × ((handle_get_stock query client v).0 ≡ (stock_reply category item (some (pos n)) w).0)
  unfolding stock_reply
  get_stock_command-update_stock update query client category item n w r allowed named known valid
        sets names =
      let done = update_stock_done client category item n w r named known valid in
      let v = (handle_update_stock update client w).1 in
      let (o, c) =
        handle_update_stock_lem update client category item (pos n) w allowed sets done in
      let found = get_stock_cached client category item (pos n) w v (rw done refl) c in
      (o, handle_get_stock_lem query client category item (pos n) v names found)
