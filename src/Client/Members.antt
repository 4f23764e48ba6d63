-- ===== src/Client/Members.antt =====
-- The members of a request that the client builds, as the server's reader finds them.
use client_server_architectu.Prelude.Int.{to_int32, ℤ}
use client_server_architectu.Client.Input.{stock_payload, request, pair}
use client_server_architectu.Json.Access.{int_at, string_at-text_at, string_at, text_at}
use client_server_architectu.World.{ok, World}
use client_server_architectu.Json.{Json}
use client_server_architectu.Client.{Library}
use client_server_architectu.Platform.{Platform}
use client_server_architectu.Prelude.{true, ◌≡◌, ◌==◌, some, refl, false, String}

-- What the documentation of cJSON and `nlohmann::json` says of a member that the client adds and the
-- server reads.
pub record IsRead (l : Library) (p : Platform) : Type 0 where
  pub text-add_string : (o : Json) (k s : String) → text_at ⦃p = p⦄ k (l.add_string o k s) ≡ some s
  pub int-add_number :
      (o : Json) (k : String) (z : ℤ)
      → to_int32 z ≡ z
      → int_at ⦃p = p⦄ k (l.add_number o k z) ≡ some z
  pub at-add_item : (o : Json) (k : String) (v : Json) → p.at k (l.add_item o k v) ≡ some v
  pub kept-add_string :
      (o : Json) (k i s : String) → (k == i) ≡ false → p.at i (l.add_string o k s) ≡ p.at i o
  pub kept-add_number :
      (o : Json) (k i : String) (z : ℤ) → (k == i) ≡ false → p.at i (l.add_number o k z) ≡ p.at i o
  pub kept-add_item :
      (o : Json) (k i : String) (v : Json) → (k == i) ≡ false → p.at i (l.add_item o k v) ≡ p.at i o
  pub value-at : (k d s : String) (j : Json) → text_at ⦃p = p⦄ k j ≡ some s → p.value k d j ≡ some s
  pub contains-at : (k s : String) (j : Json) → text_at ⦃p = p⦄ k j ≡ some s → p.contains k j ≡ true

module _ ⦃p : Platform⦄ where
  pub reads :
      (k s : String) (j : Json) (w : World) → text_at k j ≡ some s → string_at k j w ≡ (ok s, w)
  reads k s j w e = rw (string_at-text_at k j w, e) refl

module _ ⦃l : Library⦄ ⦃p : Platform⦄ (laws : IsRead l p) where
  pub command-request :
      (root payload : Json) (command : String)
      → text_at "command" (request root command payload) ≡ some command
  command-request root payload command =
      rw (laws.kept-add_item (l.add_string root "command" command) "payload" "command" payload refl)
        (laws.text-add_string root "command" command)

  pub first-pair :
      (o : Json) (k v k' v' : String) → (k' == k) ≡ false → text_at k (pair o k v k' v') ≡ some v
  first-pair o k v k' v' e =
      rw (laws.kept-add_string (l.add_string o k v) k' k v' e) (laws.text-add_string o k v)

  pub second-pair : (o : Json) (k v k' v' : String) → text_at k' (pair o k v k' v') ≡ some v'
  second-pair o k v k' v' = laws.text-add_string (l.add_string o k v) k' v'

  pub category-stock_payload :
      (o : Json) (category item : String) (quantity : ℤ)
      → text_at "category" (stock_payload o category item quantity) ≡ some category
  category-stock_payload o category item quantity =
      rw
        (laws.kept-add_number (pair o "category" category "item" item) "quantity" "category"
          quantity refl)
        (first-pair o "category" category "item" item refl)

  pub item-stock_payload :
      (o : Json) (category item : String) (quantity : ℤ)
      → text_at "item" (stock_payload o category item quantity) ≡ some item
  item-stock_payload o category item quantity =
      rw
        (laws.kept-add_number (pair o "category" category "item" item) "quantity" "item" quantity
          refl)
        (second-pair o "category" category "item" item)
