-- ===== src/CommandProcessor/Admin.antt =====
-- The commands of the administrator.
use client_server_architectu.Authenticator.Verdict.{authenticate-verdict, IsRow}
use client_server_architectu.Authenticator.{success}
use client_server_architectu.Authenticator.{authenticate}
use client_server_architectu.Prelude.Dict.{lookup-insert, insert-NodupKeys, NodupKeys}
use client_server_architectu.Prelude.Int.{ℤ}
use Prim.Native.String.{◌++◌}
use client_server_architectu.Storage.{new_user, is_registered}
use client_server_architectu.Json.Access.{string_at-text_at, text_at}
use client_server_architectu.Prelude.Dict
use client_server_architectu.Storage
use client_server_architectu.World.{std_exception, err, ◌>>=◌, ok, on_json, World}
use client_server_architectu.CommandProcessor.{
  try_register_user, success_reply, register_reply, refuse_uncounted, error_reply,
  handle_register_user, handle_unlock_client,
}
use client_server_architectu.Json.{Json}
use client_server_architectu.Platform.{IsBcrypt, IsReliable, Platform}
use client_server_architectu.Prelude.{
  eq_iff, arith, Bool, ◌||◌, ◌≡◌, ◌==◌, true, some, false, String, refl,
}

module _ ⦃p : Platform⦄ where
  -- Whatever the request and the platform: a client that is not the administrator is refused both
  -- commands, stays connected, and changes no user, no lock and no stock.
  admin_commands-refused :
      (request : Json) (client : String) (w : World)
      → (client == "admin") ≡ false
      → let message = p.dump (error_reply "Command only available for admin user.") in
        let (o, v) = handle_unlock_client request client w in
        let (o', v') = handle_register_user request client w in
        ((o ≡ ok (message, true))
          × (v.users ≡ w.users)
          × (v.sessions ≡ w.sessions)
          × (v.stock ≡ w.stock))
        × ((o' ≡ ok (message, true))
            × (v'.users ≡ w.users)
            × (v'.sessions ≡ w.sessions)
            × (v'.stock ≡ w.stock))
  unfolding handle_unlock_client handle_register_user
  admin_commands-refused request client w other =
      rw other ((refl, refl, refl, refl), (refl, refl, refl, refl))

  -- the members of a `register_user` request
  abbrev pub IsRegistration : Json → String → String → Type 0
  IsRegistration request target password =
      (payload : Json) × (p.at "payload" request ≡ some payload)
      × (text_at "new_client_id" payload ≡ some target)
      × (text_at "new_client_password" payload ≡ some password)

  -- the insertion would break the primary key or the check of the table
  abbrev pub is_taken : String → World → Bool
  is_taken target w = (target == "") || is_registered target w.users

  try_register :
      (request : Json) (target password : String) (w : World)
      → IsRegistration request target password
      → handle_register_user request "admin" w
        ≡ on_json
            (refuse_uncounted "admin" "Invalid or missing field in register_user payload."
              "Invalid or missing field in register_user payload.")
            ((Storage.create_user target password >>= register_reply "admin" target) w)
  unfolding handle_register_user try_register_user
  try_register request target password w (payload, e, f, g) =
      rw (e, string_at-text_at, f, string_at-text_at, g) refl

  created :
      (request : Json) (target password : String) (w : World)
      → IsReliable p
      → IsRegistration request target password
      → is_taken target w ≡ false
      → let (o, v) = handle_register_user request "admin" w in
        (o
          ≡ ok
              (p.dump (success_reply ("Client `" ++ target ++ "` successfully registered.")), true))
        × (v.users
            ≡ Dict.insert target (new_user (p.generate_hash w.journal.statements password)) w.users)
  unfolding Storage.create_user register_reply
  created request target password w r h free =
      rw (try_register request target password w h, r.no_fault w.journal.statements, free)
        (refl, refl)

  -- On a reliable database, with a bcrypt that accepts a password for its own hash: registering a
  -- user under a free name that is not empty succeeds, and that user then logs in with the password.
  pub register-authenticate :
      (request : Json) (target password : String) (block : ℤ) (w : World)
      → IsReliable p
      → IsBcrypt p
      → NodupKeys w.users
      → IsRegistration request target password
      → is_taken target w ≡ false
      → let (o, v) = handle_register_user request "admin" w in
        (o
          ≡ ok
              (p.dump (success_reply ("Client `" ++ target ++ "` successfully registered.")), true))
        × ((authenticate target password block v).0 ≡ ok success)
  register-authenticate request target password block w r b d h free =
      let v = (handle_register_user request "admin" w).1 in
      let hash = p.generate_hash w.journal.statements password in
      let (o, u) = created request target password w r h free in
      let row : IsRow target (new_user hash) v = record {
        distinct = rw u (insert-NodupKeys target (new_user hash) w.users d);
        found = rw (u, lookup-insert) (ground (arith, eq_iff target target));
        checked = omega arith;
      } in
      let (verdict, _, _) = authenticate-verdict r target password block (new_user hash) v row in
      (o, ground (arith, verdict, b.validate-generate w.journal.statements password))

  -- On a reliable database, registering a name that is taken or empty throws a `std::exception` that
  -- the handler does not catch, and no user is changed: the reply of a failed registration is never
  -- given.
  register-taken :
      (request : Json) (target password : String) (w : World)
      → IsReliable p
      → IsRegistration request target password
      → is_taken target w ≡ true
      → let (o, v) = handle_register_user request "admin" w in
        (o ≡ err std_exception) × (v.users ≡ w.users)
  unfolding Storage.create_user
  register-taken request target password w r h taken =
      rw (try_register request target password w h, r.no_fault w.journal.statements, taken)
        (refl, refl)
