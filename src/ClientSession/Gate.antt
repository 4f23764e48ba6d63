-- ===== src/ClientSession/Gate.antt =====
-- What a client can do before it has logged in.
use client_server_architectu.World.{std_exception, undefined_behaviour}
use client_server_architectu.Authenticator.Safety.{authenticate-eq-success}
use client_server_architectu.Authenticator.Frame.{objects-authenticate}
use client_server_architectu.Json.Access.{string_at-text_at, text_at}
use client_server_architectu.Authenticator.{
  success, failed_user_not_found, failed_account_locked, failed_alert_locked,
  failed_bad_credentials,
}
use client_server_architectu.Prelude.Dict
use client_server_architectu.Prelude.Int.{ℤ}
use client_server_architectu.Authenticator.{AuthResult, authenticate}
use client_server_architectu.CommandProcessor.{CommandResult, error_reply}
use client_server_architectu.Json.{Json, is_object}
use client_server_architectu.ClientSession.Run.{run}
use client_server_architectu.ClientSession.{Output, text}
use client_server_architectu.ClientSession.{
  try_login, malformed_login, internal_error, login, login_result, before_login, process_request,
  process_parsed, process_message,
}
use client_server_architectu.World.{
  on_json, on_std, User, continue, Result, json_exception, ok, err, World,
}
use client_server_architectu.Platform.{IsTyped, Platform}
use client_server_architectu.Prelude.{
  Option, Option-cases, ◌≢◌, inr, inl, arith, Bool-cases, ◌≡◌, ◌==◌, ℕ, true, some, false, String,
  refl,
}

-- The tables, the cache, the sessions and the queues are those of before.
abbrev pub KeepsData : World → World → Type 0
KeepsData w v =
    (v.users ≡ w.users)
    × (v.stock ≡ w.stock)
    × (v.cache ≡ w.cache)
    × (v.sessions ≡ w.sessions)
    × (v.events ≡ w.events)

module _ ⦃p : Platform⦄ where
  -- Whatever the platform does: a command other than "login" from a session that is not logged in
  -- is answered by a refusal, the connection stays open, and the tables of users and stock, the
  -- cache, the sessions, the queues and the session's objects stay as they were.
  pub process_message-refused :
      (n : ℕ) (message command : String) (request : Json) (w : World)
      → p.parse message ≡ some request
      → (w.objects n).is_authenticated ≡ false
      → p.value "command" "" request ≡ some command
      → (command == "login") ≡ false
      → let (o, v) = process_message n message w in
        (o ≡ ok (p.dump (error_reply "Authentication required. Please log in first."), true))
        × KeepsData w v
        × (v.objects ≡ w.objects)
  unfolding process_message process_parsed process_request before_login
  process_message-refused n message command request w parsed out named other =
      rw (parsed, out, named, other) (refl, (refl, refl, refl, refl, refl), refl)

  -- With a JSON library as documented: if a session that is not logged in reads a text that is JSON
  -- and no object, then the run of the session, and with it the task of the pool that has no handler,
  -- throws the exception of the library before anything is answered, and the tables of users and
  -- stock, the cache, the sessions, the queues and the sessions' objects stay as they were.
  pub run-escapes :
      (n : ℕ) (message : String) (out : Output) (late : Option String) (request : Json) (w : World)
      → IsTyped p
      → p.parse message ≡ some request
      → is_object request ≡ false
      → (w.objects n).is_authenticated ≡ false
      → let (o, v) = run n (text message) out late w in
        (o ≡ err json_exception) × KeepsData w v × (v.objects ≡ w.objects)
  unfolding run process_message process_parsed process_request before_login
  run-escapes n message out late request w h parsed no_object anonymous =
      rw (parsed, anonymous, h.value-is_object "command" "" request no_object)
        (refl, (refl, refl, refl, refl, refl), refl)

  -- the account whose password opened the session
  abbrev pub Admits : String → String → World → Type 0
  Admits user password w =
      (u : User) × (Dict.lookup user w.users ≡ some u)
      × (u.is_locked ≢ 1)
      × (p.validate_password password u.password_hash ≡ true)

  after_authenticate :
      (n : ℕ) (user password : String) (block : ℤ) (request : Json) (w : World)
      (r : Result AuthResult × World)
      → (w.objects n).is_authenticated ≡ false
      → r.1.objects ≡ w.objects
      → (r.0 ≡ ok success → Admits user password w)
      → ((continue (login_result n user) r).1.objects n).is_authenticated ≡ true
      → Admits user password w
  unfolding login_result
  after_authenticate n user password block request w (ok success, v) out e good h = good refl
  after_authenticate n user password block request w (ok failed_user_not_found, v) out e good h =
      absurd (ground (arith, e, out, h))
  after_authenticate n user password block request w (ok failed_account_locked, v) out e good h =
      absurd (ground (arith, e, out, h))
  after_authenticate n user password block request w (ok failed_alert_locked, v) out e good h =
      absurd (ground (arith, e, out, h))
  after_authenticate n user password block request w (ok failed_bad_credentials, v) out e good h =
      absurd (ground (arith, e, out, h))
  after_authenticate n user password block request w (err x, v) out e good h =
      absurd (ground (arith, e, out, h))

  closed_after :
      (n : ℕ) (result : Result CommandResult × World)
      → (result.1.objects n).is_authenticated ≡ false
      → (message : World → String)
      → ((on_std (internal_error message) (on_json (malformed_login n) result)).1.objects
          n).is_authenticated
        ≡ false
  unfolding internal_error malformed_login
  closed_after n (ok a, w) h message = h
  closed_after n (err json_exception, w) h message = h
  closed_after n (err std_exception, w) h message = h
  closed_after n (err undefined_behaviour, w) h message = h

  opened_after :
      (n : ℕ) (result : Result CommandResult × World) (message : World → String)
      → ((on_std (internal_error message) (on_json (malformed_login n) result)).1.objects
          n).is_authenticated
        ≡ true
      → (result.1.objects n).is_authenticated ≡ true
  opened_after n result message h = elim (Bool-cases (result.1.objects n).is_authenticated) [
    | inl e ↦ e
    | inr e ↦ absurd (ground (arith, h, closed_after n result e message))
  ]

  try_login-Admits :
      (n : ℕ) (request : Json) (w : World)
      → (w.objects n).is_authenticated ≡ false
      → ((try_login n request w).1.objects n).is_authenticated ≡ true
      → (payload : Json) × (user : String) × (password : String) × (p.at "payload" request
          ≡ some payload)
        × (text_at "hostname" payload ≡ some user)
        × (text_at "password" payload ≡ some password)
        × Admits user password w
  unfolding try_login
  try_login-Admits n request w out h = elim (Option-cases (p.at "payload" request)) [
    | inl e ↦ absurd (ground (arith, out, rw e at h))
    | inr (payload, e) ↦ elim (Option-cases (text_at "hostname" payload)) [
      | inl f ↦ absurd (ground (arith, out, rw (e, string_at-text_at, f) at h))
      | inr (user, f) ↦ elim (Option-cases (text_at "password" payload)) [
        | inl g ↦
            absurd (ground (arith, out, rw (e, string_at-text_at, f, string_at-text_at, g) at h))
        | inr (password, g) ↦ (
          payload,
          user,
          password,
          e,
          f,
          g,
          after_authenticate n user password w.config.block_time_seconds request w
              (authenticate user password w.config.block_time_seconds w) out
              (objects-authenticate user password w.config.block_time_seconds w)
              (authenticate-eq-success user password w.config.block_time_seconds w)
              (rw (e, string_at-text_at, f, string_at-text_at, g) at h),
        )
      ]
    ]
  ]

  -- Whatever the platform does: if a session that is not logged in is so after a login request, the
  -- request's payload names a registered user who is not locked by an alert, with its password.
  pub login-Admits :
      (n : ℕ) (request : Json) (w : World)
      → (w.objects n).is_authenticated ≡ false
      → ((login n request w).1.objects n).is_authenticated ≡ true
      → (payload : Json) × (user : String) × (password : String) × (p.at "payload" request
          ≡ some payload)
        × (text_at "hostname" payload ≡ some user)
        × (text_at "password" payload ≡ some password)
        × Admits user password w
  unfolding login
  login-Admits n request w out h =
      try_login-Admits n request w out (opened_after n (try_login n request w) _ h)
