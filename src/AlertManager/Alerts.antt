-- ===== src/AlertManager/Alerts.antt =====
-- What a dangerous alert does to the client that it names.
use client_server_architectu.Authenticator.{failed_alert_locked, authenticate}
use client_server_architectu.Authenticator.Verdict.{authenticate-verdict, IsRow}
use client_server_architectu.Prelude.Int.{ℤ}
use client_server_architectu.Storage
use client_server_architectu.Json.Access.{string_at-text_at, text_at}
use client_server_architectu.Storage.{set_locked, is_registered}
use client_server_architectu.Prelude.Dict.{lookup-update, update-NodupKeys, count-lookup, NodupKeys}
use client_server_architectu.Logger.{to_uint64}
use client_server_architectu.AlertManager.{process_alert, lock_if_dangerous}
use client_server_architectu.Prelude.Dict
use client_server_architectu.Json.{string}
use client_server_architectu.SessionManager.{lock_client, get_active_udp_addresses}
use client_server_architectu.World.Stable.{>>=-Stable, Stable}
use client_server_architectu.EventQueue.{queue, drop_oldest, push_event}
use client_server_architectu.Json.{Json}
use client_server_architectu.World.{
  ◌>>◌, json_exception, std_exception, undefined_behaviour, err, on_json, User, >>=-ok, Result, ok,
  World, pure, notification, ◌>>=◌, Event, Exec,
}
use client_server_architectu.UdpHandler.{
  queue_for, send, broadcast_to, broadcast_message, send_all, queue_all,
}
use client_server_architectu.Platform.{IsReliable, Platform, IsJson}
use client_server_architectu.Prelude.{
  inr, inl, Option-cases, eq_iff, if◌then◌else◌, ◌||◌, ◌==◌, true, length, leb, false, Bool, ◌≡◌,
  ◌∷◌, ◌∙◌, some, arith, [], String, List, refl,
}

module _ ⦃p : Platform⦄ where
  -- The members of the document that the manager reads. It is an object, as it takes a category.
  abbrev pub IsAlert : Json → String → String → String → Type 0
  IsAlert j type message client =
      (alert : Json) × (p.set_member "category" (string "alert") j ≡ some alert)
      × (text_at "type" j ≡ some type)
      × (text_at "message" j ≡ some message)
      × (text_at "clientId" j ≡ some client)

  abbrev KeepsUsers : {A : Type 0} → Exec A → Type 0
  KeepsUsers m = Stable (λ w v. v.users ≡ w.users) m

  then_users :
      {A B : Type 0} (m : Exec A) (f : A → Exec B)
      → KeepsUsers m
      → ((a : A) → KeepsUsers (f a))
      → KeepsUsers (m >>= f)
  then_users m f = >>=-Stable (λ w v. v.users ≡ w.users) m f (λ u v w e e'. e' ∙ e)

  broadcast_to_users : (text address : String) → KeepsUsers (broadcast_to text address)
  unfolding broadcast_to send
  broadcast_to_users text address w = ground arith

  send_all_users : (text : String) (addresses : List String) → KeepsUsers (send_all text addresses)
  unfolding send_all
  send_all_users text [] = λ w. refl
  send_all_users text (a ∷ as') =
      then_users (broadcast_to text a) _ (broadcast_to_users text a) (λ _. send_all_users text as')

  drop_oldest_users : (user : String) (es : List Event) → KeepsUsers (drop_oldest user es)
  unfolding drop_oldest
  drop_oldest_users user [] = λ w. refl
  drop_oldest_users user (e ∷ es) = λ w. refl

  push_event_users : (user : String) (event : Event) → KeepsUsers (push_event user event)
  unfolding push_event
  push_event_users user event w =
      then_users
        (if leb (to_uint64 w.config.queue_size) (length (queue user w))
          then drop_oldest user (queue user w)
          else pure tt)
        _ (made_room (leb (to_uint64 w.config.queue_size) (length (queue user w)))) (λ _ v. refl) w
    where
      made_room :
          (full : Bool) → KeepsUsers (if full then drop_oldest user (queue user w) else pure tt)
      made_room true = drop_oldest_users user (queue user w)
      made_room false = λ v. refl

  queue_all_users : (text : String) (users : List String) → KeepsUsers (queue_all text users)
  unfolding queue_all queue_for
  queue_all_users text [] = λ w. refl
  queue_all_users text (u ∷ us) =
      then_users (queue_for text u) _
        (then_users (push_event u (record { type = notification; message = text })) _
          (push_event_users u (record { type = notification; message = text })) (λ _ w. refl))
        (λ _. queue_all_users text us)

  broadcast_message_users : (alert : Json) → KeepsUsers (broadcast_message alert)
  unfolding broadcast_message
  broadcast_message_users alert w =
      then_users (send_all (p.dump alert) (get_active_udp_addresses w)) _
        (send_all_users (p.dump alert) (get_active_udp_addresses w))
        (λ _ v. queue_all_users (p.dump alert) v.sessions.offline_users _) w

  lock_client-reliable :
      (client : String) (w : World)
      → IsReliable p
      → NodupKeys w.users
      → is_registered client w.users ≡ true
      → let (o, v) = lock_client client w in
        (o ≡ ok true) × (v.users ≡ Dict.update client (set_locked 1) w.users)
  unfolding lock_client Storage.set_client_lock_status
  lock_client-reliable client w r d known =
      rw (r.no_fault w.journal.statements, count-lookup client w.users d, known) (refl, refl)

  lock_if_dangerous_lem :
      (type client : String) (alert : Json) (w : World)
      → IsReliable p
      → NodupKeys w.users
      → is_registered client w.users ≡ true
      → ((type == "infection") || (type == "enemy_threat")) ≡ true
      → p.contains "clientId" alert ≡ true
      → text_at "clientId" alert ≡ some client
      → let (o, v) = lock_if_dangerous type alert w in
        (o ≡ ok tt) × (v.users ≡ Dict.update client (set_locked 1) w.users)
  unfolding lock_if_dangerous
  lock_if_dangerous_lem type client alert w r d known danger named text =
      let (o, u) = lock_client-reliable client w r d known in
      rw (named, string_at-text_at, text, danger, >>=-ok (lock_client client) _ w o) (refl, u)

  -- The category leaves the other members as they are.
  text_at-set_member :
      (k : String) (v j alert : Json)
      → IsJson p
      → p.set_member "category" v j ≡ some alert
      → ("category" == k) ≡ false
      → text_at k alert ≡ text_at k j
  text_at-set_member k v j alert laws set other =
      rw (laws.at-set_member "category" k v j alert set, other) refl

  contains-text_at :
      (k s : String) (j : Json) → IsJson p → text_at k j ≡ some s → p.contains k j ≡ true
  contains-text_at k s j laws h = elim (Option-cases (p.at k j)) [
    | inl e ↦ cc (rw e at h)
    | inr (v, e) ↦ laws.contains-at k j v e
  ]

  handled_users :
      (handler : Exec (Unit {0})) (r : Result (Unit {0}) × World)
      → KeepsUsers handler
      → (on_json handler r).1.users ≡ r.1.users
  handled_users handler (ok a, v) h = refl
  handled_users handler (err json_exception, v) h = h v
  handled_users handler (err std_exception, v) h = refl
  handled_users handler (err undefined_behaviour, v) h = refl

  locked_then_broadcast :
      (handler : Exec (Unit {0})) (type client : String) (alert : Json) (v : World)
      → KeepsUsers handler
      → IsReliable p
      → NodupKeys v.users
      → is_registered client v.users ≡ true
      → ((type == "infection") || (type == "enemy_threat")) ≡ true
      → p.contains "clientId" alert ≡ true
      → text_at "clientId" alert ≡ some client
      → (on_json handler ((lock_if_dangerous type alert >> broadcast_message alert) v)).1.users
        ≡ Dict.update client (set_locked 1) v.users
  locked_then_broadcast handler type client alert v keeps r d known danger named text =
      let (o, e) = lock_if_dangerous_lem type client alert v r d known danger named text in
      rw (>>=-ok (lock_if_dangerous type alert) (λ _. broadcast_message alert) v o) (
        handled_users handler (broadcast_message alert (lock_if_dangerous type alert v).1) keeps
        ∙ broadcast_message_users alert (lock_if_dangerous type alert v).1
        ∙ e)

  process_alert_lem :
      (text type message client : String) (j : Json) (w : World)
      → IsJson p
      → IsReliable p
      → p.parse text ≡ some j
      → IsAlert j type message client
      → ((type == "infection") || (type == "enemy_threat")) ≡ true
      → NodupKeys w.users
      → is_registered client w.users ≡ true
      → (process_alert text w).1.users ≡ Dict.update client (set_locked 1) w.users
  unfolding process_alert
  process_alert_lem text type message client j w laws r parsed (alert, set, t, e, c) danger d
        known =
      let kept : (k : String) → ("category" == k) ≡ false → text_at k alert ≡ text_at k j =
        λ k other. text_at-set_member k (string "alert") j alert laws set other in
      let named = kept "clientId" refl ∙ c in
      rw
        (
          parsed,
          set,
          string_at-text_at,
          kept "type" refl,
          t,
          string_at-text_at,
          kept "message" refl,
          e,
        )
        (locked_then_broadcast _ type client alert _ (λ v. refl) r d known danger
          (contains-text_at "clientId" client alert laws named) named)

  -- On a reliable database, with the JSON library as documented: after an alert of the type
  -- "infection" or "enemy_threat" that names a registered client, every login of that client is
  -- answered with the lock of an alert, whatever the password and the time, and whatever becomes of
  -- the broadcast.
  pub process_alert-locks :
      (text type message client password : String) (block : ℤ) (j : Json) (u : User) (w : World)
      → IsJson p
      → IsReliable p
      → p.parse text ≡ some j
      → IsAlert j type message client
      → ((type == "infection") || (type == "enemy_threat")) ≡ true
      → IsRow client u w
      → (authenticate client password block (process_alert text w).1).0 ≡ ok failed_alert_locked
  process_alert-locks text type message client password block j u w laws r parsed a danger row =
      let v = (process_alert text w).1 in
      let e =
        process_alert_lem text type message client j w laws r parsed a danger row.distinct
          (rw row.found refl) in
      let locked : IsRow client (set_locked 1 u) v = record {
        distinct = rw e (update-NodupKeys client (set_locked 1) w.users row.distinct);
        found = rw (e, lookup-update, row.found) (ground (arith, eq_iff client client));
        checked = row.checked;
      } in
      let (o, _, _) = authenticate-verdict r client password block (set_locked 1 u) v locked in o
