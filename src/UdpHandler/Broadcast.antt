-- ===== src/UdpHandler/Broadcast.antt =====
-- What a broadcast sends and queues.
use client_server_architectu.Logger.{info, log}
use client_server_architectu.SessionManager.{get_offline_users, get_active_udp_addresses}
use client_server_architectu.Json.{Json}
use client_server_architectu.Prelude.Dict
use client_server_architectu.EventQueue.Bounded.{
  push_event_frame, last_of, queue-push_event, length-last_of,
}
use client_server_architectu.EventQueue.{events_or_none, push_event, queue}
use client_server_architectu.Prelude.Int.{ltb_ℤ, pos}
use client_server_architectu.World.{
  json_exception, err, Event, notification, >>=-ok, ok, World, Datagram,
}
use client_server_architectu.UdpHandler.{
  bytes, handle_request, handle_message, broadcast_message, queue_all, send, queue_for,
  broadcast_to, send_all,
}
use client_server_architectu.Platform.{Platform}
use mathlib.Core.List.{append-nil, append_assoc}
use client_server_architectu.Prelude.{
  some, none, ap, false, eq_iff, contains, arith, if◌then◌else◌, ◌≤◌, ◌≡◌, ◌∷◌, ◌∙◌, ◌==◌, ◌<◌,
  ◌++◌, ℕ, sym, push_back, length, inr, inl, [], String, List, Bool-cases, refl,
}

-- the datagrams of a text to a list of addresses
abbrev pub datagrams : String → List String → List Datagram
datagrams text [] = []
datagrams text (a ∷ as') = (a, text) ∷ datagrams text as'

-- No element stands twice.
abbrev pub IsDistinct : List String → Type 0
IsDistinct [] = Unit
IsDistinct (x ∷ xs) = (contains xs x ≡ false) × IsDistinct xs

-- a queue with the text of an alert added, of which the last n events are kept
abbrev pub with_alert : ℕ → String → List Event → List Event
with_alert n text es = last_of n (push_back es (record { type = notification; message = text }))

fits_after :
    (u i : String) (n : ℕ) (text : String) (w : World)
    → length (queue i w) ≤ n
    → length (if u == i then with_alert n text (queue u w) else queue i w) ≤ n
fits_after u i n text w le = elim (Bool-cases (u == i)) [
  | inl e ↦ rw e (length-last_of n _)
  | inr e ↦ rw e le
]

module _ ⦃p : Platform⦄ where
  broadcast_to_lem :
      (text address : String) (w : World)
      → let (o, v) = broadcast_to text address w in
        (o ≡ ok tt)
        × (v.sent ≡ push_back w.sent (address, text))
        × (v.sessions ≡ w.sessions)
        × (v.events ≡ w.events)
        × (v.config ≡ w.config)
  unfolding broadcast_to send
  broadcast_to_lem text address w = elim (Bool-cases (ltb_ℤ (p.sendto (length w.sent)) (pos 0))) [
    | inl e ↦ rw e (refl, refl, refl, refl, refl)
    | inr e ↦ rw e (refl, refl, refl, refl, refl)
  ]

  send_all_lem :
      (text : String) (addresses : List String) (w : World)
      → let (o, v) = send_all text addresses w in
        (o ≡ ok tt)
        × (v.sent ≡ w.sent ++ datagrams text addresses)
        × (v.sessions ≡ w.sessions)
        × (v.events ≡ w.events)
        × (v.config ≡ w.config)
  unfolding send_all
  send_all_lem text [] w = (refl, sym (append-nil w.sent), refl, refl, refl)
  send_all_lem text (a ∷ as') w =
      let v = (broadcast_to text a w).1 in
      let (o, d, s, e, c) = broadcast_to_lem text a w in
      let (o', d', s', e', c') = send_all_lem text as' v in
      rw (>>=-ok (broadcast_to text a) (λ _. send_all text as') w o) (
        o',
        d' ∙ rw d (append_assoc w.sent ((a, text) ∷ []) (datagrams text as')),
        s' ∙ s,
        e' ∙ e,
        c' ∙ c,
      )

  queue_for_lem :
      (text user j : String) (w : World) (n : ℕ)
      → w.config.queue_size ≡ pos n
      → 0 < n
      → length (queue user w) ≤ n
      → let (o, v) = queue_for text user w in
        (o ≡ ok tt)
        × (queue j v ≡ (if user == j then with_alert n text (queue user w) else queue j w))
        × (v.sent ≡ w.sent)
        × (v.config ≡ w.config)
  unfolding queue_for
  queue_for_lem text user j w n size room le =
      let event : Event = record { type = notification; message = text } in
      let (o, q) = queue-push_event user j event w n size room le in
      let (c, s) = push_event_frame user event w in
      rw (>>=-ok (push_event user event) _ w o) (refl, q, s, c)

  queue_all_lem :
      (text j : String) (users : List String) (w : World) (n : ℕ)
      → w.config.queue_size ≡ pos n
      → 0 < n
      → ((i : String) → length (queue i w) ≤ n)
      → IsDistinct users
      → let (o, v) = queue_all text users w in
        (o ≡ ok tt)
        × (queue j v ≡ (if contains users j then with_alert n text (queue j w) else queue j w))
        × (v.sent ≡ w.sent)
  unfolding queue_all contains
  queue_all_lem text j [] w n size room le d = (refl, refl, refl)
  queue_all_lem text j (u ∷ us) w n size room le d =
      let v = (queue_for text u w).1 in
      let (o, q, s, c) = queue_for_lem text u j w n size room (le u) in
      let fits : (i : String) → length (queue i v) ≤ n = λ i.
        let (_, q', _, _) = queue_for_lem text u i w n size room (le u) in
        rw q' (fits_after u i n text w (le i)) in
      let (o', q', s') = queue_all_lem text j us v n (rw c size) room fits d.1 in
      rw (>>=-ok (queue_for text u) (λ _. queue_all text us) w o)
        (o', ground (arith, q, q', d.0, eq_iff u j), s' ∙ s)

  -- the second half of a broadcast, after its log message
  queue_all_after_log :
      (message text j : String) (w v : World) (n : ℕ)
      → w.config.queue_size ≡ pos n
      → 0 < n
      → ((i : String) → length (queue i w) ≤ n)
      → IsDistinct w.sessions.offline_users
      → v.config ≡ w.config
      → v.sessions ≡ w.sessions
      → v.events ≡ w.events
      → let (o, u) = queue_all text v.sessions.offline_users (log info "UdpHandler" message v).1 in
        (o ≡ ok tt)
        × (u.sent ≡ v.sent)
        × (queue j u ≡ (
            if contains w.sessions.offline_users j
            then with_alert n text (queue j w)
            else queue j w))
  queue_all_after_log message text j w v n size room le d c s e =
      let same : (i : String) → queue i v ≡ queue i w =
        λ i. ap (λ m. events_or_none (Dict.lookup i m)) e in
      let (o, q, sent) =
        queue_all_lem text j v.sessions.offline_users (log info "UdpHandler" message v).1 n
          (rw c size) room (λ i. rw (same i) (le i)) (rw s d) in
      (o, sent, ground (arith, q, same j, s))

  -- With room for n >= 1 events and at most n in every queue, and no name twice among the offline
  -- users, a broadcast returns; one datagram is handed to the socket for each active session with an
  -- address, also where a send fails; and the queue of each offline user, of no other, gets the alert
  -- and keeps its last n events.
  pub broadcast_message-delivers :
      (alert : Json) (j : String) (w : World) (n : ℕ)
      → w.config.queue_size ≡ pos n
      → 0 < n
      → ((i : String) → length (queue i w) ≤ n)
      → IsDistinct w.sessions.offline_users
      → let text = p.dump alert in
        let (o, v) = broadcast_message alert w in
        (o ≡ ok tt)
        × (v.sent ≡ w.sent ++ datagrams text (get_active_udp_addresses w))
        × (queue j v ≡ (
            if contains (get_offline_users w) j then with_alert n text (queue j w) else queue j w))
  unfolding broadcast_message
  broadcast_message-delivers alert j w n size room le d =
      let text = p.dump alert in
      let addresses = get_active_udp_addresses w in
      let v = (send_all text addresses w).1 in
      let (o, sent, s, e, c) = send_all_lem text addresses w in
      let (o', sent', q) = queue_all_after_log _ text j w v n size room le d c s e in
      rw (>>=-ok (send_all text addresses) _ w o) (o', sent' ∙ sent, q)

  -- A datagram whose text is JSON and no object: the exception of the JSON library leaves the handler.
  handle_message-escapes :
      (text address : String) (request : Json) (w : World)
      → p.parse text ≡ some request
      → p.value "command" "unknown" request ≡ none
      → (handle_message (bytes text) address w).0 ≡ err json_exception
  unfolding handle_message handle_request
  handle_message-escapes text address request w parsed no_object = rw (parsed, no_object) refl
