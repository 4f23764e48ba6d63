-- ===== src/ClientSession/Events.antt =====
-- The delivery of queued events to a client that has logged in.
use client_server_architectu.EventQueue.Bounded.{queue-pop_event}
use client_server_architectu.Prelude.Int.{pos, leb_ℤ}
use client_server_architectu.EventQueue.{events_or_none, queue, pop_event, pop_from}
use client_server_architectu.ClientSession.{update_session}
use client_server_architectu.Prelude.Dict
use mathlib.Core.List.{append-nil}
use client_server_architectu.Prelude.Dict.{is_some}
use client_server_architectu.UdpHandler.{send, send_message_to_client}
use client_server_architectu.ClientSession.Run.{
  handle_event_queue, or_address, deliver, wait_for_address, handle_event,
}
use client_server_architectu.World.{>>=-ok, notification, ok, Datagram, Event, World}
use client_server_architectu.Platform.{Platform}
use client_server_architectu.Prelude.{
  if◌then◌else◌, ◌∙◌, ◌==◌, length, inr, inl, head?, drop, ap, Bool-cases, ◌≡◌, ◌∷◌, ◌||◌, ◌++◌, ℕ,
  sym, some, not, none, [], String, Option, List, refl,
}

module _ ⦃p : Platform⦄ where
  -- The address that the delivery finds: the session's own, or the one that is set meanwhile.
  abbrev pub address_of : ℕ → Option String → World → Option String
  address_of n late w = or_address (w.objects n).udp_address late

  -- the datagram of an event to an address, if there are both
  abbrev pub delivery : Option Event → Option String → List Datagram
  delivery (some event) (some address) = (address, event.message) ∷ []
  delivery event address = []

  deliver_lem :
      (client text : String) (address : Option String) (w : World)
      → let (o, v) = deliver client text address w in
        let event : Event = record { type = notification; message = text } in
        (o ≡ ok (is_some address))
        × (v.sent ≡ w.sent ++ delivery (some event) address)
        × (v.events ≡ w.events)
  unfolding deliver send_message_to_client send
  deliver_lem client text none w = (refl, sym (append-nil w.sent), refl)
  deliver_lem client text (some address) w =
      elim (Bool-cases (leb_ℤ (p.sendto (length w.sent)) (pos 0))) [
        | inl e ↦ rw e (refl, refl, refl)
        | inr e ↦ rw e (refl, refl, refl)
      ]

  handle_event_lem :
      (n : ℕ) (late : Option String) (client : String) (event : Option Event) (w : World)
      → let (o, v) = handle_event n late client event w in
        (o ≡ ok (not (is_some event) || is_some (address_of n late w)))
        × (v.sent ≡ w.sent ++ delivery event (address_of n late w))
        × (v.events ≡ w.events)
  unfolding handle_event wait_for_address deliver
  handle_event_lem n late client none w = (refl, sym (append-nil w.sent), refl)
  handle_event_lem n late client (some event) w =
      deliver_lem client event.message (address_of n late w)
        (update_session n (λ s. record s { udp_address = or_address s.udp_address late }) w)

  pop_from_frame :
      (client : String) (events : List Event) (w : World)
      → let v = (pop_from client events w).1 in (v.sent ≡ w.sent) × (v.objects ≡ w.objects)
  unfolding pop_from
  pop_from_frame client [] w = (refl, refl)
  pop_from_frame client (e ∷ []) w = (refl, refl)
  pop_from_frame client (e ∷ f ∷ es) w = (refl, refl)

  -- One turn of the delivery takes the oldest event of the client's queue, if there is one, and at
  -- most that one; it sends it to the session's address, and answers false exactly where there is an
  -- event and no address. The event leaves the queue either way, and every other queue stays.
  pub handle_event_queue-takes :
      (n : ℕ) (late : Option String) (j : String) (w : World)
      → let client = (w.objects n).client_id in
        let event = head? (queue client w) in
        let address = address_of n late w in
        let (o, v) = handle_event_queue n late w in
        (o ≡ ok (not (is_some event) || is_some address))
        × (v.sent ≡ w.sent ++ delivery event address)
        × (queue j v ≡ (if client == j then drop 1 (queue client w) else queue j w))
  unfolding handle_event_queue pop_event
  handle_event_queue-takes n late j w =
      let client = (w.objects n).client_id in
      let v = (pop_event client w).1 in
      let (o, q) = queue-pop_event client j w in
      let (s, x) = pop_from_frame client (queue client w) w in
      let (o', s', e') = handle_event_lem n late client (head? (queue client w)) v in
      rw (>>=-ok (pop_event client) (handle_event n late client) w o)
        (rw x at o', rw (x, s) at s', ap (λ m. events_or_none (Dict.lookup j m)) e' ∙ q)
