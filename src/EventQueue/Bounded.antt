-- ===== src/EventQueue/Bounded.antt =====
-- The queues as bounded lists: a push keeps the last events, a pop takes the oldest.
use mathlib.Core.List.{append-nil, append_assoc}
use client_server_architectu.Logger.{to_uint64}
use client_server_architectu.Prelude.Dict.{lookup-erase, lookup-insert}
use client_server_architectu.Prelude.Int.{pos}
use client_server_architectu.World.{>>=-ok, ◌>>◌, pure, Exec, ok, World, Event}
use client_server_architectu.Platform.{Platform}
use client_server_architectu.Prelude.{
  sym, head?, ◌+◌, ◌++◌, length-drop, drop-drop, drop-append, ◌∙◌, suc, length-append, leb→le,
  eq_iff, ap, ◌⊎◌, ◌∷◌, true, refl, leb, inr, inl, false, arith, [], Bool-cases, if◌then◌else◌, ◌≤◌,
  ◌≡◌, ◌==◌, ◌<◌, ◌-◌, ℕ, push_back, length, drop, String, List,
}
use client_server_architectu.EventQueue.{set_queue, queue, push_event, pop_event, drop_oldest}

-- the last n of a list
abbrev pub last_of : ℕ → List Event → List Event
last_of n es = drop (length es - n) es

last_of-le : (n : ℕ) (es : List Event) → length es ≤ n → last_of n es ≡ es
last_of-le n es h = let e : length es - n ≡ 0 = omega arith in ap (λ k. drop k es) e

last_of-eq : (n : ℕ) (x : Event) (es : List Event) → length es ≡ n → last_of n (x ∷ es) ≡ es
last_of-eq n x es h = let e : suc (length es) - n ≡ 1 = omega arith in ap (λ k. drop k (x ∷ es)) e

last_of-append :
    (n : ℕ) (xs ys : List Event) → last_of n (last_of n xs ++ ys) ≡ last_of n (xs ++ ys)
last_of-append n xs ys =
    let k = length xs - n in
    let m = length (drop k (xs ++ ys)) - n in
    let joined = drop-append k xs ys (omega arith) in
    let sum : k + m ≡ length (xs ++ ys) - n =
      omega (arith, length-append xs ys, length-drop k (xs ++ ys)) in
    rw (← joined) (drop-drop m k (xs ++ ys) ∙ ap (λ i. drop i (xs ++ ys)) sum)

pub length-last_of : (n : ℕ) (es : List Event) → length (last_of n es) ≤ n
length-last_of n es = omega (arith, length-drop (length es - n) es)

module _ ⦃p : Platform⦄ where
  -- With room for n >= 1 events and at most n in the queue, a push returns, the client's queue
  -- becomes the last n of its events and the new one, and every other queue stays.
  pub queue-push_event :
      (client j : String) (event : Event) (w : World) (n : ℕ)
      → w.config.queue_size ≡ pos n
      → 0 < n
      → length (queue client w) ≤ n
      → ((push_event client event w).0 ≡ ok tt)
        × (queue j (push_event client event w).1
            ≡ (if client == j then last_of n (push_back (queue client w) event) else queue j w))
  unfolding push_event
  queue-push_event client j event w n size room le =
      go (queue client w) refl le (Bool-cases (leb n (length (queue client w))))
    where
      after :
          (es : List Event) (v : World)
          → queue client v ≡ es
          → queue j (set_queue client (push_back (queue client v) event) v)
            ≡ (if client == j then push_back es event else queue j v)
      after es v e = rw (e, lookup-insert) (ground arith)

      go :
          (es : List Event)
          → queue client w ≡ es
          → length es ≤ n
          → (leb n (length (queue client w)) ≡ true) ⊎ (leb n (length (queue client w)) ≡ false)
          → ((push_event client event w).0 ≡ ok tt)
            × (queue j (push_event client event w).1
                ≡ (if client == j then last_of n (push_back (queue client w) event) else queue j w))
      go [] e h (inl full) = absurd (ground (arith, e))
      go (x ∷ es) e h (inl full) =
          let full' : leb (to_uint64 w.config.queue_size) (length (queue client w)) ≡ true =
            rw size full in
          let v = (drop_oldest client (x ∷ es) w).1 in
          let own : queue client v ≡ es = rw lookup-insert (ground (arith, eq_iff client client)) in
          let other : queue j v ≡ (if client == j then es else queue j w) =
            rw lookup-insert (ground arith) in
          let shift = last_of-eq n x (push_back es event) (
            omega (
              arith,
              length-append es (event ∷ []),
              ap length e,
              leb→le n (length (queue client w)) full,
            )) in
          rw (full', e) (refl, after es v own ∙ ground (arith, shift, other))
      go es e h (inr free) =
          let free' : leb (to_uint64 w.config.queue_size) (length (queue client w)) ≡ false =
            rw size free in
          let room_left : length (queue client w) < n = ground arith in
          let keep =
            last_of-le n (push_back (queue client w) event)
              (omega (arith, length-append (queue client w) (event ∷ []), room_left)) in
          rw (free', keep) (refl, after (queue client w) w refl)

  -- A pop of an empty queue answers nothing; of another, the oldest event, and the rest stays. Every
  -- other queue stays.
  pub queue-pop_event :
      (client j : String) (w : World)
      → ((pop_event client w).0 ≡ ok (head? (queue client w)))
        × (queue j (pop_event client w).1
            ≡ (if client == j then drop 1 (queue client w) else queue j w))
  unfolding pop_event
  queue-pop_event client j w = go (queue client w) refl
    where
      go :
          (es : List Event)
          → queue client w ≡ es
          → ((pop_event client w).0 ≡ ok (head? (queue client w)))
            × (queue j (pop_event client w).1
                ≡ (if client == j then drop 1 (queue client w) else queue j w))
      go [] e = rw e (refl, ground (arith, e, eq_iff client j))
      go (x ∷ []) e = rw (e, lookup-erase) (refl, ground arith)
      go (x ∷ y ∷ es) e = rw (e, lookup-insert) (refl, ground arith)

  -- the pushes of a list of events, one after the other
  abbrev pub push_all : String → List Event → Exec (Unit {0})
  push_all client [] = pure tt
  push_all client (e ∷ es) = push_event client e >> push_all client es

  -- A push leaves the configuration and the datagrams alone.
  pub push_event_frame :
      (client : String) (event : Event) (w : World)
      → ((push_event client event w).1.config ≡ w.config)
        × ((push_event client event w).1.sent ≡ w.sent)
  unfolding push_event
  push_event_frame client event w =
      go (queue client w) refl
        (Bool-cases (leb (to_uint64 w.config.queue_size) (length (queue client w))))
    where
      go :
          (es : List Event)
          → queue client w ≡ es
          → (leb (to_uint64 w.config.queue_size) (length (queue client w)) ≡ true)
            ⊎ (leb (to_uint64 w.config.queue_size) (length (queue client w)) ≡ false)
          → ((push_event client event w).1.config ≡ w.config)
            × ((push_event client event w).1.sent ≡ w.sent)
      go [] e (inl full) = rw (full, e) (refl, refl)
      go (x ∷ es) e (inl full) = rw (full, e) (refl, refl)
      go es e (inr free) = rw free (refl, refl)

  -- With room for n >= 1 events and at most n in the queue, pushing a list of events returns and
  -- leaves the last n of the queue followed by the list: the n newest, oldest first.
  pub queue-push_all :
      (client : String) (events : List Event) (w : World) (n : ℕ)
      → w.config.queue_size ≡ pos n
      → 0 < n
      → length (queue client w) ≤ n
      → ((push_all client events w).0 ≡ ok tt)
        × (queue client (push_all client events w).1 ≡ last_of n (queue client w ++ events))
  queue-push_all client [] w n size room le =
      (refl, rw append-nil (sym (last_of-le n (queue client w) le)))
  queue-push_all client (e ∷ es) w n size room le =
      let v = (push_event client e w).1 in
      let (o, q) = queue-push_event client client e w n size room le in
      let own : queue client v ≡ last_of n (push_back (queue client w) e) =
        ground (arith, q, eq_iff client client) in
      let fits : length (queue client v) ≤ n =
        rw own (length-last_of n (push_back (queue client w) e)) in
      let (o', q') =
        queue-push_all client es v n (rw (push_event_frame client e w).0 size) room fits in
      rw (>>=-ok (push_event client e) (λ _. push_all client es) w o) (
        o',
        q'
            ∙ rw own (
                last_of-append n (push_back (queue client w) e) es
                ∙ ap (last_of n) (append_assoc (queue client w) (e ∷ []) es)),
      )
