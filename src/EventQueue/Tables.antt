-- ===== src/EventQueue/Tables.antt =====
-- The queues of events keep every invariant of the tables and the cache.
use client_server_architectu.Invariant.{log-Keeps, invariant_rules, Holds, IsInvariant, Property}
use client_server_architectu.EventQueue.{
  drop_oldest, pop_event, pop_from, push_event, queue, set_queue,
}
use client_server_architectu.Platform.{Platform}
use client_server_architectu.Prelude.{
  is_empty, if◌then◌else◌, leb, length, push_back, Bool, List, String, [], ◌∷◌, false, true,
}
use client_server_architectu.World.Keeps.{Keeps, Keeps-chosen}
use client_server_architectu.World.{World, Event, pure, ok, ◌>>◌}
use client_server_architectu.Prelude.Dict
use client_server_architectu.Logger.{info, warning, log, to_uint64}
use Prim.Native.String.{◌++◌}

module _ ⦃p : Platform⦄ (P : Property) (inv : IsInvariant P) where
  queued-Keeps :
      (client : String) (e : Event)
      → Keeps (Holds P) (λ v. (ok tt, set_queue client (push_back (queue client v) e) v))
  queued-Keeps client e = record { at = λ w h. h }

  popped-Keeps :
      (client : String) (es : List Event)
      → Keeps (Holds P) (λ w. (
        ok tt,
        if is_empty es
            then record w { events = Dict.erase client w.events }
            else set_queue client es w,
      ))
  popped-Keeps client es = record { at = λ w h. emptied (is_empty es) w h }
    where
      emptied :
          (b : Bool) (w : World)
          → Holds P w
          → Holds P (
              if b then record w { events = Dict.erase client w.events } else set_queue client es w)
      emptied true w h = h
      emptied false w h = h

  drop_oldest-Keeps : (client : String) (es : List Event) → Keeps (Holds P) (drop_oldest client es)
  unfolding drop_oldest
  drop_oldest-Keeps client [] = record { at = λ w h. h }
  drop_oldest-Keeps client (e ∷ es) = record {
    at = λ w h. (log-Keeps P inv warning "EventQueue" _).at (set_queue client es w) h;
  }

  pub push_event-Keeps : (client : String) (e : Event) → Keeps (Holds P) (push_event client e)
  unfolding push_event
  push_event-Keeps client e =
      Keeps-chosen
        (λ w. do
          if leb (to_uint64 w.config.queue_size) (length (queue client w))
              then drop_oldest client (queue client w)
              else pure tt
          (λ v. (ok tt, set_queue client (push_back (queue client v) e) v))
          log info "EventQueue" ("Event pushed to queue for client " ++ client))
        λ w. search (invariant_rules, drop_oldest-Keeps, queued-Keeps)

  pop_from-Keeps : (client : String) (es : List Event) → Keeps (Holds P) (pop_from client es)
  unfolding pop_from
  pop_from-Keeps client [] = search invariant_rules
  pop_from-Keeps client (e ∷ es) = search (invariant_rules, popped-Keeps)

  pub pop_event-Keeps : (client : String) → Keeps (Holds P) (pop_event client)
  unfolding pop_event
  pop_event-Keeps client = record { at = λ w. (pop_from-Keeps client (queue client w)).at w }
