-- ===== src/EventQueue.antt =====
-- src/server/eventQueue.cpp: for each client a queue of events of bounded length; when it is full
-- the oldest event is dropped. `m_queueSize` is read from the configuration of the state.
pub mod Bounded
pub mod Tables
use client_server_architectu.Platform.{Platform}
use client_server_architectu.Prelude.{
  if◌then◌else◌, ◌∷◌, some, push_back, none, length, leb, is_empty, [], String, Option, List,
}
use Prim.Native.String.{◌++◌}
use client_server_architectu.Prelude.Dict
use client_server_architectu.Storage.{or_empty}
use client_server_architectu.Logger.{to_uint64, info, warning, log}
use client_server_architectu.World.{
  World, Event, Exec, ok, err, undefined_behaviour, pure, ◌>>=◌, ◌>>◌,
}

-- `m_eventQueueMap[clientID]`: empty where there is none
abbrev pub events_or_none : Option (List Event) → List Event
events_or_none none = []
events_or_none (some es) = es

abbrev pub queue : String → World → List Event
queue client w = events_or_none (Dict.lookup client w.events)

abbrev pub set_queue : String → List Event → World → World
set_queue client es w = record w { events = Dict.insert client es w.events }

module _ ⦃p : Platform⦄ where
  -- Makes room: `pop_front` of an empty queue is undefined.
  unfoldable pub drop_oldest : String → List Event → Exec (Unit {0})
  drop_oldest client [] w = (err undefined_behaviour, w)
  drop_oldest client (e ∷ es) w =
      log warning "EventQueue"
        ("Event queue for client " ++ client ++ " is full. Oldest event dropped.")
        (set_queue client es w)

  unfoldable pub push_event : String → Event → Exec (Unit {0})
  unfolding drop_oldest
  push_event client event w =
      (do
        if leb (to_uint64 w.config.queue_size) (length (queue client w))
            then drop_oldest client (queue client w)
            else pure tt
        (λ v. (ok tt, set_queue client (push_back (queue client v) event) v))
        log info "EventQueue" ("Event pushed to queue for client " ++ client))
        w

  -- The event, if there is one; an emptied queue is removed.
  unfoldable pub pop_from : String → List Event → Exec (Option Event)
  pop_from client [] = do
    log info "EventQueue" ("No events to pop for client " ++ client)
    pure none
  pop_from client (e ∷ es) = do
    (λ w. (
      ok tt,
      if is_empty es
          then record w { events = Dict.erase client w.events }
          else set_queue client es w,
    ))
    log info "EventQueue" ("Event popped from queue for client " ++ client)
    pure (some e)

  unfoldable pub pop_event : String → Exec (Option Event)
  unfolding pop_from
  pop_event client w = pop_from client (queue client w) w
