-- ===== src/Tests/Runs.antt =====
-- The theorems on sessions, commands, alerts and queues at the small state.
use client_server_architectu.Tests.Documents
use client_server_architectu.Tests.{
  typed, documented, test_platform, reliable, ship, alert_text, list_text, status_text, no_session,
  alert_members, test_world,
}
use client_server_architectu.Json.{nil, object, array, member, end, string}
use client_server_architectu.UdpHandler.Broadcast.{broadcast_message-delivers}
use client_server_architectu.AlertManager.{process_alert}
use client_server_architectu.ClientSession.Gate.{KeepsData, run-escapes, process_message-refused}
use client_server_architectu.ClientSession.Events.{handle_event_queue-takes}
use client_server_architectu.EventQueue.Bounded.{queue-push_all, push_all}
use client_server_architectu.Prelude.Int.{pos}
use client_server_architectu.ClientSession.{process_message, text, written}
use client_server_architectu.Authenticator.{failed_alert_locked, authenticate}
use client_server_architectu.ClientSession.Run.{handle_event_queue, run}
use client_server_architectu.AlertManager.Alerts.{process_alert-locks, IsAlert}
use client_server_architectu.UdpHandler.{broadcast_message}
use client_server_architectu.EventQueue.{queue}
use client_server_architectu.World.{json_exception, err, ok, notification, Event, World}
use client_server_architectu.SessionManager.{unregister_session, get_session, register_session}
use client_server_architectu.SessionManager.Presence.{
  moves-IsPresence, leaves, moves, enters, Move, IsPresence,
}
use client_server_architectu.Prelude.{
  contains, ◌≡◌, ◌∷◌, true, some, none, false, arith, [], String, List, refl,
}
use client_server_architectu.Prelude.Dict
use client_server_architectu.SessionManager

abbrev event : String → Event
event message_text = record { type = notification; message = message_text }

abbrev three_events : List Event
three_events = event "a" ∷ event "b" ∷ event "c" ∷ []

queue-push_all_example :
    queue "Ship1" (push_all "Ship1" three_events test_world).1 ≡ event "b" ∷ event "c" ∷ []
unfolding Dict.lookup
queue-push_all_example =
    (queue-push_all "Ship1" three_events test_world 2 refl (omega arith) (omega arith)).1

-- one event waits for a session without an address
abbrev waiting_world : World
waiting_world = record test_world {
  events = ("Ship1", event "a" ∷ []) ∷ [];
  objects = λ n. record no_session { is_authenticated = true; client_id = "Ship1" };
}

handle_event_queue-takes_example :
    ((handle_event_queue 0 none waiting_world).0 ≡ ok false)
    × ((handle_event_queue 0 none waiting_world).1.sent ≡ [])
    × (queue "Ship1" (handle_event_queue 0 none waiting_world).1 ≡ [])
unfolding Dict.lookup
handle_event_queue-takes_example = handle_event_queue-takes 0 none "Ship1" waiting_world

-- one client is connected with an address, another is offline
abbrev mixed_world : World
mixed_world = record test_world {
  sessions = record test_world.sessions {
    active_sessions = ("Ship1", 0) ∷ [];
    offline_users = "Hub1" ∷ [];
  };
  objects = λ n. record no_session { udp_address = some "10.0.0.1:9" };
}

broadcast_message-delivers_example :
    (broadcast_message (string "x") mixed_world).1.sent ≡ ("10.0.0.1:9", "json") ∷ []
unfolding Dict.lookup contains SessionManager.active_addresses
broadcast_message-delivers_example =
    (broadcast_message-delivers (string "x") "Hub1" mixed_world 2 refl (omega arith)
      (λ i. omega arith) (refl, tt)).1

abbrev some_moves : List Move
some_moves = enters "Ship1" 0 ∷ enters "Ship1" 1 ∷ leaves "Ship1" ∷ []

test_world-IsPresence : IsPresence test_world.sessions
unfolding Dict.lookup contains
test_world-IsPresence = record { apart = λ j e. cc; active_connected = λ j e. cc }

moves-IsPresence_example : IsPresence (moves some_moves test_world).sessions
moves-IsPresence_example = moves-IsPresence some_moves test_world test_world-IsPresence

alert_document_lem : IsAlert (object alert_members) "infection" "zone 3" "Ship1"
unfolding Documents.set_member Documents.at Documents.find Documents.get_string
alert_document_lem = (_, refl, refl, refl, refl)

process_alert-locks_example :
    (authenticate "Ship1" "pw" (pos 900) (process_alert alert_text test_world).1).0
    ≡ ok failed_alert_locked
unfolding Dict.lookup
process_alert-locks_example =
    process_alert-locks alert_text "infection" "zone 3" "Ship1" "pw" (pos 900)
      (object alert_members) ship test_world documented reliable refl alert_document_lem refl
      (record { distinct = (refl, tt); found = refl; checked = omega arith })

process_message-refused_example : (process_message 0 status_text test_world).0 ≡ ok ("error", true)
unfolding Documents.value Documents.find Documents.get_string
process_message-refused_example =
    (process_message-refused 0 status_text "status"
      (object (member "command" (string "status") end)) test_world refl refl refl refl).0

run-escapes_example :
    let (o, v) = run 0 (text list_text) (written 90) none test_world in
    (o ≡ err json_exception) × KeepsData test_world v × (v.objects ≡ test_world.objects)
run-escapes_example =
    run-escapes 0 list_text (written 90) none (array nil) test_world typed refl refl refl
