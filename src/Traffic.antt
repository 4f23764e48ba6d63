-- ===== src/Traffic.antt =====
-- src/server/trafficReporter.cpp: three families of counters, one counter for each pair of a
-- protocol and a direction, added when it is first needed. The exposer (Prometheus) is left out.
pub mod Laws
pub mod Tables
use client_server_architectu.Prelude.{
  ℕ, zero, suc, String, Bool, ◌&&◌, List, [], ◌∷◌, ◌==◌, if◌then◌else◌,
}
use client_server_architectu.World.{World, Counter, Traffic, Exec, ok}

abbrev pub has_label : String → String → Counter → Bool
has_label protocol direction c = (c.protocol == protocol) && (c.direction == direction)

-- `find`, `Add` of a counter at 0 where there is none, and `Increment`
unfoldable pub increment : String → String → List Counter → List Counter
increment protocol direction [] =
    record { protocol = protocol; direction = direction; count = 1 } ∷ []
increment protocol direction (c ∷ cs) =
    if has_label protocol direction c
    then record c { count = suc c.count } ∷ cs
    else c ∷ increment protocol direction cs

unfoldable pub get_count : String → String → List Counter → ℕ
get_count protocol direction [] = 0
get_count protocol direction (c ∷ cs) =
    if has_label protocol direction c then c.count else get_count protocol direction cs

abbrev pub increment_message : String → String → Exec (Unit {0})
increment_message protocol direction w = (
  ok tt,
  record w {
    traffic = record w.traffic { messages = increment protocol direction w.traffic.messages };
  },
)

abbrev pub increment_error : String → String → Exec (Unit {0})
increment_error protocol direction w = (
  ok tt,
  record w {
    traffic = record w.traffic { errors = increment protocol direction w.traffic.errors };
  },
)

abbrev pub increment_reconnection : String → String → Exec (Unit {0})
increment_reconnection protocol direction w = (
  ok tt,
  record w {
    traffic = record w.traffic {
      reconnections = increment protocol direction w.traffic.reconnections;
    };
  },
)

abbrev pub get_message_count : String → String → World → ℕ
get_message_count protocol direction w = get_count protocol direction w.traffic.messages

abbrev pub get_error_count : String → String → World → ℕ
get_error_count protocol direction w = get_count protocol direction w.traffic.errors

abbrev pub get_reconnection_count : String → String → World → ℕ
get_reconnection_count protocol direction w = get_count protocol direction w.traffic.reconnections
