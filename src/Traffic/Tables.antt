-- ===== src/Traffic/Tables.antt =====
-- The counters, and the accessors of JSON, keep every invariant of the tables and the cache.
use client_server_architectu.Invariant.{log-Keeps, invariant_rules, Holds, IsInvariant, Property}
use client_server_architectu.Json.Access.{string_at}
use client_server_architectu.Json.{Json}
use client_server_architectu.Platform.{Platform}
use client_server_architectu.Prelude.{String}
use client_server_architectu.Traffic.{increment_error, increment_message, increment_reconnection}
use client_server_architectu.World.Keeps.{Keeps}

module _ (P : Property) where
  pub increment_message-Keeps : (a b : String) → Keeps (Holds P) (increment_message a b)
  increment_message-Keeps a b = record { at = λ w h. h }

  pub increment_error-Keeps : (a b : String) → Keeps (Holds P) (increment_error a b)
  increment_error-Keeps a b = record { at = λ w h. h }

  pub increment_reconnection-Keeps : (a b : String) → Keeps (Holds P) (increment_reconnection a b)
  increment_reconnection-Keeps a b = record { at = λ w h. h }

module _ ⦃p : Platform⦄ (P : Property) (inv : IsInvariant P) where
  pub string_at-Keeps : (key : String) (j : Json) → Keeps (Holds P) (string_at key j)
  string_at-Keeps key j = search invariant_rules

pub ruleset counted_rules = (
  invariant_rules, string_at-Keeps, increment_message-Keeps, increment_error-Keeps,
  increment_reconnection-Keeps,
)
