-- ===== src/SessionManager/Tables.antt =====
-- The sessions keep every invariant of the tables and the cache.
use client_server_architectu.Invariant.{invariant_rules, Holds, IsInvariant, Property}
use client_server_architectu.Platform.{Platform}
use client_server_architectu.Prelude.{contains, ℕ, String}
use client_server_architectu.SessionManager.{
  lock_client, note_connection, register_session, unlock_client, unregister_session,
}
use client_server_architectu.World.Keeps.{Keeps, Keeps-test}
use client_server_architectu.Traffic.Tables.{counted_rules}

module _ ⦃p : Platform⦄ (P : Property) (inv : IsInvariant P) where
  note_connection-Keeps : (client : String) → Keeps (Holds P) (note_connection client)
  unfolding note_connection
  note_connection-Keeps client =
      Keeps-test (λ w. contains w.sessions.connected_users client) _ _ (search counted_rules)
        (record { at = λ w h. h })

  pub register_session-Keeps :
      (client : String) (n : ℕ) → Keeps (Holds P) (register_session client n)
  unfolding register_session
  register_session-Keeps client n = search (invariant_rules, note_connection-Keeps)

  pub unregister_session-Keeps : (client : String) → Keeps (Holds P) (unregister_session client)
  unfolding unregister_session
  unregister_session-Keeps client = search invariant_rules

  pub lock_client-Keeps : (client : String) → Keeps (Holds P) (lock_client client)
  unfolding lock_client
  lock_client-Keeps client = search invariant_rules

  pub unlock_client-Keeps : (client : String) → Keeps (Holds P) (unlock_client client)
  unfolding unlock_client
  unlock_client-Keeps client = search invariant_rules
