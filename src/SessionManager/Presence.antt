-- ===== src/SessionManager/Presence.antt =====
-- Who is active and who is offline, whatever connects and leaves.
use client_server_architectu.World.{Sessions, World}
use client_server_architectu.SessionManager.{
  get_offline_users, note_connection, get_session, register_session, unregister_session,
}
use client_server_architectu.Platform.{Platform}
use client_server_architectu.Prelude.Dict
use client_server_architectu.Prelude.{
  if◌then◌else◌, ◌≡◌, ◌∷◌, ◌==◌, ℕ, true, some, set_erase, none, inr, inl, false, eq_iff, contains,
  arith, [], String, List, Bool-cases, refl, contains-set_insert, contains-set_erase,
}
use client_server_architectu.Prelude.Dict.{is_some, lookup-insert, lookup-erase}

-- A name with an active session is not offline, has connected before, and an offline name has too.
pub record IsPresence (s : Sessions) : Type 0 where
  pub apart :
      (j : String)
      → is_some (Dict.lookup j s.active_sessions) ≡ true
      → contains s.offline_users j ≡ false
  pub active_connected :
      (j : String)
      → is_some (Dict.lookup j s.active_sessions) ≡ true
      → contains s.connected_users j ≡ true

-- the calls of the sessions that log in and end
pub data Move : Type 0 where
  enters : String → ℕ → Move
  leaves : String → Move

module _ ⦃p : Platform⦄ where
  unfoldable pub move : Move → World → World
  move (enters client n) w = (register_session client n w).1
  move (leaves client) w = (unregister_session client w).1

  unfoldable pub moves : List Move → World → World
  moves [] w = w
  moves (x ∷ xs) w = moves xs (move x w)

  -- The sessions after a registration, on both branches.
  register_session_lem :
      (client : String) (n : ℕ) (w : World)
      → let s = w.sessions in
        let t = (register_session client n w).1.sessions in
        (t.active_sessions ≡ Dict.insert client n s.active_sessions)
        × (t.offline_users ≡ set_erase client s.offline_users)
        × (t.locked_clients ≡ s.locked_clients)
        × ((j : String)
            → contains t.connected_users j
              ≡ (if client == j then true else contains s.connected_users j))
  unfolding register_session note_connection
  register_session_lem client n w = elim (Bool-cases (contains w.sessions.connected_users client)) [
    | inl e ↦ rw e (refl, refl, refl, λ j. ground (arith, e, eq_iff client j))
    | inr e ↦ rw e (refl, refl, refl, λ j. contains-set_insert client j w.sessions.connected_users)
  ]

  register_session-IsPresence :
      (client : String) (n : ℕ) (w : World)
      → IsPresence w.sessions
      → IsPresence (register_session client n w).1.sessions
  register_session-IsPresence client n w h =
      let (a, o, _, c) = register_session_lem client n w in
      record {
        apart = λ j e.
            rw (o, contains-set_erase)
              (ground
                (arith, h.apart j, lookup-insert client j n w.sessions.active_sessions, rw a at e));
        active_connected = λ j e. rw c (
            ground (
              arith,
              h.active_connected j,
              lookup-insert client j n w.sessions.active_sessions,
              rw a at e,
            ));
      }

  unregister_session-IsPresence :
      (client : String) (w : World)
      → IsPresence w.sessions
      → IsPresence (unregister_session client w).1.sessions
  unfolding unregister_session
  unregister_session-IsPresence client w h = record {
    apart = λ j e. ground (
      arith,
      h.apart j,
      lookup-erase client j w.sessions.active_sessions,
      contains-set_insert client j w.sessions.offline_users,
      e,
    );
    active_connected = λ j e.
        ground (arith, h.active_connected j, lookup-erase client j w.sessions.active_sessions, e);
  }

  move-IsPresence : (x : Move) (w : World) → IsPresence w.sessions → IsPresence (move x w).sessions
  unfolding move
  move-IsPresence (enters client n) w h = register_session-IsPresence client n w h
  move-IsPresence (leaves client) w h = unregister_session-IsPresence client w h

  -- Whatever sessions are registered and unregistered: if every name with an active session is not
  -- offline and is known as connected before, this holds after them.
  pub moves-IsPresence :
      (xs : List Move) (w : World) → IsPresence w.sessions → IsPresence (moves xs w).sessions
  unfolding moves
  moves-IsPresence [] w h = h
  moves-IsPresence (x ∷ xs) w h = moves-IsPresence xs (move x w) (move-IsPresence x w h)

  -- Of two registrations of one name the second session is the active one; when either of the two
  -- connections ends, the name has no session and is offline, although the other is still open.
  unregister_session-second :
      (client : String) (n m : ℕ) (w : World)
      → let v = (register_session client m (register_session client n w).1).1 in
        (get_session client v ≡ some m)
        × (get_session client (unregister_session client v).1 ≡ none)
        × (contains (get_offline_users (unregister_session client v).1) client ≡ true)
  unfolding unregister_session
  unregister_session-second client n m w =
      let u = (register_session client n w).1 in
      let (a, _, _, _) = register_session_lem client m u in
      (
        rw (a, lookup-insert) (ground (arith, eq_iff client client)),
        rw lookup-erase (ground (arith, eq_iff client client)),
        rw contains-set_insert (ground (arith, eq_iff client client)),
      )
