-- ===== src/SessionManager/LockRace.antt =====
-- `lockClient` and `unlockClient` of several threads: the statement is one critical section, and the
-- write of the set of locked clients is another.
use client_server_architectu.Platform.{IsReliable, Platform}
use client_server_architectu.Prelude.Dict
use client_server_architectu.Prelude.Dict.{
  NodupKeys, count-lookup, is_some, lookup-update, update-NodupKeys,
}
use client_server_architectu.Prelude.{
  Bool, List, String, [], arith, contains-set_insert, eq_refl, false, if◌then◌else◌, refl, true,
  ◌++◌, ◌∷◌, ◌≡◌,
}
use client_server_architectu.SessionManager.{is_client_locked, settle_lock}
use client_server_architectu.Storage
use client_server_architectu.Storage.{count_statement, row_locked, set_locked}
use client_server_architectu.World.{World, ok}

-- The state, and the clients whose statement has succeeded and whose lock or unlock (the flag) is
-- not settled yet.
pub record LockState : Type 0 where
  pub world : World
  pub pending : List (String × Bool)

abbrev pub settled : World → LockState
settled w = record { world = w; pending = [] }

module _ ⦃p : Platform⦄ where
  pub data LockStep (s : LockState) : LockState → Type 0 where
    states :
        (client : String) (locked : Bool) {w : World}
        → Storage.set_client_lock_status client locked s.world ≡ (ok true, w)
        → LockStep s (record { world = w; pending = (client, locked) ∷ s.pending })
    settles :
        (before after : List (String × Bool)) (client : String) (locked : Bool)
        → s.pending ≡ before ++ (client, locked) ∷ after
        → LockStep s
            (record { world = (settle_lock client locked s.world).1; pending = before ++ after })

  pub data LockSteps (s : LockState) : LockState → Type 0 where
    begins : LockSteps s s
    goes_on : {t u : LockState} → LockSteps s t → LockStep t u → LockSteps s u

  -- the world after a statement that succeeds
  abbrev stated : String → Bool → World → World
  stated client locked w = record (count_statement w) {
    users = Dict.update client (set_locked (if locked then 1 else 0)) w.users;
  }

  set_client_lock_status-stated :
      (client : String) (locked : Bool) (w : World)
      → IsReliable p
      → NodupKeys w.users
      → is_some (Dict.lookup client w.users) ≡ true
      → Storage.set_client_lock_status client locked w ≡ (ok true, stated client locked w)
  unfolding Storage.set_client_lock_status
  set_client_lock_status-stated client locked w r d e =
      rw (r.no_fault w.journal.statements, count-lookup client w.users d, e) refl

  -- On a reliable database, for every registered client: a lock and an unlock at the same time can
  -- both succeed and leave the row of the client unlocked and the client in the set of locked
  -- clients, with nothing pending, so that `isClientLocked` answers that it is locked.
  pub is_client_locked-stale :
      (client : String) (w : World)
      → IsReliable p
      → NodupKeys w.users
      → is_some (Dict.lookup client w.users) ≡ true
      → (t : World) × LockSteps (settled w) (settled t)
        × (row_locked (Dict.lookup client t.users) ≡ false)
        × ((is_client_locked client t).0 ≡ ok true)
  unfolding is_client_locked
  is_client_locked-stale client w r d e =
      let w1 = stated client true w in
      let w2 = stated client false w1 in
      let w3 = (settle_lock client false w2).1 in
      let d1 = update-NodupKeys client (set_locked 1) w.users d in
      let e1 : is_some (Dict.lookup client w1.users) ≡ true =
        ground (arith, lookup-update client client (set_locked 1) w.users, eq_refl client) in
      (
        (settle_lock client true w3).1,
        goes_on
            (goes_on
              (goes_on
                (goes_on begins
                  (states client true (set_client_lock_status-stated client true w r d e)))
                (states client false (set_client_lock_status-stated client false w1 r d1 e1)))
              (settles [] ((client, true) ∷ []) client false refl))
            (settles [] [] client true refl),
        ground (arith, lookup-update client client (set_locked 0) w1.users, eq_refl client),
        rw (contains-set_insert client client w3.sessions.locked_clients, eq_refl client) refl,
      )
