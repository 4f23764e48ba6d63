-- ===== src/SessionManager/Locks.antt =====
-- The locks of clients: the set in memory beside the column `is_locked` of the table `users`.
use client_server_architectu.Storage
use client_server_architectu.Storage.{count_statement, set_locked, row_locked}
use client_server_architectu.SessionManager.{
  remember_lock, lock_client, unlock_client, is_client_locked,
}
use client_server_architectu.World.{ok, std_exception, err, World}
use client_server_architectu.Platform.{IsReliable, Platform}
use client_server_architectu.Prelude.Dict
use client_server_architectu.Prelude.{
  if◌then◌else◌, ◌⊎◌, ◌≡◌, ◌∷◌, true, set_insert, set_erase, inr, inl, false, eqb, eq_iff, contains,
  arith, [], String, List, Bool-cases, Bool, refl, contains-set_insert, contains-set_erase,
}
use client_server_architectu.Prelude.Dict.{
  is_some, lookup-update, NodupKeys, update-NodupKeys, count-lookup,
}

-- A client of the set has its row locked, and the rows are found by distinct keys.
pub record IsLocks (w : World) : Type 0 where
  pub distinct : NodupKeys w.users
  pub in_table :
      (j : String)
      → contains w.sessions.locked_clients j ≡ true
      → row_locked (Dict.lookup j w.users) ≡ true

pub data LockCall : Type 0 where
  locks unlocks asks : String → LockCall

-- only the row of the client is changed
abbrev SetsLock : String → Bool → World → World → Type 0
SetsLock client locked w v =
    v.users ≡ Dict.update client (set_locked (if locked then 1 else 0)) w.users

module _ ⦃p : Platform⦄ where
  set_client_lock_status-cases :
      (client : String) (locked : Bool) (w : World)
      → (Storage.set_client_lock_status client locked w ≡ (err std_exception, count_statement w))
        ⊎ (Storage.set_client_lock_status client locked w ≡ (
          ok (eqb (Dict.count client w.users) 1),
          record (count_statement w) {
            users = Dict.update client (set_locked (if locked then 1 else 0)) w.users;
          },
        ))
  unfolding Storage.set_client_lock_status
  set_client_lock_status-cases client locked w = ground arith

  -- What a lock leaves: nothing new after a throw; else the row is locked and, for a registered
  -- client, the set has the client.
  lock_client_lem :
      (client : String) (w : World)
      → NodupKeys w.users
      → let (o, v) = lock_client client w in
        ((o ≡ err std_exception) × (v.users ≡ w.users) × (v.sessions ≡ w.sessions))
        ⊎ ((o ≡ ok (is_some (Dict.lookup client w.users)))
            × SetsLock client true w v
            × (v.sessions.locked_clients ≡ (
                if is_some (Dict.lookup client w.users)
                then set_insert client w.sessions.locked_clients
                else w.sessions.locked_clients)))
  unfolding lock_client
  lock_client_lem client w d = elim (set_client_lock_status-cases client true w) [
    | inl e ↦ inl (rw e (refl, refl, refl))
    | inr e ↦ inr (
        rw (e, count-lookup client w.users d)
          (elim (Bool-cases (is_some (Dict.lookup client w.users))) [
            | inl f ↦ rw f (refl, refl, refl)
            | inr f ↦ rw f (refl, refl, refl)
          ]))
  ]

  unlock_client_lem :
      (client : String) (w : World)
      → NodupKeys w.users
      → let (o, v) = unlock_client client w in
        ((o ≡ err std_exception) × (v.users ≡ w.users) × (v.sessions ≡ w.sessions))
        ⊎ ((o ≡ ok (is_some (Dict.lookup client w.users)))
            × SetsLock client false w v
            × (v.sessions.locked_clients ≡ (
                if is_some (Dict.lookup client w.users)
                then set_erase client w.sessions.locked_clients
                else w.sessions.locked_clients)))
  unfolding unlock_client
  unlock_client_lem client w d = elim (set_client_lock_status-cases client false w) [
    | inl e ↦ inl (rw e (refl, refl, refl))
    | inr e ↦ inr (
        rw (e, count-lookup client w.users d)
          (elim (Bool-cases (is_some (Dict.lookup client w.users))) [
            | inl f ↦ rw f (refl, refl, refl)
            | inr f ↦ rw f (refl, refl, refl)
          ]))
  ]

  lock_client-IsLocks : (client : String) (w : World) → IsLocks w → IsLocks (lock_client client w).1
  lock_client-IsLocks client w h = elim (lock_client_lem client w h.distinct) [
    | inl (_, u, s) ↦ record {
      distinct = rw u h.distinct;
      in_table = λ j e. rw u (h.in_table j (rw s at e));
    }
    | inr (_, u, s) ↦ record {
      distinct = rw u (update-NodupKeys client (set_locked 1) w.users h.distinct);
      in_table = λ j e. rw u (lock_row j (rw s at e));
    }
  ]
    where
      lock_row :
          (j : String)
          → contains
              (if is_some (Dict.lookup client w.users)
                then set_insert client w.sessions.locked_clients
                else w.sessions.locked_clients)
              j
            ≡ true
          → row_locked (Dict.lookup j (Dict.update client (set_locked 1) w.users)) ≡ true
      lock_row j e = ground (
        arith,
        eq_iff client j,
        h.in_table j,
        e,
        lookup-update client j (set_locked 1) w.users,
        contains-set_insert client j w.sessions.locked_clients,
      )

  unlock_client-IsLocks :
      (client : String) (w : World) → IsLocks w → IsLocks (unlock_client client w).1
  unlock_client-IsLocks client w h = elim (unlock_client_lem client w h.distinct) [
    | inl (_, u, s) ↦ record {
      distinct = rw u h.distinct;
      in_table = λ j e. rw u (h.in_table j (rw s at e));
    }
    | inr (_, u, s) ↦ record {
      distinct = rw u (update-NodupKeys client (set_locked 0) w.users h.distinct);
      in_table = λ j e. rw u (unlock_row j (rw s at e));
    }
  ]
    where
      unlock_row :
          (j : String)
          → contains
              (if is_some (Dict.lookup client w.users)
                then set_erase client w.sessions.locked_clients
                else w.sessions.locked_clients)
              j
            ≡ true
          → row_locked (Dict.lookup j (Dict.update client (set_locked 0) w.users)) ≡ true
      unlock_row j e = ground (
        arith,
        eq_iff client j,
        h.in_table j,
        e,
        lookup-update client j (set_locked 0) w.users,
        contains-set_erase client j w.sessions.locked_clients,
      )

  is_client_locked-IsLocks :
      (client : String) (w : World) → IsLocks w → IsLocks (is_client_locked client w).1
  unfolding is_client_locked remember_lock Storage.is_client_locked
  is_client_locked-IsLocks client w h =
      elim (Bool-cases (contains w.sessions.locked_clients client)) [
        | inl e ↦ rw e h
        | inr e ↦ rw e (elim (Bool-cases (p.db_fault w.journal.statements)) [
          | inl f ↦ rw f (record { distinct = h.distinct; in_table = h.in_table })
          | inr f ↦ rw f (elim (Bool-cases (row_locked (Dict.lookup client w.users))) [
            | inl g ↦ rw g (record {
              distinct = h.distinct;
              in_table = λ j q. ground (
                arith,
                g,
                eq_iff client j,
                h.in_table j,
                q,
                contains-set_insert client j w.sessions.locked_clients,
              );
            })
            | inr g ↦ rw g (record { distinct = h.distinct; in_table = h.in_table })
          ])
        ])
      ]

  unfoldable pub lock_call : LockCall → World → World
  lock_call (locks client) w = (lock_client client w).1
  lock_call (unlocks client) w = (unlock_client client w).1
  lock_call (asks client) w = (is_client_locked client w).1

  unfoldable pub lock_calls : List LockCall → World → World
  lock_calls [] w = w
  lock_calls (x ∷ xs) w = lock_calls xs (lock_call x w)

  lock_call-IsLocks : (x : LockCall) (w : World) → IsLocks w → IsLocks (lock_call x w)
  unfolding lock_call
  lock_call-IsLocks (locks client) w h = lock_client-IsLocks client w h
  lock_call-IsLocks (unlocks client) w h = unlock_client-IsLocks client w h
  lock_call-IsLocks (asks client) w h = is_client_locked-IsLocks client w h

  -- For calls that each run whole, one after the other: whatever clients are locked, unlocked and
  -- asked about, and whichever statements fail, if every client of the set of locked clients has its
  -- row locked, this holds after the calls. (`LockRace` has calls that overlap.)
  pub lock_calls-IsLocks : (xs : List LockCall) (w : World) → IsLocks w → IsLocks (lock_calls xs w)
  unfolding lock_calls
  lock_calls-IsLocks [] w h = h
  lock_calls-IsLocks (x ∷ xs) w h = lock_calls-IsLocks xs (lock_call x w) (lock_call-IsLocks x w h)

module _ ⦃p : Platform⦄ (r : IsReliable p) where
  -- On a reliable database the set is transparent: whether a client is locked is what the row says.
  is_client_locked-eq-row_locked :
      (client : String) (w : World)
      → IsLocks w
      → (is_client_locked client w).0 ≡ ok (row_locked (Dict.lookup client w.users))
  unfolding is_client_locked remember_lock Storage.is_client_locked
  is_client_locked-eq-row_locked client w h =
      elim (Bool-cases (contains w.sessions.locked_clients client)) [
        | inl e ↦ rw (e, h.in_table client e) refl
        | inr e ↦
            rw (e, r.no_fault w.journal.statements)
              (elim (Bool-cases (row_locked (Dict.lookup client w.users))) [
                | inl g ↦ rw g refl
                | inr g ↦ rw g refl
              ])
      ]
