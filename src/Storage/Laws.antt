-- ===== src/Storage/Laws.antt =====
-- What the statements on the table `users` do where no fault of the platform interferes.
use client_server_architectu.Prelude.{
  ◌≤◌, ◌≡◌, refl, String, true, false, none, some, [], ◌∷◌, arith, eq_iff,
}
use client_server_architectu.Prelude.Dict
use client_server_architectu.Prelude.Dict.{Dict, NodupKeys}
use client_server_architectu.Prelude.Int.{ℤ}
use client_server_architectu.Platform.{Platform, IsReliable}
use client_server_architectu.World.{World, User, ok}
use client_server_architectu.Storage.{
  count_statement, check_attempts, reset_attempts, add_attempt, update_login_attempts,
}

check_attempts_absent :
    (k : String) (m : Dict User) → Dict.lookup k m ≡ none → check_attempts k m ≡ true
unfolding check_attempts Dict.lookup
check_attempts_absent k [] h = refl
check_attempts_absent k ((j, u) ∷ m) h = ground (arith, check_attempts_absent k m)

-- The check of a statement that adds an attempt passes where the one row of the key has room.
pub check_attempts-lookup :
    (k : String) (m : Dict User) (u : User)
    → NodupKeys m
    → Dict.lookup k m ≡ some u
    → u.failed_attempts ≤ 2
    → check_attempts k m ≡ true
unfolding check_attempts Dict.lookup
check_attempts-lookup k [] u d h le = refl
check_attempts-lookup k ((j, v) ∷ m) u d h le =
    ground (arith, eq_iff j k, check_attempts_absent k m, check_attempts-lookup k m u d.1)

module _ ⦃p : Platform⦄ (r : IsReliable p) (k : String) (t : ℤ) (w : World) where
  pub update_login_attempts-true :
      update_login_attempts k true t w
      ≡ (ok tt, record (count_statement w) { users = Dict.update k reset_attempts w.users })
  unfolding update_login_attempts
  update_login_attempts-true = ground (arith, r.no_fault w.journal.statements)

  pub update_login_attempts-false :
      check_attempts k w.users ≡ true
      → update_login_attempts k false t w
        ≡ (ok tt, record (count_statement w) { users = Dict.update k (add_attempt t) w.users })
  unfolding update_login_attempts
  update_login_attempts-false h = ground (arith, r.no_fault w.journal.statements)
