-- ===== src/Authenticator/Safety.antt =====
-- Who can log in, whatever the platform does.
use client_server_architectu.Logger.{warning, log}
use client_server_architectu.Prelude.Dict
use client_server_architectu.World.{pure, User, ◌>>◌, >>=-eq-ok, ok, World}
use client_server_architectu.Prelude.Int.{ℤ}
use client_server_architectu.Storage.{
  auth_data, get_user_login_data, update_login_attempts, UserAuthData,
}
use client_server_architectu.Prelude.{
  none, Option-cases, Option, if◌then◌else◌, ◌≢◌, inr, arith, inl, Bool-cases, true, false, ◌≡◌,
  some, String,
}
use client_server_architectu.Platform.{Platform}
use client_server_architectu.Authenticator.{
  read_clock, failed_account_locked, in_block_window, authenticate, clear_expired, count_failure,
  check_user, check_password, success,
}

module _ ⦃p : Platform⦄ where
  check_password-eq-success :
      (k password : String) (auth : UserAuthData) (now : ℤ) (w : World)
      → (check_password k password auth now w).0 ≡ ok success
      → p.validate_password password auth.password_hash ≡ true
  unfolding check_password count_failure
  check_password-eq-success k password auth now w h =
      elim (Bool-cases (p.validate_password password auth.password_hash)) [
        | inl e ↦ e
        | inr e ↦ absurd (failed (rw e at h))
      ]
    where
      failed : (count_failure k auth.failed_attempts now w).0 ≡ ok success → ⊥
      failed q =
          let (_, _, r) = >>=-eq-ok (update_login_attempts k false now) _ w q in ground (arith, r)

  check_user-eq-success :
      (k password : String) (block : ℤ) (auth : UserAuthData) (w : World)
      → (check_user k password block (some auth) w).0 ≡ ok success
      → (auth.is_locked ≡ false) × (p.validate_password password auth.password_hash ≡ true)
  unfolding check_user check_password
  check_user-eq-success k password block auth w h = elim (Bool-cases auth.is_locked) [
    | inl e ↦ cc (rw e at h)
    | inr e ↦ (e, unlocked _ (p.clock w.journal.readings) (read_clock w).1 (rw e at h))
  ]
    where
      outside :
          (now : ℤ) (v : World)
          → ((clear_expired k auth.failed_attempts now >> check_password k password auth now) v).0
            ≡ ok success
          → p.validate_password password auth.password_hash ≡ true
      outside now v q =
          let (_, _, passed) =
            >>=-eq-ok (clear_expired k auth.failed_attempts now)
              (λ _. check_password k password auth now) v q in
          check_password-eq-success k password auth now _ passed

      unlocked :
          (message : String) (now : ℤ) (v : World)
          → ((if in_block_window auth now block
                then (log warning "Authenticator" message >> pure failed_account_locked)
                else (clear_expired k auth.failed_attempts now
                    >> check_password k password auth now))
              v).0
            ≡ ok success
          → p.validate_password password auth.password_hash ≡ true
      unlocked message now v q = elim (Bool-cases (in_block_window auth now block)) [
        | inl f ↦ cc (rw f at q)
        | inr f ↦ outside now v (rw f at q)
      ]

  unknown :
      (k password : String) (block : ℤ) (found : Option UserAuthData) (v : World)
      → (check_user k password block found v).0 ≡ ok success
      → found ≡ none
      → ⊥
  unfolding check_user
  unknown k password block none v passed e = cc
  unknown k password block (some auth) v passed e = cc

  -- Whatever the database, the clock and the file system do: a call that answers success was given
  -- the password of a registered user who is not locked by an alert.
  pub authenticate-eq-success :
      (hostname password : String) (block : ℤ) (w : World)
      → (authenticate hostname password block w).0 ≡ ok success
      → (u : User) × (Dict.lookup hostname w.users ≡ some u)
        × (u.is_locked ≢ 1)
        × (p.validate_password password u.password_hash ≡ true)
  unfolding authenticate get_user_login_data
  authenticate-eq-success hostname password block w h =
      let (found, q, passed) =
        >>=-eq-ok (get_user_login_data hostname) (check_user hostname password block) w h in
      elim (Option-cases (Dict.lookup hostname w.users)) [
        | inl e ↦ absurd (
            unknown hostname password block found (get_user_login_data hostname w).1 passed
              (ground (arith, q, e)))
        | inr (u, e) ↦
            let t =
              check_user-eq-success hostname password block (auth_data u)
                (get_user_login_data hostname w).1 (ground (arith, q, e, passed)) in
            (u, e, ground (arith, t.0), t.1)
      ]
