-- ===== src/Authenticator/Frame.antt =====
-- What a login attempt leaves alone: the objects of the sessions.
use client_server_architectu.World.{err, ok, continue, Result, World}
use client_server_architectu.Prelude.Int.{ℤ}
use client_server_architectu.Authenticator.{
  in_block_window, read_clock, count_failure, check_user, authenticate, check_password,
  clear_expired,
}
use client_server_architectu.Storage.{get_user_login_data, update_login_attempts, UserAuthData}
use client_server_architectu.Platform.{Platform}
use client_server_architectu.Prelude.{
  ◌≡◌, ◌∙◌, ℕ, true, some, none, inr, inl, arith, String, Option, Bool-cases, Bool, refl,
}

module _ ⦃p : Platform⦄ where
  objects-update_login_attempts :
      (k : String) (b : Bool) (t : ℤ) (w : World)
      → (update_login_attempts k b t w).1.objects ≡ w.objects
  unfolding update_login_attempts
  objects-update_login_attempts k b t w = ground arith

  objects-check_password :
      (k password : String) (auth : UserAuthData) (now : ℤ) (w : World)
      → (check_password k password auth now w).1.objects ≡ w.objects
  unfolding check_password count_failure update_login_attempts
  objects-check_password k password auth now w = ground arith

  objects-clear_expired :
      (k : String) (attempts : ℕ) (now : ℤ) (w : World)
      → (clear_expired k attempts now w).1.objects ≡ w.objects
  unfolding clear_expired
  objects-clear_expired k attempts now w =
      ground (arith, objects-update_login_attempts k true now w)

  objects_after_clearing :
      (k password : String) (auth : UserAuthData) (now : ℤ) (r : Result (Unit {0}) × World)
      → (continue (λ _. check_password k password auth now) r).1.objects ≡ r.1.objects
  objects_after_clearing k password auth now (ok a, v) =
      objects-check_password k password auth now v
  objects_after_clearing k password auth now (err x, v) = refl

  objects-check_user :
      (k password : String) (block : ℤ) (found : Option UserAuthData) (w : World)
      → (check_user k password block found w).1.objects ≡ w.objects
  unfolding check_user check_password
  objects-check_user k password block none w = refl
  objects-check_user k password block (some auth) w = elim (Bool-cases auth.is_locked) [
    | inl e ↦ rw e refl
    | inr e ↦
        let now = p.clock w.journal.readings in
        let v = (read_clock w).1 in
        rw e (elim (Bool-cases (in_block_window auth now block)) [
          | inl f ↦ rw f refl
          | inr f ↦ rw f (
              objects_after_clearing k password auth now
                (clear_expired k auth.failed_attempts now v)
              ∙ objects-clear_expired k auth.failed_attempts now v)
        ])
  ]

  -- A login attempt leaves the session objects alone, also where it throws.
  pub objects-authenticate :
      (k password : String) (block : ℤ) (w : World)
      → (authenticate k password block w).1.objects ≡ w.objects
  unfolding authenticate get_user_login_data
  objects-authenticate k password block w = elim (Bool-cases (p.db_fault w.journal.statements)) [
    | inl e ↦ rw e refl
    | inr e ↦ rw e (objects-check_user k password block _ _)
  ]
