-- ===== src/Authenticator/Verdict.antt =====
-- What the authenticator promises: a decision table over one row of the table `users`.
use client_server_architectu.Prelude.{
  ◌∙◌, suc, false, ◌==◌, refl, eq_iff, inr, inl, ◌≤◌, Bool-cases, some, ℕ, true, ◌≡◌, String, Bool,
  arith, leb, eqb, if◌then◌else◌,
}
use client_server_architectu.Prelude.Dict
use client_server_architectu.Prelude.Dict.{NodupKeys, lookup-update, update-NodupKeys}
use client_server_architectu.Prelude.Int.{ℤ}
use client_server_architectu.Platform.{Platform, IsReliable}
use client_server_architectu.World.{>>=-ok, ◌>>◌, Result, World, User, ok}
use client_server_architectu.Storage.{
  count_statement, UserAuthData, auth_data, check_attempts, reset_attempts, add_attempt,
  get_user_login_data,
}
use client_server_architectu.Storage.Laws.{
  check_attempts-lookup, update_login_attempts-true, update_login_attempts-false,
}
use client_server_architectu.Authenticator.{
  clear_expired, AuthResult, success, failed_account_locked, failed_bad_credentials,
  failed_alert_locked, in_block_window, authenticate, count_failure, check_password, check_user,
}

-- The row after a wrong password: a counter of 3 starts again at 1.
abbrev pub failed_row : ℤ → User → User
failed_row now u = add_attempt now (if leb 3 u.failed_attempts then reset_attempts u else u)

-- The same once no lock applies.
abbrev pub password_verdict : User → Bool → ℤ → AuthResult × User
password_verdict u matches now = if matches then (success, reset_attempts u) else (
  if eqb u.failed_attempts 2 then failed_account_locked else failed_bad_credentials,
  failed_row now u,
)

-- The result and the new row, from the old row, the time, and whether the password matches.
abbrev pub verdict : User → Bool → ℤ → ℤ → AuthResult × User
verdict u matches now block =
    if eqb u.is_locked 1
    then (failed_alert_locked, u)
    else if in_block_window (auth_data u) now block
    then (failed_account_locked, u)
    else password_verdict u matches now

-- A row as the table allows it, with the key found once.
pub record IsRow (k : String) (u : User) (w : World) : Type 0 where
  pub distinct : NodupKeys w.users
  pub found : Dict.lookup k w.users ≡ some u
  pub checked : u.failed_attempts ≤ 3

-- What a call owes: the result, and the rows by which the row of `k` becomes `row`.
abbrev pub Yields : String → AuthResult → User → World → Result AuthResult × World → Type 0
Yields k result row w (o, v) =
    (o ≡ ok result)
    × (Dict.lookup k v.users ≡ some row)
    × ((j : String) → (k == j) ≡ false → Dict.lookup j v.users ≡ Dict.lookup j w.users)

abbrev failed_result : ℕ → AuthResult
failed_result attempts = if eqb attempts 2 then failed_account_locked else failed_bad_credentials

module _ ⦃p : Platform⦄ (r : IsReliable p) (k : String) (now : ℤ) where
  count_failure_lem :
      (n : ℕ) (w : World)
      → check_attempts k w.users ≡ true
      → ((count_failure k n now w).0 ≡ ok (failed_result n))
        × ((count_failure k n now w).1.users ≡ Dict.update k (add_attempt now) w.users)
  unfolding count_failure
  count_failure_lem n w h = ground (arith, update_login_attempts-false r k now w)

  check_password_lem :
      (password : String) (auth : UserAuthData) (w : World)
      → check_attempts k w.users ≡ true
      → let matches = p.validate_password password auth.password_hash in
        ((check_password k password auth now w).0
          ≡ ok (if matches then success else failed_result auth.failed_attempts))
        × ((check_password k password auth now w).1.users
            ≡ Dict.update k (if matches then reset_attempts else add_attempt now) w.users)
  unfolding check_password
  check_password_lem password auth w h =
      elim (Bool-cases (p.validate_password password auth.password_hash)) [
        | inl e ↦ rw (e, update_login_attempts-true r k now) (refl, refl)
        | inr e ↦ rw e (count_failure_lem auth.failed_attempts w h)
      ]

  -- the row once an expired counter is cleared
  abbrev cleared : User → User
  cleared u = if leb 3 u.failed_attempts then reset_attempts u else u

  reset-IsRow :
      (u : User) (w v : World)
      → IsRow k u w
      → v.users ≡ Dict.update k reset_attempts w.users
      → IsRow k (reset_attempts u) v
  reset-IsRow u w v row e = record {
    distinct = rw e (update-NodupKeys k reset_attempts w.users row.distinct);
    found = rw (e, lookup-update, row.found) (ground (arith, eq_iff k k));
    checked = omega arith;
  }

  -- After clearing the counter has room for one more attempt.
  clear_expired_lem :
      (u : User) (w : World)
      → IsRow k u w
      → let (o, v) = clear_expired k u.failed_attempts now w in
        (o ≡ ok tt)
        × IsRow k (cleared u) v
        × (check_attempts k v.users ≡ true)
        × ((j : String) → (k == j) ≡ false → Dict.lookup j v.users ≡ Dict.lookup j w.users)
  unfolding clear_expired
  clear_expired_lem u w row = elim (Bool-cases (leb 3 u.failed_attempts)) [
    | inl e ↦
        let v = record (count_statement w) { users = Dict.update k reset_attempts w.users } in
        let reset = reset-IsRow u w v row refl in
        rw (e, update_login_attempts-true r k now)
          (
            refl,
            reset,
            check_attempts-lookup k v.users (reset_attempts u) reset.distinct reset.found
                (omega arith),
            λ j differs. rw (lookup-update, differs),
          )
    | inr e ↦ rw e (
      refl,
      row,
      check_attempts-lookup k w.users u row.distinct row.found (ground arith),
      λ j differs. refl,
    )
  ]

  -- The row that the check of the password leaves, and the rows of the others.
  passed_lem :
      (password : String) (auth : UserAuthData) (u : User) (w : World)
      → auth.password_hash ≡ u.password_hash
      → auth.failed_attempts ≡ u.failed_attempts
      → IsRow k (cleared u) w
      → check_attempts k w.users ≡ true
      → let matches = p.validate_password password u.password_hash in
        let (o, v) = check_password k password auth now w in
        (o ≡ ok (password_verdict u matches now).0)
        × (Dict.lookup k v.users ≡ some (password_verdict u matches now).1)
        × ((j : String) → (k == j) ≡ false → Dict.lookup j v.users ≡ Dict.lookup j w.users)
  passed_lem password auth u w h n row room =
      let (o, e) = check_password_lem password auth w room in
      (
        ground (arith, o, h, n),
        rw (e, lookup-update, row.found) (ground (arith, eq_iff k k, h)),
        λ j differs. rw (e, lookup-update, differs) refl,
      )

  outside_window_lem :
      (password : String) (auth : UserAuthData) (u : User) (w : World)
      → auth.password_hash ≡ u.password_hash
      → auth.failed_attempts ≡ u.failed_attempts
      → IsRow k u w
      → let matches = p.validate_password password u.password_hash in
        Yields k
          (password_verdict u matches now).0
          (password_verdict u matches now).1
          w
          ((clear_expired k u.failed_attempts now >> check_password k password auth now) w)
  outside_window_lem password auth u w h n row =
      let (o, row', room, others) = clear_expired_lem u w row in
      let v = (clear_expired k u.failed_attempts now w).1 in
      let (o', e, others') = passed_lem password auth u v h n row' room in
      rw
        (>>=-ok (clear_expired k u.failed_attempts now) (λ _. check_password k password auth now) w
          o)
        (o', e, λ j differs. others' j differs ∙ others j differs)

  check_user_lem :
      (password : String) (block : ℤ) (u : User) (w : World)
      → IsRow k u w
      → p.clock w.journal.readings ≡ now
      → let d = verdict u (p.validate_password password u.password_hash) now block in
        Yields k d.0 d.1 w (check_user k password block (some (auth_data u)) w)
  unfolding check_user
  check_user_lem password block u w row c = elim (Bool-cases (eqb u.is_locked 1)) [
    | inl e ↦ rw e (refl, row.found, λ j _. refl)
    | inr e ↦
        rw (e, c)
          (elim (Bool-cases (in_block_window (auth_data u) now block)) [
            | inl f ↦ rw f (refl, row.found, λ j _. refl)
            | inr f ↦
                let v : World = record w {
                  journal = record w.journal { readings = suc w.journal.readings };
                } in
                let row' : IsRow k u v = record {
                  distinct = row.distinct;
                  found = row.found;
                  checked = row.checked;
                } in
                rw f (outside_window_lem password _ u v refl refl row')
          ])
  ]

module _ ⦃p : Platform⦄ (r : IsReliable p) where
  -- On a reliable database whose keys are distinct and whose counters are at most 3, a call for a
  -- registered user returns the result of `verdict` on the user's row at the time that it reads, the
  -- row becomes that of `verdict`, and every other row stays; in particular it does not throw.
  pub authenticate-verdict :
      (hostname password : String) (block : ℤ) (u : User) (w : World)
      → IsRow hostname u w
      → let now = p.clock w.journal.readings in
        let d = verdict u (p.validate_password password u.password_hash) now block in
        Yields hostname d.0 d.1 w (authenticate hostname password block w)
  unfolding authenticate get_user_login_data
  authenticate-verdict hostname password block u w row =
      let v = count_statement w in
      rw (r.no_fault w.journal.statements, row.found)
        (check_user_lem r hostname (p.clock w.journal.readings) password block u v
          (record { distinct = row.distinct; found = row.found; checked = row.checked }) refl)
