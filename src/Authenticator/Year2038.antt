-- ===== src/Authenticator/Year2038.antt =====
-- The temporary lock over time: the stored timestamp is read as a 32-bit number.
use client_server_architectu.Authenticator.Verdict.{
  authenticate-verdict, Yields, password_verdict, IsRow,
}
use client_server_architectu.World.{ok, World, User}
use client_server_architectu.Prelude.{
  if◌then◌else◌, ◌+◌, true, ltb, arith, ◌≤◌, ◌<◌, ◌≡◌, ◌≢◌, ℕ, String,
}
use client_server_architectu.Prelude.Int.{pos, to_int32}
use client_server_architectu.Platform.{IsReliable, Platform}
use client_server_architectu.Authenticator.{failed_account_locked, authenticate, success}

module _ ⦃p : Platform⦄ (r : IsReliable p) where
  -- Until January 2038 the temporary lock is exact: for a user who is not locked by an alert, with
  -- three failures, the last at t, a call at time n with a block time of b seconds answers that the
  -- account is locked and leaves the row, if n < t + b; otherwise the password decides.
  pub lockout_exact :
      (hostname password : String) (u : User) (w : World) (t n b : ℕ)
      → IsRow hostname u w
      → u.is_locked ≢ 1
      → u.failed_attempts ≡ 3
      → u.last_failed_timestamp ≡ pos t
      → t < 2147483648
      → p.clock w.journal.readings ≡ pos n
      → let d = password_verdict u (p.validate_password password u.password_hash) (pos n) in
        Yields hostname
          (if ltb n (t + b) then failed_account_locked else d.0)
          (if ltb n (t + b) then u else d.1)
          w
          (authenticate hostname password (pos b) w)
  unfolding to_int32
  lockout_exact hostname password u w t n b row unlocked three last before now =
      let (o, own, others) = authenticate-verdict r hostname password (pos b) u w row in
      (ground (arith, o, three, last, now), ground (arith, own, three, last, now), others)

  -- From 2038 on (2 ^ 31 <= t < 2 ^ 32) the lock does not hold: right after the third failure, at t,
  -- with any block time of an `int`, the right password logs the user in.
  pub lockout_lost :
      (hostname password : String) (u : User) (w : World) (t b : ℕ)
      → IsRow hostname u w
      → u.is_locked ≢ 1
      → u.failed_attempts ≡ 3
      → u.last_failed_timestamp ≡ pos t
      → 2147483648 ≤ t
      → t < 4294967296
      → b < 2147483648
      → p.clock w.journal.readings ≡ pos t
      → p.validate_password password u.password_hash ≡ true
      → (authenticate hostname password (pos b) w).0 ≡ ok success
  unfolding to_int32
  lockout_lost hostname password u w t b row unlocked three last lo hi small now matches =
      let (o, _, _) = authenticate-verdict r hostname password (pos b) u w row in
      ground (arith, o, three, last, now, matches)
