-- ===== src/Authenticator.antt =====
-- src/server/authenticator.cpp. `m_mutex` makes the whole method atomic. Of the log messages only
-- the order and the texts matter; the clock is read once, after the test of the alert lock.
pub mod Frame
pub mod Verdict
pub mod Tables
pub mod Safety
pub mod Year2038
use Prim.Native.String.{◌++◌}
use client_server_architectu.Prelude.{
  ℕ, suc, String, Bool, true, false, ◌&&◌, Option, none, some, leb, eqb, if◌then◌else◌,
}
use client_server_architectu.Prelude.Int.{ℤ, ◌-ℤ◌, ltb_ℤ}
use client_server_architectu.Platform.{Platform}
use client_server_architectu.Storage.{UserAuthData, get_user_login_data, update_login_attempts}
use client_server_architectu.Logger.{LogLevel, info, warning, log}
use client_server_architectu.World.{World, Exec, ok, pure, ◌>>=◌, ◌>>◌}

pub data AuthResult : Type 0 where
  success failed_user_not_found failed_account_locked : AuthResult
  failed_bad_credentials failed_alert_locked : AuthResult

-- failedAttempts >= 3 and the last failure is less than the block time ago
abbrev pub in_block_window : UserAuthData → ℤ → ℤ → Bool
in_block_window auth now block =
    leb 3 auth.failed_attempts && ltb_ℤ (now -ℤ auth.last_failed_timestamp) block

module _ ⦃p : Platform⦄ where
  -- `m_clock.now()`
  unfoldable pub read_clock : Exec ℤ
  read_clock w = (
    ok (p.clock w.journal.readings),
    record w { journal = record w.journal { readings = suc w.journal.readings } },
  )

  -- the block time has passed: the counter is set back to 0
  unfoldable pub clear_expired : String → ℕ → ℤ → Exec (Unit {0})
  clear_expired hostname attempts now =
      if leb 3 attempts then update_login_attempts hostname true now else pure tt

  -- a wrong password: one more failed attempt, on the row as it now is
  unfoldable pub count_failure : String → ℕ → ℤ → Exec AuthResult
  count_failure hostname attempts now = do
    update_login_attempts hostname false now
    if eqb attempts 2
        then (do
          log warning "Authenticator" (
              "Failed login attempts limit reached for user '" ++ hostname
              ++ "'. Login is disabled for 15 min.")
          pure failed_account_locked)
        else (do
          log warning "Authenticator" ("Failed login attempt for user '" ++ hostname ++ "'.")
          pure failed_bad_credentials)

  unfoldable pub check_password : String → String → UserAuthData → ℤ → Exec AuthResult
  check_password hostname password auth now =
      if p.validate_password password auth.password_hash
      then (do
        log info "Authenticator" ("Login successful for user '" ++ hostname ++ "'.")
        update_login_attempts hostname true now
        pure success)
      else count_failure hostname auth.failed_attempts now

  unfoldable pub check_user : String → String → ℤ → Option UserAuthData → Exec AuthResult
  unfolding read_clock
  check_user hostname password block none = do
    log warning "Authenticator" ("No user found for the given hostname: '" ++ hostname ++ "'.")
    pure failed_user_not_found
  check_user hostname password block (some auth) =
      if auth.is_locked then pure failed_alert_locked else do
        now ← read_clock
        if in_block_window auth now block
            then (do
              log warning "Authenticator"
                  ("User by hostname: '" ++ hostname ++ "' is trying to login but is blocked.")
              pure failed_account_locked)
            else (do
              clear_expired hostname auth.failed_attempts now
              check_password hostname password auth now)

  -- `Authenticator::authenticate`
  unfoldable pub authenticate : String → String → ℤ → Exec AuthResult
  authenticate hostname password block = do
    found ← get_user_login_data hostname
    check_user hostname password block found
