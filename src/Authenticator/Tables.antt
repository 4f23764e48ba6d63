-- ===== src/Authenticator/Tables.antt =====
-- A login keeps every invariant of the tables and the cache.
use client_server_architectu.Platform.{Platform}
use client_server_architectu.Invariant.{Holds, IsInvariant, Property}
use client_server_architectu.Traffic.Tables.{counted_rules}
use client_server_architectu.World.Keeps.{Keeps}
use client_server_architectu.Prelude.Int.{ℤ}
use client_server_architectu.Prelude.{ℕ, Option, String, none, some}
use client_server_architectu.Storage.{UserAuthData}
use client_server_architectu.Authenticator.{
  read_clock, clear_expired, count_failure, check_password, check_user, authenticate,
}

module _ ⦃p : Platform⦄ (P : Property) (inv : IsInvariant P) where
  read_clock-Keeps : Keeps (Holds P) (read_clock)
  unfolding read_clock
  read_clock-Keeps = record { at = λ w h. h }

  clear_expired-Keeps :
      (user : String) (n : ℕ) (now : ℤ) → Keeps (Holds P) (clear_expired user n now)
  unfolding clear_expired
  clear_expired-Keeps user n now = search counted_rules

  count_failure-Keeps :
      (user : String) (n : ℕ) (now : ℤ) → Keeps (Holds P) (count_failure user n now)
  unfolding count_failure
  count_failure-Keeps user n now = search counted_rules

  check_password-Keeps :
      (user : String) (password : String) (auth : UserAuthData) (now : ℤ)
      → Keeps (Holds P) (check_password user password auth now)
  unfolding check_password
  check_password-Keeps user password auth now = search (counted_rules, count_failure-Keeps)

  check_user-Keeps :
      (user : String) (password : String) (block : ℤ) (o : Option UserAuthData)
      → Keeps (Holds P) (check_user user password block o)
  unfolding check_user
  check_user-Keeps user password block none = search counted_rules
  check_user-Keeps user password block (some auth) =
      search (counted_rules, read_clock-Keeps, clear_expired-Keeps, check_password-Keeps)

  pub authenticate-Keeps :
      (user : String) (password : String) (block : ℤ)
      → Keeps (Holds P) (authenticate user password block)
  unfolding authenticate
  authenticate-Keeps user password block = search (counted_rules, check_user-Keeps)
