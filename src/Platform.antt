-- ===== src/Platform.antt =====
-- What the program calls and does not implement, as one parameter: the clock (`IClock`), the SQLite
-- engine's and the file system's failures, `strftime`, bcrypt, the JSON reader and printer and the
-- UDP socket. A function of a number answers the n-th call.
use client_server_architectu.Prelude.{
  ℕ, String, ◌≡◌, Bool, true, false, Option, none, some, if◌then◌else◌, ◌==◌,
}
use client_server_architectu.Prelude.Int.{ℤ}
use client_server_architectu.Json.{Json, is_object}

pub record Platform : Type 0 where
  -- `m_clock.now()`, in seconds
  pub clock : ℕ → ℤ
  -- the n-th SQL statement throws for a reason outside the schema: I/O, a lock, no memory
  pub db_fault : ℕ → Bool
  -- the n-th attempt to make a directory, open or compress a file, or write a line of it, fails
  pub fs_fault : ℕ → Bool
  -- `strftime` of `gmtime`, "%Y-%m-%d %H:%M:%S"
  pub format_date : ℤ → String
  -- `bcrypt::generateHash` with the n-th salt
  pub generate_hash : ℕ → String → String
  -- `bcrypt::validatePassword(password, hash)`
  pub validate_password : String → String → Bool
  -- `json::parse`, with no value for a text that is not JSON, and `dump`
  pub parse : String → Option Json
  pub dump : Json → String
  -- the accessors of `nlohmann::json`, with no value where they throw: `j.at(k)`, the conversions to
  -- `std::string` and to `int`, `j.value(k, d)`, and `j[k] = v` with the new document
  pub at : String → Json → Option Json
  pub get_string : Json → Option String
  pub get_int : Json → Option ℤ
  pub value : String → String → Json → Option String
  pub set_member : String → Json → Json → Option Json
  -- `j.contains(k)`
  pub contains : String → Json → Bool
  -- what the n-th `sendto` returns
  pub sendto : ℕ → ℤ

-- No SQL statement fails but by the schema.
pub record IsReliable (p : Platform) : Type 0 where
  pub no_fault : (n : ℕ) → p.db_fault n ≡ false

-- A password matches its own hash, whatever the salt.
pub record IsBcrypt (p : Platform) : Type 0 where
  pub validate-generate :
      (n : ℕ) (password : String) → p.validate_password password (p.generate_hash n password) ≡ true

-- What the documentation of `nlohmann::json` says of a member that is assigned, and of
-- `contains`.
pub record IsJson (p : Platform) : Type 0 where
  pub at-set_member :
      (k i : String) (v j j' : Json)
      → p.set_member k v j ≡ some j'
      → p.at i j' ≡ (if k == i then some v else p.at i j)
  pub contains-at : (k : String) (j v : Json) → p.at k j ≡ some v → p.contains k j ≡ true

-- What it says of `value`: it throws on a document that is no object.
pub record IsTyped (p : Platform) : Type 0 where
  pub value-is_object : (k d : String) (j : Json) → is_object j ≡ false → p.value k d j ≡ none
