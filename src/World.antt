-- ===== src/World.antt =====
-- The state of the server process: the tables of the database and the fields of the server's
-- objects. A method that may throw is an action of `Exec`; what was written before a throw stays.
pub mod Stable
pub mod Keeps
use client_server_architectu.Prelude.{refl, ◌≡◌, ℕ, String, Bool, Option, none, some, List}
use client_server_architectu.Prelude.Dict.{Dict}
use client_server_architectu.Prelude.Int.{ℤ}

-- a row of the table `users`, without its key `hostname`
pub record User : Type 0 where
  pub password_hash : String
  pub failed_attempts : ℕ
  pub last_failed_timestamp : ℤ
  pub is_locked : ℕ

-- a row of the table `inventory`
pub record StockRow : Type 0 where
  pub client_id : String
  pub category : String
  pub item : String
  pub quantity : ℤ

-- a row of the table `logs`
pub record LogRow : Type 0 where
  pub timestamp : String
  pub level : String
  pub component : String
  pub message : String
  pub client_id : Option String

-- `std::map<std::string, std::map<std::string, int>>`
abbrev pub ClientInventoryMap : Type 0
ClientInventoryMap = Dict (Dict ℤ)

-- The log file of `Logger`: whether the stream is good (a write that fails leaves it bad), the lines
-- of the file at the log path, the rotated files by name, and the lines of the error stream (without
-- the texts of `what()`).
pub record LogFile : Type 0 where
  pub enabled : Bool
  pub is_open : Bool
  pub is_good : Bool
  pub content : Option (List String)
  pub rotated : Dict (List String)
  pub errors : List String

-- All that a call of `Logger::log` writes: the table `logs`, the log file, and the numbers of clock
-- readings, SQL statements and file operations so far.
pub record Journal : Type 0 where
  pub logs : List LogRow
  pub file : LogFile
  pub readings : ℕ
  pub statements : ℕ
  pub file_operations : ℕ

-- the fields of `Config`
pub record Config : Type 0 where
  pub max_log_size : ℤ
  pub log_path : String
  pub max_clients : ℤ
  pub max_unix_connections : ℤ
  pub block_time_seconds : ℤ
  pub tcp_port : ℤ
  pub udp_port : ℤ
  pub queue_size : ℤ
  pub metric_host_port : String
  pub db_path : String
  pub secret_phrase : String
  pub unix_socket_path : String

-- an entry of a counter map of `TrafficReporter`, keyed by `LabelKey`
pub record Counter : Type 0 where
  pub protocol : String
  pub direction : String
  pub count : ℕ

pub record Traffic : Type 0 where
  pub messages : List Counter
  pub errors : List Counter
  pub reconnections : List Counter

pub data EventType : Type 0 where
  notification : EventType

pub record Event : Type 0 where
  pub type : EventType
  pub message : String

-- the fields of `Inventory`
pub record Cache : Type 0 where
  pub inventories : Dict ClientInventoryMap
  pub fully_cached_clients : List String

-- a `clientSession` object; an address is opaque
pub record Session : Type 0 where
  pub client_socket : ℤ
  pub is_authenticated : Bool
  pub client_id : String
  pub client_ip : String
  pub udp_address : Option String
  pub pending_messages : List String

-- The fields of `SessionManager`. A shared pointer to a session is the number of its object.
pub record Sessions : Type 0 where
  pub active_sessions : Dict ℕ
  pub locked_clients : List String
  pub connected_users : List String
  pub offline_users : List String

-- a datagram handed to `sendto`: its address and text
abbrev pub Datagram : Type 0
Datagram = String × String

pub record World : Type 0 where
  pub config : Config
  pub users : Dict User
  pub stock : List StockRow
  pub journal : Journal
  pub traffic : Traffic
  pub cache : Cache
  pub sessions : Sessions
  pub events : Dict (List Event)
  -- the session objects by number
  pub objects : ℕ → Session
  pub sent : List Datagram

-- What a handler can tell apart: `json::exception`, another `std::exception`, and undefined
-- behaviour, which no handler catches.
pub data Exception : Type 0 where
  json_exception std_exception undefined_behaviour : Exception

pub data Result (A : Type 0) : Type 0 where
  ok : A → Result A
  err : Exception → Result A

abbrev pub Exec : Type 0 → Type 0
Exec A = World → Result A × World

abbrev pub pure : {A : Type 0} → A → Exec A
pure a w = (ok a, w)

abbrev pub throw : {A : Type 0} → Exception → Exec A
throw e w = (err e, w)

abbrev pub gets : {A : Type 0} → (World → A) → Exec A
gets f w = (ok (f w), w)

abbrev pub modify : (World → World) → Exec (Unit {0})
modify f w = (ok tt, f w)

-- An accessor of a JSON value without a result throws.
abbrev pub json_or_throw : {A : Type 0} → Option A → Exec A
json_or_throw none w = (err json_exception, w)
json_or_throw (some a) w = (ok a, w)

abbrev pub continue : {A B : Type 0} → (A → Exec B) → Result A × World → Result B × World
continue f (ok a, w) = f a w
continue f (err e, w) = (err e, w)

infixl 5 ◌>>=◌ ◌>>◌
abbrev pub ◌>>=◌ : {A B : Type 0} → Exec A → (A → Exec B) → Exec B
◌>>=◌ m f w = continue f (m w)

abbrev pub ◌>>◌ : {A B : Type 0} → Exec A → Exec B → Exec B
m >> k = m >>= λ _. k

pub >>=-ok :
    {A B : Type 0} (m : Exec A) (f : A → Exec B) (w : World) {a : A}
    → (m w).0 ≡ ok a
    → (m >>= f) w ≡ f a (m w).1
>>=-ok {A} {B} m f w {a} h = go (m w) h
  where
    go : (r : Result A × World) → r.0 ≡ ok a → continue f r ≡ f a r.1
    go (ok b, v) e = cc
    go (err x, v) e = cc

-- The parts of a composition that returned.
pub >>=-eq-ok :
    {A B : Type 0} (m : Exec A) (f : A → Exec B) (w : World) {b : B}
    → ((m >>= f) w).0 ≡ ok b
    → (a : A) × ((m w).0 ≡ ok a) × ((f a (m w).1).0 ≡ ok b)
>>=-eq-ok {A} {B} m f w {b} h = go (m w) h
  where
    go :
        (r : Result A × World)
        → (continue f r).0 ≡ ok b
        → (a : A) × (r.0 ≡ ok a) × ((f a r.1).0 ≡ ok b)
    go (ok a, v) e = (a, refl, e)
    go (err x, v) e = cc

abbrev pub on_json : {A : Type 0} → Exec A → Result A × World → Result A × World
on_json h (err json_exception, w) = h w
on_json h (r, w) = (r, w)

-- `catch (const json::exception &e)`
abbrev pub catch_json : {A : Type 0} → Exec A → Exec A → Exec A
catch_json h m w = on_json h (m w)

abbrev pub on_std : {A : Type 0} → Exec A → Result A × World → Result A × World
on_std h (err json_exception, w) = h w
on_std h (err std_exception, w) = h w
on_std h (r, w) = (r, w)

-- `catch (const std::exception &e)`
abbrev pub catch_std : {A : Type 0} → Exec A → Exec A → Exec A
catch_std h m w = on_std h (m w)
