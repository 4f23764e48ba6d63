-- ===== src/Server/Program.antt =====
-- src/server/main.cpp: the start of the server's program, up to the loop, and the order in which its
-- objects end. The unique pointer to the server is declared before the block of the `try`, and the
-- objects that the server refers to inside it.
pub mod Launched
pub mod Dangling
use client_server_architectu.Config.{Settings, configure, validate_arguments}
use client_server_architectu.Logger.{info, log, open_log_file}
use client_server_architectu.Platform.{Platform}
use client_server_architectu.Prelude.Dict.{Dict, is_some}
use client_server_architectu.Prelude.{
  ◌||◌, Bool, List, Option, String, ℕ, [], false, if◌then◌else◌, none, some, true, ◌∷◌, push_back,
}
use client_server_architectu.Prelude.Options.{guard, ◌>>=◌, ◌>>◌}
use client_server_architectu.Server.Setup.{Calls, Listener, Step, new_listener, note, setup_server}
use client_server_architectu.Server.{new_session, perform}
use client_server_architectu.Storage.Setup.{Database, initialize_schema, open_database, rows}
use client_server_architectu.World.{Config, Journal, LogFile, World}

-- What the program finds: whether the directory of the database can be made, the database opens and
-- its pragmas can be set, its tables, the log file and the rotated ones, and the system calls of the setup.
pub record Host : Type 0 where
  pub directory : Bool
  pub opens : Bool
  pub pragmas : Bool
  pub database : Database
  pub log_content : Option (List String)
  pub rotated_logs : Dict (List String)
  pub calls : Calls

-- the log file that `Logger` begins with
abbrev pub new_log_file : Host → LogFile
new_log_file h = record {
  enabled = false;
  is_open = false;
  is_good = true;
  content = h.log_content;
  rotated = h.rotated_logs;
  errors = [];
}

-- The new objects; `initializeSchema` has run four statements. No session is there yet, so what
-- stands for it is never read.
abbrev pub new_world : Config → LogFile → Database → World
new_world settings file d = record {
  config = settings;
  users = rows d.users;
  stock = rows d.inventory;
  journal = record {
    logs = rows d.logs;
    file = file;
    readings = 0;
    statements = 4;
    file_operations = 0;
  };
  traffic = record { messages = []; errors = []; reconnections = [] };
  cache = record { inventories = []; fully_cached_clients = [] };
  sessions = record {
    active_sessions = [];
    locked_clients = [];
    connected_users = [];
    offline_users = [];
  };
  events = [];
  objects = λ n. new_session 0 "";
  sent = [];
}

-- the objects of `main`
pub data Object : Type 0 where
  config traffic_reporter clock storage logger server : Object

-- The objects that are alive, in the block of the `try` and by the pointer before it, the newest
-- first, and those that were used when they were not alive.
pub record Lifetimes : Type 0 where
  pub block : List Object
  pub owned : List Object
  pub dangling : List Object

abbrev pub is_same_object : Object → Object → Bool
is_same_object config config = true
is_same_object traffic_reporter traffic_reporter = true
is_same_object clock clock = true
is_same_object storage storage = true
is_same_object logger logger = true
is_same_object server server = true
is_same_object _ _ = false

abbrev pub is_among : Object → List Object → Bool
is_among o [] = false
is_among o (x ∷ xs) = if is_same_object o x then true else is_among o xs

abbrev pub is_alive : Object → Lifetimes → Bool
is_alive o l = is_among o l.block || is_among o l.owned

abbrev pub refer_to : List Object → Lifetimes → Lifetimes
refer_to [] l = l
refer_to (o ∷ os) l =
    refer_to os (if is_alive o l then l else record l { dangling = push_back l.dangling o })

abbrev pub no_objects : Lifetimes
no_objects = record { block = []; owned = []; dangling = [] }

-- Whether a part of the block goes on, or throws, and the objects after it.
abbrev pub Progress : Type 0
Progress = Bool × Lifetimes

abbrev pub ◌and_then◌ : Progress → (Lifetimes → Progress) → Progress
(true, l) and_then f = f l
(false, l) and_then f = (false, l)

infixl 5 ◌and_then◌
-- a call that refers to objects, and a constructor of an object of the block
abbrev pub call : List Object → Bool → Lifetimes → Progress
call refers returns l = (returns, refer_to refers l)

abbrev pub construct : Object → List Object → Bool → Lifetimes → Progress
construct o refers returns l =
    call refers returns l and_then λ k. (true, record k { block = o ∷ k.block })

-- `server = std::make_unique<Server>(...)`
abbrev pub make_server : Bool → Lifetimes → Progress
make_server returns l =
    call (config ∷ clock ∷ storage ∷ logger ∷ traffic_reporter ∷ []) returns l and_then λ k.
    (true, record k { owned = server ∷ k.owned })

-- The objects of the block end, after its last statement or a throw.
abbrev pub leave_block : Lifetimes → Lifetimes
leave_block l = record l { block = [] }

-- What `~Server` reads by reference: the path of the UNIX socket, if that is open, and the logger.
unfoldable pub server_refers : Option ℕ → List Object
server_refers none = logger ∷ []
server_refers (some fd) = config ∷ logger ∷ []

-- The pointer ends with `main`.
unfoldable pub leave_main : List Object → Lifetimes → Lifetimes
leave_main refers l =
    if is_among server l.owned then record (refer_to refers l) { owned = [] } else l

module _ ⦃p : Platform⦄ ⦃y : Settings⦄ where
  abbrev pub opened_log : World → World
  opened_log w = record w { journal = (open_log_file w.journal).1 }

  -- the world that the constructor of the server finds
  abbrev pub services : Config → Host → Database → World
  services settings h d =
      perform (log info "Main" "Core services initialized.")
        (opened_log (new_world settings (new_log_file h) d))

  abbrev pub announced : Listener → Listener
  announced s = note (log info "Main" "Server successfully started. Running loop...") s

  abbrev pub started : Step → Option Listener
  started (true, s) = some (announced s)
  started (false, s) = none

  abbrev pub serve : Config → Host → Bool × Database → Option Listener
  serve settings h (true, d) = started (setup_server h.calls (new_listener (services settings h d)))
  serve settings h (false, d) = none

  -- Up to `server->run()`; no value where the arguments are refused or something throws.
  unfoldable pub launch : List String → Host → Option Listener
  launch args h = do
    settings ← configure args
    guard (open_database h.directory h.opens h.pragmas).0
    serve settings h (initialize_schema 0 h.database)

  abbrev pub launched_fd : Option Listener → Option ℕ
  launched_fd none = none
  launched_fd (some s) = s.unix_fd

  -- The block of the `try`, with the objects that each statement refers to. The last argument says
  -- whether the loop returns or throws.
  unfoldable pub try_block : List String → Host → Bool → Progress
  try_block args h returns =
      construct config [] (is_some (configure args)) no_objects
      and_then construct traffic_reporter [] true
      and_then construct clock [] true
      and_then construct storage (config ∷ []) (open_database h.directory h.opens h.pragmas).0
      and_then call (storage ∷ []) (initialize_schema 0 h.database).0
      and_then construct logger (storage ∷ clock ∷ config ∷ []) true
      and_then call (logger ∷ config ∷ []) true
      and_then make_server (is_some (launch args h))
      and_then call (logger ∷ []) true
      and_then call (server ∷ []) returns

  -- the exit status, 1 from the handler, and the objects at the end of `main`
  abbrev pub end_main : List Object → Progress → ℕ × Lifetimes
  end_main refers (returned, l) = (if returned then 0 else 1, leave_main refers (leave_block l))

  unfoldable pub server_main : List String → Host → Bool → ℕ × Lifetimes
  server_main args h returns =
      if validate_arguments args
      then end_main (server_refers (launched_fd (launch args h))) (try_block args h returns)
      else (1, no_objects)
