-- ===== src/Tests.antt =====
-- A platform without faults and a small state, for the tests and the examples.
mod Documents
mod Terminal
pub mod Examples
pub mod Runs
pub mod Commands
pub mod Systems
pub mod Clients
pub mod Starts
pub mod Programs
pub mod Threads
use client_server_architectu.Prelude.Int.{to_string, pos}
use client_server_architectu.World.{Config, Journal, User, LogFile, Session, World}
use client_server_architectu.Json.{end, object, array, member, nil, string, Members, Json}
use client_server_architectu.Platform.{IsJson, IsTyped, Platform, IsReliable, IsBcrypt}
use client_server_architectu.Prelude.{
  contains, if◌then◌else◌, ◌∷◌, ◌==◌, true, some, refl, none, false, eq_refl, [], String, Option,
}
use Prim.Native.String.{◌++◌}

abbrev pub alert_members : Members
alert_members =
    member "type" (string "infection")
      (member "message" (string "zone 3") (member "clientId" (string "Ship1") end))

abbrev pub list_text : String
list_text = "[]"

abbrev pub status_text : String
status_text = "{\"command\":\"status\"}"

abbrev pub alert_text : String
alert_text = "{\"type\":\"infection\",\"message\":\"zone 3\",\"clientId\":\"Ship1\"}"

-- a reader of the three texts
abbrev parse_test : String → Option Json
parse_test s =
    if s == list_text
    then some (array nil)
    else if s == status_text
    then some (object (member "command" (string "status") end))
    else if s == alert_text
    then some (object alert_members)
    else none

abbrev dump_test : Json → String
dump_test (object (member key (string s) m)) = s
dump_test j = "json"

instance abbrev pub test_platform : Platform
test_platform = record {
  clock = λ n. pos 1000;
  db_fault = λ n. false;
  fs_fault = λ n. false;
  format_date = to_string;
  generate_hash = λ n password. "#" ++ password;
  validate_password = λ password hash. ("#" ++ password) == hash;
  parse = parse_test;
  dump = dump_test;
  at = Documents.at;
  get_string = Documents.get_string;
  get_int = Documents.get_int;
  value = Documents.value;
  set_member = Documents.set_member;
  contains = Documents.contains;
  sendto = λ n. pos 6;
}

abbrev pub reliable : IsReliable test_platform
reliable = record { no_fault = λ n. refl }

abbrev pub documented : IsJson test_platform
documented = record { at-set_member = Documents.at-set_member; contains-at = Documents.contains-at }

abbrev pub typed : IsTyped test_platform
typed = record { value-is_object = Documents.value-is_object }

abbrev pub bcrypt : IsBcrypt test_platform
bcrypt = record { validate-generate = λ n password. eq_refl ("#" ++ password) }

abbrev pub ship : User
ship = record {
  password_hash = "#pw";
  failed_attempts = 2;
  last_failed_timestamp = pos 900;
  is_locked = 0;
}

abbrev test_config : Config
test_config = record {
  max_log_size = pos 10;
  log_path = "server.log";
  max_clients = pos 10;
  max_unix_connections = pos 5;
  block_time_seconds = pos 900;
  tcp_port = pos 8080;
  udp_port = pos 8081;
  queue_size = pos 2;
  metric_host_port = "0.0.0.0:8082";
  db_path = "server.db";
  secret_phrase = "phrase";
  unix_socket_path = "/tmp/alerts.sock";
}

abbrev closed_file : LogFile
closed_file = record {
  enabled = true;
  is_open = false;
  is_good = true;
  content = none;
  rotated = [];
  errors = [];
}

abbrev pub empty_journal : Journal
empty_journal = record {
  logs = [];
  file = closed_file;
  readings = 0;
  statements = 0;
  file_operations = 0;
}

abbrev pub no_session : Session
no_session = record {
  client_socket = pos 7;
  is_authenticated = false;
  client_id = "";
  client_ip = "10.0.0.1";
  udp_address = none;
  pending_messages = [];
}

-- one registered client with one row of stock, and nobody connected
abbrev pub test_world : World
test_world = record {
  config = test_config;
  users = ("Ship1", ship) ∷ [];
  stock = record { client_id = "Ship1"; category = "food"; item = "water"; quantity = pos 10 } ∷ [];
  journal = empty_journal;
  traffic = record { messages = []; errors = []; reconnections = [] };
  cache = record { inventories = []; fully_cached_clients = [] };
  sessions = record {
    active_sessions = [];
    locked_clients = [];
    connected_users = [];
    offline_users = [];
  };
  events = [];
  objects = λ n. no_session;
  sent = [];
}
