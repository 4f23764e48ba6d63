-- ===== src/Client/Output.antt =====
-- src/client/output_handler.c, and the context of src/client/client_context.c: a response of the
-- server as lines on the terminal. No value stands for undefined behaviour: `valuestring` of NULL,
-- `strcmp` or `%s` with NULL, and a format with a conversion and no argument. Its other calls of the client's own log are left out.
use client_server_architectu.Prelude.Int.{to_string}
use client_server_architectu.Client.Tokens.{append, prefix, tokens}
use client_server_architectu.Client.{Library}
use client_server_architectu.Json.{Json}
use Prim.Native.String.{◌++◌}
use client_server_architectu.Prelude.{
  ◌&&◌, not, eqb, if◌then◌else◌, ◌∷◌, ◌==◌, ◌-◌, ℕ, true, some, none, false, [], String, Option,
  List, Bool, ◌++◌ as ◌+++◌,
}
use client_server_architectu.Prelude.Options.{◌>>=◌, ◌>>◌, guard}
use Prim.Native.Char.{code}

pub record ClientContext : Type 0 where
  pub client_id : String
  pub exit_requested : Bool
  -- the texts sent on the TCP socket and the lines printed, the first one first
  pub sent : List String
  pub printed : List String
  -- `ipc_queue`: the messages sent to it with their priorities, in the order of sending (not that of
  -- receiving), none before `ipc_init`
  pub ipc_queue : Option (List (ℕ × String))

abbrev pub client_context_init : ClientContext
client_context_init = record {
  client_id = "";
  exit_requested = false;
  sent = [];
  printed = [];
  ipc_queue = none;
}

abbrev pub client_id_max_len : ℕ
client_id_max_len = 64

unfoldable pub client_context_set_id : ClientContext → String → ClientContext
client_context_set_id context client_id = record context {
  client_id = prefix (client_id_max_len - 1) client_id;
}

unfoldable pub client_context_request_exit : ClientContext → ClientContext
client_context_request_exit context = record context { exit_requested = true }

abbrev pub print_lines : ClientContext → List String → ClientContext
print_lines context lines = record context { printed = context.printed +++ lines }

abbrev pub unparsed : List String
unparsed = "Error: Could not parse server response." ∷ []

-- Whether `printf` prints a format without an argument; the flag is a percent sign just before.
unfoldable pub plain_from : Bool → String → Bool
plain_from after_percent String.[] = not after_percent
plain_from true (String.◌∷◌ c s) = eqb (code c) b'%' && plain_from false s
plain_from false (String.◌∷◌ c s) = plain_from (eqb (code c) b'%') s

abbrev pub is_plain_format : String → Bool
is_plain_format = plain_from false

-- the message that `logger_log` takes as its format
abbrev pub log_msg : String → String
log_msg client_id = prefix 511 (append "Login successful. Client ID: " client_id)

module _ ⦃l : Library⦄ where
  abbrev string_in : Option Json → Option String
  string_in none = none
  string_in (some j) = l.string_value j

  -- the text of a member that is there and is a string
  abbrev pub string_item : Json → String → Option String
  string_item root key = string_in (l.get_item root key)

  abbrev pub optional_line : String → Option String → List String
  optional_line label none = []
  optional_line label (some s) = (label ++ s) ∷ []

  -- `strcmp(status->valuestring, "success")`, and the lines of each branch
  unfoldable pub report : Json → Option (List String) → Option (List String)
  report root lines = do
    status ← string_item root "status"
    if status == "success"
        then lines
        else some (optional_line "Error from server: " (string_item root "message"))

  abbrev pub item_lines : List (String × Json) → List String
  item_lines [] = []
  item_lines ((name, item) ∷ is) =
      ("    - " ++ name ++ ": " ++ to_string (l.int_value item)) ∷ item_lines is

  abbrev pub category_lines : List (String × Json) → List String
  category_lines [] = []
  category_lines ((name, category) ∷ cs) =
      ("  Category: " ++ name) ∷ (item_lines (l.children category) +++ category_lines cs)

  abbrev pub inventory_lines : Option Json → List String
  inventory_lines none = []
  inventory_lines (some items) = category_lines (l.children items)

  unfoldable pub print_inventory_response : Option Json → Option (List String)
  print_inventory_response none = some unparsed
  print_inventory_response (some root) = report root (
      some (
        "--- Inventory Report ---"
        ∷ (inventory_lines (l.get_item root "data") +++ ("------------------------" ∷ []))))

  -- the members of a stock report, printed only if all three are there
  abbrev pub stock_fields : Option Json → Option Json → Option Json → Option (List String)
  stock_fields (some category) (some item) (some quantity) = do
    i ← l.string_value item
    c ← l.string_value category
    some (
        ("  - Item: " ++ i)
        ∷ ("  - Category: " ++ c)
        ∷ ("  - Quantity: " ++ to_string (l.int_value quantity))
        ∷ [])
  stock_fields _ _ _ = some []

  abbrev pub stock_lines : Option Json → Option (List String)
  stock_lines none = some []
  stock_lines (some stock) =
      stock_fields (l.get_item stock "category") (l.get_item stock "item")
        (l.get_item stock "quantity")

  unfoldable pub print_get_stock_response : Option Json → Option (List String)
  print_get_stock_response none = some unparsed
  print_get_stock_response (some root) = report root do
    lines ← stock_lines (l.get_item root "data")
    some ("--- Stock Report ---" ∷ (lines +++ ("------------------------" ∷ [])))

  abbrev pub entry_line : Option Json → Option Json → Option (List String)
  entry_line (some timestamp) (some message) = do
    t ← l.string_value timestamp
    m ← l.string_value message
    some (("  - [" ++ t ++ "] " ++ m) ∷ [])
  entry_line _ _ = some []

  abbrev pub entry_lines : List (String × Json) → Option (List String)
  entry_lines [] = some []
  entry_lines ((name, entry) ∷ es) = do
    line ← entry_line (l.get_item entry "timestamp") (l.get_item entry "message")
    lines ← entry_lines es
    some (line +++ lines)

  abbrev pub no_history : List String
  no_history = "No inventory history found for this client." ∷ []

  abbrev pub history_entries : List (String × Json) → Option (List String)
  history_entries [] = some no_history
  history_entries (e ∷ es) = do
    lines ← entry_lines (e ∷ es)
    some ("--- Inventory History ---" ∷ lines)

  abbrev pub history_lines : Option Json → Option (List String)
  history_lines none = some no_history
  history_lines (some entries) =
      if l.is_array entries then history_entries (l.children entries) else some no_history

  unfoldable pub print_get_history_response : Option Json → Option (List String)
  print_get_history_response none = some unparsed
  print_get_history_response (some root) = report root (history_lines (l.get_item root "data"))

  -- `post_login_procedures`: whether the client is logged in, the lines, and its new name; no value
  -- where the format asks `logger_log` for an argument that it does not have
  unfoldable pub post_login_procedures :
      ClientContext → String → String → Option String → Option (Bool × ClientContext)
  post_login_procedures context status message none =
      some (false, print_lines context ("Error: Login response missing client_id." ∷ []))
  post_login_procedures context status message (some client_id) = do
    guard (is_plain_format (log_msg client_id))
    some (
      true,
      client_context_set_id
          (print_lines context (("-Status: " ++ status) ∷ ("-Message: " ++ message) ∷ []))
          client_id,
    )

  abbrev pub login_fields :
      ClientContext → Json → Option String → Option String → Option (Bool × ClientContext)
  login_fields context root none message =
      some (false, print_lines context ("Error: Invalid server response (missing status)." ∷ []))
  login_fields context root (some status) none =
      some (false, print_lines context ("Error: Invalid server response (missing message)." ∷ []))
  login_fields context root (some status) (some message) =
      if status == "success"
      then post_login_procedures context status message (string_item root "client_id")
      else some (false, print_lines context (("Error from server: " ++ message) ∷ []))

  unfoldable pub handle_login_response : ClientContext → Option Json → Option (Bool × ClientContext)
  handle_login_response context none = some (false, print_lines context unparsed)
  handle_login_response context (some root) =
      login_fields context root (string_item root "status") (string_item root "message")

  unfoldable pub print_response : Option Json → List String
  print_response none = unparsed
  print_response (some root) =
      optional_line "-Status: " (string_item root "status")
      +++ optional_line "-Message: " (string_item root "message")

  abbrev pub not_login : ClientContext → Option (List String) → Option (Bool × ClientContext)
  not_login context lines = do ls ← lines; some (false, print_lines context ls)

  -- the ladder of `print_readable_response`, on the first token of the line
  unfoldable pub print_for :
      ClientContext → Option Json → List String → Option (Bool × ClientContext)
  print_for context response [] = none
  print_for context response (command ∷ ts) =
      if command == "get_inventory"
      then not_login context (print_inventory_response response)
      else if command == "get_stock"
      then not_login context (print_get_stock_response response)
      else if command == "get_history"
      then not_login context (print_get_history_response response)
      else if command == "login"
      then handle_login_response context response
      else not_login context (some (print_response response))

  unfoldable pub print_readable_response :
      ClientContext → String → String → Option (Bool × ClientContext)
  print_readable_response context server_response input_buffer =
      print_for context (l.parse server_response) (tokens input_buffer)
