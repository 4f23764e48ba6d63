-- ===== src/Client/Input.antt =====
-- src/client/input_handler.c: a line of the terminal as a request. `strtok` is called on the line
-- until it gives NULL: a builder takes the tokens after the first.
use client_server_architectu.Client.{Library}
use client_server_architectu.Client.Tokens.{tokens, first_line}
use client_server_architectu.Prelude.{
  if◌then◌else◌, ◌∷◌, ◌==◌, ◌&&◌, some, none, [], String, Option, List, Bool,
}
use client_server_architectu.Prelude.Int.{leb_ℤ, ℤ, pos}
use client_server_architectu.Json.{Json}

-- `UserInputAction`, `json_build_result` and `client_config`
pub data UserInputAction : Type 0 where
  action_send action_continue action_quit action_error : UserInputAction

pub data JsonBuild : Type 0 where
  build_success : String → JsonBuild
  build_error_syntax build_error_memory : JsonBuild

pub record ClientConfig : Type 0 where
  pub host : String
  pub port_tcp : String
  pub port_udp : String

-- the action, and the buffer without its newline
unfoldable pub process_user_input : String → UserInputAction × String
process_user_input buffer =
    let line = first_line buffer in
    (
      if line == "end" then action_quit else if line == "" then action_continue else action_send,
      line,
    )

module _ ⦃l : Library⦄ where
  -- the object of `cJSON_CreateObject`, or the memory error
  abbrev pub with_object : (Json → JsonBuild) → JsonBuild
  with_object build = elim l.create_object [ none ↦ build_error_memory | some o ↦ build o ]

  -- the document of a command with a payload, and of one without
  abbrev pub request : Json → String → Json → Json
  request root command payload = l.add_item (l.add_string root "command" command) "payload" payload

  abbrev pub pair : Json → String → String → String → String → Json
  pair o k v k' v' = l.add_string (l.add_string o k v) k' v'

  abbrev pub stock_payload : Json → String → String → ℤ → Json
  stock_payload o category item quantity =
      l.add_number (pair o "category" category "item" item) "quantity" quantity

  abbrev pub build_pair : String → String → String → String → String → JsonBuild
  build_pair command k v k' v' =
      with_object λ o. build_success (l.print (request o command (pair o k v k' v')))

  unfoldable pub build_json_for_get_stock : String → List String → JsonBuild
  build_json_for_get_stock command (category ∷ item ∷ ts) =
      build_pair command "category" category "item" item
  build_json_for_get_stock command _ = build_error_syntax

  unfoldable pub build_quantity : Json → String → String → String → Option ℤ → JsonBuild
  build_quantity o command category item none = build_error_syntax
  build_quantity o command category item (some quantity) =
      build_success (l.print (request o command (stock_payload o category item quantity)))

  unfoldable pub build_json_for_update_stock : String → List String → JsonBuild
  build_json_for_update_stock command (category ∷ item ∷ quantity ∷ ts) =
      with_object λ o. build_quantity o command category item (l.strtol quantity)
  build_json_for_update_stock command _ = build_error_syntax

  unfoldable pub build_json_for_login : String → List String → JsonBuild
  build_json_for_login command (username ∷ password ∷ ts) =
      build_pair command "hostname" username "password" password
  build_json_for_login command _ = build_error_syntax

  unfoldable pub build_json_for_register_user : String → List String → JsonBuild
  build_json_for_register_user command (new_username ∷ new_password ∷ ts) =
      build_pair command "new_client_id" new_username "new_client_password" new_password
  build_json_for_register_user command _ = build_error_syntax

  unfoldable pub build_json_for_unlock_client : String → List String → JsonBuild
  build_json_for_unlock_client command (client_to_unlock ∷ secret_phrase ∷ ts) =
      build_pair command "client_to_unlock" client_to_unlock "secret_phrase" secret_phrase
  build_json_for_unlock_client command _ = build_error_syntax

  unfoldable pub build_json_for_single_command : String → JsonBuild
  build_json_for_single_command command =
      with_object λ o. build_success (l.print (l.add_string o "command" command))

  -- the ladder of `build_json_from_input`
  unfoldable pub build_command : String → List String → JsonBuild
  build_command command ts =
      if command == "update_stock"
      then build_json_for_update_stock command ts
      else if command == "get_stock"
      then build_json_for_get_stock command ts
      else if command == "login"
      then build_json_for_login command ts
      else if command == "unlock_client"
      then build_json_for_unlock_client command ts
      else if command == "register_user"
      then build_json_for_register_user command ts
      else build_json_for_single_command command

  -- No value stands for `strcmp(NULL, …)`, which is undefined: a line without a token.
  unfoldable pub build_tokens : List String → Option JsonBuild
  build_tokens [] = none
  build_tokens (command ∷ ts) = some (build_command command ts)

  unfoldable pub build_json_from_input : String → Option JsonBuild
  build_json_from_input raw_input = build_tokens (tokens raw_input)

  -- `1 <= atoi(text) <= 65535`
  unfoldable pub is_port : String → Bool
  is_port text = leb_ℤ (pos 1) (l.atoi text) && leb_ℤ (l.atoi text) (pos 65535)

  -- `parse_arguments` with `config_arguments_ports`, and no value for `false`
  unfoldable pub environment_ports : String → Option String → Option ClientConfig
  environment_ports host none = some (record { host = host; port_tcp = "8888"; port_udp = "8888" })
  environment_ports host (some port) =
      if is_port port then some (record { host = host; port_tcp = port; port_udp = port }) else none

  unfoldable pub parse_arguments : List String → Option ClientConfig
  parse_arguments (name ∷ host ∷ []) = environment_ports host (l.getenv "CLIENT_PORT")
  parse_arguments (name ∷ host ∷ tcp ∷ []) =
      if is_port tcp then some (record { host = host; port_tcp = tcp; port_udp = tcp }) else none
  parse_arguments (name ∷ host ∷ tcp ∷ udp ∷ []) =
      if is_port tcp && is_port udp
      then some (record { host = host; port_tcp = tcp; port_udp = udp })
      else none
  parse_arguments _ = none
