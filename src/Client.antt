-- ===== src/Client.antt =====
-- The client, src/client: what it calls and does not implement, as one parameter. A character is a
-- code point; the texts of the terminal and of the server are ASCII.
pub mod Tokens
pub mod Input
pub mod Members
pub mod Requests
pub mod Output
pub mod Session
pub mod Sent
pub mod Login
pub mod Ipc
pub mod Connection
pub mod Log
pub mod Notices
use client_server_architectu.Prelude.{String, Option, List, Bool}
use client_server_architectu.Prelude.Int.{ℤ}
use client_server_architectu.Json.{Json}

pub record Library : Type 0 where
  -- `cJSON_CreateObject`, with no value for NULL: a request's allocations succeed together
  pub create_object : Option Json
  -- `cJSON_AddStringToObject`, `cJSON_AddNumberToObject` of a `long` as a `double`, and
  -- `cJSON_AddItemToObject`: the object with the new member
  pub add_string : Json → String → String → Json
  pub add_number : Json → String → ℤ → Json
  pub add_item : Json → String → Json → Json
  -- `cJSON_PrintUnformatted`, `cJSON_Print` and `cJSON_Parse`, with no value for a text that is not JSON
  pub print : Json → String
  pub print_indented : Json → String
  pub parse : String → Option Json
  -- `cJSON_GetObjectItem`, and `valuestring`, with no value for NULL: a parsed item has one exactly
  -- when `cJSON_IsString` holds of it
  pub get_item : Json → String → Option Json
  pub string_value : Json → Option String
  -- `valueint`, `cJSON_IsArray`, and the children of an item with their names
  pub int_value : Json → ℤ
  pub is_array : Json → Bool
  pub children : Json → List (String × Json)
  -- `strtol(text, &endptr, 10)`, with no value unless it reads the whole text
  pub strtol : String → Option ℤ
  -- `atoi` and `getenv`
  pub atoi : String → ℤ
  pub getenv : String → Option String
