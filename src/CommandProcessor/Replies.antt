-- ===== src/CommandProcessor/Replies.antt =====
-- The replies of src/server/commandProcessor.cpp: their JSON documents, and the refusals that are
-- counted and logged.
use client_server_architectu.Prelude.Int.{ℤ}
use client_server_architectu.Prelude.Dict.{Dict}
use client_server_architectu.Platform.{Platform}
use client_server_architectu.Prelude.{◌∷◌, true, some, [], String, List, Bool}
use client_server_architectu.Json.{
  Json, string, integer, object, Items, nil, cons, Members, end, member,
}
use client_server_architectu.Logger.{warning, log_for}
use client_server_architectu.Traffic.{increment_error}
use client_server_architectu.World.{LogRow, ClientInventoryMap, Exec, pure, ◌>>◌}

-- `commandResult`
abbrev pub CommandResult : Type 0
CommandResult = String × Bool

abbrev pub reply_members : String → String → Members → Members
reply_members status message rest =
    member "status" (string status) (member "message" (string message) rest)

abbrev pub success_reply : String → Json
success_reply message = object (reply_members "success" message end)

abbrev pub error_reply : String → Json
error_reply message = object (reply_members "error" message end)

abbrev pub data_reply : String → Json → Json
data_reply message payload = object (reply_members "success" message (member "data" payload end))

-- the JSON object of a map of quantities, and of a map of maps
unfoldable pub items_json : Dict ℤ → Members
items_json [] = end
items_json ((item, q) ∷ m) = member item (integer q) (items_json m)

unfoldable pub inventory_json : ClientInventoryMap → Members
unfolding items_json
inventory_json [] = end
inventory_json ((category, items) ∷ m) =
    member category (object (items_json items)) (inventory_json m)

abbrev pub log_entry_json : LogRow → Json
log_entry_json r = object (
    member "timestamp" (string r.timestamp) (
      member "message" (string r.message)
        (member "component" (string r.component) (member "level" (string r.level) end))))

unfoldable pub history_json : List LogRow → Items
history_json [] = nil
history_json (r ∷ rows) = cons (log_entry_json r) (history_json rows)

module _ ⦃p : Platform⦄ where
  abbrev pub reply : Json → Exec CommandResult
  reply response = pure (p.dump response, true)

  -- an error reply that is counted
  abbrev pub refuse : String → Exec CommandResult
  refuse message = do increment_error "tcp" "rx"; reply (error_reply message)

  -- an error reply that is counted and logged
  abbrev pub refuse_logged : String → String → String → Exec CommandResult
  refuse_logged client message logged = do
    increment_error "tcp" "rx"
    log_for (some client) warning "CommandProcessor" logged
    reply (error_reply message)
