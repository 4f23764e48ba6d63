-- ===== src/Client/Ipc.antt =====
-- src/client/ipc_handler.c and src/client/udp_handler.c: notices of the server on their way to the
-- message queue of the dashboard, and the keepalive. What the sockets and the queue give is an
-- argument.
use client_server_architectu.Json.{Json}
use client_server_architectu.Client.Output.{string_item, ClientContext}
use client_server_architectu.Client.{Library}
use client_server_architectu.Client.Tokens.{append, size, prefix}
use client_server_architectu.Prelude.{
  if◌then◌else◌, ◌∷◌, ◌==◌, ℕ, true, some, none, leb, false, [], String, Option, List, Bool,
  ◌++◌ as ◌+++◌,
}

-- `mq_open` succeeds or not.
unfoldable pub ipc_init : Bool → ClientContext → Bool × ClientContext
ipc_init true context = (true, record context { ipc_queue = some [] })
ipc_init false context = (false, context)

-- The three tests follow each other; the default priority is 0.
unfoldable pub category_priority : String → ℕ
category_priority category =
    if category == "exit"
    then 3
    else if category == "alert"
    then 2
    else if category == "keepalive"
    then 1
    else 0

abbrev pub max_msg_size : ℕ
max_msg_size = 256

module _ ⦃l : Library⦄ where
  abbrev pub known_priority : Option String → Option ℕ
  known_priority none = none
  known_priority (some category) = some (category_priority category)

  abbrev pub document_priority : Option Json → Option ℕ
  document_priority none = none
  document_priority (some root) = known_priority (string_item root "category")

  -- No value stands for -1.
  unfoldable pub priority_check : String → Option ℕ
  priority_check message = document_priority (l.parse message)

  -- The last tests of `ipc_send_message`, and whether `mq_send` succeeds. A full queue is no failure:
  -- it is opened blocking, so `mq_send` returns when there is room.
  abbrev pub enqueue_message :
      ClientContext → List (ℕ × String) → String → Option ℕ → Bool → Bool × ClientContext
  enqueue_message context queue message none delivered = (false, context)
  enqueue_message context queue message (some priority) false = (false, context)
  enqueue_message context queue message (some priority) true =
      (true, record context { ipc_queue = some (queue +++ (priority, message) ∷ []) })

  abbrev pub enqueue_if_open :
      ClientContext → Option (List (ℕ × String)) → String → Bool → Bool × ClientContext
  enqueue_if_open context none message delivered = (false, context)
  enqueue_if_open context (some queue) message delivered =
      if leb max_msg_size (size message)
      then (false, context)
      else enqueue_message context queue message (priority_check message) delivered

  unfoldable pub ipc_send_message : ClientContext → String → Bool → Bool × ClientContext
  ipc_send_message context message delivered =
      enqueue_if_open context context.ipc_queue message delivered

  abbrev pub exit_message : Json → Json
  exit_message o =
      l.add_string (l.add_string o "category" "exit") "message" "Closing client, goodbye!"

  unfoldable pub ipc_exit : ClientContext → Bool → Bool × ClientContext
  ipc_exit context delivered = elim l.create_object [
    | none ↦ (false, context)
    | some o ↦ ipc_send_message context (l.print_indented (exit_message o)) delivered
  ]

-- what `recv` of the UDP socket gives, and whether `mq_send`, when it returns, has taken the text
pub data Notice : Type 0 where
  notice_error : Notice
  notice : String → Bool → Notice

module _ ⦃l : Library⦄ where
  -- `udp_listener_thread_func`: a datagram is cut to the 255 characters of the buffer, and an empty
  -- one, for which `recv` gives 0, ends the thread. The list ends when an exit is requested, or at a
  -- notice for which `mq_send` blocks for ever.
  unfoldable pub udp_listener : List Notice → ClientContext → ClientContext
  udp_listener [] context = context
  udp_listener (notice_error ∷ ns) context = context
  udp_listener (notice text delivered ∷ ns) context =
      let rest = udp_listener ns (ipc_send_message context (prefix 255 text) delivered).1 in
      if text == "" then context else rest

-- `snprintf` into 128 bytes
unfoldable pub keepalive_message : String → String
keepalive_message client_id =
    prefix 127 (append "{\"command\":\"keepalive\", \"clientId\":\"" (append client_id "\"}"))

-- `keepalive_thread_func`: the texts that are sent, until `send` fails or an exit is requested
unfoldable pub keepalives : String → List Bool → List String
keepalives message [] = []
keepalives message (false ∷ bs) = []
keepalives message (true ∷ bs) = message ∷ keepalives message bs

-- The UDP socket is open, as the client has connected it before a login.
unfoldable pub keepalive_thread : ClientContext → List Bool → List String
keepalive_thread context sends =
    if context.client_id == "" then [] else keepalives (keepalive_message context.client_id) sends
