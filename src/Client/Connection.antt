-- ===== src/Client/Connection.antt =====
-- src/client/client.c, src/client/transport.c and src/client/main.c: the sockets of the client, from
-- the arguments to the clean-up. What the system calls give is an argument. What is printed outside
-- the session and the client's own log are left out, but for the log file that is held.
pub mod Queue
pub mod SetUp
pub mod Released
use client_server_architectu.Client.{Library}
use client_server_architectu.Client.Input.{parse_arguments, ClientConfig}
use client_server_architectu.Client.Ipc.{ipc_exit, ipc_init}
use client_server_architectu.Client.Output.{client_context_init, ClientContext}
use client_server_architectu.Client.Session.{start_communication, Round}
use client_server_architectu.Prelude.Int.{negsuc, pos, ℤ}
use client_server_architectu.Prelude.{
  if◌then◌else◌, ◌∷◌, ℕ, true, some, none, leb, length, false, [], String, Option, List, Bool,
}
use client_server_architectu.Resources.{
  Resources, no_resources, acquire, give_back, close_if_open, descriptor, log_file, message_queue,
  address_list,
}

-- The context with its sockets, no value for -1, the address that `udp_send` uses, and what the
-- process holds.
pub record Process : Type 0 where
  pub context : ClientContext
  pub tcp_socket : Option ℕ
  pub udp_socket : Option ℕ
  pub peer_address : List ℕ
  pub resources : Resources

-- the argument `protocol`
pub data Protocol : Type 0 where
  tcp udp : Protocol

-- An address of `getaddrinfo` by its bytes, what `socket` gives for it, and whether `connect`
-- succeeds.
pub record Address : Type 0 where
  pub bytes : List ℕ
  pub socket : Option ℕ
  pub connects : Bool

-- `initialize_udp_peer_address`, with `sizeof(struct sockaddr_storage)`
unfoldable pub initialize_udp_peer_address : List ℕ → Process → Process
initialize_udp_peer_address bytes p =
    if leb (length bytes) 128 then record p { peer_address = bytes } else p

abbrev pub opened : ℕ → Process → Process
opened fd p = record p { resources = acquire (descriptor fd) p.resources }

-- The loop over the addresses: the socket of the address that is kept, if there is one.
unfoldable pub try_addresses : Protocol → List Address → Process → Option ℕ × Process
try_addresses protocol [] p = (none, p)
try_addresses tcp (a ∷ as') p = elim a.socket [
  | none ↦ try_addresses tcp as' p
  | some fd ↦ elim a.connects [
    | true ↦ (some fd, opened fd p)
    | false ↦
        try_addresses tcp as'
          (record p { resources = close_if_open (some fd) (opened fd p).resources })
  ]
]
try_addresses udp (a ∷ as') p = elim a.socket [
  | none ↦ try_addresses udp as' p
  | some fd ↦ (some fd, initialize_udp_peer_address a.bytes (opened fd p))
]

-- Without an address `sockfd` is -1, and closing it changes nothing.
unfoldable pub socket_validation : Protocol → Option ℕ × Process → Bool × Process
socket_validation tcp (some fd, p) = (true, record p { tcp_socket = some fd })
socket_validation udp (some fd, p) = (true, record p { udp_socket = some fd })
socket_validation protocol (none, p) = (false, p)

abbrev pub free_addresses : Option ℕ × Process → Option ℕ × Process
free_addresses (fd, p) = (fd, record p { resources = give_back address_list p.resources })

-- No value stands for an error of `getaddrinfo`.
unfoldable pub setup_and_connect : Protocol → Option (List Address) → Process → Bool × Process
setup_and_connect protocol none p = (false, p)
setup_and_connect protocol (some addresses) p = socket_validation protocol (
    free_addresses (
      try_addresses protocol addresses (record p { resources = acquire address_list p.resources })))

-- What the system gives a run of the client: whether the log opens, the addresses for TCP and UDP,
-- whether the queue opens, the welcome, the rounds of the terminal, and whether the queue takes the
-- last message.
pub record System : Type 0 where
  pub log_opens : Bool
  pub tcp_addresses : Option (List Address)
  pub udp_addresses : Option (List Address)
  pub queue_opens : Bool
  pub welcome : Option String
  pub rounds : List Round
  pub delivered : Bool

abbrev pub start : Process
start = record {
  context = client_context_init;
  tcp_socket = none;
  udp_socket = none;
  peer_address = [];
  resources = acquire log_file no_resources;
}

abbrev pub queue_opened : Bool × ClientContext → Process → Bool × Process
queue_opened (true, context) p =
    (true, record p { context = context; resources = acquire message_queue p.resources })
queue_opened (false, context) p = (false, record p { context = context })

module _ ⦃l : Library⦄ where
  abbrev pub close_sockets : Process → Process
  close_sockets p = record p {
    resources = close_if_open p.udp_socket (close_if_open p.tcp_socket p.resources);
  }

  -- `mq_close` and `mq_unlink` of an open queue, after the message for the dashboard
  abbrev pub close_queue : Bool → Option (List (ℕ × String)) → Process → Process
  close_queue delivered none p = p
  close_queue delivered (some queue) p = record p {
    context = (ipc_exit p.context delivered).1;
    resources = give_back message_queue p.resources;
  }

  abbrev pub close_log : Process → Process
  close_log p = record p { resources = give_back log_file p.resources }

  unfoldable pub client_cleanup : Bool → Process → Process
  client_cleanup delivered p =
      close_log (close_queue delivered p.context.ipc_queue (close_sockets p))

  abbrev pub with_context : Process → ℤ × ClientContext → ℤ × Process
  with_context p (result, context) = (result, record p { context = context })

  -- the exit status
  abbrev pub status : ℤ → ℕ
  status (pos n) = 0
  status (negsuc n) = 1

  abbrev pub finish : Bool → ℤ × Process → ℕ × Process
  finish delivered (result, p) = (status result, client_cleanup delivered p)

  -- after `ipc_init`; no value stands for undefined behaviour
  unfoldable pub communicate : System → Bool × Process → Option (ℕ × Process)
  communicate s (false, p) = some (1, client_cleanup s.delivered p)
  communicate s (true, p) = elim (start_communication s.welcome s.rounds p.context) [
    | none ↦ none
    | some r ↦ some (finish s.delivered (with_context p r))
  ]

  unfoldable pub after_udp : System → Bool × Process → Option (ℕ × Process)
  after_udp s (false, p) = some (1, client_cleanup s.delivered p)
  after_udp s (true, p) = communicate s (queue_opened (ipc_init s.queue_opens p.context) p)

  unfoldable pub after_tcp : System → Bool × Process → Option (ℕ × Process)
  after_tcp s (false, p) = some (1, client_cleanup s.delivered p)
  after_tcp s (true, p) = after_udp s (setup_and_connect udp s.udp_addresses p)

  abbrev pub stopped : Process
  stopped = record start { resources = no_resources }

  -- `main`, with the exit status
  unfoldable pub main : List String → System → Option (ℕ × Process)
  main arguments s = elim (parse_arguments arguments) [
    | none ↦ some (1, stopped)
    | some config ↦
        if s.log_opens
        then after_tcp s (setup_and_connect tcp s.tcp_addresses start)
        else some (1, stopped)
  ]
