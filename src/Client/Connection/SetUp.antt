-- ===== src/Client/Connection/SetUp.antt =====
-- What the setup of a socket adds to what the client holds, and what the clean-up finds.
use client_server_architectu.Client.Output.{ClientContext}
use client_server_architectu.Client.Connection.{
  Process, Protocol, tcp, udp, Address, initialize_udp_peer_address, try_addresses,
  socket_validation, free_addresses, setup_and_connect, opened,
}
use client_server_architectu.Prelude.{
  ◌++◌, true, inr, inl, false, ap, ◌∙◌, ◌≡◌, ◌∷◌, ℕ, some, refl, none, arith, eqb, [], String,
  Option, List, Bool, Option-cases, Bool-cases,
}
use client_server_architectu.Resources.{
  Resource, Resources, acquire, close_if_open, descriptor, log_file, message_queue, address_list,
}

-- What the setup of a socket leaves alone.
abbrev pub Kept : Process → Process → Type 0
Kept p q = (q.context ≡ p.context) × (q.tcp_socket ≡ p.tcp_socket) × (q.udp_socket ≡ p.udp_socket)

-- The socket that is kept is the only new resource.
abbrev pub Tried : Process → Option ℕ × Process → Type 0
Tried p (none, q) = Kept p q × (q.resources ≡ p.resources)
Tried p (some fd, q) = Kept p q × (q.resources ≡ acquire (descriptor fd) p.resources)

closed_again :
    (fd : ℕ) (p : Process) → close_if_open (some fd) (opened fd p).resources ≡ p.resources
closed_again fd p = let same : eqb fd fd ≡ true = ground arith in rw same refl

initialize_udp_peer_address-Kept :
    (bytes : List ℕ) (p : Process)
    → Kept p (initialize_udp_peer_address bytes p)
      × ((initialize_udp_peer_address bytes p).resources ≡ p.resources)
unfolding initialize_udp_peer_address
initialize_udp_peer_address-Kept bytes p = ground arith

back_to :
    (p : Process) {x : Resources} (o : Option ℕ × Process)
    → x ≡ p.resources
    → Tried (record p { resources = x }) o
    → Tried p o
back_to p (none, q) e (kept, h) = (kept, h ∙ e)
back_to p (some fd, q) e (kept, h) = (kept, h ∙ ap (acquire (descriptor fd)) e)

try_addresses-Tried :
    (protocol : Protocol) (addresses : List Address) (p : Process)
    → Tried p (try_addresses protocol addresses p)
unfolding try_addresses
try_addresses-Tried protocol [] p = ((refl, refl, refl), refl)
try_addresses-Tried tcp (a ∷ as') p = elim (Option-cases a.socket) [
  | inl e ↦ rw e (try_addresses-Tried tcp as' p)
  | inr (fd, e) ↦ elim (Bool-cases a.connects) [
    | inl c ↦ rw (e, c) ((refl, refl, refl), refl)
    | inr c ↦
        rw (e, c)
          (back_to p _ (closed_again fd p) (
            try_addresses-Tried tcp as'
              (record p { resources = close_if_open (some fd) (opened fd p).resources })))
  ]
]
try_addresses-Tried udp (a ∷ as') p = elim (Option-cases a.socket) [
  | inl e ↦ rw e (try_addresses-Tried udp as' p)
  | inr (fd, e) ↦ rw e (initialize_udp_peer_address-Kept a.bytes (opened fd p))
]

-- A socket that is set up is the new resource; otherwise nothing is held that was not.
abbrev pub SetUp : Protocol → Process → Bool × Process → Type 0
SetUp protocol p (false, q) = Kept p q × (q.resources ≡ p.resources)
SetUp tcp p (true, q) =
    (fd : ℕ) × (q.tcp_socket ≡ some fd)
    × (q.udp_socket ≡ p.udp_socket)
    × (q.context ≡ p.context)
    × (q.resources ≡ acquire (descriptor fd) p.resources)
SetUp udp p (true, q) =
    (fd : ℕ) × (q.udp_socket ≡ some fd)
    × (q.tcp_socket ≡ p.tcp_socket)
    × (q.context ≡ p.context)
    × (q.resources ≡ acquire (descriptor fd) p.resources)

validated-SetUp :
    (protocol : Protocol) (p : Process) (o : Option ℕ × Process)
    → Tried (record p { resources = acquire address_list p.resources }) o
    → SetUp protocol p (socket_validation protocol (free_addresses o))
unfolding socket_validation
validated-SetUp tcp p (none, q) (kept, h) = (kept, rw h refl)
validated-SetUp udp p (none, q) (kept, h) = (kept, rw h refl)
validated-SetUp tcp p (some fd, q) ((a, b, c), h) = (fd, refl, c, a, rw h refl)
validated-SetUp udp p (some fd, q) ((a, b, c), h) = (fd, refl, b, a, rw h refl)

pub setup_and_connect-SetUp :
    (protocol : Protocol) (addresses : Option (List Address)) (p : Process)
    → SetUp protocol p (setup_and_connect protocol addresses p)
unfolding setup_and_connect
setup_and_connect-SetUp protocol none p = ((refl, refl, refl), refl)
setup_and_connect-SetUp protocol (some addresses) p =
    validated-SetUp protocol p _ (try_addresses-Tried protocol addresses _)

-- What a process holds whose sockets and queue are as given.
abbrev pub queue_part : Option (List (ℕ × String)) → List Resource
queue_part none = []
queue_part (some queue) = message_queue ∷ []

abbrev pub socket_part : Option ℕ → List Resource
socket_part none = []
socket_part (some fd) = descriptor fd ∷ []

abbrev pub expected : Option ℕ → Option ℕ → Option (List (ℕ × String)) → Resources
expected t u queue = record {
  held = queue_part queue ++ socket_part u ++ socket_part t ++ log_file ∷ [];
  misuses = 0;
}

abbrev pub IsOrderly : Process → Type 0
IsOrderly p = p.resources ≡ expected p.tcp_socket p.udp_socket p.context.ipc_queue

pub same_resources :
    (q : Process) {t u : Option ℕ} {context : ClientContext}
    → q.tcp_socket ≡ t
    → q.udp_socket ≡ u
    → q.context ≡ context
    → q.resources ≡ expected t u context.ipc_queue
    → IsOrderly q
same_resources q a b c h = rw (a, b, c) h

pub closed_sockets :
    (t u : Option ℕ) (queue : Option (List (ℕ × String)))
    → close_if_open u (close_if_open t (expected t u queue)) ≡ expected none none queue
closed_sockets none none queue = refl
closed_sockets (some t) none none = let same : eqb t t ≡ true = ground arith in rw same refl
closed_sockets (some t) none (some q) = let same : eqb t t ≡ true = ground arith in rw same refl
closed_sockets none (some u) none = let same : eqb u u ≡ true = ground arith in rw same refl
closed_sockets none (some u) (some q) = let same : eqb u u ≡ true = ground arith in rw same refl
closed_sockets (some t) (some u) none = ground arith
closed_sockets (some t) (some u) (some q) = ground arith
