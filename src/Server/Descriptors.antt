-- ===== src/Server/Descriptors.antt =====
-- The state of src/server/server.cpp: the descriptors of the clients, what epoll has of each, the
-- map of the sessions, and the tasks. A session's destructor closes its descriptor
-- (src/server/clientSession.cpp).

-- an entry of `m_clientSessions`: none, a null pointer, or a session object by its number
use client_server_architectu.ClientSession.{Output}
use client_server_architectu.World.{World, Exec}
use client_server_architectu.Prelude.{
  Option, some, none, if◌then◌else◌, ◌∷◌, ◌||◌, ℕ, false, eqb, [], String, List, Bool,
}

pub data Entry : Type 0 where
  absent vacant : Entry
  held : ℕ → Entry

-- What `epoll_ctl` has asked for a descriptor: nothing, nothing until it is armed again, one event
-- (`EPOLLONESHOT`, with or without `EPOLLOUT`), or every event (`EPOLLIN` alone).
pub data Interest : Type 0 where
  unregistered disarmed every_event : Interest
  one_event : Bool → Interest

pub data Task : Type 0 where
  session_task : ℕ → ℕ → Task
  udp_task unix_task : Task

-- the family of a client's address, with what `inet_ntop` gives for it
pub data PeerAddress : Type 0 where
  inet inet6 : Option String → PeerAddress
  other_family : PeerAddress

abbrev text_or_unknown : Option String → String
text_or_unknown none = "UNKNOWN"
text_or_unknown (some text) = text

unfoldable pub get_client_ip : PeerAddress → String
get_client_ip (inet text) = text_or_unknown text
get_client_ip (inet6 text) = text_or_unknown text
get_client_ip other_family = "UNKNOWN"

-- what `accept` gives: an error, or a descriptor, whether `epoll_ctl` adds it, the address, and what
-- the write of the welcome does
pub data Accepted : Type 0 where
  accept_fails : Accepted
  accepted : ℕ → Bool → PeerAddress → Output → Accepted

pub record Server : Type 0 where
  pub world : World
  pub client_sessions : ℕ → Entry
  -- the number of the next session object
  pub next_session : ℕ
  -- the clients' descriptors that are open, and what epoll has of each
  pub open_fd : ℕ → Bool
  pub interest : ℕ → Interest
  -- the tasks of the pool that have not begun; the sessions, with their descriptors, whose task has
  -- closed the descriptor and not yet erased it from `m_clientSessions`; those whose task has erased
  -- it and not yet let go of the session
  pub tasks : List Task
  pub closed : List (ℕ × ℕ)
  pub ending : List (ℕ × ℕ)

abbrev pub new_server : World → Server
new_server w = record {
  world = w;
  client_sessions = λ fd. absent;
  next_session = 0;
  open_fd = λ fd. false;
  interest = λ fd. unregistered;
  tasks = [];
  closed = [];
  ending = [];
}

abbrev pub set_at : {A : Type 0} → ℕ → A → (ℕ → A) → ℕ → A
set_at k a f = λ n. if eqb n k then a else f n

-- the world after an action, whatever it gives
abbrev pub perform : {A : Type 0} → Exec A → World → World
perform m w = (m w).1

-- `EPOLL_CTL_MOD`, which fails on a descriptor that is not registered
unfoldable pub change_interest : ℕ → Interest → Server → Server
change_interest fd i s = elim (s.interest fd) [
  | unregistered ↦ s
  | other ↦ record s { interest = set_at fd i s.interest }
]

abbrev pub close_descriptor : ℕ → Server → Server
close_descriptor fd s = record s {
  interest = set_at fd unregistered s.interest;
  open_fd = set_at fd false s.open_fd;
}

abbrev is_task_of : ℕ → Task → Bool
is_task_of n (session_task k fd) = eqb k n
is_task_of n udp_task = false
is_task_of n unix_task = false

abbrev is_entry_of : ℕ → Entry → Bool
is_entry_of n (held k) = eqb k n
is_entry_of n absent = false
is_entry_of n vacant = false

abbrev any : {A : Type 0} → (A → Bool) → List A → Bool
any f [] = false
any f (a ∷ as') = f a || any f as'

-- a shared pointer to the session of a descriptor is left
abbrev pub is_used : ℕ → ℕ → Server → Bool
is_used n fd s =
    is_entry_of n (s.client_sessions fd)
    || any (is_task_of n) s.tasks
    || any (λ e. eqb e.0 n) s.closed
    || any (λ e. eqb e.0 n) s.ending
    || any (λ e. eqb e.1 n) s.world.sessions.active_sessions

-- A pointer is let go: the destructor of the session closes its descriptor, whoever has it now.
unfoldable pub release : Entry → ℕ → Server → Server
release (held n) fd s = if is_used n fd s then s else close_descriptor fd s
release absent fd s = s
release vacant fd s = s
