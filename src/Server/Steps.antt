-- ===== src/Server/Steps.antt =====
-- The loop of src/server/server.cpp and the tasks of its clients, interleaved in any order. A step
-- is an event that the loop handles, the run of a task, or one of the three ends of the task that
-- closes a connection, which no lock joins: closing the descriptor, erasing the session, and letting
-- go of it. The run of a task is one step, so the calls of other objects in it are not interleaved
-- with those of other tasks. A task of a session that throws ends the process, so it is no step. What
-- lets go of a session is its task alone: a pointer that the session manager drops closes nothing
-- here.
use client_server_architectu.ClientSession.Run.{run}
use client_server_architectu.ClientSession.{Input, Output}
use client_server_architectu.World.{ok, World}
use client_server_architectu.Platform.{Platform}
use client_server_architectu.Prelude.{
  ◌≡◌, ◌∷◌, ◌++◌, ℕ, true, some, push_back, false, String, Option, List, Bool,
}
use client_server_architectu.UdpHandler
use client_server_architectu.UdpHandler.{handle_message}
use client_server_architectu.AlertManager.{Incoming, handle_connection}
use client_server_architectu.ClientSession.{Input, Output}
use client_server_architectu.Server.{
  release, perform, Server, Accepted, Interest, Task, held, accept_fails, accepted, unregistered,
  disarmed, every_event, one_event, session_task, udp_task, unix_task, handle_tcp_connection,
  client_event, handle_unix_connection, rearm, close_client, erase_session, new_server, set_at,
}

-- A descriptor that `accept` gives is not open.
abbrev pub IsFresh : Accepted → Server → Type 0
IsFresh accept_fails s = Unit
IsFresh (accepted fd added ip out) s = s.open_fd fd ≡ false

-- `epoll_wait` may give an event, for writing or not.
abbrev pub IsArmed : Interest → Bool → Type 0
IsArmed unregistered writable = ⊥
IsArmed disarmed writable = ⊥
IsArmed every_event writable = writable ≡ false
IsArmed (one_event true) writable = Unit
IsArmed (one_event false) writable = writable ≡ false

abbrev pub after_delivery : Interest → Interest
after_delivery (one_event b) = disarmed
after_delivery unregistered = unregistered
after_delivery disarmed = disarmed
after_delivery every_event = every_event

abbrev pub delivered : ℕ → Server → Server
delivered fd s = record s { interest = set_at fd (after_delivery (s.interest fd)) s.interest }

-- the state in which a task of the pool has done its work on the world
abbrev pub done : List Task → World → Server → Server
done tasks w s = record s { tasks = tasks; world = w }

-- Every open descriptor of a client has a session.
abbrev pub IsServed : Server → Type 0
IsServed s = (fd : ℕ) → s.open_fd fd ≡ true → (n : ℕ) × (s.client_sessions fd ≡ held n)

module _ ⦃p : Platform⦄ where
  pub data Step (s : Server) : Server → Type 0 where
    accepts : (a : Accepted) → IsFresh a s → Step s (handle_tcp_connection a s)
    delivers :
        (fd : ℕ) (writable : Bool) (out : Output) {t : Server}
        → IsArmed (s.interest fd) writable
        → client_event fd writable out (delivered fd s) ≡ some t
        → Step s t
    receives : Step s (record s { tasks = push_back s.tasks udp_task })
    accepts_unix : (b : Bool) → Step s (handle_unix_connection b s)
    serves_udp :
        (before after : List Task) (r : UdpHandler.Received) (address : String)
        → s.tasks ≡ before ++ udp_task ∷ after
        → Step s (done (before ++ after) (perform (handle_message r address) s.world) s)
    serves_unix :
        (before after : List Task) (i : Incoming)
        → s.tasks ≡ before ++ unix_task ∷ after
        → Step s (done (before ++ after) (perform (handle_connection i) s.world) s)
    keeps :
        (before after : List Task) (n fd : ℕ) (input : Input) (out : Output) (late : Option String)
        {w : World}
        → s.tasks ≡ before ++ session_task n fd ∷ after
        → run n input out late s.world ≡ (ok true, w)
        → Step s (rearm n fd (done (before ++ after) w s))
    closes :
        (before after : List Task) (n fd : ℕ) (input : Input) (out : Output) (late : Option String)
        {w : World}
        → s.tasks ≡ before ++ session_task n fd ∷ after
        → run n input out late s.world ≡ (ok false, w)
        → Step s (close_client n fd (done (before ++ after) w s))
    erases :
        (before after : List (ℕ × ℕ)) (n fd : ℕ)
        → s.closed ≡ before ++ (n, fd) ∷ after
        → Step s (erase_session n fd (record s { closed = before ++ after }))
    ends :
        (before after : List (ℕ × ℕ)) (n fd : ℕ)
        → s.ending ≡ before ++ (n, fd) ∷ after
        → Step s (release (held n) fd (record s { ending = before ++ after }))

  -- any steps, one after the other
  pub data Run (s : Server) : Server → Type 0 where
    stays : Run s s
    moves : {t u : Server} → Run s t → Step t u → Run s u

  -- The kernel has not given the descriptor away when its session is erased.
  abbrev pub IsInTime : {s t : Server} → Step s t → Type 0
  IsInTime {s} (erases before after n fd e) = s.open_fd fd ≡ false
  IsInTime _ = Unit

  -- the states that a server can reach from its start with every erasure in time
  pub data Reach (w : World) : Server → Type 0 where
    begins : Reach w (new_server w)
    goes_on : {s t : Server} → Reach w s → (step : Step s t) → IsInTime step → Reach w t
