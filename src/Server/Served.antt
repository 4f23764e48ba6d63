-- ===== src/Server/Served.antt =====
-- Every open connection has a session, as long as no descriptor is reused before its erasure.
use client_server_architectu.Server.Kept.{
  keeps_IsServed, change_interest-KeepsSessions, client_event-KeepsSessions,
}
use client_server_architectu.ClientSession.Run.{has_pending_messages}
use client_server_architectu.ClientSession.{Output}
use client_server_architectu.World.{World}
use client_server_architectu.Platform.{Platform}
use client_server_architectu.Prelude.{
  String, ◌++◌, if◌then◌else◌, true, false, ◌≡◌, ℕ, refl, inr, inl, eqb, arith, Bool-cases, Bool,
}
use client_server_architectu.Server.Steps.{
  ends, Step, Reach, done, delivered, IsInTime, IsServed, accepts, delivers, receives, accepts_unix,
  serves_udp, serves_unix, keeps, closes, erases, begins, goes_on,
}
use client_server_architectu.Server.{
  is_used, release, close_descriptor, one_event, Accepted, handle_unix_connection, open_session,
  get_client_ip, handle_tcp_connection, rearm, close_client, erase_session, Interest, Entry, Server,
  change_interest, held, absent, vacant, accept_fails, accepted,
}

close_descriptor-IsServed : (fd : ℕ) (s : Server) → IsServed s → IsServed (close_descriptor fd s)
close_descriptor-IsServed fd s served k is_open = elim (Bool-cases (eqb k fd)) [
  | inl same ↦ cc (rw (same) at is_open)
  | inr other ↦ served k (rw (other) at is_open)
]

release-IsServed : (e : Entry) (fd : ℕ) (s : Server) → IsServed s → IsServed (release e fd s)
unfolding release
release-IsServed (held n) fd s served = go (is_used n fd s)
  where
    go : (b : Bool) → IsServed (if b then s else close_descriptor fd s)
    go true = served
    go false = close_descriptor-IsServed fd s served
release-IsServed absent fd s served = served
release-IsServed vacant fd s served = served

module _ ⦃p : Platform⦄ where
  open_session-IsServed :
      (fd : ℕ) (ip : String) (out : Output) (s : Server)
      → ((k : ℕ) → s.open_fd k ≡ true → eqb k fd ≡ false → (n : ℕ) × (s.client_sessions k ≡ held n))
      → IsServed (open_session fd ip out s)
  unfolding open_session
  open_session-IsServed fd ip out s served =
      release-IsServed (s.client_sessions fd) fd _ λ k is_open. elim (Bool-cases (eqb k fd)) [
        | inl same ↦ (s.next_session, rw (same) refl)
        | inr other ↦ let (n, e) = served k is_open other in (n, rw (other) e)
      ]

  handle_tcp_connection-IsServed :
      (a : Accepted) (s : Server) → IsServed s → IsServed (handle_tcp_connection a s)
  unfolding handle_tcp_connection
  handle_tcp_connection-IsServed accept_fails s served = served
  handle_tcp_connection-IsServed (accepted fd false ip out) s served = served
  handle_tcp_connection-IsServed (accepted fd true ip out) s served =
      open_session-IsServed fd (get_client_ip ip) out _
        λ k is_open other. served k (rw (other) at is_open)

  close_client-IsServed : (n fd : ℕ) (s : Server) → IsServed s → IsServed (close_client n fd s)
  unfolding close_client
  close_client-IsServed n fd s served k is_open = elim (Bool-cases (eqb k fd)) [
    | inl same ↦ cc (rw (same) at is_open)
    | inr other ↦ served k (rw (other) at is_open)
  ]

  erase_session-IsServed :
      (n fd : ℕ) (s : Server) → s.open_fd fd ≡ false → IsServed s → IsServed (erase_session n fd s)
  unfolding erase_session
  erase_session-IsServed n fd s in_time served =
      release-IsServed (s.client_sessions fd) fd _ λ k is_open. elim (Bool-cases (eqb k fd)) [
        | inl same ↦ let q : k ≡ fd = ground arith in cc (rw q at is_open)
        | inr other ↦ let (m, e) = served k is_open in (m, rw (other) e)
      ]

  Step-IsServed : {s t : Server} (step : Step s t) → IsInTime step → IsServed s → IsServed t
  unfolding rearm handle_unix_connection
  Step-IsServed {s} (accepts a fresh) h served = handle_tcp_connection-IsServed a s served
  Step-IsServed {s} (delivers fd writable out armed e) h served =
      keeps_IsServed (client_event-KeepsSessions fd writable out (delivered fd s) e) served
  Step-IsServed receives h served = served
  Step-IsServed (accepts_unix true) h served = served
  Step-IsServed (accepts_unix false) h served = served
  Step-IsServed (serves_udp before after r address e) h served = served
  Step-IsServed (serves_unix before after i e) h served = served
  Step-IsServed {s} (keeps before after n fd input out late {w} e r) h served =
      let t : Server = done (before ++ after) w s in
      let i : Interest = one_event (has_pending_messages n w) in
      release-IsServed (held n) fd (change_interest fd i t)
        (keeps_IsServed (change_interest-KeepsSessions fd i t) served)
  Step-IsServed {s} (closes before after n fd input out late {w} e r) h served =
      close_client-IsServed n fd (done (before ++ after) w s) served
  Step-IsServed {s} (erases before after n fd e) h served =
      erase_session-IsServed n fd (record s { closed = before ++ after }) h served
  Step-IsServed {s} (ends before after n fd e) h served = release-IsServed (held n) fd _ served

  -- As long as no descriptor is given to a new connection between its closing and the erasure of
  -- its session, every open descriptor of a client has a session, whatever the order of the loop's
  -- and the tasks' steps.
  pub Reach-IsServed : {w : World} {s : Server} → Reach w s → IsServed s
  Reach-IsServed begins = λ fd is_open. cc
  Reach-IsServed (goes_on before step in_time) = Step-IsServed step in_time (Reach-IsServed before)
