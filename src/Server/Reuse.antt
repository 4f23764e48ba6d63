-- ===== src/Server/Reuse.antt =====
-- A descriptor that the kernel gives away before the destructor of its last session.
use client_server_architectu.ClientSession.{Output}
use client_server_architectu.Platform.{Platform}
use client_server_architectu.Prelude.{
  ap, ◌∙◌, ◌≡◌, ◌∷◌, ◌++◌, ℕ, true, refl, false, eqb, arith, List,
}
use client_server_architectu.Server.Steps.{Step, accepts, ends}
use client_server_architectu.Server.{
  PeerAddress, close_descriptor, open_session, is_used, release, Server, handle_tcp_connection,
  accepted, held, absent,
}

module _ ⦃p : Platform⦄ where
  -- The kernel gives the descriptor to a new connection.
  abbrev pub reused : ℕ → PeerAddress → Output → Server → Server
  reused fd ip out s = handle_tcp_connection (accepted fd true ip out) s

  abbrev pub ended : ℕ → ℕ → List (ℕ × ℕ) → Server → Server
  ended n fd rest s = release (held n) fd (record s { ending = rest })

  ended-closes :
      (n fd : ℕ) (rest : List (ℕ × ℕ)) (s : Server)
      → is_used n fd (record s { ending = rest }) ≡ false
      → ended n fd rest s ≡ close_descriptor fd (record s { ending = rest })
  unfolding release
  ended-closes n fd rest s e = rw (e) refl

  -- the state of a new connection on a descriptor without an entry
  reused_lem :
      (fd : ℕ) (ip : PeerAddress) (out : Output) (s : Server)
      → s.client_sessions fd ≡ absent
      → ((reused fd ip out s).ending ≡ s.ending)
        × ((reused fd ip out s).open_fd fd ≡ true)
        × ((reused fd ip out s).client_sessions fd ≡ held s.next_session)
  unfolding handle_tcp_connection open_session release
  reused_lem fd ip out s gone =
      let same : eqb fd fd ≡ true = ground arith in
      (rw gone refl, rw (gone, same) refl, rw (gone, same) refl)

  -- A task has erased the session of its client, whose descriptor it has closed, and not yet let go
  -- of it. If the loop accepts a new client with that descriptor, and nothing else holds the old
  -- session, then the end of the task closes the new client's descriptor, and the new client's
  -- session stays in the map.
  pub release-closes :
      (s : Server) (before after : List (ℕ × ℕ)) (n fd : ℕ) (ip : PeerAddress) (out : Output)
      → s.ending ≡ before ++ (n, fd) ∷ after
      → s.open_fd fd ≡ false
      → s.client_sessions fd ≡ absent
      → is_used n fd (record (reused fd ip out s) { ending = before ++ after }) ≡ false
      → (t u : Server) × Step s t
        × Step t u
        × (t.open_fd fd ≡ true)
        × (u.open_fd fd ≡ false)
        × (u.client_sessions fd ≡ held s.next_session)
  release-closes s before after n fd ip out c o gone unused =
      let same : eqb fd fd ≡ true = ground arith in
      let (kept, opened, entered) = reused_lem fd ip out s gone in
      let closes : ended n fd (before ++ after) (reused fd ip out s)
          ≡ close_descriptor fd (record (reused fd ip out s) { ending = before ++ after }) =
        ended-closes n fd (before ++ after) (reused fd ip out s) unused in
      (
        reused fd ip out s,
        ended n fd (before ++ after) (reused fd ip out s),
        accepts (accepted fd true ip out) o,
        ends before after n fd (kept ∙ c),
        opened,
        ap (λ (u : Server). u.open_fd fd) closes ∙ rw same refl,
        ap (λ (u : Server). u.client_sessions fd) closes ∙ entered,
      )
