-- ===== src/Server/Setup/Tables.antt =====
-- The setup of the server keeps every invariant of the tables and the cache, whether it returns or
-- throws.
use client_server_architectu.Invariant.{Holds, IsInvariant, Property, log-Keeps, invariant_rules}
use client_server_architectu.Logger.{LogLevel, error, info, log}
use client_server_architectu.Platform.{Platform}
use client_server_architectu.Prelude.{
  ◌≡◌, ℕ, String, Option, List, true, false, none, some, subst, sym, refl, ◌∷◌, [], Option-cases,
  Bool-cases, inl, inr, ◌&&◌,
}
use client_server_architectu.Server.{create_default_admin}
use client_server_architectu.Server.Setup.{
  Addresses, Calls, Candidate, Listener, Step, address_error, addresses, admin_created, bind_first,
  create_epoll, listed, listen_tcp, note, serve_udp, serve_unix, set_tcp_config, set_udp_config,
  set_unix_config, setup_server, ◌then◌,
}
use client_server_architectu.World.Keeps.{Keeps}
use client_server_architectu.World.{World, Result, ok, err}

module _ ⦃p : Platform⦄ (P : Property) (inv : IsInvariant P) where
  abbrev HasTables : Listener → Type 0
  HasTables s = Holds P s.world

  noted :
      (level : LogLevel) (component message : String) (s : Listener)
      → HasTables s
      → HasTables (note (log level component message) s)
  noted level component message s = (log-Keeps P inv level component message).at s.world

  then-tables :
      (m : Step) (f : Listener → Step)
      → HasTables m.1
      → ((s : Listener) → HasTables s → HasTables (f s).1)
      → HasTables (m then f).1
  then-tables (true, s) f h k = k s h
  then-tables (false, s) f h k = h

  bind_first-world : (cs : List Candidate) (s : Listener) → (bind_first cs s).1.world ≡ s.world
  unfolding bind_first
  bind_first-world [] s = refl
  bind_first-world (c ∷ cs) s = elim (Option-cases c.socket) [
    | inl e ↦ rw (bind_first, e) (bind_first-world cs s)
    | inr (fd, e) ↦ elim (Bool-cases (c.takes_ipv4 && c.reuses)) [
      | inr refused ↦ rw (bind_first, e, refused) refl
      | inl accepted ↦ elim (Bool-cases c.binds) [
        | inl b ↦ rw (bind_first, e, accepted, b) refl
        | inr b ↦ rw (bind_first, e, accepted, b) (bind_first-world cs _)
      ]
    ]
  ]

  listen_tcp-tables :
      (c : Calls) (o : Option (Option ℕ) × Listener) → HasTables o.1 → HasTables (listen_tcp c o).1
  unfolding listen_tcp
  listen_tcp-tables c (none, s) h = h
  listen_tcp-tables c (some none, s) h = noted error "Server" _ s h
  listen_tcp-tables c (some (some fd), s) h = elim (Bool-cases c.tcp_listens) [
    | inr e ↦ rw (listen_tcp, e) (noted error "Server" _ s h)
    | inl e ↦ elim (Bool-cases c.tcp_watched) [
      | inr e' ↦ rw (listen_tcp, e, e') (noted error "Server" _ s h)
      | inl e' ↦ rw (listen_tcp, e, e') (noted info "Server" _ s h)
    ]
  ]

  set_tcp_config-tables :
      (c : Calls) (s : Listener) → HasTables s → HasTables (set_tcp_config c s).1
  unfolding set_tcp_config
  set_tcp_config-tables c s h = go c.tcp refl
    where
      go : (a : Addresses) → c.tcp ≡ a → HasTables (set_tcp_config c s).1
      go (address_error text) e = rw (set_tcp_config, e) (noted error "Server" _ s h)
      go (addresses candidates) e =
          rw (set_tcp_config, e)
            (listen_tcp-tables c (bind_first candidates (listed s))
              (subst (Holds P) (sym (bind_first-world candidates (listed s))) h))

  serve_udp-tables :
      (c : Calls) (fd : ℕ) (s : Listener) → HasTables s → HasTables (serve_udp c fd s).1
  serve_udp-tables c fd s h = elim (Bool-cases c.udp_binds) [
    | inr e ↦ rw e (noted error "Server" _ s h)
    | inl e ↦ elim (Bool-cases c.udp_watched) [
      | inr e' ↦ rw (e, e') (noted error "Server" _ s h)
      | inl e' ↦ rw (e, e') (noted info "Server" _ s h)
    ]
  ]

  set_udp_config-tables :
      (c : Calls) (s : Listener) → HasTables s → HasTables (set_udp_config c s).1
  unfolding set_udp_config
  set_udp_config-tables c s h = elim (Bool-cases c.udp_resolves) [
    | inr e ↦ rw (set_udp_config, e) h
    | inl e ↦ elim (Option-cases c.udp_socket) [
      | inl e' ↦ rw (set_udp_config, e, e') (noted error "Server" _ s h)
      | inr (fd, e') ↦ rw (set_udp_config, e, e') (serve_udp-tables c fd _ h)
    ]
  ]

  serve_unix-tables :
      (c : Calls) (fd : ℕ) (s : Listener) → HasTables s → HasTables (serve_unix c fd s).1
  serve_unix-tables c fd s h = elim (Bool-cases c.unix_binds) [
    | inr e ↦ rw e h
    | inl e ↦ elim (Bool-cases c.unix_listens) [
      | inr e' ↦ rw (e, e') h
      | inl e' ↦ elim (Bool-cases c.unix_watched) [
        | inr q ↦ rw (e, e', q) h
        | inl q ↦ rw (e, e', q) (noted info "Server" _ s h)
      ]
    ]
  ]

  set_unix_config-tables :
      (c : Calls) (s : Listener) → HasTables s → HasTables (set_unix_config c s).1
  unfolding set_unix_config
  set_unix_config-tables c s h = elim (Option-cases c.unix_socket) [
    | inl e ↦ rw (set_unix_config, e) h
    | inr (fd, e) ↦ rw (set_unix_config, e) (serve_unix-tables c fd _ h)
  ]

  create_epoll-tables : (c : Calls) (s : Listener) → HasTables s → HasTables (create_epoll c s).1
  create_epoll-tables c s h = elim (Option-cases c.epoll) [ inl e ↦ rw e h | inr (fd, e) ↦ rw e h ]

  admin_created-tables :
      (s : Listener) (r : Result (Unit {0}) × World) → Holds P r.1 → HasTables (admin_created s r).1
  admin_created-tables s (ok u, w) h = h
  admin_created-tables s (err e, w) h = h

  create_default_admin-Keeps : Keeps (Holds P) create_default_admin
  unfolding create_default_admin
  create_default_admin-Keeps = search (invariant_rules)

  pub setup_server-Holds :
      (c : Calls) (s : Listener) → Holds P s.world → Holds P (setup_server c s).1.world
  unfolding setup_server
  setup_server-Holds c s h =
      let polled = create_epoll c s in
      let tcp = polled then set_tcp_config c in
      let udp = tcp then set_udp_config c in
      let unix = udp then set_unix_config c in
      let a =
        then-tables polled (set_tcp_config c) (create_epoll-tables c s h)
          (set_tcp_config-tables c) in
      let b = then-tables tcp (set_udp_config c) a (set_udp_config-tables c) in
      let d = then-tables udp (set_unix_config c) b (set_unix_config-tables c) in
      then-tables unix (λ t. admin_created t (create_default_admin t.world)) d
        (λ t h'.
          admin_created-tables t (create_default_admin t.world)
            (create_default_admin-Keeps.at t.world h'))
