-- ===== src/Client/Connection/Released.antt =====
-- What a run of the client gives back.
use client_server_architectu.Client.{Library}
use client_server_architectu.Client.Output.{client_context_init, ClientContext}
use client_server_architectu.Client.Session.{start_communication}
use client_server_architectu.Client.Connection.{Process, System}
use client_server_architectu.Prelude.{◌⊎◌, ◌≡◌, ◌≤◌, ℕ, some, none, [], Option}
use client_server_architectu.Resources.{no_resources}
use client_server_architectu.Client.Connection.SetUp.{SetUp}

module _ ⦃l : Library⦄ where
  -- a run that ends, with an exit status, and holds nothing
  abbrev pub Ends : Option (ℕ × Process) → Type 0
  Ends o =
      (code : ℕ) × (p : Process) × (o ≡ some (code, p)) × (code ≤ 1) × (p.resources ≡ no_resources)

  -- the context in which the session begins
  abbrev pub connected : ClientContext
  connected = record client_context_init { ipc_queue = some [] }

  abbrev Result : System → Option (ℕ × Process) → Type 0
  Result s o = (start_communication s.welcome s.rounds connected ≡ none) ⊎ Ends o
