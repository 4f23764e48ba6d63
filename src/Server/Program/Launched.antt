-- ===== src/Server/Program/Launched.antt =====
-- The running server, from the start of its program on.
use client_server_architectu.Config.{Settings, configure}
use client_server_architectu.Invariant.{Holds, IsInvariant, Property, log-Keeps}
use client_server_architectu.Inventory.Coherent.{IsCoherent, keep-IsCoherent}
use client_server_architectu.Inventory.{get_stock_on_cache}
use client_server_architectu.Prelude.Dict
use client_server_architectu.Logger.{info, open_log_file}
use client_server_architectu.Platform.{Platform}
use client_server_architectu.Prelude.Options.{>>=-eq-some, guard, guard-eq-some}
use client_server_architectu.Prelude.{
  Bool, contains, List, String, arith, false, refl, some, subst, sym, true, ◌≡◌,
}
use client_server_architectu.Server.Invariants.{
  coherence, coherence-IsInvariant, schema, schema-IsInvariant, Run-IsCoherent, Run-IsSchema,
}
use client_server_architectu.Server.Program.{
  Host, opened_log, announced, launch, new_world, new_log_file, serve, services, started,
}
use client_server_architectu.Server.Setup.{Listener, Step, new_listener, setup_server}
use client_server_architectu.Server.Setup.Tables.{setup_server-Holds}
use client_server_architectu.Server.Steps.{Run}
use client_server_architectu.Server.{Server, new_server}
use client_server_architectu.Storage.Schema.{IsSchema}
use client_server_architectu.Storage.Setup.{
  Database, IsDatabase, initialize_schema, initialize_schema-IsDatabase, open_database,
}
use client_server_architectu.World.{Config, Journal, LogFile}

module _ ⦃p : Platform⦄ ⦃y : Settings⦄ where
  started-some :
      (r : Step) {s : Listener}
      → started r ≡ some s
      → (t : Listener) × (r ≡ (true, t)) × (s ≡ announced t)
  started-some (true, t) e = (t, refl, cc)
  started-some (false, t) e = cc

  serve-some :
      (settings : Config) (h : Host) (r : Bool × Database) {s : Listener}
      → serve settings h r ≡ some s
      → (t : Listener) × (r.0 ≡ true)
        × (setup_server h.calls (new_listener (services settings h r.1)) ≡ (true, t))
        × (s ≡ announced t)
  serve-some settings h (true, d) e =
      let (t, q, a) =
        started-some (setup_server h.calls (new_listener (services settings h d))) e in
      (t, refl, q, a)
  serve-some settings h (false, d) e = cc

  -- What has been launched has been configured and set up.
  pub launch-some :
      (args : List String) (h : Host) {s : Listener}
      → launch args h ≡ some s
      → (settings : Config) × (t : Listener) × (configure args ≡ some settings)
        × ((open_database h.directory h.opens h.pragmas).0 ≡ true)
        × ((initialize_schema 0 h.database).0 ≡ true)
        × (setup_server h.calls
              (new_listener (services settings h (initialize_schema 0 h.database).1))
            ≡ (true, t))
        × (s ≡ announced t)
  unfolding launch
  launch-some args h e =
      let (settings, a, b) = >>=-eq-some (configure args) _ e in
      let (u, c, d) =
        >>=-eq-some (guard (open_database h.directory h.opens h.pragmas).0)
          (λ u. serve settings h (initialize_schema 0 h.database)) b in
      let (t, i, q, r) = serve-some settings h (initialize_schema 0 h.database) d in
      (settings, t, a, guard-eq-some c, i, q, r)

  open_log_file-logs : (j : Journal) → (open_log_file j).1.logs ≡ j.logs
  unfolding open_log_file
  open_log_file-logs j = ground arith

  services-Holds :
      (P : Property) (inv : IsInvariant P) (settings : Config) (h : Host) (d : Database)
      → Holds P (new_world settings (new_log_file h) d)
      → Holds P (services settings h d)
  services-Holds P inv settings h d k =
      (log-Keeps P inv info "Main" "Core services initialized.").at
        (opened_log (new_world settings (new_log_file h) d))
        (rw (open_log_file-logs (new_world settings (new_log_file h) d).journal) k)

  -- A property of the new objects holds when the loop begins.
  launched-Holds :
      (P : Property) (inv : IsInvariant P) (args : List String) (h : Host) {s : Listener}
      → ((settings : Config)
          → Holds P (new_world settings (new_log_file h) (initialize_schema 0 h.database).1))
      → launch args h ≡ some s
      → Holds P s.world
  launched-Holds P inv args h {s} k e =
      let (settings, t, a, o, i, q, r) = launch-some args h e in
      let w = services settings h (initialize_schema 0 h.database).1 in
      let before =
        services-Holds P inv settings h (initialize_schema 0 h.database).1 (k settings) in
      let set_up = setup_server-Holds P inv h.calls (new_listener w) before in
      let after =
        (log-Keeps P inv info "Main" "Server successfully started. Running loop...").at t.world
          (subst (λ (x : Step). Holds P x.1.world) q set_up) in
      subst (λ (x : Listener). Holds P x.world) (sym r) after

  new_world-IsCoherent :
      (settings : Config) (file : LogFile) (d : Database)
      → IsDatabase d
      → IsCoherent (new_world settings file d)
  unfolding get_stock_on_cache Dict.lookup contains
  new_world-IsCoherent settings file d h = record {
    distinct = h.distinct_stock;
    agrees = λ c k i q e. cc;
    complete = λ c k i e. cc;
  }

  -- If the rows that the program finds in its database are as the schema promises, or there are none,
  -- then in every state of a run from its start in which each method of the inventory runs whole, the
  -- tables are as the schema promises and the cache of the inventory is coherent with its table.
  pub launch-IsCoherent :
      (args : List String) (h : Host) (s : Listener) {t : Server}
      → IsDatabase h.database
      → launch args h ≡ some s
      → Run (new_server s.world) t
      → IsSchema t.world × IsCoherent t.world
  launch-IsCoherent args h s d e run =
      let found = initialize_schema-IsDatabase 0 h.database d in
      (
        Run-IsSchema run (launched-Holds schema schema-IsInvariant args h (λ settings. found) e),
        Run-IsCoherent run (
            launched-Holds coherence coherence-IsInvariant args h
              (λ settings w a b.
                keep-IsCoherent w
                  (new_world-IsCoherent settings (new_log_file h) (initialize_schema 0 h.database).1
                    found)
                  a b)
              e s.world refl refl),
      )
