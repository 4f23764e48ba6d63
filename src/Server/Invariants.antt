-- ===== src/Server/Invariants.antt =====
-- Two invariants of the running server: what the schema promises of the tables, and the coherence of
-- the inventory's cache, each method run whole.
use client_server_architectu.Invariant.{IsInvariant, Property}
use client_server_architectu.Inventory.Calls.{
  get_inventory_summary-IsCoherent, get_stock-IsCoherent, update_stock-IsCoherent,
}
use client_server_architectu.Inventory.Coherent.{IsCoherent, keep-IsCoherent}
use client_server_architectu.Inventory.Tables.{
  get_inventory_summary-Keeps, get_stock-Keeps, update_stock-Keeps,
}
use client_server_architectu.Logger.Tables.{log_for-Keeps}
use client_server_architectu.Platform.{Platform}
use client_server_architectu.Prelude.{◌≡◌, arith, refl, Bool, String}
use client_server_architectu.Prelude.Int.{ℤ}
use client_server_architectu.Server.Steps.{Run}
use client_server_architectu.Server.Tables.{Run-Holds}
use client_server_architectu.Server.{Server}
use client_server_architectu.Storage.Schema.Statements.{
  create_user-Keeps, set_client_lock_status-Keeps, update_login_attempts-Keeps,
}
use client_server_architectu.Storage.Schema.{IsSchema, IsTables}
use client_server_architectu.Storage.{create_user, set_client_lock_status, update_login_attempts}
use client_server_architectu.World.Keeps.{Keeps}
use client_server_architectu.World.{World, Exec}

abbrev pub schema : Property
schema users stock logs cache = IsTables users stock logs

abbrev pub coherence : Property
coherence users stock logs cache = (w : World) → w.stock ≡ stock → w.cache ≡ cache → IsCoherent w

-- An action that keeps the coherence of the cache.
coherent-Keeps :
    {A : Type 0} (m : Exec A)
    → ((w : World) → IsCoherent w → IsCoherent (m w).1)
    → Keeps (λ w. coherence w.users w.stock w.journal.logs w.cache) m
coherent-Keeps m k = record { at = λ w h v e e'. keep-IsCoherent v (k w (h w refl refl)) e e' }

module _ ⦃p : Platform⦄ where
  pub schema-IsInvariant : IsInvariant schema
  schema-IsInvariant = record {
    log_for = log_for-Keeps;
    create_user = create_user-Keeps;
    update_login_attempts = update_login_attempts-Keeps;
    set_client_lock_status = set_client_lock_status-Keeps;
    update_stock = update_stock-Keeps;
    get_stock = get_stock-Keeps;
    get_inventory_summary = get_inventory_summary-Keeps;
  }

  create_user-IsCoherent :
      (user password : String) {w : World}
      → IsCoherent w
      → IsCoherent (create_user user password w).1
  unfolding create_user
  create_user-IsCoherent user password {w} h = keep-IsCoherent _ h (ground arith) (ground arith)

  update_login_attempts-IsCoherent :
      (user : String) (success : Bool) (time : ℤ) {w : World}
      → IsCoherent w
      → IsCoherent (update_login_attempts user success time w).1
  unfolding update_login_attempts
  update_login_attempts-IsCoherent user success time h =
      keep-IsCoherent _ h (ground arith) (ground arith)

  set_client_lock_status-IsCoherent :
      (user : String) (locked : Bool) {w : World}
      → IsCoherent w
      → IsCoherent (set_client_lock_status user locked w).1
  unfolding set_client_lock_status
  set_client_lock_status-IsCoherent user locked h =
      keep-IsCoherent _ h (ground arith) (ground arith)

  pub coherence-IsInvariant : IsInvariant coherence
  coherence-IsInvariant = record {
    log_for = λ client level component message. record { at = λ w h. h };
    create_user = λ user password.
        coherent-Keeps (create_user user password) (λ w. create_user-IsCoherent user password);
    update_login_attempts = λ user success time.
        coherent-Keeps (update_login_attempts user success time)
          (λ w. update_login_attempts-IsCoherent user success time);
    set_client_lock_status = λ user locked.
        coherent-Keeps (set_client_lock_status user locked)
          (λ w. set_client_lock_status-IsCoherent user locked);
    update_stock = λ c k i q. coherent-Keeps _ (λ w. update_stock-IsCoherent c k i q);
    get_stock = λ c k i. coherent-Keeps _ (λ w. get_stock-IsCoherent c k i);
    get_inventory_summary = λ c. coherent-Keeps _ (λ w. get_inventory_summary-IsCoherent c);
  }

  -- Whatever the clients, the datagrams and the sensors send, in whatever order the loop and the
  -- tasks run, and whichever statements and files fail: if no key stands twice in the tables, no
  -- user has more than three failed attempts, no name is empty, and every row of the stock and of
  -- the log that names a client names a registered one, then this holds after every step too.
  pub Run-IsSchema : {s t : Server} → Run s t → IsSchema s.world → IsSchema t.world
  Run-IsSchema = Run-Holds schema schema-IsInvariant

  -- Whatever the clients, the datagrams and the sensors send, and in whatever order the loop and the
  -- tasks run, with each method of the inventory run whole: a cache that is coherent with the table
  -- of the stock at the start is coherent with it after every step.
  pub Run-IsCoherent : {s t : Server} → Run s t → IsCoherent s.world → IsCoherent t.world
  Run-IsCoherent {s} {t} run h =
      Run-Holds coherence coherence-IsInvariant run (λ w e e'. keep-IsCoherent w h e e') t.world
        refl refl
