-- ===== src/Config/Queues.antt =====
-- The event queues under a configuration that the server starts with.
use client_server_architectu.Config.Bounds.{configure-IsConfig, positive-pos}
use client_server_architectu.EventQueue.Bounded.{queue-push_all, last_of, push_all}
use client_server_architectu.Prelude.Int.{pos}
use client_server_architectu.EventQueue.{queue}
use client_server_architectu.World.{ok, World, Event, Config}
use client_server_architectu.Config.{configure, Settings}
use client_server_architectu.Platform.{Platform}
use client_server_architectu.Prelude.{
  ◌∙◌, length, ap, ◌≡◌, ◌<◌, ℕ, zero, suc, some, arith, [], String, List, refl,
}

suc_of : (k : ℕ) → 0 < k → (n : ℕ) × (k ≡ suc n)
suc_of zero h = absurd (omega arith)
suc_of (suc n) h = (n, refl)

module _ ⦃y : Settings⦄ where
  -- With a configuration that the server starts with, pushing any list of events to an empty queue
  -- returns and keeps at least the newest event: no push meets an empty queue that is full.
  configure-push_all :
      ⦃p : Platform⦄ (args : List String) (c : Config) (client : String) (events : List Event)
      (w : World)
      → configure args ≡ some c
      → w.config ≡ c
      → queue client w ≡ []
      → (n : ℕ) × (c.queue_size ≡ pos (suc n))
        × ((push_all client events w).0 ≡ ok tt)
        × (queue client (push_all client events w).1 ≡ last_of (suc n) events)
  configure-push_all args c client events w h set empty =
      let (k, e, room) = positive-pos c.queue_size (configure-IsConfig args c h).queue in
      let (n, f) = suc_of k room in
      let size : w.config.queue_size ≡ pos (suc n) = rw set (e ∙ ap pos f) in
      let (o, q) =
        queue-push_all client events w (suc n) size (omega arith)
          (omega (arith, ap length empty)) in
      (n, e ∙ ap pos f, o, rw empty at q)
