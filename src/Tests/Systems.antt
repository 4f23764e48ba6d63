-- ===== src/Tests/Systems.antt =====
-- The theorems on the thread pool, the configuration, the client and the server's loop.
use client_server_architectu.Tests.{test_platform}
use client_server_architectu.ThreadPool.LostWakeup.{stop-IsStuck, IsStuck, Works, stopping_now}
use client_server_architectu.World.{Config}
use client_server_architectu.Config.{configure, Settings}
use client_server_architectu.ThreadPool.Rest.{Reach-work_left, Reach-IsAtRest, IsAtRest, work_left}
use client_server_architectu.Config.Bounds.{configure-IsConfig, IsConfig}
use client_server_architectu.ThreadPool.Order.{Reach-IsPool, IsPool}
use client_server_architectu.Prelude.Int.{pos}
use client_server_architectu.Prelude.{◌≡◌, ◌∷◌, ◌<◌, true, some, refl, none, false, arith, []}
use client_server_architectu.ThreadPool.{
  new_pool, Pool, Reach, Step, start, later, works, enqueue, enter, take, notify_nobody, complete,
  doze, sleep, notify_sleeper, notify_all, leave, give_up,
}

-- One worker takes one task and falls asleep.
abbrev took : Pool
took = record (new_pool 1) { heads = 0; busy = 1; notices = 1; given = 7 ∷ []; taken = 7 ∷ [] }

abbrev dozy : Pool
dozy = record took { dozing = true; busy = 0; notices = 0 }

abbrev resting : Pool
resting = record dozy { dozing = false; asleep = 1 }

took_path : Reach 1 took
took_path =
    later (later (later start (enqueue 7 refl)) (works (enter (omega arith) refl)))
      (works (take 7 [] (omega arith) refl refl))

dozy_path : Reach 1 dozy
dozy_path =
    later
      (later
        (later (later took_path (works (notify_nobody (omega arith) refl)))
          (works (complete (omega arith))))
        (works (enter (omega arith) refl)))
      (works (doze (omega arith) refl refl refl))

resting_path : Reach 1 resting
resting_path = later dozy_path (works (sleep refl))

resting-IsAtRest : IsAtRest resting
resting-IsAtRest t (notify_sleeper a b) = omega arith
resting-IsAtRest t (notify_nobody a b) = omega arith
resting-IsAtRest t (notify_all a) = cc
resting-IsAtRest t (enter a b) = omega arith
resting-IsAtRest t (leave a b) = omega arith
resting-IsAtRest t (take task rest a b c) = omega arith
resting-IsAtRest t (give_up a b c d) = omega arith
resting-IsAtRest t (doze a b c d) = omega arith
resting-IsAtRest t (sleep a) = cc
resting-IsAtRest t (complete a) = omega arith

Reach-IsPool_example : IsPool 1 took
Reach-IsPool_example = Reach-IsPool took_path

Reach-work_left_example : work_left 1 resting < work_left 1 dozy
Reach-work_left_example = Reach-work_left dozy_path (sleep refl)

Reach-IsAtRest_example : (resting.taken ≡ resting.given) × (resting.busy ≡ 0)
Reach-IsAtRest_example = Reach-IsAtRest (omega arith) resting_path refl resting-IsAtRest

stop-IsStuck_example :
    Step dozy (stopping_now dozy)
    × (t : Pool) × Works (stopping_now dozy) t
    × ((u : Pool) → Works t u → IsStuck u × (u.finished < 1))
stop-IsStuck_example = stop-IsStuck dozy_path refl refl refl

-- every number of the file is 80, and every text is "80"
instance abbrev pub test_settings : Settings
test_settings = record {
  load_file = λ path. some (λ section key. some "80");
  as_int = λ s. some (pos 80);
  stoi = λ s. some (pos 9000);
  getenv = λ s. none;
  exists = λ s. true;
}

abbrev pub loaded : Config
loaded = record {
  max_log_size = pos 80;
  log_path = "80";
  max_clients = pos 80;
  max_unix_connections = pos 80;
  block_time_seconds = pos 80;
  tcp_port = pos 9000;
  udp_port = pos 9000;
  queue_size = pos 80;
  metric_host_port = "80";
  db_path = "80";
  secret_phrase = "80";
  unix_socket_path = "80";
}

configures : configure ("a.yaml" ∷ "9000" ∷ []) ≡ some loaded
unfolding configure client_server_architectu.Config.validate_arguments
    client_server_architectu.Config.load_config client_server_architectu.Config.validate_port
    client_server_architectu.Config.argument_ports client_server_architectu.Config.positive_int
    client_server_architectu.Config.non_empty
configures = refl

configure-IsConfig_example : IsConfig loaded
configure-IsConfig_example = configure-IsConfig ("a.yaml" ∷ "9000" ∷ []) loaded configures
