-- ===== src/ThreadPool/LostWakeup.antt =====
-- A stop that falls between the test of the wait's predicate and the sleep is never heard.
use client_server_architectu.Prelude.{ℕ, true, arith, Bool, ◌≡◌, ◌<◌, false, refl}
use client_server_architectu.ThreadPool.Order.{Reach-IsPool}
use client_server_architectu.ThreadPool.{
  complete, give_up, take, leave, doze, sleep, enter, notify_all, works, notify_nobody, later,
  notify_sleeper, Reach, Work, Pool, stop, Step,
}

-- the states that workers and notifications lead to
pub data Works (s : Pool) : Pool → Type 0 where
  rests : Works s s
  goes : {t u : Pool} → Works s t → Work t u → Works s u

-- a stopped pool, all of whose notifications are over, with a sleeping worker
pub record IsStuck (s : Pool) : Type 0 where
  pub stopped : s.running ≡ false
  pub told : s.stopping ≡ false
  pub silent : s.notices ≡ 0
  pub sleeper : 0 < s.asleep

true_not_false : {b : Bool} → b ≡ true → b ≡ false → ⊥
true_not_false e f = cc

Work-IsStuck : {s t : Pool} → Work s t → IsStuck s → IsStuck t
Work-IsStuck (notify_sleeper a b) h = absurd (omega (arith, h.silent))
Work-IsStuck (notify_nobody a b) h = absurd (omega (arith, h.silent))
Work-IsStuck (notify_all a) h = absurd (true_not_false a h.told)
Work-IsStuck (enter a b) h = absurd (true_not_false b h.stopped)
Work-IsStuck (doze a b c d) h = absurd (true_not_false d h.stopped)
Work-IsStuck (leave a b) h = record {
  stopped = h.stopped;
  told = h.told;
  silent = h.silent;
  sleeper = h.sleeper;
}
Work-IsStuck (take task rest a b c) h = record {
  stopped = h.stopped;
  told = h.told;
  silent = h.silent;
  sleeper = h.sleeper;
}
Work-IsStuck (give_up a b c d) h = record {
  stopped = h.stopped;
  told = h.told;
  silent = h.silent;
  sleeper = h.sleeper;
}
Work-IsStuck (sleep a) h = record {
  stopped = h.stopped;
  told = h.told;
  silent = h.silent;
  sleeper = omega arith;
}
Work-IsStuck (complete a) h = record {
  stopped = h.stopped;
  told = h.told;
  silent = h.silent;
  sleeper = h.sleeper;
}

Works-IsStuck : {s t : Pool} → IsStuck s → Works s t → IsStuck t
Works-IsStuck h rests = h
Works-IsStuck h (goes r w) = Work-IsStuck w (Works-IsStuck h r)

Reach-Works : {n : ℕ} {s t : Pool} → Reach n s → Works s t → Reach n t
Reach-Works r rests = r
Reach-Works r (goes before w) = later (Reach-Works r before) (works w)

-- A worker that sleeps has not finished.
sleeper_unfinished : {n : ℕ} {s : Pool} → Reach n s → 0 < s.asleep → s.finished < n
sleeper_unfinished r h = let counted = Reach-IsPool r in omega (arith, counted.workers)

-- the state of a pool in which `stop` has begun
abbrev pub stopping_now : Pool → Pool
stopping_now s = record s { running = false; stopping = true }

-- From every reachable state in which a worker has found the predicate of `wait` false and does not
-- sleep yet, and no notification is pending, `stop` can begin, and from the state that it gives, steps
-- of its notification and of that worker lead to a state after which, whatever the workers and the
-- notifications do, the notification of the stop is over, a worker sleeps, and not all workers have
-- finished: the `join` of the stop does not return, unless a worker wakes without a notification or a
-- task is enqueued.
pub stop-IsStuck :
    {n : ℕ} {s : Pool}
    → Reach n s
    → s.running ≡ true
    → s.dozing ≡ true
    → s.notices ≡ 0
    → Step s (stopping_now s)
      × (t : Pool) × Works (stopping_now s) t
      × ((u : Pool) → Works t u → IsStuck u × (u.finished < n))
stop-IsStuck {n} {s} r run drowsy quiet =
    let path : Works (stopping_now s) _ = goes (goes rests (notify_all refl)) (sleep drowsy) in
    (
      stop,
      _,
      path,
      λ u w.
          let stuck =
            Works-IsStuck
              (record { stopped = refl; told = refl; silent = quiet; sleeper = omega arith }) w in
          (
            stuck,
            sleeper_unfinished (Reach-Works (Reach-Works (later r stop) path) w) stuck.sleeper,
          ),
    )
