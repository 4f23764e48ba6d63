-- ===== src/ThreadPool.antt =====
-- src/server/threadPool.cpp: `n` workers and the threads that enqueue and stop, interleaved in any
-- order. The workers are alike, so the state counts them by where they stand; a task is a number.
-- A step is what one thread does between two points where another may act: a section under
-- `m_queueMutex`, a read or write of `m_running`, a notification, or the run of a task. Evaluating the
-- predicate of `wait` and falling asleep are two steps under the mutex, since `stop` does not take it.
pub mod Order
pub mod Rest
pub mod LostWakeup
use client_server_architectu.Prelude.{
  ℕ, ◌+◌, ◌-◌, ◌<◌, ◌≡◌, ◌∷◌, [], push_back, true, false, Bool, List,
}

pub record Pool : Type 0 where
  -- `m_running` and `m_taskQueue`
  pub running : Bool
  pub queue : List ℕ
  -- a worker has found the predicate of `wait` false and holds the mutex, not yet asleep
  pub dozing : Bool
  -- workers at the test of the loop, about to lock, asleep in `wait`, running a task, returned
  pub heads : ℕ
  pub ready : ℕ
  pub asleep : ℕ
  pub busy : ℕ
  pub finished : ℕ
  -- calls of `enqueueTask` that have pushed and not yet notified
  pub notices : ℕ
  -- a call of `stop` has cleared `m_running` and not yet notified
  pub stopping : Bool
  -- every task pushed so far, and every task taken so far, in order
  pub given : List ℕ
  pub taken : List ℕ

-- `ThreadPool(n)`
abbrev pub new_pool : ℕ → Pool
new_pool n = record {
  running = true;
  queue = [];
  dozing = false;
  heads = n;
  ready = 0;
  asleep = 0;
  busy = 0;
  finished = 0;
  notices = 0;
  stopping = false;
  given = [];
  taken = [];
}

-- the steps of the workers, and the notifications of calls that have begun
pub data Work (s : Pool) : Pool → Type 0 where
  notify_sleeper :
      0 < s.notices
      → 0 < s.asleep
      → Work s (record s { notices = s.notices - 1; asleep = s.asleep - 1; ready = s.ready + 1 })
  notify_nobody : 0 < s.notices → s.asleep ≡ 0 → Work s (record s { notices = s.notices - 1 })
  notify_all :
      s.stopping ≡ true
      → Work s (record s { stopping = false; asleep = 0; ready = s.ready + s.asleep })
  enter :
      0 < s.heads
      → s.running ≡ true
      → Work s (record s { heads = s.heads - 1; ready = s.ready + 1 })
  leave :
      0 < s.heads
      → s.running ≡ false
      → Work s (record s { heads = s.heads - 1; finished = s.finished + 1 })
  take :
      (task : ℕ) (rest : List ℕ)
      → 0 < s.ready
      → s.dozing ≡ false
      → s.queue ≡ task ∷ rest
      → Work s (record s {
        ready = s.ready - 1;
        busy = s.busy + 1;
        queue = rest;
        taken = push_back s.taken task;
      })
  give_up :
      0 < s.ready
      → s.dozing ≡ false
      → s.queue ≡ []
      → s.running ≡ false
      → Work s (record s { ready = s.ready - 1; finished = s.finished + 1 })
  doze :
      0 < s.ready
      → s.dozing ≡ false
      → s.queue ≡ []
      → s.running ≡ true
      → Work s (record s { ready = s.ready - 1; dozing = true })
  sleep : s.dozing ≡ true → Work s (record s { dozing = false; asleep = s.asleep + 1 })
  complete : 0 < s.busy → Work s (record s { busy = s.busy - 1; heads = s.heads + 1 })

pub data Step (s : Pool) : Pool → Type 0 where
  works : {t : Pool} → Work s t → Step s t
  -- `enqueueTask` up to its notification
  enqueue :
      (task : ℕ)
      → s.dozing ≡ false
      → Step s (record s {
        queue = push_back s.queue task;
        given = push_back s.given task;
        notices = s.notices + 1;
      })
  -- `stop` up to its notification
  stop : Step s (record s { running = false; stopping = true })
  -- a worker may wake without a notification
  wake : 0 < s.asleep → Step s (record s { asleep = s.asleep - 1; ready = s.ready + 1 })

pub data Reach (n : ℕ) : Pool → Type 0 where
  start : Reach n (new_pool n)
  later : {s t : Pool} → Reach n s → Step s t → Reach n t
