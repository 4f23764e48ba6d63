-- ===== src/ThreadPool/Order.antt =====
-- Every task is taken at most once, in the order of the calls, and no worker is lost.
use client_server_architectu.ThreadPool.{
  stop, start, complete, sleep, doze, give_up, take, leave, enter, notify_all, wake, enqueue,
  notify_nobody, later, notify_sleeper, works, Work, Step, Reach, Pool,
}
use mathlib.Core.List.{append_assoc}
use client_server_architectu.Prelude.{
  if◌then◌else◌, ◌≡◌, ◌∷◌, ◌∙◌, ◌+◌, ◌++◌, ℕ, true, sym, push_back, arith, ap, [], Bool, refl,
}

abbrev pub one_if : Bool → ℕ
one_if b = if b then 1 else 0

-- What holds of every state of a pool of n workers.
pub record IsPool (n : ℕ) (s : Pool) : Type 0 where
  pub in_order : s.given ≡ s.taken ++ s.queue
  pub workers : s.heads + s.ready + s.asleep + s.busy + s.finished + one_if s.dozing ≡ n
  pub empty_dozing : s.dozing ≡ true → s.queue ≡ []
  pub none_finished : s.running ≡ true → s.finished ≡ 0

Work-IsPool : {n : ℕ} {s t : Pool} → Work s t → IsPool n s → IsPool n t
Work-IsPool (notify_sleeper a b) h = record {
  in_order = h.in_order;
  workers = omega (arith, h.workers);
  empty_dozing = h.empty_dozing;
  none_finished = h.none_finished;
}
Work-IsPool (notify_nobody a b) h = record {
  in_order = h.in_order;
  workers = h.workers;
  empty_dozing = h.empty_dozing;
  none_finished = h.none_finished;
}
Work-IsPool (notify_all a) h = record {
  in_order = h.in_order;
  workers = omega (arith, h.workers);
  empty_dozing = h.empty_dozing;
  none_finished = h.none_finished;
}
Work-IsPool (enter a b) h = record {
  in_order = h.in_order;
  workers = omega (arith, h.workers);
  empty_dozing = h.empty_dozing;
  none_finished = h.none_finished;
}
Work-IsPool (leave a b) h = record {
  in_order = h.in_order;
  workers = omega (arith, h.workers);
  empty_dozing = h.empty_dozing;
  none_finished = λ e. cc;
}
Work-IsPool {n} {s} (take task rest a b c) h = record {
  in_order = h.in_order ∙ rw c (sym (append_assoc s.taken (task ∷ []) rest));
  workers = omega (arith, h.workers);
  empty_dozing = λ e. cc;
  none_finished = h.none_finished;
}
Work-IsPool (give_up a b c d) h = record {
  in_order = h.in_order;
  workers = omega (arith, h.workers);
  empty_dozing = h.empty_dozing;
  none_finished = λ e. cc;
}
Work-IsPool (doze a b c d) h = record {
  in_order = h.in_order;
  workers = ground (arith, h.workers);
  empty_dozing = λ e. c;
  none_finished = h.none_finished;
}
Work-IsPool (sleep a) h = record {
  in_order = h.in_order;
  workers = ground (arith, h.workers);
  empty_dozing = λ e. cc;
  none_finished = h.none_finished;
}
Work-IsPool (complete a) h = record {
  in_order = h.in_order;
  workers = omega (arith, h.workers);
  empty_dozing = h.empty_dozing;
  none_finished = h.none_finished;
}

Step-IsPool : {n : ℕ} {s t : Pool} → Step s t → IsPool n s → IsPool n t
Step-IsPool (works w) h = Work-IsPool w h
Step-IsPool {n} {s} (enqueue task free) h = record {
  in_order = ap (λ l. push_back l task) h.in_order ∙ append_assoc s.taken s.queue (task ∷ []);
  workers = h.workers;
  empty_dozing = λ e. cc;
  none_finished = h.none_finished;
}
Step-IsPool stop h = record {
  in_order = h.in_order;
  workers = h.workers;
  empty_dozing = h.empty_dozing;
  none_finished = λ e. cc;
}
Step-IsPool (wake a) h = record {
  in_order = h.in_order;
  workers = omega (arith, h.workers);
  empty_dozing = h.empty_dozing;
  none_finished = h.none_finished;
}

-- In every state that a pool of n workers reaches, the tasks enqueued so far are those taken so far
-- followed by those in the queue, in the order of the calls; the n workers are all accounted for; a
-- worker about to sleep has an empty queue before it; and no worker has returned before a stop.
pub Reach-IsPool : {n : ℕ} {s : Pool} → Reach n s → IsPool n s
Reach-IsPool {n} start = record {
  in_order = refl;
  workers = omega arith;
  empty_dozing = λ e. cc;
  none_finished = λ e. refl;
}
Reach-IsPool (later r st) = Step-IsPool st (Reach-IsPool r)
