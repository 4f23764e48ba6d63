-- ===== src/ThreadPool/Rest.antt =====
-- Left alone, a pool comes to rest, and at rest before a stop no task waits.
use mathlib.Core.List.{append-nil}
use client_server_architectu.ThreadPool.Order.{Reach-IsPool, one_if, IsPool}
use client_server_architectu.ThreadPool.{
  stop, start, wake, enqueue, complete, sleep, doze, give_up, take, leave, enter, notify_all,
  notify_nobody, works, later, Step, notify_sleeper, Work, Reach, Pool,
}
use client_server_architectu.Prelude.{
  ◌-◌, ◌∙◌, sym, ltb→lt, ltb, inr, inl, false, [], List-cases, Bool-cases, ◌≤◌, ◌≡◌, ◌<◌, ◌+◌, ◌*◌,
  ℕ, true, length, arith, ap, refl,
}

-- A bound on the steps that are left to workers and notifications.
abbrev pub work_left : ℕ → Pool → ℕ
work_left n s =
    4 * s.heads
    + 3 * s.ready
    + 2 * one_if s.dozing
    + s.asleep
    + 5 * s.busy
    + 3 * s.notices
    + 3 * length s.queue
    + (2 * n + 1) * one_if s.stopping

Work-work_left : {n : ℕ} {s t : Pool} → IsPool n s → Work s t → work_left n t < work_left n s
Work-work_left h (notify_sleeper a b) = omega arith
Work-work_left h (notify_nobody a b) = omega arith
Work-work_left {n} {s} h (notify_all a) =
    let e : one_if s.stopping ≡ 1 = rw a refl in
    let few : s.asleep ≤ n = omega (arith, h.workers) in rw e (omega (arith, few))
Work-work_left h (enter a b) = omega arith
Work-work_left h (leave a b) = omega arith
Work-work_left h (take task rest a b c) = omega (arith, ap length c)
Work-work_left h (give_up a b c d) = omega arith
Work-work_left h (doze a b c d) = ground arith
Work-work_left h (sleep a) = ground arith
Work-work_left h (complete a) = omega arith

-- Once tasks are neither enqueued nor the pool stopped, and no worker wakes without a notification,
-- every step of a worker or a notification lowers a bound, so a pool of n workers comes to rest.
pub Reach-work_left : {n : ℕ} {s t : Pool} → Reach n s → Work s t → work_left n t < work_left n s
Reach-work_left r w = Work-work_left (Reach-IsPool r) w

-- A worker stands ready for a waiting task, or a notification is on its way.
abbrev IsServed : Pool → Type 0
IsServed s = s.running ≡ true → 0 < length s.queue → 0 < s.notices + s.heads + s.ready + s.busy

-- A pool that runs and has a task waiting has a worker awake, if none sleeps.
served_awake :
    {n : ℕ} {s : Pool}
    → 0 < n
    → IsPool n s
    → s.asleep ≡ 0
    → s.running ≡ true
    → 0 < length s.queue
    → 0 < s.notices - 1 + s.heads + s.ready + s.busy
served_awake {n} {s} pos h b r q = elim (Bool-cases s.dozing) [
  | inl e ↦ absurd (omega (arith, ap length (h.empty_dozing e)))
  | inr e ↦
      let d : one_if s.dozing ≡ 0 = rw e refl in omega (arith, h.workers, h.none_finished r, d)
]

Step-IsServed : {n : ℕ} {s t : Pool} → 0 < n → IsPool n s → Step s t → IsServed s → IsServed t
Step-IsServed pos h (works (notify_sleeper a b)) i = λ r q. omega arith
Step-IsServed pos h (works (notify_nobody a b)) i = λ r q. served_awake pos h b r q
Step-IsServed pos h (works (notify_all a)) i = λ r q. omega (arith, i r q)
Step-IsServed pos h (works (enter a b)) i = λ r q. omega arith
Step-IsServed pos h (works (leave a b)) i = λ r q. cc
Step-IsServed pos h (works (take task rest a b c)) i = λ r q. omega arith
Step-IsServed pos h (works (give_up a b c d)) i = λ r q. cc
Step-IsServed pos h (works (doze a b c d)) i = λ r q. absurd (omega (arith, ap length c))
Step-IsServed pos h (works (sleep a)) i = λ r q. i r q
Step-IsServed pos h (works (complete a)) i = λ r q. omega arith
Step-IsServed pos h (enqueue task free) i = λ r q. omega arith
Step-IsServed pos h stop i = λ r q. cc
Step-IsServed pos h (wake a) i = λ r q. omega (arith, i r q)

Reach-IsServed : {n : ℕ} {s : Pool} → 0 < n → Reach n s → IsServed s
Reach-IsServed pos start = λ r q. absurd (omega arith)
Reach-IsServed pos (later r st) = Step-IsServed pos (Reach-IsPool r) st (Reach-IsServed pos r)

-- no worker and no notification can take a step
abbrev pub IsAtRest : Pool → Type 0
IsAtRest s = (t : Pool) → ¬ Work s t

zero_of : (k : ℕ) → ¬ (0 < k) → k ≡ 0
zero_of k none_left = ground arith

module _ {s : Pool} (rest : IsAtRest s) where
  not_dozing : s.dozing ≡ false
  not_dozing = elim (Bool-cases s.dozing) [ inl e ↦ absurd (rest _ (sleep e)) | inr e ↦ e ]

  no_notices : s.notices ≡ 0
  no_notices = zero_of s.notices λ a. elim (Bool-cases (ltb 0 s.asleep)) [
    | inl e ↦ rest _ (notify_sleeper a (ltb→lt 0 s.asleep e))
    | inr e ↦ rest _ (notify_nobody a (ground (arith, e)))
  ]

  no_ready : s.running ≡ true → s.ready ≡ 0
  no_ready run = zero_of s.ready λ a. elim (List-cases s.queue) [
    | inl e ↦ rest _ (doze a not_dozing e run)
    | inr (task, tasks, e) ↦ rest _ (take task tasks a not_dozing e)
  ]

-- A pool with a worker that has not been stopped is at rest only with an empty queue: every task
-- enqueued so far has been taken, and none is running.
pub Reach-IsAtRest :
    {n : ℕ} {s : Pool}
    → 0 < n
    → Reach n s
    → s.running ≡ true
    → IsAtRest s
    → (s.taken ≡ s.given) × (s.busy ≡ 0)
Reach-IsAtRest {n} {s} pos r run rest =
    let h = Reach-IsPool r in
    let heads : s.heads ≡ 0 = zero_of s.heads (λ a. rest _ (enter a run)) in
    let busy : s.busy ≡ 0 = zero_of s.busy (λ a. rest _ (complete a)) in
    let done : s.queue ≡ [] = elim (List-cases s.queue) [
      | inl e ↦ e
      | inr (task, tasks, e) ↦ absurd (
          omega (
            arith,
            Reach-IsServed pos r run (omega (arith, ap length e)),
            heads,
            busy,
            no_notices rest,
            no_ready rest run,
          ))
    ] in
    (sym (h.in_order ∙ rw done (append-nil s.taken)), busy)
