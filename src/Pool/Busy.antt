-- ===== src/Pool/Busy.antt =====
-- src/compute.js: no task waits beside a worker that could compute it, and what settles a promise.
use yhub.Base.{
  ℕ, ◌≤◌, Bool, true, false, not, ◌&&◌, Option, none, List, [], ◌∷◌, if◌then◌else◌, ◌==◌, length,
  some_of, every, ◌≡◌, refl, arith, ap, ◌∙◌, Bool-cases, Option-cases, ◌⊎◌, inl, inr,
}
use yhub.Pool.{
  ComputeWorker, Job, Pool, free_slot, get_free_worker, run_at, finish_worker, killed,
  finish_thread, finish_at, settle, Outcome, resolved, rejected, drain_jobs, push_task, drain,
  submit, on_message, on_error, terminate, on_timeout, destroy, Event, run, message, error, exit,
  timeout, destroyed, handle,
}

-- Alive, and with a task.
abbrev pub is_busy : ComputeWorker → Bool
is_busy w = not w.is_dead && w.is_computing

free_slot-none : (n : ℕ) (ws : List ComputeWorker) → free_slot n ws ≡ none → every is_busy ws ≡ true
unfolding free_slot
free_slot-none n [] e = refl
free_slot-none n (w ∷ ws) e = elim (Option-cases (free_slot n ws)) [
  | inl full ↦ ground (arith, free_slot-none n ws full)
  | inr (s, k) ↦ ground arith
]

-- No task waits, or the pool has all its workers, and each of them has a task.
abbrev pub IsDrained : {T R : Type 0} → Pool T R → Type 0
IsDrained pool =
    (pool.queue ≡ [])
    ⊎ ((every is_busy pool.workers ≡ true) × (pool.max_pool_size ≤ length pool.workers))

-- The events behind which the pool is drained: all but the kill of a thread, whose 'exit' follows.
abbrev pub drains : {T R : Type 0} → Event T R → Bool
drains (timeout thread) = false
drains destroyed = false
drains _ = true

-- The promise of the first worker with a thread.
abbrev pub promise_of : ℕ → List ComputeWorker → Option ℕ
promise_of thread [] = none
promise_of thread (w ∷ ws) = if w.thread == thread then w.callback else promise_of thread ws

finish_thread-promise_of :
    (thread : ℕ) (change : ComputeWorker → ComputeWorker) (ws : List ComputeWorker)
    → (finish_thread thread change ws).1 ≡ promise_of thread ws
unfolding finish_thread
finish_thread-promise_of thread change [] = refl
finish_thread-promise_of thread change (w ∷ ws) =
    ground (arith, finish_thread-promise_of thread change ws)

module _ {T R : Type 0} where
  get_free_worker-none :
      (pool : Pool T R)
      → get_free_worker pool ≡ none
      → (every is_busy pool.workers ≡ true) × (pool.max_pool_size ≤ length pool.workers)
  unfolding get_free_worker
  get_free_worker-none pool e = elim (Option-cases (free_slot pool.next_thread pool.workers)) [
    | inl full ↦ ground (arith, free_slot-none pool.next_thread pool.workers full)
    | inr (s, k) ↦ ground arith
  ]

  drain_jobs-IsDrained : (jobs : List (Job T)) (pool : Pool T R) → IsDrained (drain_jobs jobs pool)
  unfolding drain_jobs
  drain_jobs-IsDrained [] pool = inl refl
  drain_jobs-IsDrained (job ∷ jobs) pool = elim (Option-cases (get_free_worker pool)) [
    | inl full ↦ simp (drain_jobs, full) (inr (get_free_worker-none pool full))
    | inr (s, e) ↦ simp (drain_jobs, e) (drain_jobs-IsDrained jobs (run_at s job pool))
  ]

  drain-IsDrained : (pool : Pool T R) → IsDrained (drain pool)
  unfolding drain
  drain-IsDrained pool = drain_jobs-IsDrained pool.queue pool

  -- After every event but a timeout and `destroy`, whatever the pool was before: no task waits, or
  -- the pool has as many workers as it may, and all of them are alive and compute.
  pub handle-IsDrained :
      (e : Event T R) (pool : Pool T R) → drains e ≡ true → IsDrained (handle e pool)
  unfolding handle submit on_message on_error
  handle-IsDrained (run task) pool h = drain-IsDrained (push_task task pool)
  handle-IsDrained (message thread value) pool h =
      drain-IsDrained (finish_at thread finish_worker (resolved value) pool)
  handle-IsDrained (error thread) pool h = drain-IsDrained (finish_at thread killed rejected pool)
  handle-IsDrained (exit thread) pool h = drain-IsDrained (finish_at thread killed rejected pool)
  handle-IsDrained (timeout thread) pool h = cc
  handle-IsDrained destroyed pool h = cc

  drain_jobs-settled :
      (jobs : List (Job T)) (pool : Pool T R) → (drain_jobs jobs pool).settled ≡ pool.settled
  unfolding drain_jobs run_at
  drain_jobs-settled [] pool = refl
  drain_jobs-settled (job ∷ jobs) pool = elim (Option-cases (get_free_worker pool)) [
    | inl full ↦ simp (drain_jobs, full) refl
    | inr (s, e) ↦ simp (drain_jobs, e) (drain_jobs-settled jobs (run_at s job pool))
  ]

  drain-settled : (pool : Pool T R) → (drain pool).settled ≡ pool.settled
  unfolding drain
  drain-settled pool = drain_jobs-settled pool.queue pool

  finish_at-settled :
      (thread : ℕ) (change : ComputeWorker → ComputeWorker) (outcome : Outcome R) (pool : Pool T R)
      → (finish_at thread change outcome pool).settled
        ≡ settle (promise_of thread pool.workers) outcome pool.settled
  unfolding finish_at
  finish_at-settled thread change outcome pool =
      ap (λ callback. settle callback outcome pool.settled)
        (finish_thread-promise_of thread change pool.workers)

  -- What is settled after an event, as far as it is known from the workers before it.
  abbrev pub settles : Event T R → Pool T R → List (ℕ × Outcome R)
  settles (run task) pool = pool.settled
  settles (message thread value) pool =
      settle (promise_of thread pool.workers) (resolved value) pool.settled
  settles (error thread) pool = settle (promise_of thread pool.workers) rejected pool.settled
  settles (exit thread) pool = settle (promise_of thread pool.workers) rejected pool.settled
  settles (timeout thread) pool =
      if some_of (λ w. w.thread == thread && w.task_timeout) pool.workers
      then settle (promise_of thread pool.workers) rejected pool.settled
      else pool.settled
  settles destroyed pool = pool.settled

  abbrev pub destroys : Event T R → Bool
  destroys destroyed = true
  destroys _ = false

  -- After every event but `destroy`: submitting a task settles nothing; an answer of a thread resolves, with its value, the promise
  -- that the thread's worker computes for, and an error or an exit of the thread rejects it; so does
  -- a timeout where the timer is set. No other promise is settled by these.
  pub handle-settled :
      (e : Event T R) (pool : Pool T R)
      → destroys e ≡ false
      → (handle e pool).settled ≡ settles e pool
  unfolding handle submit on_message on_error on_timeout terminate destroy
  handle-settled (run task) pool h = drain-settled (push_task task pool)
  handle-settled (message thread value) pool h =
      drain-settled (finish_at thread finish_worker (resolved value) pool)
      ∙ finish_at-settled thread finish_worker (resolved value) pool
  handle-settled (error thread) pool h =
      drain-settled (finish_at thread killed rejected pool)
      ∙ finish_at-settled thread killed rejected pool
  handle-settled (exit thread) pool h =
      drain-settled (finish_at thread killed rejected pool)
      ∙ finish_at-settled thread killed rejected pool
  handle-settled (timeout thread) pool h =
      elim (Bool-cases (some_of (λ w. w.thread == thread && w.task_timeout) pool.workers)) [
        | inl e ↦ simp (e) (finish_at-settled thread killed rejected pool)
        | inr e ↦ simp (e) refl
      ]
  handle-settled destroyed pool h = cc
