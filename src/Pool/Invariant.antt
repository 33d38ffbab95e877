-- ===== src/Pool/Invariant.antt =====
-- src/compute.js: where the promises of a pool are.
use yhub.Base.{
  ℕ, suc, ◌+◌, ◌≤◌, ◌&&◌, Option, none, some, List, [], ◌∷◌, if◌then◌else◌, ltb, ◌==◌, length,
  some_of, count_of, count_of-append, ◌≡◌, refl, arith, ap, Bool-cases, Option-cases, inl, inr,
}
use yhub.Pool.{
  ComputeWorker, Slot, Job, Pool, get_free_worker, run_at, finish_worker, killed, finish_thread,
  finish_at, settle, Outcome, resolved, rejected, drain_jobs, drain, submit, on_message, on_error,
  terminate, on_timeout, terminate_all, destroy, create, Event, run, message, error, exit, timeout,
  destroyed, handle, Reach, created, later,
}
use yhub.Pool.Taking.{IsWorker, AllWorkers, holds, running, get_free_worker-TakenOf}

abbrev pub waiting : {T : Type 0} → ℕ → List (Job T) → ℕ
waiting {T} p = count_of (λ (j : Job T). j.promise == p)

abbrev pub done : {R : Type 0} → ℕ → List (ℕ × Outcome R) → ℕ
done {R} p = count_of (λ (s : ℕ × Outcome R). s.0 == p)

-- A way to finish a worker.
abbrev pub Finishes : (ComputeWorker → ComputeWorker) → Type 0
Finishes change = (w : ComputeWorker) → ((change w).callback ≡ none) × IsWorker (change w)

killed-Finishes : Finishes killed
unfolding finish_worker
killed-Finishes w = (refl, record { busy = refl; dead = λ d. refl })

finish_worker-Finishes : Finishes finish_worker
unfolding finish_worker
finish_worker-Finishes w = (refl, record { busy = refl; dead = λ d. refl })

-- What finishing the worker of a thread does to the workers and to the promise that it gives up.
record Finished (ws : List ComputeWorker) (r : List ComputeWorker × Option ℕ) : Type 0 where
  workers : AllWorkers r.0
  same_length : length r.0 ≡ length ws
  counts : (p : ℕ) → running p ws ≡ running p r.0 + (if holds p r.1 then 1 else 0)

finish_thread-Finished :
    (thread : ℕ) (change : ComputeWorker → ComputeWorker) (ws : List ComputeWorker)
    → Finishes change
    → AllWorkers ws
    → Finished ws (finish_thread thread change ws)
unfolding finish_thread
finish_thread-Finished thread change [] f h = record {
  workers = tt;
  same_length = refl;
  counts = λ p. omega arith;
}
finish_thread-Finished thread change (w ∷ ws) f (h, hs) =
    let ih = finish_thread-Finished thread change ws f hs in
    elim (Bool-cases (w.thread == thread)) [
      | inl e ↦ simp (e) (record {
        workers = ((f w).1, hs);
        same_length = refl;
        counts = λ p. ground (arith, (f w).0);
      })
      | inr e ↦ simp (e) (record {
        workers = (h, ih.workers);
        same_length = ap suc ih.same_length;
        counts = λ p. ground (arith, ih.counts p);
      })
    ]

done-settle :
    {R : Type 0} (p : ℕ) (callback : Option ℕ) (outcome : Outcome R)
    (settled : List (ℕ × Outcome R))
    → done p (settle callback outcome settled)
      ≡ done p settled + (if holds p callback then 1 else 0)
done-settle p none outcome settled = omega arith
done-settle {R} p (some q) outcome settled =
    ground (arith, count_of-append (λ (s : ℕ × Outcome R). s.0 == p) settled ((q, outcome) ∷ []))

module _ {T R : Type 0} where
  -- The places of a promise: the queue, the workers, and the settled ones.
  abbrev pub places : ℕ → Pool T R → ℕ
  places p pool = waiting p pool.queue + running p pool.workers + done p pool.settled

  -- A pool in which each promise that was made is in one place, and no other is in any.
  pub record IsPool (pool : Pool T R) : Type 0 where
    pub workers : AllWorkers pool.workers
    pub bounded : length pool.workers ≤ pool.max_pool_size
    pub one_place : (p : ℕ) → places p pool ≡ (if ltb p pool.next_promise then 1 else 0)

  -- The same, with the queue that `drain` has not put back yet.
  pub record IsDraining (jobs : List (Job T)) (pool : Pool T R) : Type 0 where
    pub workers : AllWorkers pool.workers
    pub bounded : length pool.workers ≤ pool.max_pool_size
    pub one_place :
        (p : ℕ)
        → waiting p jobs + running p pool.workers + done p pool.settled
          ≡ (if ltb p pool.next_promise then 1 else 0)

  run_at-IsDraining :
      (s : Slot) (job : Job T) (jobs : List (Job T)) (pool : Pool T R)
      → get_free_worker pool ≡ some s
      → IsDraining (job ∷ jobs) pool
      → IsDraining jobs (run_at s job pool)
  unfolding run_at
  run_at-IsDraining s job jobs pool e h =
      let t = get_free_worker-TakenOf pool job.promise s h.workers e in
      record {
        workers = t.workers;
        bounded = t.bounded h.bounded;
        one_place = λ p. ground (arith, t.counts p, h.one_place p);
      }

  drain_jobs-IsPool :
      (jobs : List (Job T)) (pool : Pool T R) → IsDraining jobs pool → IsPool (drain_jobs jobs pool)
  unfolding drain_jobs
  drain_jobs-IsPool [] pool h = record {
    workers = h.workers;
    bounded = h.bounded;
    one_place = h.one_place;
  }
  drain_jobs-IsPool (job ∷ jobs) pool h = elim (Option-cases (get_free_worker pool)) [
    | inl full ↦
        simp (drain_jobs, full)
          (record { workers = h.workers; bounded = h.bounded; one_place = h.one_place })
    | inr (s, e) ↦
        simp (drain_jobs, e)
          (drain_jobs-IsPool jobs (run_at s job pool) (run_at-IsDraining s job jobs pool e h))
  ]

  drain-IsPool : (pool : Pool T R) → IsPool pool → IsPool (drain pool)
  unfolding drain
  drain-IsPool pool h =
      drain_jobs-IsPool pool.queue pool
        (record { workers = h.workers; bounded = h.bounded; one_place = h.one_place })

  submit-IsPool : (task : T) (pool : Pool T R) → IsPool pool → IsPool (submit task pool)
  unfolding submit
  submit-IsPool task pool h = drain-IsPool _ (record {
    workers = h.workers;
    bounded = h.bounded;
    one_place = λ p. ground (
      arith,
      h.one_place p,
      count_of-append (λ (j : Job T). j.promise == p) pool.queue
          (record { promise = pool.next_promise; task = task } ∷ []),
    );
  })

  finish_at-IsPool :
      (thread : ℕ) (change : ComputeWorker → ComputeWorker) (outcome : Outcome R) (pool : Pool T R)
      → Finishes change
      → IsPool pool
      → IsPool (finish_at thread change outcome pool)
  unfolding finish_at
  finish_at-IsPool thread change outcome pool f h =
      let g = finish_thread-Finished thread change pool.workers f h.workers in
      record {
        workers = g.workers;
        bounded = omega (arith, g.same_length, h.bounded);
        one_place = λ p. omega (
          arith,
          g.counts p,
          h.one_place p,
          done-settle p (finish_thread thread change pool.workers).1 outcome pool.settled,
        );
      }

  terminate_all-IsPool :
      (ws : List ComputeWorker) (pool : Pool T R) → IsPool pool → IsPool (terminate_all ws pool)
  unfolding terminate_all terminate
  terminate_all-IsPool [] pool h = h
  terminate_all-IsPool (w ∷ ws) pool h =
      terminate_all-IsPool ws _ (finish_at-IsPool w.thread killed rejected pool killed-Finishes h)

  on_timeout-IsPool : (thread : ℕ) (pool : Pool T R) → IsPool pool → IsPool (on_timeout thread pool)
  unfolding on_timeout terminate
  on_timeout-IsPool thread pool h =
      elim (Bool-cases (some_of (λ w. w.thread == thread && w.task_timeout) pool.workers)) [
        | inl e ↦ simp (e) (finish_at-IsPool thread killed rejected pool killed-Finishes h)
        | inr e ↦ simp (e) h
      ]

  handle-IsPool : (e : Event T R) (pool : Pool T R) → IsPool pool → IsPool (handle e pool)
  unfolding handle on_message on_error destroy
  handle-IsPool (run task) pool h = submit-IsPool task pool h
  handle-IsPool (message thread value) pool h =
      drain-IsPool _
        (finish_at-IsPool thread finish_worker (resolved value) pool finish_worker-Finishes h)
  handle-IsPool (error thread) pool h =
      drain-IsPool _ (finish_at-IsPool thread killed rejected pool killed-Finishes h)
  handle-IsPool (exit thread) pool h =
      drain-IsPool _ (finish_at-IsPool thread killed rejected pool killed-Finishes h)
  handle-IsPool (timeout thread) pool h = on_timeout-IsPool thread pool h
  handle-IsPool destroyed pool h = terminate_all-IsPool pool.workers pool h

  create-IsPool : (size : ℕ) → IsPool (create {T = T} {R = R} size)
  unfolding create
  create-IsPool size = record { workers = tt; bounded = omega arith; one_place = λ p. ground arith }

  -- In every pool that comes about from its creation on, in any order of events, the promise of each
  -- task that was submitted is in exactly one place: it waits in the queue, or a worker computes it,
  -- or it is settled, once; no other promise is in any, a dead worker holds none, and there are at
  -- most `maxPoolSize` workers.
  pub Reach-IsPool : {size : ℕ} {pool : Pool T R} → Reach size pool → IsPool pool
  Reach-IsPool {size} created = create-IsPool size
  Reach-IsPool (later r e) = handle-IsPool e _ (Reach-IsPool r)
