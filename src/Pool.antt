-- ===== src/Pool.antt =====
-- src/compute.js: the pool of worker threads. `T` is the type of the tasks and `R` that of what a
-- thread answers. A promise is its number; what settles it is in a list. The threads, the timers and
-- the order in which their events come are the environment's.
pub mod Taking
pub mod Invariant
pub mod Busy
use yhub.Base.{
  ℕ, suc, ◌+◌, Bool, true, false, not, ◌&&◌, ◌||◌, Option, none, some, is_some, List, [], ◌∷◌, ◌++◌,
  if◌then◌else◌, ltb, ◌==◌, length, some_of,
}

-- How a promise is settled.
pub data Outcome (R : Type 0) : Type 0 where
  resolved : (value : R) → Outcome R
  rejected : Outcome R

-- `_cbResolve` and `_cbReject` are set and cleared together: the promise that they settle.
pub record ComputeWorker : Type 0 where
  pub thread : ℕ
  pub is_computing : Bool
  pub is_dead : Bool
  pub callback : Option ℕ
  pub task_timeout : Bool

pub record Job (T : Type 0) : Type 0 where
  pub promise : ℕ
  pub task : T

pub record Pool (T R : Type 0) : Type 0 where
  pub max_pool_size : ℕ
  pub workers : List ComputeWorker
  pub queue : List (Job T)
  -- The numbers of the next promise and the next thread.
  pub next_promise : ℕ
  pub next_thread : ℕ
  -- What was posted to the threads, and the promises that were settled.
  pub posted : List (ℕ × T)
  pub settled : List (ℕ × Outcome R)

-- `finishWorker`
unfoldable pub finish_worker : ComputeWorker → ComputeWorker
finish_worker cw = record cw { is_computing = false; callback = none; task_timeout = false }

unfoldable pub new_worker : ℕ → ComputeWorker
new_worker thread = record {
  thread = thread;
  is_computing = false;
  is_dead = false;
  callback = none;
  task_timeout = false;
}

-- A place in the array of workers.
pub record Slot : Type 0 where
  pub before : List ComputeWorker
  pub worker : ComputeWorker
  pub after : List ComputeWorker

abbrev pub behind : ComputeWorker → Slot → Slot
behind w s = record s { before = w ∷ s.before }

-- The loop of `getFreeWorker`: a dead worker is replaced where it stands.
unfoldable pub free_slot : ℕ → List ComputeWorker → Option Slot
unfolding new_worker
free_slot thread [] = none
free_slot thread (w ∷ ws) =
    let rest = free_slot thread ws in
    if w.is_dead
    then some (record { before = []; worker = new_worker thread; after = ws })
    else if not w.is_computing
    then some (record { before = []; worker = w; after = ws })
    else elim rest [ none ↦ none | some s ↦ some (behind w s) ]

abbrev pub computing : ℕ → ComputeWorker → ComputeWorker
computing promise w = record w { is_computing = true; callback = some promise; task_timeout = true }

-- A promise is settled once.
abbrev pub settle :
    {R : Type 0} → Option ℕ → Outcome R → List (ℕ × Outcome R) → List (ℕ × Outcome R)
settle none outcome done = done
settle (some promise) outcome done = done ++ (promise, outcome) ∷ []

-- The worker of a thread is finished by `change`, and its promise is settled.
unfoldable pub finish_thread :
    ℕ → (ComputeWorker → ComputeWorker) → List ComputeWorker → List ComputeWorker × Option ℕ
finish_thread thread change [] = ([], none)
finish_thread thread change (w ∷ ws) =
    let rest = finish_thread thread change ws in
    if w.thread == thread then (change w ∷ ws, w.callback) else (w ∷ rest.0, rest.1)

abbrev pub killed : ComputeWorker → ComputeWorker
killed w = record (finish_worker w) { is_dead = true }

module _ {T R : Type 0} where
  -- `getFreeWorker`: none where the pool is full.
  unfoldable pub get_free_worker : Pool T R → Option Slot
  unfolding free_slot new_worker
  get_free_worker pool = elim (free_slot pool.next_thread pool.workers) [
    | some s ↦ some s
    | none ↦
        if ltb (length pool.workers) pool.max_pool_size
        then some
            (record { before = pool.workers; worker = new_worker pool.next_thread; after = [] })
        else none
  ]

  -- `ComputeWorker.run` in its place. Thread numbers are not used again.
  unfoldable pub run_at : Slot → Job T → Pool T R → Pool T R
  run_at s job pool = record pool {
    workers = s.before ++ computing job.promise s.worker ∷ s.after;
    next_thread = suc pool.next_thread;
    posted = pool.posted ++ (s.worker.thread, job.task) ∷ [];
  }

  unfoldable pub drain_jobs : List (Job T) → Pool T R → Pool T R
  unfolding get_free_worker run_at
  drain_jobs [] pool = record pool { queue = [] }
  drain_jobs (job ∷ jobs) pool = elim (get_free_worker pool) [
    | none ↦ record pool { queue = job ∷ jobs }
    | some s ↦ drain_jobs jobs (run_at s job pool)
  ]

  unfoldable pub drain : Pool T R → Pool T R
  unfolding drain_jobs
  drain pool = drain_jobs pool.queue pool

  abbrev pub push_task : T → Pool T R → Pool T R
  push_task task pool = record pool {
    queue = pool.queue ++ record { promise = pool.next_promise; task = task } ∷ [];
    next_promise = suc pool.next_promise;
  }

  -- `ComputePool.run`
  unfoldable pub submit : T → Pool T R → Pool T R
  unfolding drain
  submit task pool = drain (push_task task pool)

  unfoldable pub finish_at : ℕ → (ComputeWorker → ComputeWorker) → Outcome R → Pool T R → Pool T R
  unfolding finish_thread
  finish_at thread change outcome pool =
      let (workers, callback) = finish_thread thread change pool.workers in
      record pool { workers = workers; settled = settle callback outcome pool.settled }

  -- The listener of 'message'.
  unfoldable pub on_message : ℕ → R → Pool T R → Pool T R
  unfolding finish_at finish_worker drain
  on_message thread value pool = drain (finish_at thread finish_worker (resolved value) pool)

  -- The listeners of 'error' and of 'exit', which differ in what they log and reject with.
  unfoldable pub on_error : ℕ → Pool T R → Pool T R
  unfolding finish_at finish_worker drain
  on_error thread pool = drain (finish_at thread killed rejected pool)

  -- `ComputeWorker.terminate`, which the timer of a task calls: no drain before the 'exit'.
  unfoldable pub terminate : ℕ → Pool T R → Pool T R
  unfolding finish_at finish_worker
  terminate thread pool = finish_at thread killed rejected pool

  -- The timer of a task, which `finishWorker` clears.
  unfoldable pub on_timeout : ℕ → Pool T R → Pool T R
  unfolding terminate
  on_timeout thread pool =
      if some_of (λ w. w.thread == thread && w.task_timeout) pool.workers
      then terminate thread pool
      else pool

  unfoldable pub terminate_all : List ComputeWorker → Pool T R → Pool T R
  unfolding terminate
  terminate_all [] pool = pool
  terminate_all (w ∷ ws) pool = terminate_all ws (terminate w.thread pool)

  -- `ComputePool.destroy`
  unfoldable pub destroy : Pool T R → Pool T R
  unfolding terminate_all
  destroy pool = terminate_all pool.workers pool

  unfoldable pub create : ℕ → Pool T R
  create size = record {
    max_pool_size = size;
    workers = [];
    queue = [];
    next_promise = 0;
    next_thread = 0;
    posted = [];
    settled = [];
  }

-- What happens to a pool.
pub data Event (T R : Type 0) : Type 0 where
  run : (task : T) → Event T R
  message : (thread : ℕ) (value : R) → Event T R
  error : (thread : ℕ) → Event T R
  exit : (thread : ℕ) → Event T R
  timeout : (thread : ℕ) → Event T R
  destroyed : Event T R

unfoldable pub handle : {T R : Type 0} → Event T R → Pool T R → Pool T R
unfolding submit on_message on_error on_timeout destroy
handle (run task) pool = submit task pool
handle (message thread value) pool = on_message thread value pool
handle (error thread) pool = on_error thread pool
handle (exit thread) pool = on_error thread pool
handle (timeout thread) pool = on_timeout thread pool
handle destroyed pool = destroy pool

-- The pools that come about from the creation of a pool on, in any order of events.
pub data Reach {T R : Type 0} (size : ℕ) : Pool T R → Type 0 where
  created : Reach size (create size)
  later : {pool : Pool T R} → Reach size pool → (e : Event T R) → Reach size (handle e pool)
