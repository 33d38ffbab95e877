-- ===== src/Tests/Pools.antt =====
-- src/compute.js: a pool with one worker and two tasks.
use yhub.Base.{ℕ, [], ◌∷◌, ◌≡◌, refl}
use yhub.Pool.{
  Pool, run, message, handle, create, submit, drain, drain_jobs, get_free_worker, run_at, free_slot,
  created, later,
}
use yhub.Pool.Invariant.{IsPool, Reach-IsPool}
use yhub.Pool.Busy.{IsDrained, settles, handle-IsDrained, handle-settled}

abbrev empty_pool : Pool ℕ ℕ
unfolding create
empty_pool = create 1

abbrev full_pool : Pool ℕ ℕ
unfolding handle create submit
full_pool = handle (run 8) (handle (run 7) empty_pool)

abbrev answered_pool : Pool ℕ ℕ
unfolding handle create
answered_pool = handle (message 0 70) full_pool

first_posted : full_pool.posted ≡ (0, 7) ∷ []
unfolding handle create submit drain drain_jobs get_free_worker run_at free_slot
first_posted = refl

Reach-IsPool_example : IsPool answered_pool
unfolding answered_pool handle
Reach-IsPool_example =
    Reach-IsPool {T = ℕ} {R = ℕ} {size = 1} {pool = answered_pool}
      (later (later (later created (run 7)) (run 8)) (message 0 70))

handle-IsDrained_example : IsDrained answered_pool
unfolding answered_pool handle
handle-IsDrained_example = handle-IsDrained (message 0 70) full_pool refl

handle-settled_example :
    (handle (message 0 70) full_pool).settled ≡ settles (message 0 70) full_pool
handle-settled_example = handle-settled (message 0 70) full_pool refl
