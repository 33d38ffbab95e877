-- ===== src/Pool/Taking.antt =====
-- src/compute.js: what `getFreeWorker` and `run` do to the promises of the workers.
use yhub.Base.{
  ℕ, suc, ◌+◌, ◌<◌, ◌≤◌, Bool, true, false, Option, none, some, is_some, List, [], ◌∷◌, ◌++◌,
  if◌then◌else◌, ltb, ◌==◌, length, length-append, count_of, count_of-append, ◌≡◌, refl, arith, ap,
  subst, Bool-cases, Option-cases, inl, inr,
}
use yhub.Pool.{ComputeWorker, Slot, Pool, free_slot, new_worker, behind, computing, get_free_worker}

-- A worker has the callbacks of a promise while it computes, and a dead one has none.
pub record IsWorker (w : ComputeWorker) : Type 0 where
  pub busy : w.is_computing ≡ is_some w.callback
  pub dead : w.is_dead ≡ true → w.callback ≡ none

abbrev pub AllWorkers : List ComputeWorker → Type 0
AllWorkers [] = Unit
AllWorkers (w ∷ ws) = IsWorker w × AllWorkers ws

abbrev pub holds : ℕ → Option ℕ → Bool
holds p none = false
holds p (some q) = q == p

-- How many workers compute for a promise.
abbrev pub running : ℕ → List ComputeWorker → ℕ
running p = count_of (λ w. holds p w.callback)

abbrev pub placed : Slot → ℕ → List ComputeWorker
placed s promise = s.before ++ computing promise s.worker ∷ s.after

-- What a slot with the task of a promise makes of the workers.
pub record Taken (ws : List ComputeWorker) (q : ℕ) (s : Slot) : Type 0 where
  pub workers : AllWorkers (placed s q)
  pub counts : (p : ℕ) → running p (placed s q) ≡ running p ws + (if q == p then 1 else 0)
  pub same_length : length (placed s q) ≡ length ws

abbrev pub TakenIf : List ComputeWorker → ℕ → Option Slot → Type 0
TakenIf ws q none = Unit
TakenIf ws q (some s) = Taken ws q s

idle-none : (w : ComputeWorker) → IsWorker w → w.is_computing ≡ false → w.callback ≡ none
idle-none w h e = elim (Option-cases w.callback) [ inl n ↦ n | inr (p, k) ↦ ground (arith, h.busy) ]

-- A place whose worker holds no promise.
here :
    (q : ℕ) (w free : ComputeWorker) (ws : List ComputeWorker)
    → w.callback ≡ none
    → free.is_dead ≡ false
    → AllWorkers ws
    → Taken (w ∷ ws) q (record { before = []; worker = free; after = ws })
here q w free ws idle alive hs = record {
  workers = (record { busy = refl; dead = λ d. ground arith }, hs);
  counts = λ p. ground arith;
  same_length = refl;
}

further :
    (q : ℕ) (w : ComputeWorker) (ws : List ComputeWorker) (s : Slot)
    → IsWorker w
    → Taken ws q s
    → Taken (w ∷ ws) q (behind w s)
further q w ws s h t = record {
  workers = (h, t.workers);
  counts = λ p. ground (arith, t.counts p);
  same_length = ap suc t.same_length;
}

free_slot-Taken :
    (n q : ℕ) (ws : List ComputeWorker) → AllWorkers ws → TakenIf ws q (free_slot n ws)
unfolding free_slot new_worker
free_slot-Taken n q [] h = tt
free_slot-Taken n q (w ∷ ws) (h, hs) = elim (Bool-cases w.is_dead) [
  | inl d ↦ simp d (here q w (new_worker n) ws (h.dead d) refl hs)
  | inr a ↦ elim (Bool-cases w.is_computing) [
    | inr idle ↦ simp (a, idle) (here q w w ws (idle-none w h idle) a hs)
    | inl busy ↦
        let ih = free_slot-Taken n q ws hs in
        elim (Option-cases (free_slot n ws)) [
          | inl full ↦ simp (a, busy, full) tt
          | inr (s, e) ↦ simp (a, busy, e) (further q w ws s h (rw e at ih))
        ]
  ]
]

AllWorkers-append :
    (xs ys : List ComputeWorker) → AllWorkers xs → AllWorkers ys → AllWorkers (xs ++ ys)
AllWorkers-append [] ys hx hy = hy
AllWorkers-append (x ∷ xs) ys (h, hx) hy = (h, AllWorkers-append xs ys hx hy)

-- Taking a worker of a pool, which may add one.
pub record TakenOf {T R : Type 0} (pool : Pool T R) (q : ℕ) (s : Slot) : Type 0 where
  pub workers : AllWorkers (placed s q)
  pub counts : (p : ℕ) → running p (placed s q) ≡ running p pool.workers + (if q == p then 1 else 0)
  pub bounded : length pool.workers ≤ pool.max_pool_size → length (placed s q) ≤ pool.max_pool_size

module _ {T R : Type 0} where
  added :
      (pool : Pool T R) (q : ℕ)
      → AllWorkers pool.workers
      → length pool.workers < pool.max_pool_size
      → TakenOf pool q
          (record { before = pool.workers; worker = new_worker pool.next_thread; after = [] })
  unfolding new_worker
  added pool q h room = record {
    workers = AllWorkers-append pool.workers _ h (record { busy = refl; dead = λ d. cc }, tt);
    counts = λ p.
        rw
          (count_of-append (λ w. holds p w.callback) pool.workers
            (computing q (new_worker pool.next_thread) ∷ []))
          (ground arith);
    bounded = λ b.
        omega (arith, length-append pool.workers (computing q (new_worker pool.next_thread) ∷ []));
  }

  pub get_free_worker-TakenOf :
      (pool : Pool T R) (q : ℕ) (s : Slot)
      → AllWorkers pool.workers
      → get_free_worker pool ≡ some s
      → TakenOf pool q s
  unfolding get_free_worker
  get_free_worker-TakenOf pool q s h e =
      let kept = free_slot-Taken pool.next_thread q pool.workers h in
      elim (Option-cases (free_slot pool.next_thread pool.workers)) [
        | inr (s', k) ↦
            let same : s' ≡ s = ground arith in
            let t : Taken pool.workers q s' = rw k at kept in
            subst (TakenOf pool q) same (record {
              workers = t.workers;
              counts = t.counts;
              bounded = λ b. omega (arith, t.same_length);
            })
        | inl full ↦ elim (Bool-cases (ltb (length pool.workers) pool.max_pool_size)) [
          | inl room ↦ subst (TakenOf pool q) (ground arith) (added pool q h (ground arith))
          | inr stuck ↦ ground arith
        ]
      ]
