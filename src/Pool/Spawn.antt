-- ===== src/Pool/Spawn.antt =====
-- How many workers add_handle() starts: src/HandleHandlingPool.cpp.
use directplay_lite.Common.{
  ℕ, zero, suc, ◌+◌, ◌-◌, ◌%◌, ◌≤◌, ◌<◌, ◌≡◌, refl, ◌∙◌, true, [], ◌∷◌, ◌++◌, ◌==◌, arith, length,
}
use native.Mathlib.Nat.{add-mod_right, mod-eq_of_lt}
use directplay_lite.Pool.Faults.{add_handle-begins}
use directplay_lite.Pool.State.{
  Pool, abort_process, call, no_faults, returned, add_handle, add_block, spawn_workers, workers_at,
}

spawn_workers-count :
    (base i n : ℕ) (s : Pool)
    → ((spawn_workers no_faults base i n s).0 ≡ returned)
      × (workers_at base (spawn_workers no_faults base i n s).1.active_workers
          ≡ n + workers_at base s.active_workers)
unfolding spawn_workers workers_at
spawn_workers-count base i zero s = (refl, omega arith)
spawn_workers-count base i (suc n) s =
    let next = record s {
      active_workers = record { address = s.allocated; base_index = base } ∷ s.active_workers;
      allocated = suc s.allocated;
    } in
    let (r, count) = spawn_workers-count base (suc i) n next in
    let itself : (base == base) ≡ true = ground arith in
    let one_more : workers_at base next.active_workers ≡ 1 + workers_at base s.active_workers =
      rw itself in
    (r, count ∙ omega (arith, one_more))

wrapped : (m t c : ℕ) → c ≤ t → t < m → (t + m - c) % m ≡ t - c
wrapped m t c h k =
    let split : t + m - c ≡ (t - c) + m = omega arith in
    rw split (add-mod_right (t - c) m ∙ mod-eq_of_lt (omega arith))

-- add_handle() of the first handle of a block returns and leaves exactly threads_per_pool workers for that block,
-- where no call fails: those that are left of an earlier block at that place count. There were not
-- more of these than threads_per_pool, which fits a size_t.
pub add_handle-workers :
    (m handle callback : ℕ) (s : Pool)
    → length s.handles % s.max_handles_per_pool ≡ 0
    → workers_at (length s.handles) s.active_workers ≤ s.threads_per_pool
    → s.threads_per_pool < m
    → ((add_handle m no_faults handle callback s).0 ≡ returned)
      × (workers_at (length s.handles) (add_handle m no_faults handle callback s).1.active_workers
          ≡ s.threads_per_pool)
unfolding add_block
add_handle-workers m handle callback s e h k =
    let base = length s.handles in
    let here = workers_at base s.active_workers in
    let threads = (s.threads_per_pool + m - here) % m in
    let count : threads ≡ s.threads_per_pool - here = wrapped m s.threads_per_pool here h k in
    let (r, c) = spawn_workers-count base 0 threads (record s {
      handles = (s.handles ++ s.spin_workers ∷ []) ++ handle ∷ [];
      callbacks = (s.callbacks ++ abort_process ∷ []) ++ call callback ∷ [];
    }) in
    rw (add_handle-begins m no_faults handle callback s e) (r, c ∙ omega (arith, count, h))
