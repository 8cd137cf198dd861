-- ===== src/Pool/Faults.antt =====
-- What a failed add_handle() leaves in the two vectors: src/HandleHandlingPool.cpp.
use directplay_lite.Common.{
  ℕ, zero, suc, ◌+◌, ◌-◌, ◌%◌, ◌≡◌, inl, inr, refl, ap, ◌∙◌, true, false, ◌||◌, List, [], ◌∷◌, ◌++◌,
  some, ◌==◌, arith, Bool-cases, length, length-append, get_elem?,
}
use mathlib.Core.List.{append_assoc}
use directplay_lite.Pool.Vectors.{pop_back-append}
use directplay_lite.Pool.State.{
  abort_process, call, Pool, Faults, no_faults, add_handle, add_block, spawn_workers, workers_at,
}

spawn_workers-no_faults :
    (base i n : ℕ) (s : Pool)
    → ((spawn_workers no_faults base i n s).1.handles ≡ s.handles)
      × ((spawn_workers no_faults base i n s).1.callbacks ≡ s.callbacks)
unfolding spawn_workers
spawn_workers-no_faults base i zero s = (refl, refl)
spawn_workers-no_faults base i (suc n) s = spawn_workers-no_faults base (suc i) n _

get_elem?-append :
    {A : Type 0} (xs : List A) (x : A) (ys : List A) (n : ℕ)
    → length xs ≡ n
    → get_elem? (xs ++ x ∷ ys) n ≡ some x
get_elem?-append [] x ys zero e = refl
get_elem?-append [] x ys (suc n) e = absurd (ground (arith, e))
get_elem?-append (y ∷ xs) x ys zero e = absurd (ground (arith, e))
get_elem?-append (y ∷ xs) x ys (suc n) e = get_elem?-append xs x ys n (omega (arith, e))

-- The failed call leaves the functor that aborts behind.
failed-add_block :
    (m : ℕ) (f : Faults) (handle callback : ℕ) (s : Pool)
    → f.push 0 ≡ false
    → f.push 1 ≡ false
    → (f.push 2 || f.push 3) ≡ true
    → (add_block m f handle callback s).1
      ≡ record s { callbacks = s.callbacks ++ abort_process ∷ [] }
unfolding add_block
failed-add_block m f handle callback s p0 p1 e = elim (Bool-cases (f.push 2)) [
  | inl p2 ↦ rw (p0, p1, p2, pop_back-append s.handles s.spin_workers)
  | inr p2 ↦
      let p3 : f.push 3 ≡ true = ground (arith, e, p2) in
      rw (
        p0,
        p1,
        p2,
        p3,
        pop_back-append (s.handles ++ s.spin_workers ∷ []) handle,
        pop_back-append s.handles s.spin_workers,
      )
]

pub add_handle-begins :
    (m : ℕ) (f : Faults) (handle callback : ℕ) (s : Pool)
    → length s.handles % s.max_handles_per_pool ≡ 0
    → add_handle m f handle callback s ≡ add_block m f handle callback s
unfolding add_handle
add_handle-begins m f handle callback s e =
    let yes : (length s.handles % s.max_handles_per_pool == 0) ≡ true = ground (arith, e) in
    rw (add_handle, yes)

added-add_block :
    (m handle callback : ℕ) (s : Pool)
    → ((add_block m no_faults handle callback s).1.handles
        ≡ (s.handles ++ s.spin_workers ∷ []) ++ handle ∷ [])
      × ((add_block m no_faults handle callback s).1.callbacks
          ≡ (s.callbacks ++ abort_process ∷ []) ++ call callback ∷ [])
unfolding add_block
added-add_block m handle callback s =
    spawn_workers-no_faults (length s.handles) 0
      ((s.threads_per_pool + m - workers_at (length s.handles) s.active_workers) % m)
      (record s {
        handles = (s.handles ++ s.spin_workers ∷ []) ++ handle ∷ [];
        callbacks = (s.callbacks ++ abort_process ∷ []) ++ call callback ∷ [];
      })

broken_slots :
    (next next_callback : ℕ) (s : Pool)
    → length s.callbacks ≡ length s.handles
    → (get_elem? ((s.handles ++ s.spin_workers ∷ []) ++ next ∷ []) (suc (length s.handles))
        ≡ some next)
      × (get_elem?
            (((s.callbacks ++ abort_process ∷ []) ++ abort_process ∷ []) ++ call next_callback ∷ [])
            (suc (length s.handles))
          ≡ some abort_process)
broken_slots next next_callback s a = (
  get_elem?-append (s.handles ++ s.spin_workers ∷ []) next [] (suc (length s.handles))
      (omega (arith, length-append s.handles (s.spin_workers ∷ []))),
  rw
      (append_assoc (s.callbacks ++ abort_process ∷ []) (abort_process ∷ [])
        (call next_callback ∷ []))
      (get_elem?-append (s.callbacks ++ abort_process ∷ []) abort_process (call next_callback ∷ [])
        (suc (length s.handles))
        (omega (arith, a, length-append s.callbacks (abort_process ∷ [])))),
)

-- A call of add_handle() begins a block and fails in one of its last two push_back() calls; the next call succeeds.
-- Then the second handle has the functor that aborts in its slot of callbacks, where the two vectors had the same length before.
pub add_handle-misaligned :
    (m : ℕ) (f : Faults) (handle callback next next_callback : ℕ) (s : Pool)
    → length s.callbacks ≡ length s.handles
    → length s.handles % s.max_handles_per_pool ≡ 0
    → f.push 0 ≡ false
    → f.push 1 ≡ false
    → (f.push 2 || f.push 3) ≡ true
    → let s' = (add_handle m no_faults next next_callback (add_handle m f handle callback s).1).1 in
      (get_elem? s'.handles (suc (length s.handles)) ≡ some next)
      × (get_elem? s'.callbacks (suc (length s.handles)) ≡ some abort_process)
add_handle-misaligned m f handle callback next next_callback s a e p0 p1 p =
    let broken = record s { callbacks = s.callbacks ++ abort_process ∷ [] } in
    let first : (add_handle m f handle callback s).1 ≡ broken =
      ap (λ x. x.1) (add_handle-begins m f handle callback s e)
      ∙ failed-add_block m f handle callback s p0 p1 p in
    let second = add_handle-begins m no_faults next next_callback broken e in
    let (hs, cs) = added-add_block m next next_callback broken in
    let (there, functor) = broken_slots next next_callback s a in
    rw (first, second, hs, cs) (there, functor)
