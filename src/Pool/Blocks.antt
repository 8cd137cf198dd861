-- ===== src/Pool/Blocks.antt =====
-- add_handle() and remove_handle() keep the blocks: src/HandleHandlingPool.cpp.
use directplay_lite.Common.{
  ◌↔◌, ℕ, zero, suc, ◌%◌, ◌≤◌, ◌<◌, ◌≡◌, ◌≢◌, inl, inr, refl, true, false, ◌||◌, Option, some, none,
  ltb, List, [], ◌∷◌, ◌++◌, ◌==◌, leb, arith, Bool-cases, length, length-append, ==_iff,
}
use directplay_lite.Pool.Vectors.{pop_back, pop_back-append, move_back}
use directplay_lite.Pool.State.{
  Callback, abort_process, call, Pool, Faults, returned, add_handle, add_block, add_slot, index_of,
  drop_block, ends_with, remove_handle, spawn_workers, new_pool,
}
use directplay_lite.Pool.Layout.{
  IsLayout, append-IsLayout, pop_back-IsLayout, remove_after_block, remove_in_block, next_slot,
}

-- A block has room for spin_workers and one handle at least, and the two vectors agree.
abbrev pub HasBlocks : Pool → Type 0
HasBlocks s =
    (2 ≤ s.max_handles_per_pool)
    × IsLayout s.max_handles_per_pool s.spin_workers 0 s.handles s.callbacks

-- The vectors that the loop over the new workers leaves: all, or all but the last two elements.
spawn_workers-HasBlocks :
    (f : Faults) (base i n : ℕ) (s : Pool) → HasBlocks s → HasBlocks (spawn_workers f base i n s).1
unfolding spawn_workers
spawn_workers-HasBlocks f base i zero s w = w
spawn_workers-HasBlocks f base i (suc n) s w =
    let popped =
      pop_back-IsLayout s.max_handles_per_pool s.spin_workers 0 s.handles s.callbacks w.1 in
    let twice =
      pop_back-IsLayout s.max_handles_per_pool s.spin_workers 0 (pop_back s.handles)
        (pop_back s.callbacks) popped in
    elim (Bool-cases (f.spawn i)) [
      | inl p ↦ elim (Bool-cases (i == 0)) [
        | inl q ↦ rw (p, q) (w.0, twice)
        | inr q ↦
            rw (p, q)
              (spawn_workers-HasBlocks f base (suc i) n (record s { allocated = suc s.allocated })
                w)
      ]
      | inr p ↦ rw p (spawn_workers-HasBlocks f base (suc i) n _ w)
    ]

-- remove_handle() where the handle is found, with a trailing spin_workers and without.
pub remove_handle-ends :
    (handle : ℕ) (s : Pool)
    → leb (length s.handles) (index_of handle s.handles) ≡ false
    → ends_with s.spin_workers s.handles ≡ true
    → remove_handle handle s ≡ (
      true,
      record s {
        handles = move_back (index_of handle s.handles) (pop_back s.handles);
        callbacks = move_back (index_of handle s.handles) (pop_back s.callbacks);
      },
    )
unfolding remove_handle drop_block
remove_handle-ends handle s p q = rw (remove_handle, p, drop_block, q)

pub remove_handle-plain :
    (handle : ℕ) (s : Pool)
    → leb (length s.handles) (index_of handle s.handles) ≡ false
    → ends_with s.spin_workers s.handles ≡ false
    → remove_handle handle s ≡ (
      true,
      record s {
        handles = move_back (index_of handle s.handles) s.handles;
        callbacks = move_back (index_of handle s.handles) s.callbacks;
      },
    )
unfolding remove_handle drop_block
remove_handle-plain handle s p q = rw (remove_handle, p, drop_block, q)

pub remove_handle-missing :
    (handle : ℕ) (s : Pool)
    → leb (length s.handles) (index_of handle s.handles) ≡ true
    → remove_handle handle s ≡ (false, s)
unfolding remove_handle
remove_handle-missing handle s p = rw (remove_handle, p)

-- remove_handle() keeps the blocks; the handle is not spin_workers.
pub remove_handle-HasBlocks :
    (handle : ℕ) (s : Pool)
    → HasBlocks s
    → handle ≢ s.spin_workers
    → HasBlocks (remove_handle handle s).1
remove_handle-HasBlocks handle s w a =
    elim (Bool-cases (leb (length s.handles) (index_of handle s.handles))) [
      | inl p ↦ rw (remove_handle-missing handle s p) w
      | inr p ↦
          let found : index_of handle s.handles < length s.handles = ground (arith, p) in
          elim (Bool-cases (ends_with s.spin_workers s.handles)) [
            | inl q ↦ rw (remove_handle-ends handle s p q) (
              w.0,
              remove_after_block s.max_handles_per_pool s.spin_workers handle s.handles s.callbacks
                  w.0 w.1 a found q,
            )
            | inr q ↦ rw (remove_handle-plain handle s p q) (
              w.0,
              remove_in_block s.max_handles_per_pool s.spin_workers handle s.handles s.callbacks w.1
                  a found q,
            )
          ]
    ]

-- The two elements with which add_handle() begins a block.
begun-IsLayout :
    (m spin handle callback : ℕ) (hs : List ℕ) (cs : List Callback)
    → 2 ≤ m
    → IsLayout m spin 0 hs cs
    → handle ≢ spin
    → length hs % m ≡ 0
    → IsLayout m spin 0
        ((hs ++ spin ∷ []) ++ handle ∷ [])
        ((cs ++ abort_process ∷ []) ++ call callback ∷ [])
begun-IsLayout m spin handle callback hs cs g w a e =
    let first =
      append-IsLayout m spin 0 (length hs) hs cs spin abort_process w (omega arith)
        (inl (e, refl, refl)) in
    append-IsLayout m spin 0 (suc (length hs)) (hs ++ spin ∷ []) (cs ++ abort_process ∷ []) handle
      (call callback) first (omega (arith, length-append hs (spin ∷ [])))
      (inr ((λ e'. next_slot m (length hs) g e' e), a, λ q. ground (arith, q)))

add_block-HasBlocks :
    (m : ℕ) (f : Faults) (handle callback : ℕ) (s : Pool)
    → HasBlocks s
    → handle ≢ s.spin_workers
    → length s.handles % s.max_handles_per_pool ≡ 0
    → f.push 2 ≡ false
    → f.push 3 ≡ false
    → HasBlocks (add_block m f handle callback s).1
unfolding add_block
add_block-HasBlocks m f handle callback s w a e p2 p3 = elim (Bool-cases (f.push 0)) [
  | inl p0 ↦ rw p0 w
  | inr p0 ↦ elim (Bool-cases (f.push 1)) [
    | inl p1 ↦ rw (p0, p1, pop_back-append s.handles s.spin_workers) w
    | inr p1 ↦
        rw (p0, p1, p2, p3)
          (spawn_workers-HasBlocks f _ 0 _ _ (
            w.0,
            begun-IsLayout s.max_handles_per_pool s.spin_workers handle callback s.handles
                s.callbacks w.0 w.1 a e,
          ))
  ]
]

add_slot-HasBlocks :
    (f : Faults) (handle callback : ℕ) (s : Pool)
    → HasBlocks s
    → handle ≢ s.spin_workers
    → length s.handles % s.max_handles_per_pool ≢ 0
    → HasBlocks (add_slot f handle callback s).1
unfolding add_slot
add_slot-HasBlocks f handle callback s w a e = elim (Bool-cases (f.push 0)) [
  | inl p0 ↦ rw p0 w
  | inr p0 ↦ elim (Bool-cases (f.push 1)) [
    | inl p1 ↦ rw (p0, p1, pop_back-append s.handles handle) w
    | inr p1 ↦
        rw (p0, p1)
          (
            w.0,
            append-IsLayout s.max_handles_per_pool s.spin_workers 0 (length s.handles) s.handles
                s.callbacks handle (call callback) w.1 (omega arith)
                (inr (e, a, λ q. ground (arith, q))),
          )
  ]
]

-- add_handle() keeps the blocks, also where it throws, unless one of the last two push_back() calls for a new block
-- fails. The handle is not spin_workers.
pub add_handle-HasBlocks :
    (m : ℕ) (f : Faults) (handle callback : ℕ) (s : Pool)
    → HasBlocks s
    → handle ≢ s.spin_workers
    → f.push 2 ≡ false
    → f.push 3 ≡ false
    → HasBlocks (add_handle m f handle callback s).1
unfolding add_handle
add_handle-HasBlocks m f handle callback s w a p2 p3 =
    elim (Bool-cases (length s.handles % s.max_handles_per_pool == 0)) [
      | inl q ↦
          let e = (==_iff (length s.handles % s.max_handles_per_pool) 0).0 q in
          rw q (add_block-HasBlocks m f handle callback s w a e p2 p3)
      | inr q ↦ rw q (add_slot-HasBlocks f handle callback s w a (ground (arith, q)))
    ]

-- What holds of a pool that the constructor made, if it made one.
abbrev pub Fits : ℕ → Option Pool → Type 0
Fits limit none = Unit
Fits limit (some s) = HasBlocks s × (s.max_handles_per_pool ≤ limit) × (1 ≤ s.threads_per_pool)

-- A constructed pool has empty vectors in blocks that MAXIMUM_WAIT_OBJECTS allows, and at least one worker for each.
-- The constructor returns exactly where CreateEvent() succeeds and the arguments are in range.
pub new_pool-Fits :
    (limit spin threads max : ℕ)
    → Fits limit (new_pool limit (some spin) threads max).1
      × Fits limit (new_pool limit none threads max).1
      × ((new_pool limit none threads max).0 ≢ returned)
      × (((new_pool limit (some spin) threads max).0 ≡ returned)
          ↔ ((1 ≤ threads) × (1 ≤ max) × (max < limit)))
unfolding new_pool
new_pool-Fits limit spin threads max = elim (Bool-cases (ltb threads 1)) [
  | inl p ↦ rw (new_pool, p) (tt, tt, ground arith, ground (arith, p))
  | inr p ↦ elim (Bool-cases (ltb max 1 || leb limit max)) [
    | inl q ↦ rw (new_pool, p, q) (tt, tt, ground arith, ground (arith, p, q))
    | inr q ↦
        rw (new_pool, p, q)
          (
            ((ground (arith, q), tt), ground (arith, q), ground (arith, p)),
            tt,
            ground arith,
            ground (arith, p, q),
          )
  ]
]
