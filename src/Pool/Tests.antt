-- ===== src/Pool/Tests.antt =====
-- Runs of the pool on small inputs: blocks of two handles.
use directplay_lite.Common.{
  ◌==◌, ◌^◌, ◌≡◌, inl, inr, refl, false, [], ◌∷◌, none, some, get_elem?, arith,
}
use directplay_lite.Pool.State.{
  abort_process, call, Worker, Pool, Faults, no_faults, add_handle, remove_handle,
}
use directplay_lite.Pool.Blocks.{HasBlocks, add_handle-HasBlocks, remove_handle-HasBlocks}
use directplay_lite.Pool.Faults.{add_handle-misaligned}

abbrev empty : Pool
empty = record {
  threads_per_pool = 2;
  max_handles_per_pool = 3;
  spin_workers = 9;
  stopping = false;
  handles = [];
  callbacks = [];
  active_workers = [];
  join_worker = none;
  allocated = 0;
}

-- Three handles in two blocks.
abbrev three : Pool
three = record empty {
  handles = 9 ∷ 1 ∷ 2 ∷ 9 ∷ 3 ∷ [];
  callbacks = abort_process ∷ call 11 ∷ call 12 ∷ abort_process ∷ call 13 ∷ [];
}

abbrev fails_third : Faults
fails_third = record { push = λ i. i == 2; spawn = λ i. false }

three-HasBlocks : HasBlocks three
three-HasBlocks = (
  omega arith,
  (
    inl (refl, refl, refl),
    (
      inr (ground arith, ground arith, ground arith),
      (
        inr (ground arith, ground arith, ground arith),
        (inl (refl, refl, refl), (inr (ground arith, ground arith, ground arith), tt)),
      ),
    ),
  ),
)

empty-HasBlocks : HasBlocks empty
empty-HasBlocks = (omega arith, tt)

add_handle-HasBlocks_example : HasBlocks (add_handle (2 ^ 32) no_faults 4 14 three).1
add_handle-HasBlocks_example =
    add_handle-HasBlocks (2 ^ 32) no_faults 4 14 three three-HasBlocks (ground arith) refl refl

remove_handle-HasBlocks_example : HasBlocks (remove_handle 1 three).1
remove_handle-HasBlocks_example = remove_handle-HasBlocks 1 three three-HasBlocks (ground arith)

abbrev worker : Worker
worker = record { address = 0; base_index = 3 }

add_handle-misaligned_example :
    let s' =
      (add_handle (2 ^ 32) no_faults 5 15 (add_handle (2 ^ 32) fails_third 4 14 empty).1).1 in
    (get_elem? s'.handles 1 ≡ some 5) × (get_elem? s'.callbacks 1 ≡ some abort_process)
add_handle-misaligned_example =
    add_handle-misaligned (2 ^ 32) fails_third 4 14 5 15 empty refl refl refl refl refl

-- Two removals: the second also takes the spin_workers that the first left at the end.
remove_twice : (remove_handle 1 (remove_handle 3 three).1).1.handles ≡ 9 ∷ 2 ∷ []
unfolding remove_handle
remove_twice = refl
