-- ===== src/Pool/State.antt =====
-- HandleHandlingPool's state, add_handle(), remove_handle() and the workers: src/HandleHandlingPool.cpp.
-- A HANDLE and a callback's functor are numbers. `m` is 2 ^ w for a size_t of w bits.
use directplay_lite.Common.{
  ℕ, zero, suc, ◌+◌, ◌-◌, ◌%◌, Bool, true, false, ◌&&◌, ◌||◌, List, [], ◌∷◌, ◌++◌, Option, some,
  none, ◌==◌, ltb, leb, if◌then◌else◌, length, get_elem?,
}
use directplay_lite.Pool.Vectors.{pop_back, back, move_back}

-- The functor [](){ abort(); }, or one of add_handle().
pub data Callback : Type 0 where
  abort_process : Callback
  call : ℕ → Callback

-- A Worker by its address. Its thread has the same number.
pub record Worker : Type 0 where
  pub address : ℕ
  pub base_index : ℕ

pub record Pool : Type 0 where
  pub threads_per_pool : ℕ
  pub max_handles_per_pool : ℕ
  pub spin_workers : ℕ
  pub stopping : Bool
  pub handles : List ℕ
  pub callbacks : List Callback
  pub active_workers : List Worker
  pub join_worker : Option ℕ
  pub allocated : ℕ

-- How a call returns.
pub data Outcome : Type 0 where
  returned invalid_argument runtime_error rethrown : Outcome

-- HandleHandlingPool(threads_per_pool, max_handles_per_pool); `limit` is MAXIMUM_WAIT_OBJECTS, and `event` what
-- CreateEvent() returns.
unfoldable pub new_pool : ℕ → Option ℕ → ℕ → ℕ → Outcome × Option Pool
new_pool limit event threads max =
    if ltb threads 1
    then (invalid_argument, none)
    else if ltb max 1 || leb limit max
    then (invalid_argument, none)
    else elim event [
      | none ↦ (runtime_error, none)
      | some spin ↦ (
        returned,
        some (record {
          threads_per_pool = threads;
          max_handles_per_pool = max + 1;
          spin_workers = spin;
          stopping = false;
          handles = [];
          callbacks = [];
          active_workers = [];
          join_worker = none;
          allocated = 0;
        }),
      )
    ]

-- What fails in a call: the push_back() calls in their order, and the start of the i-th new worker.
pub record Faults : Type 0 where
  pub push : ℕ → Bool
  pub spawn : ℕ → Bool

abbrev pub no_faults : Faults
no_faults = record { push = λ i. false; spawn = λ i. false }

-- The workers of the block at `base`.
unfoldable pub workers_at : ℕ → List Worker → ℕ
workers_at base [] = 0
workers_at base (w ∷ ws) = (if w.base_index == base then 1 else 0) + workers_at base ws

-- The loop that starts workers, from its round `i` on.
unfoldable pub spawn_workers : Faults → ℕ → ℕ → ℕ → Pool → Outcome × Pool
spawn_workers f base i zero s = (returned, s)
spawn_workers f base i (suc n) s =
    let started = record s {
      active_workers = record { address = s.allocated; base_index = base } ∷ s.active_workers;
      allocated = suc s.allocated;
    } in
    let next = if f.spawn i then record s { allocated = suc s.allocated } else started in
    let rest = spawn_workers f base (suc i) n next in
    if f.spawn i && i == 0
    then (
      rethrown,
      record s {
        handles = pop_back (pop_back s.handles);
        callbacks = pop_back (pop_back s.callbacks);
        allocated = suc s.allocated;
      },
    )
    else rest

-- add_handle() where a new block begins.
unfoldable pub add_block : ℕ → Faults → ℕ → ℕ → Pool → Outcome × Pool
unfolding spawn_workers workers_at
add_block m f handle callback s =
    let base = length s.handles in
    let with_spin = s.handles ++ s.spin_workers ∷ [] in
    let with_abort = s.callbacks ++ abort_process ∷ [] in
    let with_handle = with_spin ++ handle ∷ [] in
    let threads = (s.threads_per_pool + m - workers_at base s.active_workers) % m in
    if f.push 0
    then (rethrown, s)
    else if f.push 1
    then (rethrown, record s { handles = pop_back with_spin })
    else if f.push 2
    then (rethrown, record s { handles = pop_back with_spin; callbacks = with_abort })
    else if f.push 3
    then (rethrown, record s { handles = pop_back (pop_back with_handle); callbacks = with_abort })
    else spawn_workers f base 0 threads
        (record s { handles = with_handle; callbacks = with_abort ++ call callback ∷ [] })

-- add_handle() into a block with room.
unfoldable pub add_slot : Faults → ℕ → ℕ → Pool → Outcome × Pool
add_slot f handle callback s =
    let with_handle = s.handles ++ handle ∷ [] in
    if f.push 0
    then (rethrown, s)
    else if f.push 1
    then (rethrown, record s { handles = pop_back with_handle })
    else (
      returned,
      record s { handles = with_handle; callbacks = s.callbacks ++ call callback ∷ [] },
    )

unfoldable pub add_handle : ℕ → Faults → ℕ → ℕ → Pool → Outcome × Pool
unfolding add_block add_slot
add_handle m f handle callback s =
    if length s.handles % s.max_handles_per_pool == 0
    then add_block m f handle callback s
    else add_slot f handle callback s

-- The scan for the index of a handle, which ends at the vector's size.
unfoldable pub index_of : ℕ → List ℕ → ℕ
index_of handle [] = 0
index_of handle (h ∷ hs) = if h == handle then 0 else suc (index_of handle hs)

abbrev pub ends_with : ℕ → List ℕ → Bool
ends_with spin hs = elim (back hs) [ none ↦ false | some h ↦ h == spin ]

-- The removal of a trailing spin_workers.
unfoldable pub drop_block : Pool → Pool
drop_block s =
    if ends_with s.spin_workers s.handles
    then record s { handles = pop_back s.handles; callbacks = pop_back s.callbacks }
    else s

-- remove_handle(): whether it came to pending_writer_cv.notify_all(), and the state.
unfoldable pub remove_handle : ℕ → Pool → Bool × Pool
unfolding index_of drop_block
remove_handle handle s =
    let i = index_of handle s.handles in
    let d = drop_block s in
    if leb (length s.handles) i
    then (false, s)
    else (true, record d { handles = move_back i d.handles; callbacks = move_back i d.callbacks })

-- What WaitForMultipleObjects() returns.
pub data Wait : Type 0 where
  object : ℕ → Wait
  wait_failed : Wait

-- What one round of worker_main() comes to: its thread exits, it calls a functor, or it goes round. `fault` is
-- a read outside callbacks.
pub data Round : Type 0 where
  exit_worker fault again : Round
  invoke : Callback → Round

abbrev pub min : ℕ → ℕ → ℕ
min a b = if ltb b a then b else a

unfoldable pub num_handles : Worker → Pool → ℕ
num_handles w s = min (length s.handles - w.base_index) s.max_handles_per_pool

-- A round of worker_main() whose wait, if it comes to one, returns `wait`.
unfoldable pub worker_round : Worker → Wait → Pool → Round
unfolding num_handles
worker_round w wait s =
    if leb (length s.handles) w.base_index
    then exit_worker
    else if s.stopping
    then exit_worker
    else elim wait [
      | wait_failed ↦ exit_worker
      | object r ↦
          if leb 1 r && ltb r (num_handles w s)
          then elim (get_elem? s.callbacks (w.base_index + r)) [ none ↦ fault | some c ↦ invoke c ]
          else again
    ]

unfoldable pub erase_worker : ℕ → List Worker → List Worker
erase_worker a [] = []
erase_worker a (w ∷ ws) = let rest = erase_worker a ws in if w.address == a then rest else w ∷ rest

-- worker_exit(): the thread that it joins first, if any, and the state.
unfoldable pub worker_exit : Worker → Pool → Option ℕ × Pool
unfolding erase_worker
worker_exit w s = (
  s.join_worker,
  record s {
    join_worker = some w.address;
    active_workers = erase_worker w.address s.active_workers;
  },
)
