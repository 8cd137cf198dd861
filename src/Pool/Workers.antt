-- ===== src/Pool/Workers.antt =====
-- What a round of worker_main() can come to, and the bounds of its wait: src/HandleHandlingPool.cpp.
use directplay_lite.Common.{ℕ, ◌+◌, ◌≡◌, ◌≢◌, refl, some, get_elem?}
use directplay_lite.Pool.State.{
  Callback, abort_process, call, Worker, Pool, Wait, object, Round, exit_worker, fault, again,
  invoke,
}

pub call_of : (c : Callback) → c ≢ abort_process → (k : ℕ) × (c ≡ call k)
call_of abort_process a = absurd (a refl)
call_of (call k) a = (k, refl)

-- What a round may do: end the thread, go round, or call the functor that was added with a handle for which the wait returned.
abbrev pub Allowed : Worker → Pool → Wait → Round → Type 0
Allowed w s wait exit_worker = Unit
Allowed w s wait again = Unit
Allowed w s wait fault = ⊥
Allowed w s wait (invoke c) =
    (r : ℕ) × (h : ℕ) × (k : ℕ) × (wait ≡ object r)
    × (get_elem? s.handles (w.base_index + r) ≡ some h)
    × (h ≢ s.spin_workers)
    × (get_elem? s.callbacks (w.base_index + r) ≡ some c)
    × (c ≡ call k)
