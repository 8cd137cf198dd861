-- ===== src/Pool/Moves.antt =====
-- Which handles are registered, each with its functor: src/HandleHandlingPool.cpp.
use directplay_lite.Common.{ℕ, List, [], ◌∷◌, if◌then◌else◌}
use mathlib.Core.List.{Perm}
use mathlib.Core.List.Perm
use directplay_lite.Pool.State.{Callback, abort_process, Pool, ends_with}

-- Each handle with the functor in the same slot.
abbrev pub slots : List ℕ → List Callback → List (ℕ × Callback)
slots [] cs = []
slots (h ∷ hs) [] = []
slots (h ∷ hs) (c ∷ cs) = (h, c) ∷ slots hs cs

-- The spin_workers at the end of the vectors, if they end with one.
abbrev pub trailing : ℕ → List ℕ → List (ℕ × Callback)
trailing spin hs = if ends_with spin hs then (spin, abort_process) ∷ [] else []
