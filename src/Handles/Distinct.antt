-- ===== src/Handles/Distinct.antt =====
-- Handles do not repeat before a counter wraps: src/AsyncHandleAllocator.cpp.
use directplay_lite.Common.{
  ℕ, suc, ap, ◌+◌, ◌-◌, ◌*◌, ◌^◌, ◌≤◌, ◌<◌, ◌≡◌, ◌≢◌, List, [], ◌∷◌, All, arith, length,
}
use directplay_lite.Handles.{Allocator, Kind, alloc, next_id, alloc_all}
use directplay_lite.Handles.Laws.{
  IsWf, code, code-injective, alloc_handle, alloc_self, alloc_other, alloc-IsWf, Kind-discrete,
}

-- No two entries are equal.
abbrev pub Distinct : List ℕ → Type 0
Distinct [] = Unit {0}
Distinct (x ∷ xs) = All (λ y. x ≢ y) xs × Distinct xs

-- A handle that the allocator has not given out yet.
abbrev IsFresh : Allocator → ℕ → Type 0
IsFresh s h = (k : Kind) × (n : ℕ) × (h ≡ n + code k * 2 ^ 29) × (next_id k s ≤ n) × (n < 2 ^ 29)

-- Each counter has room for `m` more handles.
abbrev pub HasRoom : Allocator → ℕ → Type 0
HasRoom s m = (k : Kind) → next_id k s + m ≤ 2 ^ 29 - 1

module _ (k : Kind) (s : Allocator) (m : ℕ) (wf : IsWf s) (room : HasRoom s (suc m)) where
  alloc-next : next_id k (alloc k s).1 ≡ next_id k s + 1
  alloc-next = rw (alloc_self k s wf) (ground (arith, room k))

  alloc-HasRoom : HasRoom (alloc k s).1 m
  alloc-HasRoom j = elim (Kind-discrete j k) [
    | yes e ↦ rw e (omega (arith, alloc-next, room k))
    | no d ↦ rw (alloc_other k j s d) (omega (arith, room j))
  ]

  -- What is fresh after a call was fresh before it, and is not the handle that the call returned.
  IsFresh-alloc : (h : ℕ) → IsFresh (alloc k s).1 h → IsFresh s h × ((alloc k s).0 ≢ h)
  IsFresh-alloc h (j, n, e, lo, hi) = elim (Kind-discrete j k) [
    | yes q ↦ (
      (
        j,
        n,
        e,
        omega (arith, ap (λ i. next_id i s) q, ap (λ i. next_id i (alloc k s).1) q, alloc-next),
        hi,
      ),
      λ eq. omega (
        arith,
        eq,
        alloc_handle k s wf,
        ap code q,
        ap (λ i. next_id i (alloc k s).1) q,
        alloc-next,
      ),
    )
    | no d ↦ (
      (j, n, e, omega (arith, alloc_other k j s d), hi),
      λ eq.
          omega (
            arith,
            eq,
            alloc_handle k s wf,
            wf k,
            λ (c : code j ≡ code k). d (code-injective j k c),
          ),
    )
  ]

  IsFresh-All :
      (hs : List ℕ)
      → All (IsFresh (alloc k s).1) hs
      → All (IsFresh s) hs × All (λ y. (alloc k s).0 ≢ y) hs
  IsFresh-All [] f = (tt, tt)
  IsFresh-All (h ∷ hs) (f, fs) =
      let (a, b) = IsFresh-alloc h f in let (as', bs) = IsFresh-All hs fs in ((a, as'), (b, bs))

  IsFresh-self : IsFresh s (alloc k s).0
  IsFresh-self = (k, next_id k s, alloc_handle k s wf, omega arith, omega (arith, wf k))

alloc_all-IsFresh :
    (ks : List Kind) (s : Allocator)
    → IsWf s
    → HasRoom s (length ks)
    → All (IsFresh s) (alloc_all ks s).0 × Distinct (alloc_all ks s).0
unfolding alloc_all
alloc_all-IsFresh [] s wf room = (tt, tt)
alloc_all-IsFresh (k ∷ ks) s wf room =
    let (fresh, distinct) =
      alloc_all-IsFresh ks (alloc k s).1 (alloc-IsWf k s wf)
        (alloc-HasRoom k s (length ks) wf room) in
    let (before, differ) =
      IsFresh-All k s (length ks) wf room (alloc_all ks (alloc k s).1).0 fresh in
    ((IsFresh-self k s (length ks) wf room, before), (differ, distinct))

-- Handles do not repeat, within a kind or across kinds, over any sequence of calls that no counter is
-- too far on for: where each counter plus the number of calls stays within 2 ^ 29 - 1, the handles that
-- the calls return are pairwise distinct.
pub alloc_all-Distinct :
    (ks : List Kind) (s : Allocator) → IsWf s → HasRoom s (length ks) → Distinct (alloc_all ks s).0
alloc_all-Distinct ks s wf room = (alloc_all-IsFresh ks s wf room).1
