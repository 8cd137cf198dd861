-- ===== src/Pool/Layout.antt =====
-- The blocks of the pool's two vectors, which add_handle() and remove_handle() keep: src/HandleHandlingPool.cpp.
use directplay_lite.Common.{
  ℕ, zero, suc, ◌+◌, ◌-◌, ◌%◌, ◌≤◌, ◌<◌, ◌≡◌, ◌≢◌, ◌⊎◌, inl, inr, refl, ap, subst, true, false,
  List, [], ◌∷◌, ◌++◌, some, ◌==◌, arith, Bool-cases, length, get_elem?, ==_iff,
}
use Prim.Native.Nat.{◌∣◌}
use native.Mathlib.Nat.{zero-mod, dvd-sub, dvd_of_mod-eq-zero, le_of_dvd}
use directplay_lite.Pool.Vectors.{pop_back, back, set, move_back, move_back_lem}
use directplay_lite.Pool.State.{Callback, abort_process, index_of, ends_with}

-- Slot `k` of blocks of `m` slots: the first of a block has spin_workers and the functor that aborts, and no other has.
abbrev pub IsSlot : ℕ → ℕ → ℕ → ℕ → Callback → Type 0
IsSlot m spin k h c =
    ((k % m ≡ 0) × (h ≡ spin) × (c ≡ abort_process))
    ⊎ ((k % m ≢ 0) × (h ≢ spin) × (c ≢ abort_process))

-- The two vectors agree, from slot `k` on.
abbrev pub IsLayout : ℕ → ℕ → ℕ → List ℕ → List Callback → Type 0
IsLayout m spin k [] [] = Unit
IsLayout m spin k [] (c ∷ cs) = ⊥
IsLayout m spin k (h ∷ hs) [] = ⊥
IsLayout m spin k (h ∷ hs) (c ∷ cs) = IsSlot m spin k h c × IsLayout m spin (suc k) hs cs

-- Of two neighbours only one can begin a block.
pub next_slot : (m n : ℕ) → 2 ≤ m → suc n % m ≡ 0 → n % m ≢ 0
next_slot m n h e e' =
    let gap : suc n - n ≡ 1 = omega arith in
    let divides =
      subst (λ k. m ∣ k) gap (dvd-sub m (dvd_of_mod-eq-zero m e) (dvd_of_mod-eq-zero m e')) in
    let small : m ≤ 1 = le_of_dvd (omega arith) divides in absurd (omega (arith, small, h))

module _ (m spin : ℕ) where
  pub IsLayout-length :
      (k : ℕ) (hs : List ℕ) (cs : List Callback) → IsLayout m spin k hs cs → length cs ≡ length hs
  IsLayout-length k [] [] w = refl
  IsLayout-length k [] (c ∷ cs) w = absurd w
  IsLayout-length k (h ∷ hs) [] w = absurd w
  IsLayout-length k (h ∷ hs) (c ∷ cs) w = ap suc (IsLayout-length (suc k) hs cs w.1)

  pub append-IsLayout :
      (k j : ℕ) (hs : List ℕ) (cs : List Callback) (h : ℕ) (c : Callback)
      → IsLayout m spin k hs cs
      → j ≡ k + length hs
      → IsSlot m spin j h c
      → IsLayout m spin k (hs ++ h ∷ []) (cs ++ c ∷ [])
  append-IsLayout k j [] [] h c w e s =
      let same : j ≡ k = omega (arith, e) in (subst (λ x. IsSlot m spin x h c) same s, tt)
  append-IsLayout k j [] (c' ∷ cs) h c w e s = absurd w
  append-IsLayout k j (h' ∷ hs) [] h c w e s = absurd w
  append-IsLayout k j (h' ∷ hs) (c' ∷ cs) h c w e s =
      (w.0, append-IsLayout (suc k) j hs cs h c w.1 (omega arith) s)

  pub pop_back-IsLayout :
      (k : ℕ) (hs : List ℕ) (cs : List Callback)
      → IsLayout m spin k hs cs
      → IsLayout m spin k (pop_back hs) (pop_back cs)
  pop_back-IsLayout k [] [] w = tt
  pop_back-IsLayout k [] (c ∷ cs) w = absurd w
  pop_back-IsLayout k (h ∷ hs) [] w = absurd w
  pop_back-IsLayout k (h ∷ []) (c ∷ []) w = tt
  pop_back-IsLayout k (h ∷ []) (c ∷ c' ∷ cs) w = absurd w.1
  pop_back-IsLayout k (h ∷ h' ∷ hs) (c ∷ []) w = absurd w.1
  pop_back-IsLayout k (h ∷ h' ∷ hs) (c ∷ c' ∷ cs) w =
      (w.0, pop_back-IsLayout (suc k) (h' ∷ hs) (c' ∷ cs) w.1)

  set-IsLayout :
      (k i j : ℕ) (hs : List ℕ) (cs : List Callback) (h : ℕ) (c : Callback)
      → IsLayout m spin k hs cs
      → j ≡ k + i
      → IsSlot m spin j h c
      → IsLayout m spin k (set i h hs) (set i c cs)
  set-IsLayout k i j [] [] h c w e s = tt
  set-IsLayout k i j [] (c' ∷ cs) h c w e s = absurd w
  set-IsLayout k i j (h' ∷ hs) [] h c w e s = absurd w
  set-IsLayout k zero j (h' ∷ hs) (c' ∷ cs) h c w e s =
      let same : j ≡ k = omega (arith, e) in (subst (λ x. IsSlot m spin x h c) same s, w.1)
  set-IsLayout k (suc i) j (h' ∷ hs) (c' ∷ cs) h c w e s =
      (w.0, set-IsLayout (suc k) i j hs cs h c w.1 (omega arith) s)

  -- The slot of an element of the first vector, with its neighbour in the second.
  pub get-IsLayout :
      (k i : ℕ) (hs : List ℕ) (cs : List Callback) (h : ℕ)
      → IsLayout m spin k hs cs
      → get_elem? hs i ≡ some h
      → (c : Callback) × (get_elem? cs i ≡ some c) × IsSlot m spin (k + i) h c
  get-IsLayout k i [] cs h w e = absurd (ground (arith, e))
  get-IsLayout k i (h' ∷ hs) [] h w e = absurd w
  get-IsLayout k zero (h' ∷ hs) (c ∷ cs) h w e =
      let same : h' ≡ h = ground (arith, e) in
      (
        c,
        refl,
        subst (λ x. IsSlot m spin x h c) (omega arith) (subst (λ x. IsSlot m spin k x c) same w.0),
      )
  get-IsLayout k (suc i) (h' ∷ hs) (c ∷ cs) h w e =
      let (c', f, s) = get-IsLayout (suc k) i hs cs h w.1 e in
      (c', f, subst (λ x. IsSlot m spin x h c') (omega arith) s)

  -- The last elements of the two vectors.
  pub back-IsLayout :
      (k : ℕ) (h : ℕ) (hs : List ℕ) (cs : List Callback)
      → IsLayout m spin k (h ∷ hs) cs
      → (l : ℕ) × (c : Callback) × (back (h ∷ hs) ≡ some l)
        × (back cs ≡ some c)
        × IsSlot m spin (k + length hs) l c
  back-IsLayout k h hs [] w = absurd w
  back-IsLayout k h [] (c ∷ []) w =
      (h, c, refl, refl, subst (λ x. IsSlot m spin x h c) (omega arith) w.0)
  back-IsLayout k h [] (c ∷ c' ∷ cs) w = absurd w.1
  back-IsLayout k h (h' ∷ hs) (c ∷ []) w = absurd w.1
  back-IsLayout k h (h' ∷ hs) (c ∷ c' ∷ cs) w =
      let (l, d, p, q, s) = back-IsLayout (suc k) h' hs (c' ∷ cs) w.1 in
      (l, d, p, q, subst (λ x. IsSlot m spin x l d) (omega arith) s)

  -- The last element moves to a slot that is not the first of its block.
  move_back-IsLayout :
      (i n : ℕ) (hs : List ℕ) (cs : List Callback)
      → IsLayout m spin 0 hs cs
      → length hs ≡ suc n
      → i % m ≢ 0
      → n % m ≢ 0
      → IsLayout m spin 0 (move_back i hs) (move_back i cs)
  move_back-IsLayout i n [] cs w e p q = absurd (omega (arith, e))
  move_back-IsLayout i n (h ∷ hs) cs w e p q =
      let (l, c, b, d, s) = back-IsLayout 0 h hs cs w in
      let there : 0 + length hs ≡ n = omega (arith, e) in
      let moved : IsSlot m spin i l c = elim s [
        | inl x ↦ absurd (q (subst (λ j. j % m ≡ 0) there x.0))
        | inr x ↦ inr (p, x.1, x.2)
      ] in
      rw (move_back_lem i (h ∷ hs) l b, move_back_lem i cs c d)
        (pop_back-IsLayout 0 (set i l (h ∷ hs)) (set i c cs)
          (set-IsLayout 0 i i (h ∷ hs) cs l c w (omega arith) moved))

  pub get-index_of :
      (handle : ℕ) (hs : List ℕ)
      → index_of handle hs < length hs
      → get_elem? hs (index_of handle hs) ≡ some handle
  unfolding index_of
  get-index_of handle [] h = absurd (omega (arith, h))
  get-index_of handle (x ∷ hs) h = elim (Bool-cases (x == handle)) [
    | inl p ↦ let same : x ≡ handle = (==_iff x handle).0 p in rw (p, same)
    | inr p ↦
        let shorter : index_of handle hs < length hs = ground (arith, h, p) in
        rw p (get-index_of handle hs shorter)
  ]

  -- A handle that was added stands in no slot that begins a block.
  index_of-slot :
      (handle : ℕ) (hs : List ℕ) (cs : List Callback)
      → IsLayout m spin 0 hs cs
      → handle ≢ spin
      → index_of handle hs < length hs
      → index_of handle hs % m ≢ 0
  index_of-slot handle hs cs w a h =
      let (c, e, s) =
        get-IsLayout 0 (index_of handle hs) hs cs handle w (get-index_of handle hs h) in
      elim s [ inl x ↦ absurd (a x.1) | inr x ↦ subst (λ j. j % m ≢ 0) (omega arith) x.0 ]

  length-pop_back : (h : ℕ) (hs : List ℕ) → length (pop_back (h ∷ hs)) ≡ length hs
  length-pop_back h [] = refl
  length-pop_back h (h' ∷ hs) = ap suc (length-pop_back h' hs)

  -- The removal where the last block is empty but for its spin_workers, and where it is not.
  pub remove_after_block :
      (handle : ℕ) (hs : List ℕ) (cs : List Callback)
      → 2 ≤ m
      → IsLayout m spin 0 hs cs
      → handle ≢ spin
      → index_of handle hs < length hs
      → ends_with spin hs ≡ true
      → IsLayout m spin 0
          (move_back (index_of handle hs) (pop_back hs))
          (move_back (index_of handle hs) (pop_back cs))
  remove_after_block handle [] cs g w a h e = absurd (omega (arith, h))
  remove_after_block handle (x ∷ []) cs g w a h e =
      let at_front : index_of handle (x ∷ []) ≡ 0 = omega (arith, h) in
      absurd (index_of-slot handle (x ∷ []) cs w a h (rw at_front (zero-mod m)))
  remove_after_block handle (x ∷ y ∷ hs) cs g w a h e =
      let (l, c, b, d, s) = back-IsLayout 0 x (y ∷ hs) cs w in
      let last : l ≡ spin = ground (arith, b, e) in
      let start : suc (length hs) % m ≡ 0 = elim s [
        | inl q ↦ subst (λ j. j % m ≡ 0) (omega arith) q.0
        | inr q ↦ absurd (q.1 last)
      ] in
      move_back-IsLayout (index_of handle (x ∷ y ∷ hs)) (length hs) (pop_back (x ∷ y ∷ hs))
        (pop_back cs) (pop_back-IsLayout 0 (x ∷ y ∷ hs) cs w) (length-pop_back x (y ∷ hs))
        (index_of-slot handle (x ∷ y ∷ hs) cs w a h) (next_slot m (length hs) g start)

  pub remove_in_block :
      (handle : ℕ) (hs : List ℕ) (cs : List Callback)
      → IsLayout m spin 0 hs cs
      → handle ≢ spin
      → index_of handle hs < length hs
      → ends_with spin hs ≡ false
      → IsLayout m spin 0 (move_back (index_of handle hs) hs) (move_back (index_of handle hs) cs)
  remove_in_block handle [] cs w a h e = absurd (omega (arith, h))
  remove_in_block handle (x ∷ hs) cs w a h e =
      let (l, c, b, d, s) = back-IsLayout 0 x hs cs w in
      let last : l ≢ spin = ground (arith, b, e) in
      let start : length hs % m ≢ 0 = elim s [
        | inl q ↦ absurd (last q.1)
        | inr q ↦ subst (λ j. j % m ≢ 0) (omega arith) q.0
      ] in
      move_back-IsLayout (index_of handle (x ∷ hs)) (length hs) (x ∷ hs) cs w refl
        (index_of-slot handle (x ∷ hs) cs w a h) start
