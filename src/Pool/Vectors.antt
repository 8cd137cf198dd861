-- ===== src/Pool/Vectors.antt =====
-- std::vector operations that src/HandleHandlingPool.cpp uses on its two vectors.
use directplay_lite.Common.{
  ℕ, zero, suc, ◌≡◌, refl, sym, subst, inl, inr, ap, Option-cases, List, [], ◌∷◌, ◌++◌, Option,
  some, none, arith, get_elem?,
}
use mathlib.Core.List.{Perm}
use mathlib.Core.List.Perm

module _ {ℓ} {A : Type ℓ} where
  -- Of an empty vector, which the source does not pop, it makes the empty list.
  abbrev pub pop_back : List A → List A
  pop_back [] = []
  pop_back (x ∷ []) = []
  pop_back (x ∷ y ∷ xs) = x ∷ pop_back (y ∷ xs)

  abbrev pub back : List A → Option A
  back [] = none
  back (x ∷ []) = some x
  back (x ∷ y ∷ xs) = back (y ∷ xs)

  -- v[i] = x
  abbrev pub set : ℕ → A → List A → List A
  set i x [] = []
  set zero x (y ∷ ys) = x ∷ ys
  set (suc i) x (y ∷ ys) = y ∷ set i x ys

  -- v[i] = v.back(); v.pop_back();
  abbrev pub move_back : ℕ → List A → List A
  move_back i xs = elim (back xs) [ none ↦ [] | some x ↦ pop_back (set i x xs) ]

  pub pop_back-append : (xs : List A) (x : A) → pop_back (xs ++ x ∷ []) ≡ xs
  pop_back-append [] x = refl
  pop_back-append (y ∷ []) x = refl
  pop_back-append (y ∷ z ∷ xs) x = ap (λ k. y ∷ k) (pop_back-append (z ∷ xs) x)

  pub back-append : (xs : List A) (x : A) → back (xs ++ x ∷ []) ≡ some x
  back-append [] x = refl
  back-append (y ∷ []) x = refl
  back-append (y ∷ z ∷ xs) x = back-append (z ∷ xs) x

  some_injective : (x y : A) → some x ≡ some y → x ≡ y
  some_injective x y e = ground (arith, e)

  -- A vector that is not empty is its prefix and its last element.
  pub pop_back-back : (xs : List A) (x : A) → back xs ≡ some x → xs ≡ pop_back xs ++ x ∷ []
  pop_back-back [] x e = absurd (ground (arith, e))
  pop_back-back (y ∷ []) x e = ap (λ k. k ∷ []) (some_injective y x e)
  pop_back-back (y ∷ z ∷ xs) x e = ap (λ k. y ∷ k) (pop_back-back (z ∷ xs) x e)

  pub back-Perm : (xs : List A) (x : A) → back xs ≡ some x → Perm (x ∷ pop_back xs) xs
  back-Perm [] x e = absurd (ground (arith, e))
  back-Perm (y ∷ []) x e = subst (λ k. Perm (x ∷ []) (k ∷ [])) (sym (some_injective y x e)) Perm.rfl
  back-Perm (y ∷ z ∷ xs) x e = Perm.trans (Perm.swap _ _ _) (Perm.cons y (back-Perm (z ∷ xs) x e))

  back-none : (x : A) (xs : List A) → ¬ (back (x ∷ xs) ≡ none)
  back-none x [] e = ground (arith, e)
  back-none x (y ∷ xs) e = back-none y xs e

  pop_back-set :
      (i : ℕ) (l y z : A) (xs : List A)
      → pop_back (y ∷ set i l (z ∷ xs)) ≡ y ∷ pop_back (set i l (z ∷ xs))
  pop_back-set zero l y z xs = refl
  pop_back-set (suc i) l y z xs = refl

  pub move_back_lem :
      (i : ℕ) (xs : List A) (l : A) → back xs ≡ some l → move_back i xs ≡ pop_back (set i l xs)
  move_back_lem i xs l e = rw (move_back, e)

  -- The element that the last one replaces is the only one that goes.
  pub move_back-Perm :
      (i : ℕ) (xs : List A) (x : A) → get_elem? xs i ≡ some x → Perm (x ∷ move_back i xs) xs
  move_back-Perm i [] x e = absurd (ground (arith, e))
  move_back-Perm zero (y ∷ []) x e =
      subst (λ k. Perm (x ∷ []) (k ∷ [])) (sym (some_injective y x e)) Perm.rfl
  move_back-Perm zero (y ∷ z ∷ xs) x e = elim (Option-cases (back (z ∷ xs))) [
    | inl p ↦ absurd (back-none z xs p)
    | inr (l, p) ↦
        let same = sym (some_injective y x e) in
        rw (move_back, p)
          (subst (λ k. Perm (x ∷ l ∷ pop_back (z ∷ xs)) (k ∷ z ∷ xs)) same
            (Perm.cons x (back-Perm (z ∷ xs) l p)))
  ]
  move_back-Perm (suc i) (y ∷ []) x e = absurd (ground (arith, e))
  move_back-Perm (suc i) (y ∷ z ∷ xs) x e = elim (Option-cases (back (z ∷ xs))) [
    | inl p ↦ absurd (back-none z xs p)
    | inr (l, p) ↦
        let shorter =
          subst (λ k. Perm (x ∷ k) (z ∷ xs)) (move_back_lem i (z ∷ xs) l p)
            (move_back-Perm i (z ∷ xs) x e) in
        rw (move_back, p, pop_back-set i l y z xs)
          (Perm.trans (Perm.swap _ _ _) (Perm.cons y shorter))
  ]
