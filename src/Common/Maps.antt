-- ===== src/Common/Maps.antt =====
-- std::map with a number as its key, and std::set of numbers: lists of entries in the order of iteration.
use Prim.Native.Nat.{ℕ}
use mathlib.Core.Path.{◌≡◌, refl, ◌∙◌}
use mathlib.Core.Logic.{◌≢◌, inl, inr}
use mathlib.Core.Bool.{Bool, true, false}
use mathlib.Core.List.{List, [], ◌∷◌}
use mathlib.Core.Option.{Option, none, some, map}
use native.Mathlib.Omega.{arith}
use directplay_lite.Common.Tests.{◌==◌, ltb, if◌then◌else◌, Bool-cases, Option-cases}

module _ {A : Type 0} where
  unfoldable pub find : ℕ → List (ℕ × A) → Option A
  find k [] = none
  find k (x ∷ xs) = let rest = find k xs in if k == x.0 then some x.1 else rest

  -- emplace() keeps an entry that is there.
  unfoldable pub emplace : ℕ → A → List (ℕ × A) → List (ℕ × A)
  emplace k v [] = (k, v) ∷ []
  emplace k v (x ∷ xs) =
      let rest = emplace k v xs in
      if k == x.0 then x ∷ xs else if ltb k x.0 then (k, v) ∷ x ∷ xs else x ∷ rest

  unfoldable pub erase : ℕ → List (ℕ × A) → List (ℕ × A)
  erase k [] = []
  erase k (x ∷ xs) = let rest = erase k xs in if k == x.0 then rest else x ∷ rest

  -- What a write through a pointer to the entry does.
  unfoldable pub update : ℕ → (A → A) → List (ℕ × A) → List (ℕ × A)
  update k f [] = []
  update k f (x ∷ xs) =
      let rest = update k f xs in if k == x.0 then (x.0, f x.1) ∷ rest else x ∷ rest

  unfoldable pub has_key : ℕ → List (ℕ × A) → Bool
  unfolding find
  has_key k xs = elim (find k xs) [ none ↦ false | some v ↦ true ]

  pub find-emplace_same :
      (k : ℕ) (v : A) (xs : List (ℕ × A)) → find k xs ≡ none → find k (emplace k v xs) ≡ some v
  unfolding find emplace
  find-emplace_same k v [] h = ground arith
  find-emplace_same k v (x ∷ xs) h =
      let ih = find-emplace_same k v xs in
      elim (Bool-cases (k == x.0)) [
        | inl p ↦ ground (arith, h, p)
        | inr p ↦ elim (Bool-cases (ltb k x.0)) [
          | inl q ↦ ground (arith, p, q)
          | inr q ↦ ground (arith, h, p, q, ih)
        ]
      ]

  pub find-emplace_other :
      (j k : ℕ) (v : A) (xs : List (ℕ × A)) → j ≢ k → find j (emplace k v xs) ≡ find j xs
  unfolding find emplace
  find-emplace_other j k v [] h = ground arith
  find-emplace_other j k v (x ∷ xs) h = let ih = find-emplace_other j k v xs h in ground (arith, ih)

  pub find-erase_same : (k : ℕ) (xs : List (ℕ × A)) → find k (erase k xs) ≡ none
  unfolding find erase
  find-erase_same k [] = refl
  find-erase_same k (x ∷ xs) = let ih = find-erase_same k xs in ground (arith, ih)

  pub find-erase_other : (j k : ℕ) (xs : List (ℕ × A)) → j ≢ k → find j (erase k xs) ≡ find j xs
  unfolding find erase
  find-erase_other j k [] h = refl
  find-erase_other j k (x ∷ xs) h = let ih = find-erase_other j k xs h in ground (arith, ih)

  pub find-update_same :
      (k : ℕ) (f : A → A) (xs : List (ℕ × A)) → find k (update k f xs) ≡ map f (find k xs)
  unfolding find update
  find-update_same k f [] = refl
  find-update_same k f (x ∷ xs) =
      let ih = find-update_same k f xs in
      elim (Bool-cases (k == x.0)) [ inl p ↦ rw (p, find, p) refl | inr p ↦ rw (p, find, p) ih ]

  pub find-update_other :
      (j k : ℕ) (f : A → A) (xs : List (ℕ × A)) → j ≢ k → find j (update k f xs) ≡ find j xs
  unfolding find update
  find-update_other j k f [] h = refl
  find-update_other j k f (x ∷ xs) h = let ih = find-update_other j k f xs h in ground (arith, ih)

  pub has_key-none : (k : ℕ) (xs : List (ℕ × A)) → has_key k xs ≡ false → find k xs ≡ none
  unfolding has_key
  has_key-none k xs h = elim (Option-cases (find k xs)) [
    | inl e ↦ e
    | inr (v, e) ↦ absurd (ground (arith, rw (has_key, e) at h))
  ]

  pub has_key-some : (k : ℕ) (v : A) (xs : List (ℕ × A)) → find k xs ≡ some v → has_key k xs ≡ true
  unfolding has_key
  has_key-some k v xs h = rw (has_key, h) refl

  pub find-update-none :
      (j k : ℕ) (f : A → A) (xs : List (ℕ × A)) → find j xs ≡ none → find j (update k f xs) ≡ none
  unfolding find update
  find-update-none j k f [] h = refl
  find-update-none j k f (x ∷ xs) h = elim (Bool-cases (j == x.0)) [
    | inl p ↦ absurd (ground (arith, rw (find, p) at h))
    | inr p ↦ let ih = find-update-none j k f xs (rw (find, p) at h) in ground (arith, p, ih)
  ]

  pub find-erase-none :
      (j k : ℕ) (xs : List (ℕ × A)) → find j xs ≡ none → find j (erase k xs) ≡ none
  unfolding find erase
  find-erase-none j k [] h = refl
  find-erase-none j k (x ∷ xs) h = elim (Bool-cases (j == x.0)) [
    | inl p ↦ absurd (ground (arith, rw (find, p) at h))
    | inr p ↦ let ih = find-erase-none j k xs (rw (find, p) at h) in ground (arith, p, ih)
  ]

  pub has_key-cases :
      (k : ℕ) (xs : List (ℕ × A)) → has_key k xs ≡ true → (v : A) × (find k xs ≡ some v)
  unfolding has_key
  has_key-cases k xs h = elim (Option-cases (find k xs)) [
    | inl e ↦ absurd (ground (arith, rw (has_key, e) at h))
    | inr (v, e) ↦ (v, e)
  ]

  pub has_key-differ :
      (j k : ℕ) (xs : List (ℕ × A)) → has_key j xs ≡ true → has_key k xs ≡ false → j ≢ k
  has_key-differ j k xs h n e = let same = rw e at h in ground (arith, same, n)

  pub has_key-emplace_same : (k : ℕ) (v : A) (xs : List (ℕ × A)) → has_key k (emplace k v xs) ≡ true
  unfolding has_key find emplace
  has_key-emplace_same k v [] = ground arith
  has_key-emplace_same k v (x ∷ xs) =
      let ih = has_key-emplace_same k v xs in
      elim (Bool-cases (k == x.0)) [
        | inl p ↦ ground (arith, p)
        | inr p ↦ elim (Bool-cases (ltb k x.0)) [
          | inl q ↦ ground (arith, p, q)
          | inr q ↦ ground (arith, p, q, ih)
        ]
      ]

  pub has_key-find :
      (j : ℕ) (xs ys : List (ℕ × A))
      → find j ys ≡ find j xs
      → has_key j xs ≡ true
      → has_key j ys ≡ true
  has_key-find j xs ys e h = let (v, at) = has_key-cases j xs h in has_key-some j v ys (e ∙ at)

  pub has_key-emplace :
      (j k : ℕ) (v : A) (xs : List (ℕ × A))
      → has_key j xs ≡ true
      → has_key j (emplace k v xs) ≡ true
  has_key-emplace j k v xs h = elim (Bool-cases (j == k)) [
    | inl p ↦ let same : j ≡ k = ground (arith, p) in rw same (has_key-emplace_same k v xs)
    | inr p ↦ has_key-find j xs (emplace k v xs) (find-emplace_other j k v xs (ground (arith, p))) h
  ]
