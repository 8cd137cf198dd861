-- ===== src/Address/Lookup.antt =====
-- Which component a name finds after AddComponent(): src/DirectPlay8Address.cpp.
use directplay_lite.Common.{
  ℕ, ◌≡◌, inl, inr, refl, ap₂, subst, true, false, List, [], ◌∷◌, ◌++◌, some, none, ◌==◌,
  if◌then◌else◌, arith, ==_iff, Bool-cases, Option-cases,
}
use directplay_lite.Address.Component.{Component, name, DataType}
use directplay_lite.Address.Object.{
  Address, key_provider, same_string, find_component, make_component, replace_component,
  put_component, add_component,
}

pub same_string_refl : (a : List ℕ) → same_string a a ≡ true
unfolding same_string
same_string_refl [] = refl
same_string_refl (x ∷ xs) = ground (arith, same_string_refl xs)

pub same_string→≡ : (a b : List ℕ) → same_string a b ≡ true → a ≡ b
unfolding same_string
same_string→≡ [] [] e = refl
same_string→≡ [] (y ∷ b) e = absurd (ground arith)
same_string→≡ (x ∷ a) [] e = absurd (ground arith)
same_string→≡ (x ∷ a) (y ∷ b) e = elim (Bool-cases (x == y)) [
  | inl p ↦ elim (Bool-cases (same_string a b)) [
    | inl q ↦ ap₂ (λ u v. u ∷ v) ((==_iff x y).0 p) (same_string→≡ a b q)
    | inr q ↦ absurd (ground (arith, q, p, e))
  ]
  | inr p ↦ absurd (ground (arith, p, e))
]

pub find-replace :
    (m n : List ℕ) (new : Component) (cs : List Component)
    → name new ≡ n
    → (old : Component) → find_component n cs ≡ some old
    → find_component m (replace_component n new cs)
      ≡ (if same_string n m then some new else find_component m cs)
unfolding find_component replace_component
find-replace m n new [] e old h = absurd (ground (arith, h))
find-replace m n new (c ∷ cs) e old h = elim (Bool-cases (same_string (name c) n)) [
  | inl p ↦
      let same : name c ≡ n = same_string→≡ (name c) n p in
      elim (Bool-cases (same_string n m)) [ inl q ↦ rw (p, e, q) | inr q ↦ rw (p, e, same, q) ]
  | inr p ↦ elim (Bool-cases (same_string n m)) [
    | inl q ↦
        let apart : same_string (name c) m ≡ false =
          subst (λ k. same_string (name c) k ≡ false) (same_string→≡ n m q) p in
        let found : find_component n cs ≡ some old = ground (arith, h, p) in
        let rest = find-replace m n new cs e old found in rw (p, apart, rest)
    | inr q ↦
        let found : find_component n cs ≡ some old = ground (arith, h, p) in
        let rest = find-replace m n new cs e old found in rw (p, rest, q)
  ]
]

pub find-append :
    (m n : List ℕ) (new : Component) (cs : List Component)
    → name new ≡ n
    → find_component n cs ≡ none
    → find_component m (cs ++ new ∷ [])
      ≡ (if same_string n m then some new else find_component m cs)
unfolding find_component
find-append m n new [] e h = rw e
find-append m n new (c ∷ cs) e h = elim (Bool-cases (same_string (name c) n)) [
  | inl p ↦ absurd (ground (arith, h, p))
  | inr p ↦
      let missing : find_component n cs ≡ none = ground (arith, h, p) in
      let rest = find-append m n new cs e missing in
      elim (Bool-cases (same_string n m)) [
        | inl q ↦
            let apart : same_string (name c) m ≡ false =
              subst (λ k. same_string (name c) k ≡ false) (same_string→≡ n m q) p in
            rw (apart, rest)
        | inr q ↦ rw (rest, q)
      ]
]

pub find-cons :
    (m n : List ℕ) (new : Component) (cs : List Component)
    → name new ≡ n
    → find_component m (new ∷ cs) ≡ (if same_string n m then some new else find_component m cs)
unfolding find_component
find-cons m n new cs e = rw e

-- The vector's new content answers for the new name with the new component, and for others as before.
pub find-put :
    (m n : List ℕ) (new : Component) (cs : List Component)
    → name new ≡ n
    → find_component m (put_component n new cs)
      ≡ (if same_string n m then some new else find_component m cs)
unfolding put_component
find-put m n new cs e = elim (Option-cases (find_component n cs)) [
  | inl missing ↦ elim (Bool-cases (same_string n key_provider)) [
    | inl p ↦ let rest = find-cons m n new cs e in rw (put_component, missing, p, rest)
    | inr p ↦ let rest = find-append m n new cs e missing in rw (put_component, missing, p, rest)
  ]
  | inr (old, found) ↦
      let rest = find-replace m n new cs e old found in rw (put_component, found, rest)
]

-- The component is made under the name that was given.
pub make_component-name :
    (to_wide : List ℕ → List ℕ) (n bytes : List ℕ) (t : DataType) (c : Component)
    → (make_component to_wide n bytes t).1 ≡ some c
    → name c ≡ n
unfolding make_component
make_component-name to_wide n bytes t c h = ground (arith, h)

-- After AddComponent(), a look-up of any name finds the component made of the arguments, if one was made and
-- has that name, and else what it found before.
pub find-add_component :
    (to_wide : List ℕ → List ℕ) (m n bytes : List ℕ) (t : DataType) (a : Address)
    → find_component m (add_component to_wide n bytes t a).1.components
      ≡ elim (make_component to_wide n bytes t).1 [
        | none ↦ find_component m a.components
        | some c ↦ if same_string n m then some c else find_component m a.components
      ]
unfolding add_component
find-add_component to_wide m n bytes t a =
    elim (Option-cases (make_component to_wide n bytes t).1) [
      | inl p ↦ rw (add_component, p)
      | inr (c, p) ↦ rw (
        add_component,
        p,
        find-put m n c a.components (make_component-name to_wide n bytes t c p),
      )
    ]
