-- ===== src/Address/Layout.antt =====
-- The order of an address's components: src/DirectPlay8Address.cpp.
use directplay_lite.Common.{
  ℕ, ◌≡◌, inl, inr, refl, sym, ◌∙◌, subst, true, false, List, [], ◌∷◌, ◌++◌, map, Option, some,
  none, arith, Bool-cases, Option-cases,
}
use directplay_lite.Address.Component.{
  Component, string_w, dword, guid, name, clone, new_string, DataType,
}
use directplay_lite.Address.Object.{
  Address, key_provider, same_string, find_component, make_component, replace_component,
  put_component, add_component, new_address, replace_components, duplicate, set_equal, clear,
  set_user_data,
}
use directplay_lite.Address.Lookup.{same_string→≡, find-replace, find-append, make_component-name}

abbrev pub IsDistinct : List Component → Type 0
IsDistinct [] = Unit
IsDistinct (c ∷ cs) = (find_component (name c) cs ≡ none) × IsDistinct cs

abbrev pub IsProviderFirst : List Component → Type 0
IsProviderFirst [] = Unit
IsProviderFirst (c ∷ cs) = find_component key_provider cs ≡ none

-- No two components share a name, and no component but the first is the provider's.
abbrev pub IsWf : List Component → Type 0
IsWf cs = IsDistinct cs × IsProviderFirst cs

same_string-false : (a b : List ℕ) → same_string a b ≡ false → same_string b a ≡ false
same_string-false a b e = elim (Bool-cases (same_string b a)) [
  | inl p ↦
      subst (λ k. same_string b k ≡ false) (same_string→≡ b a p)
        (subst (λ k. same_string k b ≡ false) (sym (same_string→≡ b a p)) e)
  | inr p ↦ p
]

-- One step of a look-up, at a component of another name.
find-skip :
    (m : List ℕ) (c : Component) (cs : List Component)
    → same_string (name c) m ≡ false
    → find_component m (c ∷ cs) ≡ find_component m cs
unfolding find_component
find-skip m c cs e = rw e

find-hit :
    (m : List ℕ) (c : Component) (cs : List Component)
    → same_string (name c) m ≡ true
    → find_component m (c ∷ cs) ≡ some c
unfolding find_component
find-hit m c cs e = rw e

replace_component-IsDistinct :
    (n : List ℕ) (new : Component) (cs : List Component)
    → name new ≡ n
    → (old : Component) → find_component n cs ≡ some old
    → IsDistinct cs
    → IsDistinct (replace_component n new cs)
unfolding replace_component
replace_component-IsDistinct n new [] e old h d = tt
replace_component-IsDistinct n new (c ∷ cs) e old h d = elim (Bool-cases (same_string (name c) n)) [
  | inl p ↦
      let same : name c ≡ name new = same_string→≡ (name c) n p ∙ sym e in
      rw (p) (subst (λ k. find_component k cs ≡ none) same d.0, d.1)
  | inr p ↦
      let found : find_component n cs ≡ some old = sym (find-skip n c cs p) ∙ h in
      let apart = same_string-false (name c) n p in
      let missing = find-replace (name c) n new cs e old found in
      rw (p) (missing ∙ (rw apart d.0), replace_component-IsDistinct n new cs e old found d.1)
]

append-IsDistinct :
    (new : Component) (cs : List Component)
    → find_component (name new) cs ≡ none
    → IsDistinct cs
    → IsDistinct (cs ++ new ∷ [])
unfolding find_component
append-IsDistinct new [] h d = (refl, tt)
append-IsDistinct new (c ∷ cs) h d = elim (Bool-cases (same_string (name c) (name new))) [
  | inl p ↦ absurd (ground (arith, h, p))
  | inr p ↦
      let missing : find_component (name new) cs ≡ none = sym (find-skip (name new) c cs p) ∙ h in
      let apart = same_string-false (name c) (name new) p in
      (
        find-append (name c) (name new) new cs refl missing ∙ (rw apart d.0),
        append-IsDistinct new cs missing d.1,
      )
]

replace_component-IsProviderFirst :
    (n : List ℕ) (new : Component) (cs : List Component)
    → name new ≡ n
    → (old : Component) → find_component n cs ≡ some old
    → IsProviderFirst cs
    → IsProviderFirst (replace_component n new cs)
unfolding replace_component
replace_component-IsProviderFirst n new [] e old h d = tt
replace_component-IsProviderFirst n new (c ∷ cs) e old h d =
    elim (Bool-cases (same_string (name c) n)) [
      | inl p ↦ rw (p) d
      | inr p ↦
          let found : find_component n cs ≡ some old = sym (find-skip n c cs p) ∙ h in
          let step = find-replace key_provider n new cs e old found in
          elim (Bool-cases (same_string n key_provider)) [
            | inl q ↦
                let here : find_component key_provider cs ≡ some old =
                  subst (λ k. find_component k cs ≡ some old) (same_string→≡ n key_provider q)
                    found in
                absurd (ground (arith, here, d))
            | inr q ↦ rw (p) (step ∙ (rw q d))
          ]
    ]

append-IsProviderFirst :
    (new : Component) (cs : List Component)
    → find_component (name new) cs ≡ none
    → same_string (name new) key_provider ≡ false
    → IsProviderFirst cs
    → IsProviderFirst (cs ++ new ∷ [])
unfolding find_component
append-IsProviderFirst new [] h e d = refl
append-IsProviderFirst new (c ∷ cs) h e d = elim (Bool-cases (same_string (name c) (name new))) [
  | inl p ↦ absurd (ground (arith, h, p))
  | inr p ↦
      let missing : find_component (name new) cs ≡ none = sym (find-skip (name new) c cs p) ∙ h in
      find-append key_provider (name new) new cs refl missing ∙ (rw e d)
]

put_component-IsWf :
    (new : Component) (cs : List Component) → IsWf cs → IsWf (put_component (name new) new cs)
unfolding put_component
put_component-IsWf new cs w = elim (Option-cases (find_component (name new) cs)) [
  | inl missing ↦ elim (Bool-cases (same_string (name new) key_provider)) [
    | inl p ↦
        rw (put_component, missing, p)
          (
            (missing, w.0),
            subst (λ k. find_component k cs ≡ none) (same_string→≡ (name new) key_provider p)
                missing,
          )
    | inr p ↦
        rw (put_component, missing, p)
          (append-IsDistinct new cs missing w.0, append-IsProviderFirst new cs missing p w.1)
  ]
  | inr (old, found) ↦
      rw (put_component, found)
        (
          replace_component-IsDistinct (name new) new cs refl old found w.0,
          replace_component-IsProviderFirst (name new) new cs refl old found w.1,
        )
]

add_component-IsWf :
    (to_wide : List ℕ → List ℕ) (n bytes : List ℕ) (t : DataType) (a : Address)
    → IsWf a.components
    → IsWf (add_component to_wide n bytes t a).1.components
unfolding add_component
add_component-IsWf to_wide n bytes t a w =
    elim (Option-cases (make_component to_wide n bytes t).1) [
      | inl p ↦ rw (add_component, p) w
      | inr (c, p) ↦
          let same = make_component-name to_wide n bytes t c p in
          rw (add_component, p)
            (subst (λ k. IsWf (put_component k c a.components)) same
              (put_component-IsWf c a.components w))
    ]

name-clone : (c : Component) → name (clone c) ≡ name c
unfolding clone new_string
name-clone (string_w n v) = refl
name-clone (dword n v) = refl
name-clone (guid n v) = refl

find-map-clone :
    (m : List ℕ) (cs : List Component)
    → find_component m cs ≡ none
    → find_component m (map clone cs) ≡ none
unfolding find_component
find-map-clone m [] h = refl
find-map-clone m (c ∷ cs) h = elim (Bool-cases (same_string (name c) m)) [
  | inl p ↦ absurd (ground (arith, h, p))
  | inr p ↦ rw (name-clone c, p) (find-map-clone m cs (sym (find-skip m c cs p) ∙ h))
]

map-clone-IsDistinct : (cs : List Component) → IsDistinct cs → IsDistinct (map clone cs)
map-clone-IsDistinct [] d = tt
map-clone-IsDistinct (c ∷ cs) d =
    (rw (name-clone c) (find-map-clone (name c) cs d.0), map-clone-IsDistinct cs d.1)

map-clone-IsWf : (cs : List Component) → IsWf cs → IsWf (map clone cs)
map-clone-IsWf [] w = (tt, tt)
map-clone-IsWf (c ∷ cs) w = (map-clone-IsDistinct (c ∷ cs) w.0, find-map-clone key_provider cs w.1)

-- The addresses that the program can hold, by the calls that made them.
pub data IsReachable (to_wide : List ℕ → List ℕ) : Address → Type 0 where
  created : (g : Option ℕ) → IsReachable to_wide (new_address g).0
  duplicated :
      (g : Option ℕ) (a : Address) → IsReachable to_wide a → IsReachable to_wide (duplicate g a).0
  equalled :
      (a b : Address)
      → IsReachable to_wide a
      → IsReachable to_wide b
      → IsReachable to_wide (set_equal a b).1
  cleared : (a : Address) → IsReachable to_wide a → IsReachable to_wide (clear a).1
  added :
      (n bytes : List ℕ) (t : DataType) (a : Address)
      → IsReachable to_wide a
      → IsReachable to_wide (add_component to_wide n bytes t a).1
  given :
      (d : Option (List ℕ)) (a : Address)
      → IsReachable to_wide a
      → IsReachable to_wide (set_user_data d a).1

-- Every address that calls of the interface make has components of pairwise different names, and none but the
-- first is named "provider".
pub IsReachable-IsWf :
    (to_wide : List ℕ → List ℕ) (a : Address) → IsReachable to_wide a → IsWf a.components
unfolding new_address duplicate set_equal clear set_user_data replace_components
IsReachable-IsWf to_wide _ (created g) = (tt, tt)
IsReachable-IsWf to_wide _ (duplicated g a h) =
    map-clone-IsWf a.components (IsReachable-IsWf to_wide a h)
IsReachable-IsWf to_wide _ (equalled a b h k) =
    map-clone-IsWf a.components (IsReachable-IsWf to_wide a h)
IsReachable-IsWf to_wide _ (cleared a h) = (tt, tt)
IsReachable-IsWf to_wide _ (added n bytes t a h) =
    add_component-IsWf to_wide n bytes t a (IsReachable-IsWf to_wide a h)
IsReachable-IsWf to_wide _ (given none a h) = IsReachable-IsWf to_wide a h
IsReachable-IsWf to_wide _ (given (some d) a h) = IsReachable-IsWf to_wide a h
