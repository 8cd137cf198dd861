-- ===== src/Address/Copies.antt =====
-- Copies and references of an address, and its user data: src/DirectPlay8Address.cpp.
use directplay_lite.Common.{
  ℕ, suc, ◌-◌, ◌/◌, ◌^◌, ◌≤◌, ◌<◌, ◌≡◌, ◌↔◌, inl, inr, refl, true, false, List, [], ◌∷◌, map,
  Option, some, none, arith, Bool-cases, length, take,
}
use directplay_lite.Address.Component.{
  s_ok, buffer_too_small, Component, string_w, dword, guid, name, clone, new_string,
}
use directplay_lite.Address.Object.{
  Address, same_string, find_component, duplicate, set_equal, replace_components, add_ref, release,
  get_user_data, set_user_data,
}

-- A component without the second half of its text.
abbrev pub first_half : Component → Component
first_half (string_w n v) = string_w n (take (length v / 2) v)
first_half (dword n v) = dword n v
first_half (guid n v) = guid n v

clone_lem : (c : Component) → clone c ≡ first_half c
unfolding clone new_string
clone_lem (string_w n v) = refl
clone_lem (dword n v) = refl
clone_lem (guid n v) = refl

name-first_half : (c : Component) → name (first_half c) ≡ name c
name-first_half (string_w n v) = refl
name-first_half (dword n v) = refl
name-first_half (guid n v) = refl

abbrev pub map_option : (Component → Component) → Option Component → Option Component
map_option f none = none
map_option f (some c) = some (f c)

find-map-clone :
    (m : List ℕ) (cs : List Component)
    → find_component m (map clone cs) ≡ map_option first_half (find_component m cs)
unfolding find_component
find-map-clone m [] = refl
find-map-clone m (c ∷ cs) = elim (Bool-cases (same_string (name c) m)) [
  | inl p ↦ rw (clone_lem c, name-first_half c, p)
  | inr p ↦ let rest = find-map-clone m cs in rw (clone_lem c, name-first_half c, p, rest)
]

-- A look-up in an address that Duplicate() or SetEqual() made finds what the same look-up finds in the
-- original, a text cut to its first half; a DWORD or a GUID is the same.
pub find-duplicate :
    (g : Option ℕ) (m : List ℕ) (a b : Address)
    → (find_component m (duplicate g a).0.components
        ≡ map_option first_half (find_component m a.components))
      × (find_component m (set_equal a b).1.components
          ≡ map_option first_half (find_component m a.components))
unfolding duplicate set_equal replace_components add_ref
find-duplicate g m a b = (find-map-clone m a.components, find-map-clone m a.components)

-- Release() after AddRef() leaves the object and the global count as they were, for an object that is
-- alive, and so counted globally, and counts that fit 32 bits. Release() alone destroys the object exactly at count 1, and takes one from the global count.
pub release-add_ref :
    (n : ℕ) (a : Address)
    → 1 ≤ a.local_refcount
    → suc a.local_refcount < 2 ^ 32
    → 1 ≤ n
    → n < 2 ^ 32
    → (let (a', g, _) = add_ref (some n) a in release g a' ≡ (some a, some n, a.local_refcount))
      × (((release (some n) a).0 ≡ none) ↔ (a.local_refcount ≡ 1))
      × ((release (some n) a).1 ≡ some (n - 1))
unfolding add_ref release
release-add_ref n a h k l b = ground arith

-- GetUserData() with no buffer reports a size; with a buffer of that size it then gives the bytes of
-- SetUserData(). The bytes are at least one, and their count fits a DWORD.
pub get_user_data-set_user_data :
    (d : List ℕ) (size : ℕ) (a : Address)
    → 1 ≤ length d
    → length d < 2 ^ 32
    → let a' = (set_user_data (some d) a).1 in
      let (result, written, reported) =
        get_user_data (record { present = false; size = size }) a' in
      (result ≡ buffer_too_small)
      × (written ≡ [])
      × (get_user_data (record { present = true; size = reported }) a' ≡ (s_ok, d, length d))
unfolding get_user_data set_user_data
get_user_data-set_user_data d size a h k = ground arith
