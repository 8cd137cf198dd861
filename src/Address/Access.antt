-- ===== src/Address/Access.antt =====
-- What the get methods answer after the set methods: src/DirectPlay8Address.cpp.
use directplay_lite.Common.{
  ℕ, zero, suc, ◌+◌, ◌*◌, ◌/◌, ◌^◌, ◌≤◌, ◌<◌, ◌≡◌, ◌↔◌, refl, sym, ap, ◌∙◌, true, false, List, [],
  ◌∷◌, ◌++◌, some, ◌==◌, leb, if◌then◌else◌, arith, length, take, All, length-append,
}
use directplay_lite.Packet.Bytes.{
  le_bytes, wide_bytes, wide_chars, length-le_bytes, length-wide_bytes, wide_chars-wide_bytes,
  le_value-le_bytes,
}
use directplay_lite.Address.Component.{
  s_ok, Component, string_w, dword, guid, new_string, wcsncpy, get_component, put, DataType,
  type_string, type_dword, type_guid, Buffer,
}
use directplay_lite.Address.Object.{
  Address, find_component, make_component, add_component, get_component_by_name,
}
use directplay_lite.Address.Lookup.{same_string_refl, find-add_component}

-- The number of bytes of a component's value.
abbrev pub value_size : Component → ℕ
value_size (string_w n v) = 2 * length v
value_size (dword n v) = 4
value_size (guid n v) = length v

-- A GUID is 16 bytes, and a string's size in bytes fits a DWORD.
abbrev pub IsSized : Component → Type 0
IsSized (string_w n v) = 2 * length v < 2 ^ 32
IsSized (dword n v) = Unit
IsSized (guid n v) = length v ≡ 16

pub length-wcsncpy : (n : ℕ) (v : List ℕ) → length (wcsncpy n v) ≡ n
unfolding wcsncpy
length-wcsncpy zero v = refl
length-wcsncpy (suc n) [] = ap suc (length-wcsncpy n [])
length-wcsncpy (suc n) (c ∷ v) = ap suc (length-wcsncpy n (if c == 0 then [] else v))

put-answer :
    (b : Buffer) (t : DataType) (n k : ℕ) (bytes : List ℕ)
    → n ≡ k
    → length bytes ≡ k
    → k < 2 ^ 32
    → (((put b t n bytes).result ≡ s_ok) ↔ ((b.present ≡ true) × (k ≤ b.size)))
      × ((put b t n bytes).size ≡ k)
      × (length (put b t n bytes).written
          ≡ (if leb k b.size then if b.present then k else 0 else 0))
put-answer b t n k bytes same e h = ground arith

-- A component of legal size reports its size in bytes whatever the buffer is. It answers S_OK exactly when
-- the pointer is not NULL and the buffer has room; it then writes that many bytes, and otherwise none.
pub get_component-answer :
    (c : Component) (b : Buffer)
    → IsSized c
    → (((get_component c b).result ≡ s_ok) ↔ ((b.present ≡ true) × (value_size c ≤ b.size)))
      × ((get_component c b).size ≡ value_size c)
      × (length (get_component c b).written
          ≡ (if leb (value_size c) b.size then if b.present then value_size c else 0 else 0))
unfolding get_component
get_component-answer (string_w n v) b h =
    let units = length-wide_bytes (wcsncpy (length v) v) in
    put-answer b type_string (length v * 2) (2 * length v) (wide_bytes (wcsncpy (length v) v))
      (omega arith) (omega (arith, length-wcsncpy (length v) v, units)) h
get_component-answer (dword n v) b h =
    put-answer b type_dword 4 4 (le_bytes 4 v) refl (length-le_bytes 4 v) (omega arith)
get_component-answer (guid n v) b h =
    put-answer b type_guid 16 (length v) v (sym h) refl (omega (arith, h))

-- GetComponentByName() straight after AddComponent() of the same name.
get-add :
    (to_wide : List ℕ → List ℕ) (n bytes : List ℕ) (t : DataType) (a : Address) (b : Buffer)
    (c : Component)
    → (make_component to_wide n bytes t).1 ≡ some c
    → get_component_by_name n b (add_component to_wide n bytes t a).1 ≡ some (get_component c b)
unfolding get_component_by_name
get-add to_wide n bytes t a b c e =
    let found = find-add_component to_wide n n bytes t a in
    let here : find_component n (add_component to_wide n bytes t a).1.components ≡ some c =
      found ∙ (rw (e, same_string_refl n)) in
    rw (get_component_by_name, here)

-- A DWORD that AddComponent() stores is read back, whatever the address held before, into any buffer with room.
pub get-add_dword :
    (to_wide : List ℕ → List ℕ) (n : List ℕ) (v size : ℕ) (a : Address)
    → v < 2 ^ 32
    → 4 ≤ size
    → get_component_by_name n
        (record { present = true; size = size })
        (add_component to_wide n (le_bytes 4 v) type_dword a).1
      ≡ some (record { result = s_ok; written = le_bytes 4 v; size = 4; type = type_dword })
unfolding make_component get_component
get-add_dword to_wide n v size a h k =
    let made : (make_component to_wide n (le_bytes 4 v) type_dword).1 ≡ some (dword n v) =
      rw (length-le_bytes 4 v, le_value-le_bytes v h) in
    get-add to_wide n (le_bytes 4 v) type_dword a (record { present = true; size = size })
      (dword n v) made
    ∙ (ground (arith, k))

-- The units of text: two bytes, and not NUL.
abbrev pub IsText : List ℕ → Type 0
IsText v = All (λ c. (1 ≤ c) × (c < 2 ^ 16)) v

-- wcsncpy() copies a text and the NUL behind it whole.
pub wcsncpy-text :
    (v : List ℕ) → IsText v → wcsncpy (length (v ++ 0 ∷ [])) (v ++ 0 ∷ []) ≡ v ++ 0 ∷ []
unfolding wcsncpy
wcsncpy-text [] h = refl
wcsncpy-text (c ∷ v) h =
    let nonzero : (c == 0) ≡ false = ground (arith, h.0) in
    let rest = wcsncpy-text v h.1 in rw (nonzero, rest)

pub take-length : (v : List ℕ) → take (length v) v ≡ v
take-length [] = refl
take-length (c ∷ v) = ap (λ k. c ∷ k) (take-length v)

pub IsText-units : (v : List ℕ) → IsText v → All (λ c. c < 2 ^ 16) (v ++ 0 ∷ [])
IsText-units [] h = (omega arith, tt)
IsText-units (c ∷ v) h = (h.0.1, IsText-units v h.1)

new_string-wide_bytes :
    (n v : List ℕ)
    → All (λ c. c < 2 ^ 16) v
    → new_string n (wide_chars (wide_bytes v)) (length (wide_bytes v)) ≡ string_w n v
unfolding new_string
new_string-wide_bytes n v h =
    let half : length (wide_bytes v) / 2 ≡ length v = omega (arith, length-wide_bytes v) in
    rw (wide_chars-wide_bytes v h, half, take-length v)

-- A text that AddComponent() stores with its NUL is read back byte for byte into any buffer with room.
pub get-add_text :
    (to_wide : List ℕ → List ℕ) (n v : List ℕ) (size : ℕ) (a : Address)
    → IsText v
    → 2 * length v + 2 ≤ size
    → size < 2 ^ 32
    → get_component_by_name n
        (record { present = true; size = size })
        (add_component to_wide n (wide_bytes (v ++ 0 ∷ [])) type_string a).1
      ≡ some (record {
        result = s_ok;
        written = wide_bytes (v ++ 0 ∷ []);
        size = 2 * length v + 2;
        type = type_string;
      })
unfolding make_component get_component
get-add_text to_wide n v size a h k bound =
    let made : (make_component to_wide n (wide_bytes (v ++ 0 ∷ [])) type_string).1
        ≡ some (string_w n (v ++ 0 ∷ [])) =
      rw (new_string-wide_bytes n (v ++ 0 ∷ []) (IsText-units v h)) in
    get-add to_wide n (wide_bytes (v ++ 0 ∷ [])) type_string a
      (record { present = true; size = size }) (string_w n (v ++ 0 ∷ [])) made
    ∙ (rw (wcsncpy-text v h) (ground (arith, length-append v (0 ∷ []))))
