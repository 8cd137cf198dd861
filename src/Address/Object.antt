-- ===== src/Address/Object.antt =====
-- The DirectPlay8Address object and its methods, src/DirectPlay8Address.cpp. Each component has one
-- owner, so the vector of pointers is a list of values. `to_wide` stands for MultiByteToWideChar() in the
-- ANSI code page: the wide string for some bytes, empty where the call returns 0.
use directplay_lite.Common.{
  ℕ, ◌+◌, ◌-◌, ◌*◌, ◌%◌, ◌^◌, Bool, true, false, ◌&&◌, List, [], ◌∷◌, ◌++◌, map, Option, some, none,
  ◌==◌, ltb, leb, if◌then◌else◌, length, get_elem?,
}
use directplay_lite.Packet.Bytes.{le_value, wide_chars}
use directplay_lite.Address.Component.{
  HResult, s_ok, does_not_exist, buffer_too_small, invalid_param, not_impl, generic, no_interface,
  DataType, type_string, type_string_ansi, type_dword, type_guid, type_other, Component, dword,
  guid, name, new_string, clone, Buffer, Answer, get_component,
}

pub record Address : Type 0 where
  pub components : List Component
  pub user_data : List ℕ
  pub local_refcount : ℕ

-- The DPNA_KEY_ names of src/include/dpaddr.h.
abbrev pub key_provider : List ℕ
key_provider = 112 ∷ 114 ∷ 111 ∷ 118 ∷ 105 ∷ 100 ∷ 101 ∷ 114 ∷ []

abbrev pub key_device : List ℕ
key_device = 100 ∷ 101 ∷ 118 ∷ 105 ∷ 99 ∷ 101 ∷ []

abbrev pub key_hostname : List ℕ
key_hostname = 104 ∷ 111 ∷ 115 ∷ 116 ∷ 110 ∷ 97 ∷ 109 ∷ 101 ∷ []

abbrev pub key_port : List ℕ
key_port = 112 ∷ 111 ∷ 114 ∷ 116 ∷ []

-- Equality of std::wstring.
unfoldable pub same_string : List ℕ → List ℕ → Bool
same_string [] [] = true
same_string [] (b ∷ bs) = false
same_string (a ∷ as') [] = false
same_string (a ∷ as') (b ∷ bs) = a == b && same_string as' bs

-- ++(*global_refcount) for a pointer that may be NULL; an unsigned int wraps.
abbrev pub add_global : Option ℕ → Option ℕ
add_global none = none
add_global (some n) = some ((n + 1) % 2 ^ 32)

abbrev pub sub_global : Option ℕ → Option ℕ
sub_global none = none
sub_global (some n) = some ((n + (2 ^ 32 - 1)) % 2 ^ 32)

-- AddRef(): the object, *global_refcount, and the result.
unfoldable pub add_ref : Option ℕ → Address → Address × Option ℕ × ℕ
add_ref global a =
    let count = (a.local_refcount + 1) % 2 ^ 32 in
    (record a { local_refcount = count }, add_global global, count)

-- Release(): the object, which is gone at count 0.
unfoldable pub release : Option ℕ → Address → Option Address × Option ℕ × ℕ
release global a =
    let count = (a.local_refcount + (2 ^ 32 - 1)) % 2 ^ 32 in
    (
      if count == 0 then none else some (record a { local_refcount = count }),
      sub_global global,
      count,
    )

-- DirectPlay8Address(global_refcount).
unfoldable pub new_address : Option ℕ → Address × Option ℕ
unfolding add_ref
new_address global =
    let (a, g, _) =
      add_ref global (record { components = []; user_data = []; local_refcount = 0 }) in
    (a, g)

unfoldable pub replace_components : List Component → Address → Address
unfolding clone
replace_components src a = record a { components = map clone src }

-- Duplicate(), by the copy constructor.
unfoldable pub duplicate : Option ℕ → Address → Address × Option ℕ
unfolding add_ref replace_components
duplicate global src =
    let fresh = record src { components = []; local_refcount = 0 } in
    let (a, g, _) = add_ref global (replace_components src.components fresh) in (a, g)

-- SetEqual(), where `src` is not the object itself.
unfoldable pub set_equal : Address → Address → HResult × Address
unfolding replace_components
set_equal src a = (s_ok, record (replace_components src.components a) { user_data = src.user_data })

unfoldable pub clear : Address → HResult × Address
clear a = (s_ok, record a { components = []; user_data = [] })

unfoldable pub get_num_components : Address → HResult × ℕ
get_num_components a = (s_ok, length a.components % 2 ^ 32)

-- `none` is DPNERR_DOESNOTEXIST, with nothing written.
unfoldable pub find_component : List ℕ → List Component → Option Component
unfolding same_string
find_component n [] = none
find_component n (c ∷ cs) = if same_string (name c) n then some c else find_component n cs

unfoldable pub get_component_by_name : List ℕ → Buffer → Address → Option Answer
unfolding find_component get_component
get_component_by_name n b a = elim (find_component n a.components) [
  | none ↦ none
  | some c ↦ some (get_component c b)
]

-- GetComponentByIndex(): the component's answer, the name that is written to pwszName (with its NUL), and
-- *pdwNameLen. `name_buffer` is the caller's buffer for the name, in units.
unfoldable pub get_component_by_index :
    ℕ → Buffer → Buffer → Address → Option (Answer × Option (List ℕ) × ℕ)
unfolding get_component
get_component_by_index i name_buffer b a = elim (get_elem? a.components i) [
  | none ↦ none
  | some c ↦
      let answer = get_component c b in
      let len = (length (name c) + 1) % 2 ^ 32 in
      if ltb (length (name c)) name_buffer.size && name_buffer.present
      then some (answer, some (name c ++ 0 ∷ []), len)
      else some (record answer { result = buffer_too_small }, none, len)
]

-- The component that AddComponent() makes of its arguments; `bytes` are the dwDataSize bytes at lpvData.
unfoldable pub make_component :
    (List ℕ → List ℕ) → List ℕ → List ℕ → DataType → HResult × Option Component
unfolding new_string
make_component to_wide n bytes type_string =
    (s_ok, some (new_string n (wide_chars bytes) (length bytes)))
make_component to_wide n bytes type_string_ansi =
    let wide = to_wide bytes in
    if length wide == 0
    then (invalid_param, none)
    else (s_ok, some (new_string n wide (length wide * 2)))
make_component to_wide n bytes type_dword =
    if length bytes == 4 then (s_ok, some (dword n (le_value bytes))) else (invalid_param, none)
make_component to_wide n bytes type_guid =
    if length bytes == 16 then (s_ok, some (guid n bytes)) else (invalid_param, none)
make_component to_wide n bytes (type_other t) = (not_impl, none)

-- `*existing_component = new_component`, where there is one of that name.
unfoldable pub replace_component : List ℕ → Component → List Component → List Component
unfolding same_string
replace_component n new [] = []
replace_component n new (c ∷ cs) =
    if same_string (name c) n then new ∷ cs else c ∷ replace_component n new cs

unfoldable pub put_component : List ℕ → Component → List Component → List Component
unfolding find_component replace_component
put_component n new cs = elim (find_component n cs) [
  | some old ↦ replace_component n new cs
  | none ↦ if same_string n key_provider then new ∷ cs else cs ++ new ∷ []
]

unfoldable pub add_component :
    (List ℕ → List ℕ) → List ℕ → List ℕ → DataType → Address → HResult × Address
unfolding make_component put_component
add_component to_wide n bytes t a =
    let (result, made) = make_component to_wide n bytes t in
    elim made [
      | none ↦ (result, a)
      | some c ↦ (result, record a { components = put_component n c a.components })
    ]

-- What GetSP() and GetDevice() make of GetComponentByName(): the HRESULT and, for S_OK, the GUID.
unfoldable pub guid_of : Option Answer → HResult × Option (List ℕ)
guid_of none = (does_not_exist, none)
guid_of (some x) = elim x.result [
  | s_ok ↦ elim x.type [ type_guid ↦ (s_ok, some x.written) | _ ↦ (generic, none) ]
  | other ↦ (other, none)
]

abbrev pub guid_buffer : Buffer
guid_buffer = record { present = true; size = 16 }

unfoldable pub get_sp : Address → HResult × Option (List ℕ)
unfolding guid_of get_component_by_name
get_sp a = guid_of (get_component_by_name key_provider guid_buffer a)

unfoldable pub get_device : Address → HResult × Option (List ℕ)
unfolding guid_of get_component_by_name
get_device a = guid_of (get_component_by_name key_device guid_buffer a)

unfoldable pub set_sp : (List ℕ → List ℕ) → List ℕ → Address → HResult × Address
unfolding add_component
set_sp to_wide g a = add_component to_wide key_provider g type_guid a

unfoldable pub set_device : (List ℕ → List ℕ) → List ℕ → Address → HResult × Address
unfolding add_component
set_device to_wide g a = add_component to_wide key_device g type_guid a

-- GetUserData(): the HRESULT, the bytes written, and *pdwBufferSize.
unfoldable pub get_user_data : Buffer → Address → HResult × List ℕ × ℕ
get_user_data b a =
    if length a.user_data == 0
    then (does_not_exist, [], b.size)
    else if b.present && leb (length a.user_data) b.size
    then (s_ok, a.user_data, b.size)
    else (buffer_too_small, [], length a.user_data % 2 ^ 32)

-- SetUserData(): `none` for a NULL pointer, else the dwDataSize bytes at it.
unfoldable pub set_user_data : Option (List ℕ) → Address → HResult × Address
set_user_data none a = (s_ok, record a { user_data = [] })
set_user_data (some bytes) a = (s_ok, record a { user_data = bytes })

pub data Iid : Type 0 where
  iid_unknown iid_address : Iid
  iid_other : ℕ → Iid

-- QueryInterface(): the HRESULT, and the object and count, which an AddRef() has changed on success.
unfoldable pub query_interface : Iid → Option ℕ → Address → HResult × Address × Option ℕ
unfolding add_ref
query_interface (iid_other i) global a = (no_interface, a, global)
query_interface i global a = let (a', g, _) = add_ref global a in (s_ok, a', g)
