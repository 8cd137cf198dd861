-- ===== src/Address/Component.antt =====
-- The Component classes of src/DirectPlay8Address.cpp. A wide string is its list of wchar_t units; the bytes
-- that a method writes to a caller's buffer are a result.
use directplay_lite.Common.{
  ℕ, zero, suc, ◌*◌, ◌/◌, ◌%◌, ◌^◌, Bool, ◌&&◌, List, [], ◌∷◌, ◌==◌, leb, if◌then◌else◌, length,
  take,
}
use directplay_lite.Packet.Bytes.{le_bytes, wide_bytes}

-- The HRESULTs that the methods return.
pub data HResult : Type 0 where
  s_ok does_not_exist buffer_too_small invalid_param not_impl generic no_interface : HResult

pub data DataType : Type 0 where
  type_string type_string_ansi type_dword type_guid : DataType
  type_other : ℕ → DataType

-- StringComponentW, DWORDComponent and GUIDComponent, each with its name.
pub data Component : Type 0 where
  string_w : List ℕ → List ℕ → Component
  dword : List ℕ → ℕ → Component
  guid : List ℕ → List ℕ → Component

abbrev pub name : Component → List ℕ
name (string_w n v) = n
name (dword n v) = n
name (guid n v) = n

abbrev pub data_type : Component → DataType
data_type (string_w n v) = type_string
data_type (dword n v) = type_dword
data_type (guid n v) = type_guid

-- StringComponentW(name, lpvData, dwDataSize): `size` counts bytes, and `chars` is what stands at lpvData.
unfoldable pub new_string : List ℕ → List ℕ → ℕ → Component
new_string n chars size = string_w n (take (size / 2) chars)

-- The clone() methods.
unfoldable pub clone : Component → Component
unfolding new_string
clone (string_w n v) = new_string n v (length v)
clone (dword n v) = dword n v
clone (guid n v) = guid n v

-- wcsncpy(dest, src, n) writes n units: those before the first NUL of src, then NULs.
unfoldable pub wcsncpy : ℕ → List ℕ → List ℕ
wcsncpy zero src = []
wcsncpy (suc n) [] = 0 ∷ wcsncpy n []
wcsncpy (suc n) (c ∷ src) = let rest = if c == 0 then [] else src in c ∷ wcsncpy n rest

-- A caller's buffer: whether the pointer is not NULL, and the size that *pdwBufferSize says.
pub record Buffer : Type 0 where
  pub present : Bool
  pub size : ℕ

-- What a get method leaves behind: its HRESULT, the bytes that it wrote, *pdwBufferSize and *pdwDataType.
pub record Answer : Type 0 where
  pub result : HResult
  pub written : List ℕ
  pub size : ℕ
  pub type : DataType

-- The three get_component() methods test the buffer against the size of the value, and write.
abbrev pub put : Buffer → DataType → ℕ → List ℕ → Answer
put b t needed bytes =
    if leb needed b.size && b.present
    then record { result = s_ok; written = bytes; size = needed % 2 ^ 32; type = t }
    else record { result = buffer_too_small; written = []; size = needed % 2 ^ 32; type = t }

unfoldable pub get_component : Component → Buffer → Answer
unfolding wcsncpy
get_component (string_w n v) b =
    put b type_string (length v * 2) (wide_bytes (wcsncpy (length v) v))
get_component (dword n v) b = put b type_dword 4 (le_bytes 4 v)
get_component (guid n v) b = put b type_guid 16 v
