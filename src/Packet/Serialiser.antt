-- ===== src/Packet/Serialiser.antt =====
-- PacketSerialiser of src/packet.cpp. Its state is the byte vector `sbuf`.
use directplay_lite.Common.{ℕ, ◌+◌, ◌*◌, ◌%◌, ◌^◌, List, [], ◌∷◌, ◌++◌, length, take, drop}
use directplay_lite.Packet.Bytes.{le_bytes, le_value, wide_bytes}

abbrev pub field_type_null : ℕ
field_type_null = 0

abbrev pub field_type_dword : ℕ
field_type_dword = 1

abbrev pub field_type_data : ℕ
field_type_data = 2

abbrev pub field_type_wstring : ℕ
field_type_wstring = 3

abbrev pub field_type_guid : ℕ
field_type_guid = 4

-- The bytes of `TLVChunk { type, value_length }`, whose fields are uint32_t.
unfoldable pub chunk_header : ℕ → ℕ → List ℕ
chunk_header type value_length = le_bytes 4 (type % 2 ^ 32) ++ le_bytes 4 (value_length % 2 ^ 32)

-- `((TLVChunk*)(sbuf.data()))->value_length += n`: a read and a write of the bytes 4 to 7.
unfoldable pub add_value_length : ℕ → List ℕ → List ℕ
add_value_length n sbuf =
    let old = le_value (take 4 (drop 4 sbuf)) in
    take 4 sbuf ++ (le_bytes 4 ((old + n) % 2 ^ 32) ++ drop 8 sbuf)

-- PacketSerialiser(type).
unfoldable pub serialiser : ℕ → List ℕ
serialiser type = chunk_header type 0

unfoldable pub append_null : List ℕ → List ℕ
append_null sbuf = add_value_length 8 (sbuf ++ chunk_header field_type_null 0)

unfoldable pub append_dword : ℕ → List ℕ → List ℕ
append_dword value sbuf =
    add_value_length (8 + 4) ((sbuf ++ chunk_header field_type_dword 4) ++ le_bytes 4 value)

-- append_data(data, size): `bytes` are the `size` bytes at `data`.
unfoldable pub append_data : List ℕ → List ℕ → List ℕ
append_data bytes sbuf =
    add_value_length (8 + length bytes)
      ((sbuf ++ chunk_header field_type_data (length bytes)) ++ bytes)

unfoldable pub append_wstring : List ℕ → List ℕ → List ℕ
append_wstring string sbuf =
    let string_bytes = length string * 2 in
    add_value_length (8 + string_bytes)
      ((sbuf ++ chunk_header field_type_wstring string_bytes) ++ wide_bytes string)

-- A GUID is given by the sixteen bytes that it has in memory.
unfoldable pub append_guid : List ℕ → List ℕ → List ℕ
append_guid guid sbuf =
    add_value_length (8 + 16) ((sbuf ++ chunk_header field_type_guid 16) ++ guid)

-- The calls that a client makes on a serialiser, in order.
pub data Field : Type 0 where
  null : Field
  dword : ℕ → Field
  blob wstring guid : List ℕ → Field

unfoldable pub append : Field → List ℕ → List ℕ
unfolding append_null append_dword append_data append_wstring append_guid
append null sbuf = append_null sbuf
append (dword v) sbuf = append_dword v sbuf
append (blob bs) sbuf = append_data bs sbuf
append (wstring cs) sbuf = append_wstring cs sbuf
append (guid bs) sbuf = append_guid bs sbuf

unfoldable pub append_all : List Field → List ℕ → List ℕ
append_all [] sbuf = sbuf
append_all (f ∷ fs) sbuf = append_all fs (append f sbuf)
