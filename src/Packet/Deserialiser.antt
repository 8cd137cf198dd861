-- ===== src/Packet/Deserialiser.antt =====
-- PacketDeserialiser of src/packet.cpp. `m` is 2 ^ w for a size_t of w bits: sums of sizes wrap. The
-- memory is the packet alone, and a read beyond its end is a fault.
use directplay_lite.Common.{
  ℕ, zero, suc, ◌+◌, ◌-◌, ◌*◌, ◌/◌, ◌%◌, List, [], ◌∷◌, ◌++◌, none, some, Bool, true, false, ltb,
  ◌==◌, if◌then◌else◌, length, take, drop, get_elem?,
}
use directplay_lite.Packet.Bytes.{le_value, wide_chars}
use directplay_lite.Packet.Serialiser.{
  field_type_null, field_type_dword, field_type_data, field_type_wstring, field_type_guid,
}

pub data Error : Type 0 where
  incomplete malformed missing_field type_mismatch : Error

-- `err` is a C++ exception. `fault` is a read outside the packet, and `stuck` says that the loop
-- was cut off: neither is a result that the code means to have.
pub data Result {ℓ} (A : Type ℓ) : Type ℓ where
  ok : A → Result A
  err : Error → Result A
  fault : Result A
  stuck : Result A

infixl 5 ◌>>=◌ ◌>>◌
abbrev pub ◌>>=◌ {ℓ κ} : {A : Type ℓ} {B : Type κ} → Result A → (A → Result B) → Result B
ok a >>= f = f a
err e >>= f = err e
fault >>= f = fault
stuck >>= f = stuck

abbrev pub ◌>>◌ {ℓ} : {B : Type ℓ} → Result (Unit {0}) → Result B → Result B
r >> k = r >>= λ _. k

-- `if(!test) throw e`.
abbrev pub require : Bool → Error → Result (Unit {0})
require true e = ok tt
require false e = err e

-- What a `const TLVChunk*` points at; `value` is the memory from the value on to the packet's end.
pub record Chunk : Type 0 where
  pub type : ℕ
  pub value_length : ℕ
  pub value : List ℕ

unfoldable pub read_chunk : List ℕ → Result Chunk
read_chunk at =
    if ltb (length at) 8
    then fault
    else ok (record {
      type = le_value (take 4 at);
      value_length = le_value (take 4 (drop 4 at));
      value = drop 8 at;
    })

pub record Deserialiser : Type 0 where
  pub header : Chunk
  pub fields : List Chunk

-- The `while(value_remain > 0)` loop.
unfoldable pub scan : ℕ → ℕ → List ℕ → ℕ → List Chunk → Result (List Chunk)
scan m zero at value_remain fields = stuck
scan m (suc fuel) at value_remain fields = elim (value_remain == 0) [
  | true ↦ ok fields
  | false ↦ elim (ltb value_remain 8) [
    | true ↦ err malformed
    | false ↦ elim (read_chunk at) [
      | ok field ↦
          let size = (8 + field.value_length) % m in
          let rest = scan m fuel (drop size at) (value_remain - size) (fields ++ field ∷ []) in
          if ltb value_remain size then err malformed else rest
      | err e ↦ err e
      | fault ↦ fault
      | stuck ↦ stuck
    ]
  ]
]

-- PacketDeserialiser(serialised_packet, packet_size), with `fuel` rounds of the loop at most.
unfoldable pub deserialise_within : ℕ → ℕ → List ℕ → Result Deserialiser
deserialise_within fuel m packet =
    let packet_size = length packet in
    if ltb packet_size 8 then err incomplete else do
      header ← read_chunk packet
      if ltb packet_size ((8 + header.value_length) % m) then err incomplete else do
        fields ← scan m fuel header.value header.value_length []
        ok (record { header = header; fields = fields })

unfoldable pub deserialise : ℕ → List ℕ → Result Deserialiser
unfolding deserialise_within
deserialise m packet = deserialise_within (length packet + 1) m packet

abbrev pub packet_type : Deserialiser → ℕ
packet_type pd = pd.header.type

abbrev pub num_fields : Deserialiser → ℕ
num_fields pd = length pd.fields

-- `fields[index]`, after the check that it is there.
unfoldable pub field_at : Deserialiser → ℕ → Result Chunk
field_at pd index = elim (get_elem? pd.fields index) [ none ↦ err missing_field | some c ↦ ok c ]

-- The first `n` bytes at a value pointer.
unfoldable pub read_value : ℕ → Chunk → Result (List ℕ)
read_value n c = if ltb (length c.value) n then fault else ok (take n c.value)

unfoldable pub is_null : Deserialiser → ℕ → Result Bool
unfolding field_at
is_null pd index = do field ← field_at pd index; ok (field.type == field_type_null)

unfoldable pub get_dword : Deserialiser → ℕ → Result ℕ
unfolding field_at read_value
get_dword pd index = do
  field ← field_at pd index
  require (field.type == field_type_dword) type_mismatch
  require (field.value_length == 4) malformed
  bytes ← read_value 4 field
  ok (le_value bytes)

-- The bytes that the returned pointer and size delimit.
unfoldable pub get_data : Deserialiser → ℕ → Result (List ℕ)
unfolding field_at read_value
get_data pd index = do
  field ← field_at pd index
  require (field.type == field_type_data) type_mismatch
  read_value field.value_length field

unfoldable pub get_wstring : Deserialiser → ℕ → Result (List ℕ)
unfolding field_at read_value
get_wstring pd index = do
  field ← field_at pd index
  require (field.type == field_type_wstring) type_mismatch
  require (field.value_length % 2 == 0) malformed
  bytes ← read_value (field.value_length / 2 * 2) field
  ok (wide_chars bytes)

unfoldable pub get_guid : Deserialiser → ℕ → Result (List ℕ)
unfolding field_at read_value
get_guid pd index = do
  field ← field_at pd index
  require (field.type == field_type_guid) type_mismatch
  require (field.value_length == 16) malformed
  read_value 16 field
