-- ===== src/Packet/Wire.antt =====
-- The wire format of src/packet.cpp, stated on its own, and PacketSerialiser against it.
use directplay_lite.Common.{
  ℕ, ◌+◌, ◌*◌, ◌%◌, ◌^◌, ◌<◌, ◌≡◌, sym, ap, ◌∙◌, List, [], ◌∷◌, ◌++◌, arith, length, All,
  length-append,
}
use mathlib.Core.List.{append_assoc, append-nil}
use directplay_lite.Packet.Bytes.{
  le_bytes, le_value, wide_bytes, length-le_bytes, le_value-le_bytes, length-wide_bytes,
}
use directplay_lite.Packet.Serialiser.{
  chunk_header, add_value_length, serialiser, Field, null, dword, blob, wstring, guid, append,
  append_all, append_null, append_dword, append_data, append_wstring, append_guid, field_type_null,
  field_type_dword, field_type_data, field_type_wstring, field_type_guid,
}

abbrev pub field_type : Field → ℕ
field_type null = field_type_null
field_type (dword v) = field_type_dword
field_type (blob bs) = field_type_data
field_type (wstring cs) = field_type_wstring
field_type (guid bs) = field_type_guid

abbrev pub payload : Field → List ℕ
payload null = []
payload (dword v) = le_bytes 4 v
payload (blob bs) = bs
payload (wstring cs) = wide_bytes cs
payload (guid bs) = bs

-- A DWORD, wchar_t units, and a GUID of sixteen bytes.
abbrev pub IsField : Field → Type 0
IsField null = Unit {0}
IsField (dword v) = v < 2 ^ 32
IsField (blob bs) = Unit {0}
IsField (wstring cs) = All (λ c. c < 2 ^ 16) cs
IsField (guid bs) = length bs ≡ 16

-- A chunk is its type, the length of its value, and the value.
abbrev pub encode_field : Field → List ℕ
encode_field f = chunk_header (field_type f) (length (payload f)) ++ payload f

abbrev pub encode_all : List Field → List ℕ
encode_all [] = []
encode_all (f ∷ fs) = encode_field f ++ encode_all fs

length_word : (k n : ℕ) → (le_value (le_bytes 4 (n % 2 ^ 32)) + k) % 2 ^ 32 ≡ (n + k) % 2 ^ 32
length_word k n = rw (le_value-le_bytes (n % 2 ^ 32) (omega arith)) (omega arith)

add_value_length-header :
    (k t n : ℕ) (body : List ℕ)
    → add_value_length k (chunk_header t n ++ body) ≡ chunk_header t (n + k) ++ body
unfolding add_value_length chunk_header le_bytes
add_value_length-header k t n body =
    ap (λ v. le_bytes 4 (t % 2 ^ 32) ++ (le_bytes 4 v ++ body)) (length_word k n)

add_value_length-chunk :
    (k t n type size : ℕ) (body value : List ℕ)
    → add_value_length k (((chunk_header t n ++ body) ++ chunk_header type size) ++ value)
      ≡ chunk_header t (n + k) ++ (body ++ (chunk_header type size ++ value))
add_value_length-chunk k t n type size body value =
    simp append_assoc (add_value_length-header k t n (body ++ (chunk_header type size ++ value)))

-- One append to a packet whose header counts `n` bytes.
append-header :
    (f : Field) (t n : ℕ) (body : List ℕ)
    → IsField f
    → append f (chunk_header t n ++ body)
      ≡ chunk_header t (n + (8 + length (payload f))) ++ (body ++ encode_field f)
unfolding append append_null append_dword append_data append_wstring append_guid
append-header null t n body h =
    rw (append-nil (chunk_header 0 0), append_assoc)
      (add_value_length-header 8 t n (body ++ chunk_header 0 0))
append-header (dword v) t n body h =
    rw (length-le_bytes 4 v) (add_value_length-chunk (8 + 4) t n 1 4 body (le_bytes 4 v))
append-header (blob bs) t n body h =
    add_value_length-chunk (8 + length bs) t n 2 (length bs) body bs
append-header (wstring cs) t n body h =
    let size : length (wide_bytes cs) ≡ length cs * 2 = omega (arith, length-wide_bytes cs) in
    rw size (add_value_length-chunk (8 + length cs * 2) t n 3 (length cs * 2) body (wide_bytes cs))
append-header (guid bs) t n body h = rw h (add_value_length-chunk (8 + 16) t n 4 16 body bs)

pub length-chunk_header : (t n : ℕ) → length (chunk_header t n) ≡ 8
unfolding chunk_header
length-chunk_header t n =
    rw length-append (omega (arith, length-le_bytes 4 (t % 2 ^ 32), length-le_bytes 4 (n % 2 ^ 32)))

pub length-encode_field : (f : Field) → length (encode_field f) ≡ 8 + length (payload f)
length-encode_field f = rw (length-append, length-chunk_header (field_type f) (length (payload f)))

append_all-header :
    (fs : List Field) (t n : ℕ) (body : List ℕ)
    → All IsField fs
    → append_all fs (chunk_header t n ++ body)
      ≡ chunk_header t (n + length (encode_all fs)) ++ (body ++ encode_all fs)
unfolding append_all
append_all-header [] t n body h = let same : n + 0 ≡ n = omega arith in rw (append-nil body, same)
append_all-header (f ∷ fs) t n body h =
    let size : n + (8 + length (payload f)) + length (encode_all fs)
        ≡ n + length (encode_field f ++ encode_all fs) =
      omega (arith, length-append (encode_field f) (encode_all fs), length-encode_field f) in
    ap (append_all fs) (append-header f t n body h.0)
    ∙ append_all-header fs t (n + (8 + length (payload f))) (body ++ encode_field f) h.1
    ∙ rw (size, append_assoc body (encode_field f) (encode_all fs))

-- Whatever fields a client appends, in whatever order, raw_packet() holds a header with the packet's
-- type and the exact length of what follows (modulo 2 ^ 32), and then the chunks of the fields in the
-- order of the calls.
pub append_all-encode_all :
    (t : ℕ) (fs : List Field)
    → All IsField fs
    → append_all fs (serialiser t) ≡ chunk_header t (length (encode_all fs)) ++ encode_all fs
unfolding serialiser
append_all-encode_all t fs h =
    let start : 0 + length (encode_all fs) ≡ length (encode_all fs) = omega arith in
    ap (append_all fs) (sym (append-nil (chunk_header t 0)))
    ∙ append_all-header fs t 0 [] h
    ∙ rw start
