-- ===== src/Packet/RoundTrip.antt =====
-- PacketDeserialiser reads back what PacketSerialiser wrote: src/packet.cpp.
use directplay_lite.Common.{
  ℕ, zero, suc, ◌+◌, ◌-◌, ◌*◌, ◌/◌, ◌%◌, ◌^◌, ◌≤◌, ◌<◌, ◌≡◌, refl, sym, ap, ◌∙◌, some, List, [],
  ◌∷◌, ◌++◌, arith, length, drop, get_elem?, true, le→ltb, All, length-append, drop-append,
  take-append,
}
use mathlib.Core.List.{append_assoc, append-nil}
use native.Mathlib.Nat.{mod-eq_of_lt}
use directplay_lite.Packet.Bytes.{
  wide_bytes, length-le_bytes, le_value-le_bytes, length-wide_bytes, wide_chars-wide_bytes,
}
use directplay_lite.Packet.Serialiser.{
  chunk_header, serialiser, Field, null, dword, blob, wstring, guid, append_all,
}
use directplay_lite.Packet.Wire.{
  field_type, payload, IsField, encode_field, encode_all, append_all-encode_all,
  length-encode_field, length-chunk_header,
}
use directplay_lite.Packet.Deserialiser.{
  Chunk, Deserialiser, ok, read_chunk, scan, deserialise, packet_type, num_fields, is_null,
  get_dword, get_data, get_wstring, get_guid, field_at, read_value,
}
use directplay_lite.Packet.Scan.{deserialise_scan, scan_done, scan_step, read_chunk-header}

-- The chunk of a field in memory, before `rest`.
abbrev chunk_of : Field → List ℕ → Chunk
chunk_of f rest = record {
  type = field_type f;
  value_length = length (payload f);
  value = payload f ++ rest;
}

abbrev chunks : List Field → List ℕ → List Chunk
chunks [] tail = []
chunks (f ∷ fs) tail = chunk_of f (encode_all fs ++ tail) ∷ chunks fs tail

field_type-lt : (f : Field) → field_type f < 2 ^ 32
field_type-lt null = omega arith
field_type-lt (dword v) = omega arith
field_type-lt (blob bs) = omega arith
field_type-lt (wstring cs) = omega arith
field_type-lt (guid bs) = omega arith

read_chunk-encode_field :
    (f : Field) (rest : List ℕ)
    → length (payload f) < 2 ^ 32
    → read_chunk (encode_field f ++ rest) ≡ ok (chunk_of f rest)
read_chunk-encode_field f rest h =
    rw append_assoc (
      read_chunk-header (field_type f) (length (payload f)) (payload f ++ rest) (field_type-lt f) h)

drop-chunk :
    (f : Field) (rest : List ℕ) → drop (8 + length (payload f)) (encode_field f ++ rest) ≡ rest
drop-chunk f rest = rw (← length-encode_field f) (drop-append (encode_field f) rest)

module _ (m : ℕ) where
  scan-encode_all :
      (fs : List Field) (fuel : ℕ) (tail : List ℕ) (acc : List Chunk)
      → length fs < fuel
      → length (encode_all fs) < 2 ^ 32
      → 8 + length (encode_all fs) < m
      → scan m fuel (encode_all fs ++ tail) (length (encode_all fs)) acc
        ≡ ok (acc ++ chunks fs tail)
  scan-encode_all fs zero tail acc p q r = absurd (omega arith)
  scan-encode_all [] (suc fuel) tail acc p q r =
      scan_done m fuel tail 0 acc refl ∙ rw (append-nil acc)
  scan-encode_all (f ∷ fs) (suc fuel) tail acc p q r =
      let rest = encode_all fs ++ tail in
      let n = length (payload f) in
      let total : length (encode_field f ++ encode_all fs) ≡ 8 + n + length (encode_all fs) =
        omega (arith, length-append (encode_field f) (encode_all fs), length-encode_field f) in
      let size : (8 + n) % m ≡ 8 + n = mod-eq_of_lt (omega arith) in
      let left : 8 + n + length (encode_all fs) - (8 + n) ≡ length (encode_all fs) = omega arith in
      rw (append_assoc (encode_field f) (encode_all fs) tail, total)
        (scan_step m fuel (encode_field f ++ rest) (8 + n + length (encode_all fs)) acc
            (chunk_of f rest) (read_chunk-encode_field f rest (omega arith)) (omega arith)
            (omega arith)
          ∙ rw (size, drop-chunk f rest, left)
              (scan-encode_all fs fuel tail (acc ++ chunk_of f rest ∷ []) (omega arith)
                  (omega arith) (omega arith)
                ∙ rw append_assoc))

length-le-encode_all : (fs : List Field) → length fs ≤ length (encode_all fs)
length-le-encode_all [] = omega arith
length-le-encode_all (f ∷ fs) = omega (
  arith,
  length-append (encode_field f) (encode_all fs),
  length-encode_field f,
  length-le-encode_all fs,
)

abbrev decoded : ℕ → List Field → Deserialiser
decoded t fs = record {
  header = record { type = t; value_length = length (encode_all fs); value = encode_all fs };
  fields = chunks fs [];
}

module _ (m t : ℕ) (fs : List Field) (ht : t < 2 ^ 32) (hl : length (encode_all fs) < 2 ^ 32)
    (hm : 8 + length (encode_all fs) < m) where
  deserialise-encode_all :
      deserialise m (chunk_header t (length (encode_all fs)) ++ encode_all fs) ≡ ok (decoded t fs)
  unfolding deserialise
  deserialise-encode_all =
      let L = length (encode_all fs) in
      let packet = chunk_header t L ++ encode_all fs in
      let size : length packet ≡ 8 + L =
        omega (arith, length-append (chunk_header t L) (encode_all fs), length-chunk_header t L) in
      let whole : (8 + L) % m ≡ 8 + L = mod-eq_of_lt hm in
      let exact : scan m (length packet + 1) (encode_all fs) L [] ≡ ok (chunks fs []) =
        rw (append-nil (encode_all fs)) at (
          scan-encode_all m fs (length packet + 1) [] [] (omega (arith, length-le-encode_all fs)) hl
            hm) in
      deserialise_scan (length packet + 1) m packet
        (record { type = t; value_length = L; value = encode_all fs })
        (read_chunk-header t L (encode_all fs) ht hl) (omega arith) (omega arith)
      ∙ rw exact

length-chunks : (fs : List Field) (tail : List ℕ) → length (chunks fs tail) ≡ length fs
length-chunks [] tail = refl
length-chunks (f ∷ fs) tail = ap suc (length-chunks fs tail)

chunks_at :
    (fs : List Field) (tail : List ℕ) (i : ℕ) (f : Field)
    → get_elem? fs i ≡ some f
    → (rest : List ℕ) × (get_elem? (chunks fs tail) i ≡ some (chunk_of f rest))
chunks_at [] tail i f e = cc
chunks_at (g ∷ fs) tail zero f e = (encode_all fs ++ tail, (let same : g ≡ f = cc in rw same))
chunks_at (g ∷ fs) tail (suc i) f e = chunks_at fs tail i f e

All-at :
    (fs : List Field) (i : ℕ) (f : Field) → All IsField fs → get_elem? fs i ≡ some f → IsField f
All-at [] i f h e = cc
All-at (g ∷ fs) zero f h e = let same : g ≡ f = cc in rw same at (h.0)
All-at (g ∷ fs) (suc i) f h e = All-at fs i f h.1 e

-- What the getter for a field's type returns at an index.
abbrev pub Reads : Field → Deserialiser → ℕ → Type 0
Reads null pd i = is_null pd i ≡ ok true
Reads (dword v) pd i = get_dword pd i ≡ ok v
Reads (blob bs) pd i = get_data pd i ≡ ok bs
Reads (wstring cs) pd i = get_wstring pd i ≡ ok cs
Reads (guid bs) pd i = get_guid pd i ≡ ok bs

field_at-chunk :
    (pd : Deserialiser) (i : ℕ) (f : Field) (rest : List ℕ)
    → get_elem? pd.fields i ≡ some (chunk_of f rest)
    → field_at pd i ≡ ok (chunk_of f rest)
unfolding field_at
field_at-chunk pd i f rest e = rw (e, field_at)

read_value-chunk :
    (f : Field) (rest : List ℕ) (n : ℕ)
    → n ≡ length (payload f)
    → read_value n (chunk_of f rest) ≡ ok (payload f)
unfolding read_value
read_value-chunk f rest n e =
    let room : length (payload f ++ rest) ≡ length (payload f) + length rest =
      length-append (payload f) rest in
    rw (
      e,
      le→ltb (length (payload f ++ rest)) (length (payload f)) (omega arith),
      take-append (payload f) rest,
    )

chunk-Reads :
    (f : Field) (pd : Deserialiser) (i : ℕ) (rest : List ℕ)
    → IsField f
    → get_elem? pd.fields i ≡ some (chunk_of f rest)
    → Reads f pd i
unfolding is_null get_dword get_data get_wstring get_guid
chunk-Reads null pd i rest h e = rw (field_at-chunk pd i null rest e)
chunk-Reads (dword v) pd i rest h e = rw (field_at-chunk pd i (dword v) rest e) (
    rw (
      read_value-chunk (dword v) rest 4 (sym (length-le_bytes 4 v)),
      length-le_bytes 4 v,
      le_value-le_bytes v h,
    ))
chunk-Reads (blob bs) pd i rest h e =
    rw (field_at-chunk pd i (blob bs) rest e) (read_value-chunk (blob bs) rest (length bs) refl)
chunk-Reads (wstring cs) pd i rest h e = rw (field_at-chunk pd i (wstring cs) rest e) (
    let size = length-wide_bytes cs in
    let even : length (wide_bytes cs) % 2 ≡ 0 = omega arith in
    let whole : length (wide_bytes cs) / 2 * 2 ≡ length (wide_bytes cs) = omega arith in
    rw (
      even,
      read_value-chunk (wstring cs) rest (length (wide_bytes cs) / 2 * 2) whole,
      wide_chars-wide_bytes cs h,
    ))
chunk-Reads (guid bs) pd i rest h e =
    rw (field_at-chunk pd i (guid bs) rest e) (rw (read_value-chunk (guid bs) rest 16 (sym h), h))

-- A round trip over the wire, for every packet whose length a 32-bit header field and a size_t can
-- hold: the deserialiser accepts what the serialiser built, with the packet's type and one field for
-- each append, and each getter returns what the append at its index was given.
pub deserialise-append_all :
    (m t : ℕ) (fs : List Field)
    → t < 2 ^ 32
    → length (encode_all fs) < 2 ^ 32
    → 8 + length (encode_all fs) < m
    → All IsField fs
    → (pd : Deserialiser) × (deserialise m (append_all fs (serialiser t)) ≡ ok pd)
      × (packet_type pd ≡ t)
      × (num_fields pd ≡ length fs)
      × ((i : ℕ) (f : Field) → get_elem? fs i ≡ some f → Reads f pd i)
deserialise-append_all m t fs ht hl hm h = (
  decoded t fs,
  rw (append_all-encode_all t fs h) (deserialise-encode_all m t fs ht hl hm),
  refl,
  length-chunks fs [],
  λ i f e.
      let (rest, at) = chunks_at fs [] i f e in
      chunk-Reads f (decoded t fs) i rest (All-at fs i f h e) at,
)
