-- ===== src/Packet/Chunks.antt =====
-- A chunk as it stands in the bytes of a packet: src/packet.cpp.
use directplay_lite.Common.{
  ℕ, ◌+◌, ◌%◌, ◌^◌, ◌≤◌, ◌<◌, ◌≡◌, refl, sym, ap, ◌∙◌, List, [], ◌∷◌, ◌++◌, arith, length, take,
  drop, All, All-take, All-drop, length-drop, length-take_le, take-split, drop-append_le,
  take-append_le,
}
use mathlib.Core.Path.{ap₂}
use directplay_lite.Packet.Bytes.{IsByte, le_bytes, le_value, le_value-lt}
use directplay_lite.Packet.Serialiser.{chunk_header}
use directplay_lite.Packet.Deserialiser.{Chunk}

-- The value lies inside the packet.
abbrev pub InBounds : Chunk → Type 0
InBounds c = c.value_length ≤ length c.value

-- The bytes that a chunk takes up.
abbrev pub raw_chunk : Chunk → List ℕ
raw_chunk c = chunk_header c.type c.value_length ++ take c.value_length c.value

abbrev pub raw_all : List Chunk → List ℕ
raw_all [] = []
raw_all (c ∷ cs) = raw_chunk c ++ raw_all cs

-- The chunk that stands at a pointer.
abbrev pub chunk_at : List ℕ → Chunk
chunk_at at = record {
  type = le_value (take 4 at);
  value_length = le_value (take 4 (drop 4 at));
  value = drop 8 at;
}

pub announced-lt :
    (at : List ℕ) → All IsByte at → 8 ≤ length at → (chunk_at at).value_length < 2 ^ 32
announced-lt at h p =
    le_value-lt (take 4 (drop 4 at)) (All-take IsByte 4 (drop 4 at) (All-drop IsByte 4 at h))
      (length-take_le 4 (drop 4 at) (omega (arith, length-drop 4 at)))

word_bytes :
    (a b c d : ℕ)
    → All IsByte (a ∷ b ∷ c ∷ d ∷ [])
    → le_bytes 4 (le_value (a ∷ b ∷ c ∷ d ∷ []) % 2 ^ 32) ≡ a ∷ b ∷ c ∷ d ∷ []
unfolding le_bytes le_value
word_bytes a b c d h = ground arith

pub header_bytes :
    (at : List ℕ)
    → All IsByte at
    → 8 ≤ length at
    → chunk_header (chunk_at at).type (chunk_at at).value_length ≡ take 8 at
unfolding chunk_header
header_bytes (a ∷ b ∷ c ∷ d ∷ e ∷ f ∷ g ∷ i ∷ rest) h p =
    ap₂ ◌++◌ (word_bytes a b c d (omega arith)) (word_bytes e f g i (omega arith))
header_bytes _ h p = absurd (omega arith)

pub raw_chunk_at :
    (at : List ℕ)
    → All IsByte at
    → 8 ≤ length at
    → raw_chunk (chunk_at at) ≡ take (8 + (chunk_at at).value_length) at
raw_chunk_at at h p =
    ap (λ xs. xs ++ take (chunk_at at).value_length (drop 8 at)) (header_bytes at h p)
    ∙ sym (take-split (8 + (chunk_at at).value_length) 8 (chunk_at at).value_length at refl)

-- The value length that the chunk at a pointer announces.
abbrev pub announced : List ℕ → ℕ
announced at = (chunk_at at).value_length

pub announced-append : (at rest : List ℕ) → 8 ≤ length at → announced (at ++ rest) ≡ announced at
announced-append at rest h =
    let left : 4 ≤ length (drop 4 at) = omega (arith, h, length-drop 4 at) in
    rw (drop-append_le 4 at rest (omega (arith, h)), take-append_le 4 (drop 4 at) rest left)
