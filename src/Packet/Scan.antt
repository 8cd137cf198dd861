-- ===== src/Packet/Scan.antt =====
-- The rounds of the PacketDeserialiser constructor's loop, src/packet.cpp.
use directplay_lite.Common.{
  ℕ, suc, ◌+◌, ◌-◌, ◌%◌, ◌^◌, ◌≤◌, ◌<◌, ◌≡◌, ◌∙◌, List, [], ◌∷◌, ◌++◌, arith, length, take, drop,
  le→ltb, lt→ltb,
}
use directplay_lite.Packet.Bytes.{le_bytes, le_value, le_value-le_bytes}
use directplay_lite.Packet.Serialiser.{chunk_header}
use directplay_lite.Packet.Deserialiser.{
  Chunk, ok, err, malformed, incomplete, ◌>>=◌, read_chunk, scan, deserialise_within,
}

module _ (m fuel : ℕ) (at : List ℕ) (remain : ℕ) (fields : List Chunk) where
  pub scan_done : remain ≡ 0 → scan m (suc fuel) at remain fields ≡ ok fields
  unfolding scan
  scan_done e = rw e

  pub scan_short : 0 < remain → remain < 8 → scan m (suc fuel) at remain fields ≡ err malformed
  unfolding scan
  scan_short p q = ground arith

  pub scan_step :
      (c : Chunk)
      → read_chunk at ≡ ok c
      → 8 ≤ remain
      → (8 + c.value_length) % m ≤ remain
      → scan m (suc fuel) at remain fields
        ≡ scan m fuel
            (drop ((8 + c.value_length) % m) at)
            (remain - (8 + c.value_length) % m)
            (fields ++ c ∷ [])
  unfolding scan
  scan_step c e p q = ground arith

  pub scan_long :
      (c : Chunk)
      → read_chunk at ≡ ok c
      → 8 ≤ remain
      → remain < (8 + c.value_length) % m
      → scan m (suc fuel) at remain fields ≡ err malformed
  unfolding scan
  scan_long c e p q = ground arith

-- A chunk that can be read at all is the eight bytes at the pointer and what follows them.
pub read_chunk_lem :
    (at : List ℕ)
    → 8 ≤ length at
    → read_chunk at
      ≡ ok (record {
        type = le_value (take 4 at);
        value_length = le_value (take 4 (drop 4 at));
        value = drop 8 at;
      })
unfolding read_chunk
read_chunk_lem at h = rw (le→ltb (length at) 8 h)

word : (v : ℕ) → v < 2 ^ 32 → le_value (le_bytes 4 (v % 2 ^ 32)) ≡ v
word v h = let small : v % 2 ^ 32 ≡ v = omega arith in rw small (le_value-le_bytes v h)

pub read_chunk-header :
    (t n : ℕ) (rest : List ℕ)
    → t < 2 ^ 32
    → n < 2 ^ 32
    → read_chunk (chunk_header t n ++ rest)
      ≡ ok (record { type = t; value_length = n; value = rest })
unfolding read_chunk chunk_header le_bytes
read_chunk-header t n rest h k = read_chunk_lem (chunk_header t n ++ rest) (omega arith) ∙ λ i.
    ok (record { type = word t h i; value_length = word n k i; value = rest })

module _ (fuel m : ℕ) (packet : List ℕ) where
  pub deserialise_short : length packet < 8 → deserialise_within fuel m packet ≡ err incomplete
  unfolding deserialise_within
  deserialise_short h = rw (lt→ltb (length packet) 8 h)

  pub deserialise_cut :
      (c : Chunk)
      → read_chunk packet ≡ ok c
      → 8 ≤ length packet
      → length packet < (8 + c.value_length) % m
      → deserialise_within fuel m packet ≡ err incomplete
  unfolding deserialise_within
  deserialise_cut c e h k = rw (le→ltb (length packet) 8 h, e, lt→ltb (length packet) _ k)

  pub deserialise_scan :
      (c : Chunk)
      → read_chunk packet ≡ ok c
      → 8 ≤ length packet
      → (8 + c.value_length) % m ≤ length packet
      → deserialise_within fuel m packet
        ≡ (scan m fuel c.value c.value_length [] >>= λ fs. ok (record { header = c; fields = fs }))
  unfolding deserialise_within
  deserialise_scan c e h k = rw (le→ltb (length packet) 8 h, e, le→ltb (length packet) _ k)
