-- ===== src/Packet/Wrap.antt =====
-- The PacketDeserialiser constructor where size_t has 32 bits, as in a Win32 build: src/packet.cpp.
use directplay_lite.Common.{
  ℕ, zero, suc, ◌+◌, ◌-◌, ◌^◌, ◌≤◌, ◌<◌, ◌≡◌, refl, ◌∙◌, List, [], ◌∷◌, ◌++◌, arith, length,
  length-append,
}
use directplay_lite.Packet.Serialiser.{chunk_header}
use directplay_lite.Packet.Wire.{length-chunk_header}
use directplay_lite.Packet.Deserialiser.{Chunk, stuck, scan, deserialise_within}
use directplay_lite.Packet.Scan.{read_chunk-header, scan_step, deserialise_scan}

-- A chunk whose length plus the header's wraps to 0 keeps the loop where it is.
scan-stuck :
    (fuel type remain : ℕ) (rest : List ℕ) (fields : List Chunk)
    → type < 2 ^ 32
    → 8 ≤ remain
    → scan (2 ^ 32) fuel (chunk_header type (2 ^ 32 - 8) ++ rest) remain fields ≡ stuck
scan-stuck zero type remain rest fields t p = unfold scan in refl
scan-stuck (suc fuel) type remain rest fields t p =
    let at = chunk_header type (2 ^ 32 - 8) ++ rest in
    let c : Chunk = record { type = type; value_length = 2 ^ 32 - 8; value = rest } in
    let same : remain - 0 ≡ remain = omega arith in
    scan_step (2 ^ 32) fuel at remain fields c
      (read_chunk-header type (2 ^ 32 - 8) rest t (omega arith)) p (omega arith)
    ∙ rw same (scan-stuck fuel type remain rest (fields ++ c ∷ []) t p)

-- With a 32-bit size_t there are packets on which the constructor never returns: every packet of at least
-- sixteen bytes whose header announces no more than there is, and whose first field announces
-- 2 ^ 32 - 8 bytes. However many rounds are allowed, the loop has not ended after them.
pub deserialise_within-stuck :
    (fuel t size type : ℕ) (rest : List ℕ)
    → t < 2 ^ 32
    → type < 2 ^ 32
    → 8 ≤ size
    → size ≤ 8 + length rest
    → 8 + size < 2 ^ 32
    → deserialise_within fuel
        (2 ^ 32)
        (chunk_header t size ++ (chunk_header type (2 ^ 32 - 8) ++ rest))
      ≡ stuck
deserialise_within-stuck fuel t size type rest ht hy lo hi fits =
    let field = chunk_header type (2 ^ 32 - 8) ++ rest in
    let room : length (chunk_header t size ++ field) ≡ 8 + (8 + length rest) = omega (
      arith,
      length-append (chunk_header t size) field,
      length-append (chunk_header type (2 ^ 32 - 8)) rest,
      length-chunk_header t size,
      length-chunk_header type (2 ^ 32 - 8),
    ) in
    let c : Chunk = record { type = t; value_length = size; value = field } in
    deserialise_scan fuel (2 ^ 32) (chunk_header t size ++ field) c
      (read_chunk-header t size field ht (omega arith)) (omega arith) (omega arith)
    ∙ rw (scan-stuck fuel type size rest [] hy lo)
