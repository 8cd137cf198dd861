-- ===== src/Packet/Safety.antt =====
-- What PacketDeserialiser does with any bytes at all, and with a size_t of any width: src/packet.cpp.
use directplay_lite.Common.{
  ℕ, zero, suc, ◌+◌, ◌-◌, ◌%◌, ◌^◌, ◌≤◌, ◌<◌, ◌≡◌, refl, sym, ap, subst, ◌∙◌, ◌⊎◌, inl, inr, List,
  [], ◌∷◌, ◌++◌, arith, length, take, drop, All, All-drop, length-drop, length-take_le, take-split,
  length-append, take-drop, drop-append,
}
use mathlib.Core.Path.{ap₂}
use mathlib.Core.List.{append_assoc, append-nil}
use native.Mathlib.Nat.{mod-eq_of_lt}
use native.Mathlib.Decide.{dec_lt}
use directplay_lite.Packet.Bytes.{IsByte}
use directplay_lite.Packet.Serialiser.{chunk_header}
use directplay_lite.Packet.Deserialiser.{
  Chunk, Deserialiser, Result, ok, ◌>>=◌, err, fault, stuck, incomplete, malformed, scan,
  deserialise,
}
use directplay_lite.Packet.Chunks.{
  InBounds, raw_chunk, raw_all, chunk_at, announced, announced-lt, header_bytes, raw_chunk_at,
}
use directplay_lite.Packet.Scan.{
  read_chunk_lem, scan_done, scan_short, scan_step, scan_long, deserialise_short, deserialise_cut,
  deserialise_scan,
}

-- `at` starts with whole chunks, and `P` holds of what follows them and of what they leave of `remain` bytes.
abbrev pub Behind : (List ℕ → ℕ → Type 0) → List ℕ → ℕ → Type 0
Behind P at remain =
    (cs : List Chunk) × (rest : List ℕ) × All InBounds cs
    × (at ≡ raw_all cs ++ rest)
    × (length (raw_all cs) ≤ remain)
    × P rest (remain - length (raw_all cs))

-- What is left is shorter than a chunk's header, or than the chunk that it announces.
abbrev pub IsCut : List ℕ → ℕ → Type 0
IsCut at left = (0 < left) × ((left < 8) ⊎ (left < 8 + announced at))

-- A chunk announces so much that its size does not fit a size_t of the modulus `m`.
abbrev pub IsWrapped : ℕ → List ℕ → ℕ → Type 0
IsWrapped m at left = (8 ≤ left) × (m ≤ 8 + announced at)

-- The loop's result: the chunks that it adds are in bounds and take up the `remain` bytes, in order; or the bytes are cut.
abbrev Scanned : List ℕ → ℕ → List Chunk → Result (List Chunk) → Type 0
Scanned at remain fields (ok cs) =
    (new : List Chunk) × (cs ≡ fields ++ new) × All InBounds new × (take remain at ≡ raw_all new)
Scanned at remain fields (err e) = (e ≡ malformed) × Behind IsCut at remain
Scanned at remain fields fault = ⊥
Scanned at remain fields stuck = ⊥

module _ (at : List ℕ) (remain : ℕ) (h : All IsByte at) (p : 8 + announced at ≤ remain)
    (q : remain ≤ length at) where
  -- The chunk in front of others.
  Behind-cons :
      (P : List ℕ → ℕ → Type 0)
      → Behind P (drop (8 + announced at) at) (remain - (8 + announced at))
      → Behind P at remain
  Behind-cons P (cs, rest, ins, e, fits, holds) =
      let raw = raw_chunk_at at h (omega (arith, p, q)) in
      let size : length (raw_chunk (chunk_at at)) ≡ 8 + announced at =
        ap length raw ∙ length-take_le (8 + announced at) at (omega (arith, p, q)) in
      let total = length-append (raw_chunk (chunk_at at)) (raw_all cs) in
      let left : remain - (8 + announced at) - length (raw_all cs)
          ≡ remain - length (raw_all (chunk_at at ∷ cs)) =
        omega (arith, size, total) in
      (
        chunk_at at ∷ cs,
        rest,
        (omega (arith, p, q, length-drop 8 at), ins),
        sym (take-drop (8 + announced at) at)
            ∙ ap₂ ◌++◌ (sym raw) e
            ∙ sym (append_assoc (raw_chunk (chunk_at at)) (raw_all cs) rest),
        omega (arith, size, total, fits, p),
        subst (P rest) left holds,
      )

  -- One round: the chunk in front, then the chunks of what follows it.
  Scanned-cons :
      (fields : List Chunk) (r : Result (List Chunk))
      → Scanned
          (drop (8 + announced at) at)
          (remain - (8 + announced at))
          (fields ++ chunk_at at ∷ [])
          r
      → Scanned at remain fields r
  Scanned-cons fields (ok cs) (new, e, ins, bytes) = (
    chunk_at at ∷ new,
    e ∙ append_assoc fields (chunk_at at ∷ []) new,
    (omega (arith, p, q, length-drop 8 at), ins),
    take-split remain (8 + announced at) (remain - (8 + announced at)) at (omega (arith, p))
        ∙ ap₂ ◌++◌ (sym (raw_chunk_at at h (omega (arith, p, q)))) bytes,
  )
  Scanned-cons fields (err x) (e, cut) = (e, Behind-cons IsCut cut)
  Scanned-cons fields fault s = s
  Scanned-cons fields stuck s = s

at_once : (P : List ℕ → ℕ → Type 0) (at : List ℕ) (remain : ℕ) → P at remain → Behind P at remain
at_once P at remain h =
    let all : remain ≡ remain - 0 = omega arith in
    ([], at, tt, refl, omega arith, subst (P at) all h)

module _ (m : ℕ) where
  size-chunk_at : (at : List ℕ) → 8 + announced at < m → (8 + announced at) % m ≡ 8 + announced at
  size-chunk_at at h = mod-eq_of_lt h

  scan-Scanned :
      (fuel : ℕ) (at : List ℕ) (remain : ℕ) (fields : List Chunk)
      → All IsByte at
      → remain ≤ length at
      → remain < fuel
      → Scanned at remain fields (scan m fuel at remain fields) ⊎ Behind (IsWrapped m) at remain
  scan-Scanned zero at remain fields h p q = absurd (omega arith)
  scan-Scanned (suc fuel) at remain fields h p q = elim (dec_lt 0 remain) [
    | no z ↦
        let e : remain ≡ 0 = omega arith in
        inl (rw (scan_done m fuel at remain fields e, e) ([], sym (append-nil fields), tt, refl))
    | yes pos ↦ elim (dec_lt remain 8) [
      | yes short ↦ inl (
          rw (scan_short m fuel at remain fields pos short)
            (refl, at_once IsCut at remain (pos, inl short)))
      | no long ↦ elim (dec_lt (8 + announced at) m) [
        | no wraps ↦ inr (at_once (IsWrapped m) at remain (omega arith, omega arith))
        | yes narrow ↦
            let size = size-chunk_at at narrow in
            let c = read_chunk_lem at (omega arith) in
            let v = announced at in
            elim (dec_lt remain (8 + v)) [
              | yes cut ↦ inl (
                  rw
                    (scan_long m fuel at remain fields (chunk_at at) c (omega arith)
                      (omega (arith, size, cut)))
                    (refl, at_once IsCut at remain (pos, inr cut)))
              | no fits ↦
                  let ih =
                    scan-Scanned fuel (drop (8 + v) at) (remain - (8 + v))
                      (fields ++ chunk_at at ∷ []) (All-drop IsByte (8 + v) at h)
                      (omega (arith, length-drop (8 + v) at)) (omega arith) in
                  elim ih [
                    | inr wraps ↦ inr (Behind-cons at remain h (omega arith) p (IsWrapped m) wraps)
                    | inl s ↦ inl (
                        rw
                          (
                            scan_step m fuel at remain fields (chunk_at at) c (omega arith)
                                (omega (arith, size)),
                            size,
                          )
                          (Scanned-cons at remain h (omega arith) p fields _ s))
                  ]
            ]
      ]
    ]
  ]

abbrev pub Parsed : List ℕ → Result Deserialiser → Type 0
Parsed packet (ok pd) =
    (8 + announced packet ≤ length packet)
    × (take (8 + announced packet) packet
        ≡ chunk_header pd.header.type pd.header.value_length ++ raw_all pd.fields)
    × All InBounds pd.fields
Parsed packet (err e) =
    ((e ≡ incomplete) × ((length packet < 8) ⊎ (length packet < 8 + announced packet)))
    ⊎ ((e ≡ malformed)
        × (8 + announced packet ≤ length packet)
        × Behind IsCut (drop 8 packet) (announced packet))
Parsed packet fault = ⊥
Parsed packet stuck = ⊥

-- The packet's header or, behind whole fields, the header of another announces a size that does not fit a size_t.
abbrev pub Wraps : ℕ → List ℕ → Type 0
Wraps m packet =
    (8 ≤ length packet)
    × ((m ≤ 8 + announced packet)
        ⊎ ((8 + announced packet ≤ length packet)
            × Behind (IsWrapped m) (drop 8 packet) (announced packet)))

module _ (packet : List ℕ) (h : All IsByte packet) (p : 8 ≤ length packet)
    (q : 8 + announced packet ≤ length packet) where
  Parsed-Scanned :
      (r : Result (List Chunk))
      → Scanned (drop 8 packet) (announced packet) [] r
      → Parsed packet (r >>= λ fs. ok (record { header = chunk_at packet; fields = fs }))
  Parsed-Scanned (ok cs) (new, e, ins, bytes) = rw e (
    q,
    take-split (8 + announced packet) 8 (announced packet) packet refl
        ∙ ap₂ ◌++◌ (sym (header_bytes packet h p)) bytes,
    ins,
  )
  Parsed-Scanned (err x) (e, cut) = inr (e, q, cut)
  Parsed-Scanned fault s = s
  Parsed-Scanned stuck s = s

-- What the constructor does with any bytes, for a size_t of any modulus `m`: it returns, without a read past the packet, unless a size that
-- the packet announces does not fit a size_t. It throws Incomplete only where the packet is shorter than a header or than its
-- header announces, and Malformed only where it is not, and behind whole fields so few bytes are left that they
-- hold no header, or not the field that it announces. On success the announced part of the packet is exactly the header followed by the fields'
-- chunks, in order, and each field's value lies inside the packet. Otherwise the header of the packet, or of the field behind some whole
-- fields of it, announces at least m - 8 bytes.
pub deserialise-Parsed :
    (m : ℕ) (packet : List ℕ)
    → All IsByte packet
    → Parsed packet (deserialise m packet) ⊎ Wraps m packet
unfolding deserialise
deserialise-Parsed m packet h = elim (dec_lt (length packet) 8) [
  | yes short ↦
      inl (rw (deserialise_short (length packet + 1) m packet short) (inl (refl, inl short)))
  | no long ↦ elim (dec_lt (8 + announced packet) m) [
    | no wraps ↦ inr (omega arith, inl (omega arith))
    | yes narrow ↦
        let size = size-chunk_at m packet narrow in
        let c = read_chunk_lem packet (omega arith) in
        elim (dec_lt (length packet) (8 + announced packet)) [
          | yes cut ↦ inl (
              rw
                (deserialise_cut (length packet + 1) m packet (chunk_at packet) c (omega arith)
                  (omega (arith, size, cut)))
                (inl (refl, inr cut)))
          | no fits ↦
              let scanned =
                scan-Scanned m (length packet + 1) (drop 8 packet) (announced packet) []
                  (All-drop IsByte 8 packet h) (omega (arith, length-drop 8 packet))
                  (omega arith) in
              elim scanned [
                | inr wraps ↦ inr (omega arith, inr (omega arith, wraps))
                | inl s ↦ inl (
                    rw
                      (deserialise_scan (length packet + 1) m packet (chunk_at packet) c
                        (omega arith) (omega (arith, size)))
                      (Parsed-Scanned packet h (omega arith) (omega arith) _ s))
              ]
        ]
  ]
]

-- Where a size_t holds 2 ^ 32 + 8, as in a 64-bit build, no size of a packet of bytes wraps.
pub Wraps-wide : (m : ℕ) (packet : List ℕ) → 2 ^ 32 + 8 ≤ m → All IsByte packet → ¬ Wraps m packet
Wraps-wide m packet wide h (long, inl wraps) = omega (arith, announced-lt packet h long)
Wraps-wide m packet wide h (long, inr (fits, (cs, rest, ins, e, room, (left, wraps)))) =
    let total = ap length e ∙ length-append (raw_all cs) rest in
    let bytes : All IsByte rest = subst (All IsByte) (drop-append (raw_all cs) rest) (
      All-drop IsByte (length (raw_all cs)) (raw_all cs ++ rest)
        (subst (All IsByte) e (All-drop IsByte 8 packet h))) in
    let small = announced-lt rest bytes (omega (arith, total, length-drop 8 packet)) in
    omega (arith, small)
