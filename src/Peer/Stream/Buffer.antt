-- ===== src/Peer/Stream/Buffer.antt =====
-- What stands at the front of the receive buffer: io_peer_recv() of src/DirectPlay8Peer.cpp.
use directplay_lite.Common.{
  ℕ, zero, suc, ◌≤◌, ◌<◌, ◌≡◌, ◌≢◌, ◌⊎◌, inl, inr, refl, sym, ◌∙◌, subst, true, false, List, [],
  ◌∷◌, ◌++◌, ltb, leb, length, take, drop, arith, Bool-cases, length-append, length-drop,
  take-append_le, drop-append_le,
}
use directplay_lite.Packet.Deserialiser.{
  Deserialiser, Result, deserialise, deserialise_within, incomplete,
}
use directplay_lite.Peer.Stream.{
  max_packet_size, Front, partial, invalid, faulty, hung, packet, parsed, full_packet_size, front,
}

deserialise-short :
    (m : ℕ) (bytes : List ℕ) → length bytes < 8 → deserialise m bytes ≡ Result.err incomplete
unfolding deserialise deserialise_within
deserialise-short m bytes h =
    let short : ltb (length bytes) 8 ≡ true = ground (arith, h) in rw short

length-take_min : (n : ℕ) (xs : List ℕ) → length (take n xs) ≤ n
length-take_min zero xs = omega arith
length-take_min (suc n) [] = omega arith
length-take_min (suc n) (x ∷ xs) = omega (arith, length-take_min n xs)

module _ (m : ℕ) (buffer : List ℕ) where
  front-short : ltb (length buffer) 8 ≡ true → front m buffer ≡ partial
  unfolding front
  front-short p = rw (front, p)

  front-oversize :
      ltb (length buffer) 8 ≡ false
      → ltb max_packet_size (full_packet_size m buffer) ≡ true
      → front m buffer ≡ invalid
  unfolding front
  front-oversize p q = rw (front, p, q)

  front-incomplete :
      ltb (length buffer) 8 ≡ false
      → ltb max_packet_size (full_packet_size m buffer) ≡ false
      → leb (full_packet_size m buffer) (length buffer) ≡ false
      → front m buffer ≡ partial
  unfolding front
  front-incomplete p q r = rw (front, p, q, r)

  pub front-whole :
      ltb (length buffer) 8 ≡ false
      → ltb max_packet_size (full_packet_size m buffer) ≡ false
      → leb (full_packet_size m buffer) (length buffer) ≡ true
      → front m buffer
        ≡ parsed
            (full_packet_size m buffer)
            (deserialise m (take (full_packet_size m buffer) buffer))
  unfolding front
  front-whole p q r = rw (front, p, q, r)

  -- The ways in which front() can come out.
  pub front-cases :
      ((front m buffer ≡ partial) × ((length buffer < 8) ⊎ (length buffer < max_packet_size)))
      ⊎ (front m buffer ≡ invalid)
      ⊎ ((8 ≤ length buffer)
          × (full_packet_size m buffer ≤ max_packet_size)
          × (full_packet_size m buffer ≤ length buffer)
          × (front m buffer
              ≡ parsed
                  (full_packet_size m buffer)
                  (deserialise m (take (full_packet_size m buffer) buffer))))
  front-cases = elim (Bool-cases (ltb (length buffer) 8)) [
    | inl p ↦ inl (front-short p, inl (ground (arith, p)))
    | inr p ↦ elim (Bool-cases (ltb max_packet_size (full_packet_size m buffer))) [
      | inl q ↦ inr (inl (front-oversize p q))
      | inr q ↦ elim (Bool-cases (leb (full_packet_size m buffer) (length buffer))) [
        | inl r ↦
            inr (inr (ground (arith, p), ground (arith, q), ground (arith, r), front-whole p q r))
        | inr r ↦ inl (front-incomplete p q r, inr (ground (arith, q, r)))
      ]
    ]
  ]

parsed-packet :
    (full n : ℕ) (r : Result Deserialiser) (pd : Deserialiser)
    → parsed full r ≡ packet n pd
    → (full ≡ n) × (r ≡ Result.ok pd)
parsed-packet full n (Result.ok pd') pd h = ground (arith, h)
parsed-packet full n (Result.err e) pd h = absurd (ground (arith, h))
parsed-packet full n Result.fault pd h = absurd (ground (arith, h))
parsed-packet full n Result.stuck pd h = absurd (ground (arith, h))

-- What is known of the buffer where a packet stands at its front.
pub front-packet :
    (m : ℕ) (buffer : List ℕ) (n : ℕ) (pd : Deserialiser)
    → front m buffer ≡ packet n pd
    → (8 ≤ n) × (n ≤ length buffer) × (deserialise m (take n buffer) ≡ Result.ok pd)
front-packet m buffer n pd h = elim (front-cases m buffer) [
  | inl (p, _) ↦ absurd (ground (arith, h, p))
  | inr (inl p) ↦ absurd (ground (arith, h, p))
  | inr (inr (long, small, fits, p)) ↦
      let (same, good) = parsed-packet (full_packet_size m buffer) n _ pd (sym p ∙ h) in
      let whole : deserialise m (take n buffer) ≡ Result.ok pd =
        subst (λ k. deserialise m (take k buffer) ≡ Result.ok pd) same good in
      elim (Bool-cases (ltb n 8)) [
        | inl q ↦
            let less : n < 8 = ground (arith, q) in
            let short =
              deserialise-short m (take n buffer) (omega (arith, less, length-take_min n buffer)) in
            absurd (ground (arith, short, whole))
        | inr q ↦ (ground (arith, q), omega (arith, same, fits), whole)
      ]
]

full_packet_size-append :
    (m : ℕ) (buffer bytes : List ℕ)
    → 8 ≤ length buffer
    → full_packet_size m (buffer ++ bytes) ≡ full_packet_size m buffer
full_packet_size-append m buffer bytes h =
    let rest : 4 ≤ length (drop 4 buffer) = omega (arith, h, length-drop 4 buffer) in
    rw (
      drop-append_le 4 buffer bytes (omega (arith, h)),
      take-append_le 4 (drop 4 buffer) bytes rest,
    )

-- A whole packet, or the sign of an invalid one, stays at the front whatever comes behind it.
pub front-append :
    (m : ℕ) (buffer bytes : List ℕ)
    → front m buffer ≢ partial
    → front m (buffer ++ bytes) ≡ front m buffer
unfolding front
front-append m buffer bytes h = elim (Bool-cases (ltb (length buffer) 8)) [
  | inl p ↦ absurd (h (front-short m buffer p))
  | inr p ↦
      let long : 8 ≤ length buffer = ground (arith, p) in
      let p' : ltb (length (buffer ++ bytes)) 8 ≡ false =
        ground (arith, length-append buffer bytes, long) in
      let same = full_packet_size-append m buffer bytes long in
      elim (Bool-cases (ltb max_packet_size (full_packet_size m buffer))) [
        | inl q ↦
            front-oversize m (buffer ++ bytes) p' (rw same q) ∙ sym (front-oversize m buffer p q)
        | inr q ↦ elim (Bool-cases (leb (full_packet_size m buffer) (length buffer))) [
          | inl r ↦
              let fits : full_packet_size m buffer ≤ length buffer = ground (arith, r) in
              let r' : leb (full_packet_size m buffer) (length (buffer ++ bytes)) ≡ true =
                ground (arith, length-append buffer bytes, fits) in
              front-whole m (buffer ++ bytes) p' (rw same q) (rw same r')
              ∙ (rw (same, take-append_le (full_packet_size m buffer) buffer bytes fits)
                  (sym (front-whole m buffer p q r)))
          | inr r ↦ absurd (h (front-incomplete m buffer p q r))
        ]
      ]
]

pub Front-cases :
    (x : Front)
    → (x ≡ partial)
      ⊎ (x ≡ invalid)
      ⊎ (x ≡ faulty)
      ⊎ (x ≡ hung)
      ⊎ ((n : ℕ) × (pd : Deserialiser) × (x ≡ packet n pd))
Front-cases partial = inl refl
Front-cases invalid = inr (inl refl)
Front-cases faulty = inr (inr (inl refl))
Front-cases hung = inr (inr (inr (inl refl)))
Front-cases (packet n pd) = inr (inr (inr (inr (n, pd, refl))))
