-- ===== src/Peer/Stream/Wrapped.antt =====
-- The front of the receive buffer and the packets whose sizes do not fit a size_t: io_peer_recv() of src/DirectPlay8Peer.cpp.
use directplay_lite.Common.{
  ℕ, ◌+◌, ◌^◌, ◌≤◌, ◌<◌, ◌≡◌, ◌⊎◌, inl, inr, refl, sym, ap, ◌∙◌, take-drop, List, ◌++◌, length,
  take, drop, arith, length-take_le, ◌%◌, ◌-◌, All, All-take,
}
use mathlib.Core.List.{append_assoc}
use native.Mathlib.Nat.{mod-eq_of_lt, mod-eq-sub-mod}
use directplay_lite.Packet.Bytes.{IsByte}
use directplay_lite.Packet.Deserialiser.{Deserialiser, Result}
use directplay_lite.Packet.Safety.{Parsed, Wraps, Behind, IsWrapped, deserialise-Parsed}
use directplay_lite.Peer.Stream.{
  max_packet_size, Front, partial, invalid, faulty, hung, packet, parsed, full_packet_size, front,
}
use directplay_lite.Peer.Stream.Buffer.{front-cases}
use directplay_lite.Packet.Chunks.{announced, announced-lt, announced-append}

-- Short of a packet there is room for more; a packet lies in the buffer.
abbrev pub IsWhole : List ℕ → Front → Type 0
IsWhole buffer partial = length buffer < max_packet_size
IsWhole buffer invalid = Unit {0}
IsWhole buffer faulty = ⊥
IsWhole buffer hung = ⊥
IsWhole buffer (packet n pd) = n ≤ length buffer

parsed-IsWhole :
    (buffer bytes : List ℕ) (n : ℕ) (r : Result Deserialiser)
    → n ≤ length buffer
    → Parsed bytes r
    → IsWhole buffer (parsed n r)
parsed-IsWhole buffer bytes n (Result.ok pd) h p = h
parsed-IsWhole buffer bytes n (Result.err e) h p = tt
parsed-IsWhole buffer bytes n Result.fault h p = p
parsed-IsWhole buffer bytes n Result.stuck h p = p

-- A whole packet with a field, behind others, whose size does not fit a size_t of the modulus `m`.
abbrev pub WrapsInside : ℕ → List ℕ → Type 0
WrapsInside m bytes =
    (length bytes ≡ 8 + announced bytes)
    × (length bytes ≤ max_packet_size)
    × Behind (IsWrapped m) (drop 8 bytes) (announced bytes)

mod_once : (m n : ℕ) → m ≤ n → n < m + m → n % m ≡ n - m
mod_once m n h k = mod-eq-sub-mod h ∙ mod-eq_of_lt (omega (arith, h, k))

-- With 32 bits or more, a header whose size wraps makes the packet too short to have one.
Wraps-front :
    (m n : ℕ) (buffer : List ℕ)
    → 2 ^ 32 ≤ m
    → All IsByte buffer
    → n ≡ full_packet_size m buffer
    → n ≤ max_packet_size
    → n ≤ length buffer
    → Wraps m (take n buffer)
    → WrapsInside m (take n buffer)
Wraps-front m n buffer wide h e small fits (long, why) =
    let size = length-take_le n buffer fits in
    let same : announced buffer ≡ announced (take n buffer) =
      ap announced (sym (take-drop n buffer))
      ∙ announced-append (take n buffer) (drop n buffer) long in
    let word = announced-lt (take n buffer) (All-take IsByte n buffer h) long in
    let whole : n ≡ (8 + announced (take n buffer)) % m = e ∙ ap (λ v. (8 + v) % m) same in
    elim why [
      | inl wraps ↦
          let over : (8 + announced (take n buffer)) % m ≡ 8 + announced (take n buffer) - m =
            mod_once m (8 + announced (take n buffer)) wraps (omega (arith, word, wide)) in
          absurd (omega (arith, whole, over, word, wide, size, long))
      | inr (room, inside) ↦
          let kept : (8 + announced (take n buffer)) % m ≡ 8 + announced (take n buffer) =
            mod-eq_of_lt (omega (arith, room, size, small, wide)) in
          (size ∙ whole ∙ kept, omega (arith, size, small), inside)
    ]

pub front-IsWhole :
    (m : ℕ) (buffer : List ℕ)
    → 2 ^ 32 ≤ m
    → All IsByte buffer
    → IsWhole buffer (front m buffer) ⊎ WrapsInside m (take (full_packet_size m buffer) buffer)
front-IsWhole m buffer wide h = elim (front-cases m buffer) [
  | inl (e, inl short) ↦ inl (rw e (omega (arith, short)))
  | inl (e, inr short) ↦ inl (rw e short)
  | inr (inl e) ↦ inl (rw e tt)
  | inr (inr (_, small, fits, e)) ↦
      let n = full_packet_size m buffer in
      elim (deserialise-Parsed m (take n buffer) (All-take IsByte n buffer h)) [
        | inr wraps ↦ inr (Wraps-front m n buffer wide h refl small fits wraps)
        | inl parsed ↦ inl (rw e (parsed-IsWhole buffer (take n buffer) n _ fits parsed))
      ]
]

-- Somewhere in the bytes stands such a packet.
abbrev pub HasWrap : ℕ → List ℕ → Type 0
HasWrap m bytes =
    (before : List ℕ) × (part : List ℕ) × (after : List ℕ) × (bytes ≡ before ++ (part ++ after))
    × WrapsInside m part

-- The buffer is what the bytes have in front of `later`, behind what was dealt with.
abbrev pub Stands : List ℕ → List ℕ → List ℕ → Type 0
Stands bytes later buffer = (before : List ℕ) × (bytes ≡ before ++ (buffer ++ later))

pub Stands-drop :
    (bytes later buffer : List ℕ) (n : ℕ)
    → Stands bytes later buffer
    → Stands bytes later (drop n buffer)
Stands-drop bytes later buffer n (before, e) = (
  before ++ take n buffer,
  e
      ∙ ap (λ b. before ++ (b ++ later)) (sym (take-drop n buffer))
      ∙ ap (λ b. before ++ b) (append_assoc (take n buffer) (drop n buffer) later)
      ∙ sym (append_assoc before (take n buffer) (drop n buffer ++ later)),
)

pub Stands-wrap :
    (m : ℕ) (bytes later buffer : List ℕ) (n : ℕ)
    → Stands bytes later buffer
    → WrapsInside m (take n buffer)
    → HasWrap m bytes
Stands-wrap m bytes later buffer n (before, e) wraps = (
  before,
  take n buffer,
  drop n buffer ++ later,
  e
      ∙ ap (λ b. before ++ (b ++ later)) (sym (take-drop n buffer))
      ∙ ap (λ b. before ++ b) (append_assoc (take n buffer) (drop n buffer) later),
  wraps,
)
