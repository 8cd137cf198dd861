-- ===== src/Peer/Stream/Packets.antt =====
-- Packets sent by PacketSerialiser reach the handlers of the peer at the other end of the stream: io_peer_recv() of
-- src/DirectPlay8Peer.cpp with src/packet.cpp.
use directplay_lite.Common.{
  ℕ, suc, ◌+◌, ◌%◌, ◌^◌, ◌≤◌, ◌<◌, ◌≡◌, refl, sym, ap, ◌∙◌, Bool, true, false, List, [], ◌∷◌, ◌++◌,
  map, length, take, drop, get_elem?, some, ltb, leb, arith, length-append, drop-append,
  take-append, All,
}
use mathlib.Core.List.{append_assoc}
use native.Mathlib.Nat.{mod-eq_of_lt}
use directplay_lite.Packet.Bytes.{le_bytes, le_value-le_bytes}
use directplay_lite.Packet.Serialiser.{Field, serialiser, append_all, chunk_header}
use directplay_lite.Packet.Wire.{encode_all, IsField, append_all-encode_all, length-chunk_header}
use directplay_lite.Packet.RoundTrip.{Reads, deserialise-append_all}
use directplay_lite.Packet.Deserialiser.{Deserialiser, packet_type, num_fields}
use directplay_lite.Peer.Stream.{
  max_packet_size, received, waiting, Receiver, returned, partial, packet, full_packet_size, front,
  drain, finish, io_peer_recv,
}
use directplay_lite.Peer.Stream.Buffer.{front-whole, front-packet}
use directplay_lite.Peer.Stream.Split.{
  concat, whole, loop-turn, turn-exists, loop-fuel, io_peer_recv-concat,
}

-- A packet to send: its type, and what is appended to it.
pub record Message : Type 0 where
  pub type : ℕ
  pub fields : List Field

abbrev pub encode : Message → List ℕ
encode msg = append_all msg.fields (serialiser msg.type)

abbrev pub stream : List Message → List ℕ
stream [] = []
stream (msg ∷ msgs) = encode msg ++ stream msgs

abbrev pub IsMessage : Message → Type 0
IsMessage msg =
    (msg.type < 2 ^ 32)
    × All IsField msg.fields
    × (8 + length (encode_all msg.fields) ≤ max_packet_size)

-- The packet that a handler gets has the message's type and fields.
abbrev pub Carries : Message → Deserialiser → Type 0
Carries msg pd =
    (packet_type pd ≡ msg.type)
    × (num_fields pd ≡ length msg.fields)
    × ((i : ℕ) (f : Field) → get_elem? msg.fields i ≡ some f → Reads f pd i)

abbrev pub CarryAll : List Message → List Deserialiser → Type 0
CarryAll [] [] = Unit
CarryAll (msg ∷ msgs) (pd ∷ pds) = Carries msg pd × CarryAll msgs pds
CarryAll _ _ = ⊥

drop-le_bytes : (v : ℕ) (rest : List ℕ) → drop 4 (le_bytes 4 v ++ rest) ≡ rest
unfolding le_bytes
drop-le_bytes v rest = refl

take-le_bytes : (v : ℕ) (rest : List ℕ) → take 4 (le_bytes 4 v ++ rest) ≡ le_bytes 4 v
unfolding le_bytes
take-le_bytes v rest = refl

module _ (m : ℕ) (wide : max_packet_size < m) where
  full_packet_size-chunk_header :
      (t n : ℕ) (rest : List ℕ)
      → 8 + n ≤ max_packet_size
      → full_packet_size m (chunk_header t n ++ rest) ≡ 8 + n
  unfolding chunk_header
  full_packet_size-chunk_header t n rest h =
      let small : n % 2 ^ 32 ≡ n = mod-eq_of_lt (omega (arith, h)) in
      let fits : (8 + n) % m ≡ 8 + n = mod-eq_of_lt (omega (arith, h, wide)) in
      rw (
        append_assoc (le_bytes 4 (t % 2 ^ 32)) (le_bytes 4 (n % 2 ^ 32)) rest,
        drop-le_bytes (t % 2 ^ 32),
        take-le_bytes (n % 2 ^ 32) rest,
        small,
        le_value-le_bytes n (omega (arith, h)),
        fits,
      )

  -- A buffer that starts with a whole message.
  front-stream :
      (msg : Message) (rest : List ℕ)
      → IsMessage msg
      → (pd : Deserialiser) × Carries msg pd
        × (front m (encode msg ++ rest) ≡ packet (length (encode msg)) pd)
  front-stream msg rest (t, fs, l) =
      let n = length (encode_all msg.fields) in
      let (pd, e, type, num, reads) =
        deserialise-append_all m msg.type msg.fields t (omega (arith, l)) (omega (arith, l, wide))
          fs in
      let wire = append_all-encode_all msg.type msg.fields fs in
      let size : length (encode msg) ≡ 8 + n =
        ap length wire
        ∙ omega (
          arith,
          length-append (chunk_header msg.type n) (encode_all msg.fields),
          length-chunk_header msg.type n,
        ) in
      let full : full_packet_size m (encode msg ++ rest) ≡ length (encode msg) =
        ap (λ b. full_packet_size m (b ++ rest)) wire
        ∙ (rw append_assoc
            (full_packet_size-chunk_header msg.type n (encode_all msg.fields ++ rest) l))
        ∙ sym size in
      let total = length-append (encode msg) rest in
      let p : ltb (length (encode msg ++ rest)) 8 ≡ false = ground (arith, total, size) in
      let q : ltb max_packet_size (length (encode msg)) ≡ false = ground (arith, size, l) in
      let r : leb (length (encode msg)) (length (encode msg ++ rest)) ≡ true =
        ground (arith, total) in
      (
        pd,
        (type, num, reads),
        front-whole m (encode msg ++ rest) p (rw full q) (rw full r)
            ∙ rw (full, take-append (encode msg) rest, e),
      )

-- The handlers of packets, in order.
abbrev pub handle_all : {S : Type 0} → (Deserialiser → S → S) → List Deserialiser → S → S
handle_all dispatch [] s = s
handle_all dispatch (pd ∷ pds) s = handle_all dispatch pds (dispatch pd s)

module _ {S : Type 0} (m : ℕ) (dispatch : Deserialiser → S → S) (exists closing : S → Bool)
    (destroy : S → S) (wide : max_packet_size < m)
    (stays : (pd : Deserialiser) (s : S) → exists s ≡ true → exists (dispatch pd s) ≡ true) where
  whole-stream :
      (msgs : List Message) (tail : List ℕ) (s : S)
      → All IsMessage msgs
      → exists s ≡ true
      → front m tail ≡ partial
      → (pds : List Deserialiser) × CarryAll msgs pds
        × (whole m dispatch exists closing destroy (stream msgs ++ tail) s
            ≡ waiting tail (handle_all dispatch pds s))
  unfolding drain
  whole-stream [] tail s h x e =
      ([], tt, loop-turn m dispatch exists closing destroy (length tail) tail s _ e)
  whole-stream (msg ∷ msgs) tail s h x e =
      let rest = stream msgs ++ tail in
      let b = encode msg ++ rest in
      let (pd, carries, at) = front-stream m wide msg rest h.0 in
      let (pds, all, ih) = whole-stream msgs tail (dispatch pd s) h.1 (stays pd s x) e in
      let (at_least, at_most, _) = front-packet m b (length (encode msg)) pd at in
      let total = length-append (encode msg) rest in
      (
        pd ∷ pds,
        (carries, all),
        ap (λ y. whole m dispatch exists closing destroy y s)
              (append_assoc (encode msg) (stream msgs) tail)
            ∙ loop-turn m dispatch exists closing destroy (length b) b s _ at
            ∙ turn-exists m dispatch exists closing destroy (length b) b s (length (encode msg)) pd
                (stays pd s x)
            ∙ (rw (drop-append (encode msg) rest) (
                loop-fuel m dispatch exists closing destroy (length b) (suc (length rest)) rest
                  (dispatch pd s) (omega (arith, total, at_least)) (omega arith)))
            ∙ ih,
      )

  -- A round trip between peers: what io_peer_recv() makes of the bytes of packets that the serialiser built, sent one
  -- after the other and followed by the start of another, however they arrive in reads. Each packet reaches the
  -- dispatch once, in the order of sending, with its type and fields; what follows stays in the buffer. The
  -- packets are no larger than MAX_PACKET_SIZE, which a size_t holds, the buffer is empty before, the peer is idle and not closing, and no handler
  -- destroys or closes it.
  pub io_peer_recv-encode :
      ((pd : Deserialiser) (s : S) → closing s ≡ false → closing (dispatch pd s) ≡ false)
      → (msgs : List Message) (tail c : List ℕ) (chunks : List (List ℕ)) (r : Receiver) (s : S)
      → All IsMessage msgs
      → front m tail ≡ partial
      → concat (c ∷ chunks) ≡ stream msgs ++ tail
      → exists s ≡ true
      → closing s ≡ false
      → r.recv_busy ≡ false
      → r.buffer ≡ []
      → (pds : List Deserialiser) × CarryAll msgs pds
        × (io_peer_recv m dispatch exists closing destroy (map received (c ∷ chunks)) r s
            ≡ returned
                (record { buffer = tail; recv_busy = false; events_enabled = true })
                (handle_all dispatch pds s))
  unfolding front
  io_peer_recv-encode k msgs tail c chunks r s h e cut x o i b =
      let (pds, all, run) = whole-stream msgs tail s h x e in
      let empty : front m r.buffer ≡ partial = rw b refl in
      (
        pds,
        all,
        io_peer_recv-concat m dispatch exists closing destroy k c chunks r s x o i empty
            ∙ ap (finish m dispatch exists closing destroy) (
                ap (λ y. whole m dispatch exists closing destroy y s)
                  (ap (λ z. z ++ concat (c ∷ chunks)) b ∙ cut)
                ∙ run),
      )
