-- ===== src/Peer/Stream/Sound.antt =====
-- io_peer_recv() of src/DirectPlay8Peer.cpp on any bytes: it returns, and there is room for the next read.
use directplay_lite.Common.{
  ℕ, zero, suc, ◌^◌, ◌≤◌, ◌<◌, ◌≡◌, ◌⊎◌, inl, inr, refl, sym, ap, ◌∙◌, true, subst, Bool, false,
  List, [], ◌∷◌, ◌++◌, length, drop, arith, Bool-cases, length-drop, All, All-append, All-drop,
}
use mathlib.Core.List.{append_assoc}
use directplay_lite.Packet.Bytes.{IsByte}
use directplay_lite.Packet.Deserialiser.{Deserialiser}
use directplay_lite.Peer.Stream.{
  max_packet_size, Read, would_block, end_of_stream, failed, received, Drained, waiting, gone,
  dropped, fault, stuck, Receiver, Ended, returned, no_peer, crashed, full_packet_size, front,
  resume, drain_within, drain, receive, finish, claims, io_peer_recv,
}
use directplay_lite.Peer.Stream.Buffer.{Front-cases, front-packet}
use directplay_lite.Peer.Stream.Wrapped.{
  IsWhole, front-IsWhole, HasWrap, Stands, Stands-drop, Stands-wrap,
}
use directplay_lite.Peer.Stream.Split.{loop-turn, loop, turn-exists, turn-gone}

abbrev IsReadable : Read → Type 0
IsReadable would_block = Unit
IsReadable end_of_stream = Unit
IsReadable failed = Unit
IsReadable (received bytes) = All IsByte bytes

abbrev HasRoom : List ℕ → Type 0
HasRoom buffer = All IsByte buffer × (length buffer < max_packet_size)

-- The bytes that the reads give.
abbrev pub bytes_of : List Read → List ℕ
bytes_of [] = []
bytes_of (would_block ∷ reads) = []
bytes_of (end_of_stream ∷ reads) = []
bytes_of (failed ∷ reads) = []
bytes_of (received bytes ∷ reads) = bytes ++ bytes_of reads

module _ {S : Type 0} (m : ℕ) (dispatch : Deserialiser → S → S) (exists closing : S → Bool)
    (destroy : S → S) (wide : 2 ^ 32 ≤ m) where
  abbrev IsSound : Drained S → Type 0
  IsSound (waiting b s) = HasRoom b
  IsSound (gone s) = Unit
  IsSound (dropped s) = Unit
  IsSound fault = ⊥
  IsSound stuck = ⊥

  abbrev IsSoundIn : List ℕ → List ℕ → Drained S → Type 0
  IsSoundIn bytes later (waiting b s) = HasRoom b × Stands bytes later b
  IsSoundIn bytes later (gone s) = Unit
  IsSoundIn bytes later (dropped s) = Unit
  IsSoundIn bytes later fault = ⊥
  IsSoundIn bytes later stuck = ⊥

  whole-IsSound :
      (bytes later : List ℕ) (f : ℕ) (b : List ℕ) (s : S)
      → All IsByte b
      → length b < f
      → Stands bytes later b
      → IsSoundIn bytes later (loop m dispatch exists closing destroy f b s) ⊎ HasWrap m bytes
  unfolding drain_within
  whole-IsSound bytes later zero b s h k at = absurd (omega (arith, k))
  whole-IsSound bytes later (suc f) b s h k at =
      let turn' = loop-turn m dispatch exists closing destroy f b s in
      elim (front-IsWhole m b wide h) [
        | inr wraps ↦ inr (Stands-wrap m bytes later b (full_packet_size m b) at wraps)
        | inl w ↦ elim (Front-cases (front m b)) [
          | inl e ↦ inl (rw (turn' _ e) ((h, subst (IsWhole b) e w), at))
          | inr (inl e) ↦ inl (rw (turn' _ e) tt)
          | inr (inr (inl e)) ↦ absurd (subst (IsWhole b) e w)
          | inr (inr (inr (inl e))) ↦ absurd (subst (IsWhole b) e w)
          | inr (inr (inr (inr (n, pd, e)))) ↦ elim (Bool-cases (exists (dispatch pd s))) [
            | inl p ↦
                let (at_least, at_most, _) = front-packet m b n pd e in
                let shorter = length-drop n b in
                rw (turn' _ e, turn-exists m dispatch exists closing destroy f b s n pd p)
                  (whole-IsSound bytes later f (drop n b) (dispatch pd s) (All-drop IsByte n b h)
                    (omega (arith, k, shorter, at_least, at_most)) (Stands-drop bytes later b n at))
            | inr p ↦
                inl (rw (turn' _ e, turn-gone m dispatch exists closing destroy f b s n pd p) tt)
          ]
        ]
      ]

  resume-IsSound :
      (bytes later : List ℕ) (reads : List Read) (d : Drained S)
      → IsSoundIn bytes later d ⊎ HasWrap m bytes
      → ((b : List ℕ) (s : S)
          → HasRoom b
          → Stands bytes later b
          → IsSound (receive m dispatch exists closing destroy reads b s) ⊎ HasWrap m bytes)
      → IsSound (
          resume m dispatch exists closing destroy
            (receive m dispatch exists closing destroy reads)
            d)
        ⊎ HasWrap m bytes
  resume-IsSound bytes later reads d (inr wraps) next = inr wraps
  resume-IsSound bytes later reads (waiting b s) (inl (h, at)) next = next b s h at
  resume-IsSound bytes later reads (gone s) (inl h) next = inl h
  resume-IsSound bytes later reads (dropped s) (inl h) next = inl h
  resume-IsSound bytes later reads fault (inl h) next = inl h
  resume-IsSound bytes later reads stuck (inl h) next = inl h

  -- A peer that is closing keeps its buffer.
  receive-closing :
      (reads : List Read) (b : List ℕ) (s : S)
      → closing s ≡ true
      → HasRoom b
      → IsSound (receive m dispatch exists closing destroy reads b s)
  unfolding receive
  receive-closing [] b s p r = r
  receive-closing (would_block ∷ reads) b s p r = r
  receive-closing (end_of_stream ∷ reads) b s p r = tt
  receive-closing (failed ∷ reads) b s p r = tt
  receive-closing (received bytes ∷ reads) b s p r = rw (receive, p) (receive-closing reads b s p r)

  receive-IsSound :
      (all : List ℕ) (reads : List Read) (b : List ℕ) (s : S)
      → All IsReadable reads
      → HasRoom b
      → Stands all (bytes_of reads) b
      → IsSound (receive m dispatch exists closing destroy reads b s) ⊎ HasWrap m all
  unfolding receive drain
  receive-IsSound all [] b s h r at = inl r
  receive-IsSound all (would_block ∷ reads) b s h r at = inl r
  receive-IsSound all (end_of_stream ∷ reads) b s h r at = inl tt
  receive-IsSound all (failed ∷ reads) b s h r at = inl tt
  receive-IsSound all (received bytes ∷ reads) b s h r (before, e) =
      let at : Stands all (bytes_of reads) (b ++ bytes) =
        (before, e ∙ ap (λ x. before ++ x) (sym (append_assoc b bytes (bytes_of reads)))) in
      elim (Bool-cases (closing s)) [
        | inl p ↦ inl (rw (receive, p) (receive-closing reads b s p r))
        | inr p ↦
            rw (receive, p)
              (resume-IsSound all (bytes_of reads) reads
                (drain m dispatch exists closing destroy (b ++ bytes) s)
                (whole-IsSound all (bytes_of reads) (suc (length (b ++ bytes))) (b ++ bytes) s
                  (All-append IsByte b bytes r.0 h.0) (omega arith) at)
                (λ b' s' r' at'. receive-IsSound all reads b' s' h.1 r' at'))
      ]

  abbrev pub Leaves : Bool → Ended S → Type 0
  Leaves busy (returned r s) =
      All IsByte r.buffer × (length r.buffer < max_packet_size) × (r.recv_busy ≡ busy)
  Leaves busy (no_peer s) = Unit
  Leaves busy crashed = ⊥

  finish-Leaves :
      (d : Drained S) → IsSound d → Leaves false (finish m dispatch exists closing destroy d)
  finish-Leaves (waiting b s) h = (h.0, h.1, refl)
  finish-Leaves (gone s) h = tt
  finish-Leaves (dropped s) h = tt
  finish-Leaves fault h = h
  finish-Leaves stuck h = h

  -- Whatever bytes a peer sends, however they arrive in reads and whatever its handlers do, io_peer_recv() returns: it neither
  -- loops for ever nor reads past its buffer. If the peer is still there, then its buffer is not full, so
  -- the next recv() has room, and recv_busy is what it was before the call. The other case is that in the buffer and the reads there stands
  -- a whole packet, no larger than MAX_PACKET_SIZE, in which a field, behind whole fields, announces a size that
  -- does not fit a size_t. A size_t, whose modulus is `m`, has 32 bits or more, the buffer was not full before,
  -- and it and the reads consist of bytes.
  pub io_peer_recv-Leaves :
      (reads : List Read) (r : Receiver) (s : S)
      → All IsReadable reads
      → All IsByte r.buffer
      → length r.buffer < max_packet_size
      → Leaves r.recv_busy (io_peer_recv m dispatch exists closing destroy reads r s)
        ⊎ HasWrap m (r.buffer ++ bytes_of reads)
  unfolding io_peer_recv
  io_peer_recv-Leaves reads r s h b l = elim (Bool-cases (exists s)) [
    | inr p ↦ inl (rw (io_peer_recv, p) tt)
    | inl p ↦ elim (Bool-cases r.recv_busy) [
      | inl q ↦ inl (rw (io_peer_recv, p, q) (b, l, refl))
      | inr q ↦ elim (Bool-cases (claims m dispatch exists closing destroy reads)) [
        | inr c ↦ inl (rw (io_peer_recv, p, q, c) (b, l, refl))
        | inl c ↦
            elim (receive-IsSound (r.buffer ++ bytes_of reads) reads r.buffer s h (b, l)
              ([], refl)) [
                | inr wraps ↦ inr wraps
                | inl sound ↦ inl (
                    rw (io_peer_recv, p, q, c)
                      (finish-Leaves (receive m dispatch exists closing destroy reads r.buffer s)
                        sound))
              ]
      ]
    ]
  ]
