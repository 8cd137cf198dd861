-- ===== src/Peer/Stream/Split.antt =====
-- The packets that io_peer_recv() finds do not depend on how the stream is cut into reads: src/DirectPlay8Peer.cpp.
use directplay_lite.Common.{
  ℕ, zero, suc, ◌<◌, ◌≡◌, ◌≢◌, inl, inr, refl, sym, ap, ◌∙◌, Bool, true, false, List, [], ◌∷◌, ◌++◌,
  map, length, drop, arith, Bool-cases, length-append, length-drop, drop-append_le,
}
use mathlib.Core.List.{append_assoc, append-nil}
use directplay_lite.Packet.Deserialiser.{Deserialiser}
use directplay_lite.Peer.Stream.{
  Read, received, Drained, waiting, gone, dropped, fault, stuck, Receiver, Front, partial, packet,
  front, proceed, resume, drain_within, drain, receive, finish, io_peer_recv,
}
use directplay_lite.Peer.Stream.Buffer.{front-packet, front-append, Front-cases}

abbrev pub concat : List (List ℕ) → List ℕ
concat [] = []
concat (c ∷ cs) = c ++ concat cs

module _ {S : Type 0} (m : ℕ) (dispatch : Deserialiser → S → S) (exists closing : S → Bool)
    (destroy : S → S) where
  -- The loop with its parameters.
  abbrev pub loop : ℕ → List ℕ → S → Drained S
  loop = drain_within m dispatch exists closing destroy

  abbrev pub whole : List ℕ → S → Drained S
  whole = drain m dispatch exists closing destroy

  abbrev pub turn : ℕ → List ℕ → S → Front → Drained S
  turn f = proceed m dispatch exists closing destroy (loop f)

  pub loop-turn :
      (f : ℕ) (b : List ℕ) (s : S) (x : Front) → front m b ≡ x → loop (suc f) b s ≡ turn f b s x
  unfolding drain_within
  loop-turn f b s x e = ap (turn f b s) e

  pub turn-exists :
      (f : ℕ) (b : List ℕ) (s : S) (n : ℕ) (pd : Deserialiser)
      → exists (dispatch pd s) ≡ true
      → turn f b s (packet n pd) ≡ loop f (drop n b) (dispatch pd s)
  turn-exists f b s n pd p = rw (turn, proceed, p)

  pub turn-gone :
      (f : ℕ) (b : List ℕ) (s : S) (n : ℕ) (pd : Deserialiser)
      → exists (dispatch pd s) ≡ false
      → turn f b s (packet n pd) ≡ gone (dispatch pd s)
  turn-gone f b s n pd p = rw (turn, proceed, p)

  -- Any fuel above the length of the buffer does.
  pub loop-fuel :
      (f g : ℕ) (b : List ℕ) (s : S) → length b < f → length b < g → loop f b s ≡ loop g b s
  unfolding drain_within
  loop-fuel zero g b s h k = absurd (omega (arith, h))
  loop-fuel (suc f) zero b s h k = absurd (omega (arith, k))
  loop-fuel (suc f) (suc g) b s h k = elim (Front-cases (front m b)) [
    | inl e ↦ loop-turn f b s _ e ∙ sym (loop-turn g b s _ e)
    | inr (inl e) ↦ loop-turn f b s _ e ∙ sym (loop-turn g b s _ e)
    | inr (inr (inl e)) ↦ loop-turn f b s _ e ∙ sym (loop-turn g b s _ e)
    | inr (inr (inr (inl e))) ↦ loop-turn f b s _ e ∙ sym (loop-turn g b s _ e)
    | inr (inr (inr (inr (n, pd, e)))) ↦
        let (at_least, at_most, _) = front-packet m b n pd e in
        let shorter = length-drop n b in
        let rest =
          loop-fuel f g (drop n b) (dispatch pd s) (omega (arith, h, shorter, at_least, at_most))
            (omega (arith, k, shorter, at_least, at_most)) in
        loop-turn f b s _ e ∙ (ground (arith, rest)) ∙ sym (loop-turn g b s _ e)
  ]

  -- The loop over more bytes, from where the loop over fewer ended.
  abbrev pub continue : Drained S → List ℕ → Drained S
  continue (waiting b s) bytes = whole (b ++ bytes) s
  continue (gone s) bytes = gone s
  continue (dropped s) bytes = dropped s
  continue fault bytes = fault
  continue stuck bytes = stuck

  whole-turn :
      (b bytes : List ℕ) (s : S) (x : Front)
      → front m b ≡ x
      → x ≢ partial
      → whole (b ++ bytes) s ≡ turn (length (b ++ bytes)) (b ++ bytes) s x
  unfolding drain
  whole-turn b bytes s x e a =
      loop-turn (length (b ++ bytes)) (b ++ bytes) s x
        (front-append m b bytes (λ q. a (sym e ∙ q)) ∙ e)

  drain-append_within :
      (f : ℕ) (b bytes : List ℕ) (s : S)
      → length b < f
      → whole (b ++ bytes) s ≡ continue (loop f b s) bytes
  unfolding drain
  drain-append_within zero b bytes s h = absurd (omega (arith, h))
  drain-append_within (suc f) b bytes s h =
      let back =
        λ (x : Front) (e : front m b ≡ x). sym (ap (λ y. continue y bytes) (loop-turn f b s x e)) in
      elim (Front-cases (front m b)) [
        | inl e ↦ back _ e
        | inr (inl e) ↦ whole-turn b bytes s _ e (λ q. ground (arith, q)) ∙ back _ e
        | inr (inr (inl e)) ↦ whole-turn b bytes s _ e (λ q. ground (arith, q)) ∙ back _ e
        | inr (inr (inr (inl e))) ↦ whole-turn b bytes s _ e (λ q. ground (arith, q)) ∙ back _ e
        | inr (inr (inr (inr (n, pd, e)))) ↦
            let (at_least, at_most, _) = front-packet m b n pd e in
            let shorter = length-drop n b in
            let first = whole-turn b bytes s _ e (λ q. ground (arith, q)) in
            let ih =
              drain-append_within f (drop n b) bytes (dispatch pd s)
                (omega (arith, h, shorter, at_least, at_most)) in
            let room : length (drop n b ++ bytes) < length (b ++ bytes) = omega (
              arith,
              length-append (drop n b) bytes,
              length-append b bytes,
              shorter,
              at_least,
              at_most,
            ) in
            let enough =
              loop-fuel (length (b ++ bytes)) (suc (length (drop n b ++ bytes))) (drop n b ++ bytes)
                (dispatch pd s) room (omega arith) in
            elim (Bool-cases (exists (dispatch pd s))) [
              | inl p ↦
                  let cut = drop-append_le n b bytes at_most in
                  first
                  ∙ turn-exists (length (b ++ bytes)) (b ++ bytes) s n pd p
                  ∙ ap (λ y. loop (length (b ++ bytes)) y (dispatch pd s)) cut
                  ∙ enough
                  ∙ ih
                  ∙ ap (λ y. continue y bytes) (sym (turn-exists f b s n pd p))
                  ∙ back _ e
              | inr p ↦
                  first
                  ∙ turn-gone (length (b ++ bytes)) (b ++ bytes) s n pd p
                  ∙ ap (λ y. continue y bytes) (sym (turn-gone f b s n pd p))
                  ∙ back _ e
            ]
      ]

  pub drain-append : (b bytes : List ℕ) (s : S) → whole (b ++ bytes) s ≡ continue (whole b s) bytes
  unfolding drain
  drain-append b bytes s = drain-append_within (suc (length b)) b bytes s (omega arith)

  abbrev KeepsOpen : Type 0
  KeepsOpen = (pd : Deserialiser) (s : S) → closing s ≡ false → closing (dispatch pd s) ≡ false

  -- Where the loop waits, no packet is left at the front, and the peer is not closing.
  abbrev IsRest : Drained S → Type 0
  IsRest (waiting b s) = (front m b ≡ partial) × (closing s ≡ false)
  IsRest (gone s) = Unit
  IsRest (dropped s) = Unit
  IsRest fault = Unit
  IsRest stuck = Unit

  loop-IsRest :
      (k : KeepsOpen) (f : ℕ) (b : List ℕ) (s : S) → closing s ≡ false → IsRest (loop f b s)
  unfolding drain_within
  loop-IsRest k zero b s o = tt
  loop-IsRest k (suc f) b s o = elim (Front-cases (front m b)) [
    | inl e ↦ rw (loop-turn f b s _ e) (e, o)
    | inr (inl e) ↦ rw (loop-turn f b s _ e) tt
    | inr (inr (inl e)) ↦ rw (loop-turn f b s _ e) tt
    | inr (inr (inr (inl e))) ↦ rw (loop-turn f b s _ e) tt
    | inr (inr (inr (inr (n, pd, e)))) ↦ elim (Bool-cases (exists (dispatch pd s))) [
      | inl p ↦
          rw (loop-turn f b s _ e, turn-exists f b s n pd p)
            (loop-IsRest k f (drop n b) (dispatch pd s) (k pd s o))
      | inr p ↦ rw (loop-turn f b s _ e, turn-gone f b s n pd p) tt
    ]
  ]

  resume-continue :
      (reads : List Read) (bytes : List ℕ) (d : Drained S)
      → IsRest d
      → ((b : List ℕ) (s : S)
          → front m b ≡ partial
          → closing s ≡ false
          → receive m dispatch exists closing destroy reads b s ≡ whole (b ++ bytes) s)
      → resume m dispatch exists closing destroy (receive m dispatch exists closing destroy reads) d
        ≡ continue d bytes
  resume-continue reads bytes (waiting b s) r next = next b s r.0 r.1
  resume-continue reads bytes (gone s) r next = refl
  resume-continue reads bytes (dropped s) r next = refl
  resume-continue reads bytes fault r next = refl
  resume-continue reads bytes stuck r next = refl

  receive-concat :
      (k : KeepsOpen) (chunks : List (List ℕ)) (b : List ℕ) (s : S)
      → front m b ≡ partial
      → closing s ≡ false
      → receive m dispatch exists closing destroy (map received chunks) b s
        ≡ whole (b ++ concat chunks) s
  unfolding receive drain
  receive-concat k [] b s e o = rw (append-nil b) (sym (loop-turn (length b) b s _ e))
  receive-concat k (c ∷ cs) b s e o =
      rw (receive, o)
        (resume-continue (map received cs) (concat cs) (whole (b ++ c) s)
            (loop-IsRest k (suc (length (b ++ c))) (b ++ c) s o) (receive-concat k cs)
          ∙ sym (drain-append (b ++ c) (concat cs) s)
          ∙ ap (λ y. whole y s) (append_assoc b c (concat cs)))

  -- However the bytes of the stream arrive in reads, io_peer_recv() does what one run of its inner loop over all
  -- of them does: it dispatches the same packets in the same order, and leaves the same rest in the buffer. The
  -- peer exists and is not closing, no handler closes it, no other thread reads from it, and there is no whole packet in the
  -- buffer yet.
  pub io_peer_recv-concat :
      (k : (pd : Deserialiser) (s : S) → closing s ≡ false → closing (dispatch pd s) ≡ false)
      (c : List ℕ) (chunks : List (List ℕ)) (r : Receiver) (s : S)
      → exists s ≡ true
      → closing s ≡ false
      → r.recv_busy ≡ false
      → front m r.buffer ≡ partial
      → io_peer_recv m dispatch exists closing destroy (map received (c ∷ chunks)) r s
        ≡ finish m dispatch exists closing destroy
            (drain m dispatch exists closing destroy (r.buffer ++ concat (c ∷ chunks)) s)
  unfolding io_peer_recv
  io_peer_recv-concat k c chunks r s x o b e =
      let all = receive-concat k (c ∷ chunks) r.buffer s e o in rw (io_peer_recv, x, b, all)
