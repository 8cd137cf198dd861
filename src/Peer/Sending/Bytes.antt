-- ===== src/Peer/Sending/Bytes.antt =====
-- The bytes that io_peer_send() of src/DirectPlay8Peer.cpp puts on the stream.
use directplay_lite.Common.{
  ℕ, zero, suc, ◌+◌, ◌-◌, ◌≤◌, ◌≡◌, ◌⊎◌, inl, inr, refl, sym, ap, subst, ◌∙◌, Bool, ◌&&◌, List, [],
  ◌∷◌, ◌++◌, Option, none, some, ◌==◌, leb, Bool-cases, length, take, drop, All, arith, length-drop,
}
use mathlib.Core.List.{append_assoc}
use directplay_lite.SendQueue.{SendOp, SendQueue, get_pending, pop_pending, get_pending_data}
use directplay_lite.SendQueue.Transmit.{advance, inc_sent_data_lem, pending-advance}
use directplay_lite.SendQueue.Order.{
  waiting, to_list, order, Pending, get_pending-Pending, pop_pending_self,
}
use directplay_lite.Peer.Sending.{
  Writer, Sent, blocked, failed, room, Written, kept, gone, dropped, fault, taken, write_to, wake,
  idle, after_callback, complete_op, write, send_round, io_peer_send,
}

-- What of the ops has still to go out.
abbrev pub unsent : List SendOp → List ℕ
unsent [] = []
unsent (op ∷ ops) = get_pending_data op ++ unsent ops

abbrev pub IsOp : SendOp → Type 0
IsOp op = op.sent_data ≤ length op.bytes

-- Everything that the writer has put out or will.
abbrev pub stream_of : Writer → List ℕ
stream_of w = w.out ++ unsent (order w.sq)

-- What io_peer_send() makes of a stream: a writer with the same one, or a part of it where the peer goes.
abbrev pub Writes : List ℕ → Written → Type 0
Writes bytes (kept w) = (stream_of w ≡ bytes) × All IsOp (order w.sq)
Writes bytes (gone out) = (rest : List ℕ) × (out ++ rest ≡ bytes)
Writes bytes (dropped out) = (rest : List ℕ) × (out ++ rest ≡ bytes)
Writes bytes fault = ⊥

pub taken_le : (n : ℕ) (op : SendOp) → taken n op ≤ length (get_pending_data op)
taken_le n op = elim (Bool-cases (leb n (length (get_pending_data op)))) [
  | inl p ↦ rw p (ground (arith, p))
  | inr p ↦ rw p (omega arith)
]

pub length-get_pending_data :
    (op : SendOp) → length (get_pending_data op) ≡ length op.bytes - op.sent_data
unfolding get_pending_data
length-get_pending_data op = length-drop op.sent_data op.bytes

pub take-drop : (n : ℕ) (xs : List ℕ) → take n xs ++ drop n xs ≡ xs
take-drop zero xs = refl
take-drop (suc n) [] = refl
take-drop (suc n) (x ∷ xs) = ap (◌∷◌ x) (take-drop n xs)

pub drop-all : (xs : List ℕ) (n : ℕ) → n ≡ length xs → drop n xs ≡ []
drop-all [] zero h = refl
drop-all [] (suc n) h = refl
drop-all (x ∷ xs) zero h = absurd (omega (arith, h))
drop-all (x ∷ xs) (suc n) h = drop-all xs n (omega (arith, h))

-- The current op is the first.
pub order-current : (q : SendQueue) (op : SendOp) → q.current ≡ some op → order q ≡ op ∷ waiting q
order-current q op e = ap (λ c. to_list c ++ waiting q) e

pub order-wake :
    (q : SendQueue) (r : Option SendOp × SendQueue) → Pending q r → order (wake r) ≡ order q
order-wake q (none, q') (e, same) = rw same refl
order-wake q (some op, q') (cur, e, n) = rw cur (sym e)

module _ (callback : SendOp → Writer → Option Writer) (shutdown_works : Bool)
    (quiet : (op : SendOp) (w : Writer) → (callback op w ≡ none) ⊎ (callback op w ≡ some w)) where
  idle-Writes :
      (w : Writer) → All IsOp (order w.sq) → Writes (stream_of w) (idle callback shutdown_works w)
  idle-Writes w h = elim (Bool-cases (w.closing && w.send_open)) [
    | inr p ↦ rw p (refl, h)
    | inl p ↦ elim (Bool-cases shutdown_works) [
      | inl q ↦ rw (p, q) (refl, h)
      | inr q ↦ rw (p, q) (unsent (order w.sq), refl)
    ]
  ]

  module _ (next : Writer → Written)
      (go : (w : Writer) → All IsOp (order w.sq) → Writes (stream_of w) (next w)) where
    after_callback-Writes :
        (op : SendOp) (w : Writer)
        → All IsOp (order w.sq)
        → Writes (stream_of w) (after_callback callback shutdown_works next w.out (callback op w))
    after_callback-Writes op w h = elim (quiet op w) [
      | inl e ↦ rw e (unsent (order w.sq), refl)
      | inr e ↦ rw e (go w h)
    ]

    complete_op-Writes :
        (op : SendOp) (w : Writer)
        → w.sq.current ≡ some op
        → get_pending_data op ≡ []
        → All IsOp (order w.sq)
        → Writes (stream_of w) (complete_op callback shutdown_works next op w (pop_pending op w.sq))
    complete_op-Writes op w cur empty h =
        let popped = record w.sq { current = none } in
        let same = order-wake popped (get_pending popped) (get_pending-Pending popped) in
        let front = order-current w.sq op cur in
        let w' = record w { sq = wake (get_pending popped) } in
        let put = λ (ops : List SendOp). w.out ++ unsent ops in
        let before : stream_of w ≡ put (waiting w.sq) = ap put front ∙ rw empty refl in
        let good : All IsOp (order (wake (get_pending popped))) =
          subst (All IsOp) (sym same) ((subst (All IsOp) front h).1) in
        rw (pop_pending_self op w.sq cur) (
          subst (λ b. Writes b (after_callback callback shutdown_works next w.out (callback op w')))
            (ap put same ∙ sym before) (after_callback-Writes op w' good))

    write-Writes :
        (x : Sent) (op : SendOp) (w : Writer)
        → w.sq.current ≡ some op
        → All IsOp (order w.sq)
        → Writes (stream_of w) (write callback shutdown_works next x op w)
    write-Writes blocked op w cur h = (refl, h)
    write-Writes failed op w cur h = (unsent (order w.sq), refl)
    write-Writes (room n) op w cur h =
        let s = taken n op in
        let front = order-current w.sq op cur in
        let all = subst (All IsOp) front h in
        let size = length-get_pending_data op in
        let fits = taken_le n op in
        let op' = advance s op in
        let w' = write_to s op op' w in
        let bound : op.sent_data + s ≤ length op.bytes = omega (arith, all.0, size, fits) in
        let left = pending-advance s op in
        let P = get_pending_data op in
        let same : stream_of w' ≡ stream_of w =
          append_assoc w.out (take s P) (get_pending_data op' ++ unsent (waiting w.sq))
          ∙ ap (λ ys. w.out ++ ys)
              (sym (append_assoc (take s P) (get_pending_data op') (unsent (waiting w.sq)))
                ∙ ap (λ ys. ys ++ unsent (waiting w.sq))
                    (ap (λ ys. take s P ++ ys) left ∙ take-drop s P))
          ∙ sym (ap (λ ops. w.out ++ unsent ops) front) in
        let good : All IsOp (order w'.sq) = (bound, all.1) in
        elim (Bool-cases (s == length P)) [
          | inl p ↦
              let done : get_pending_data op' ≡ [] = left ∙ drop-all P s (ground (arith, p)) in
              rw (inc_sent_data_lem s op bound, p)
                (subst
                  (λ b.
                    Writes b
                      (complete_op callback shutdown_works next op' w' (pop_pending op' w'.sq)))
                  same (complete_op-Writes op' w' refl done good))
          | inr p ↦
              rw (inc_sent_data_lem s op bound, p)
                (subst (λ b. Writes b (next w')) same (go w' good))
        ]

    send_round-Writes :
        (x : Sent) (w : Writer) (r : Option SendOp × SendQueue)
        → Pending w.sq r
        → All IsOp (order w.sq)
        → Writes (stream_of w) (send_round callback shutdown_works next x w r)
    send_round-Writes x w (none, q) (e, same) h = rw same (idle-Writes w h)
    send_round-Writes x w (some op, q) (cur, e, n) h =
        let same : order q ≡ order w.sq = order-current q op cur ∙ sym e in
        subst (λ b. Writes b (write callback shutdown_works next x op (record w { sq = q })))
          (ap (λ ops. w.out ++ unsent ops) same)
          (write-Writes x op (record w { sq = q }) cur (subst (All IsOp) (sym same) h))

  -- However much send() takes at each call, io_peer_send() puts the bytes of the queued messages on the stream in the order of the
  -- queue: what has gone out followed by what has still to go out stays the same, and where the peer goes, what has gone out
  -- is the start of that. No assertion fails. The messages' counters are in bounds, and a callback leaves the
  -- writer alone, or destroys the peer.
  pub io_peer_send-Writes :
      (sends : List Sent) (w : Writer)
      → All IsOp (order w.sq)
      → Writes (stream_of w) (io_peer_send callback shutdown_works sends w)
  unfolding io_peer_send
  io_peer_send-Writes [] w h =
      send_round-Writes kept (λ v g. (refl, g)) blocked w (get_pending w.sq)
        (get_pending-Pending w.sq) h
  io_peer_send-Writes (x ∷ sends) w h =
      send_round-Writes (io_peer_send callback shutdown_works sends) (io_peer_send-Writes sends) x w
        (get_pending w.sq) (get_pending-Pending w.sq) h
