-- ===== src/Peer/Sending/Flush.antt =====
-- io_peer_send() of src/DirectPlay8Peer.cpp where the socket has room for what is queued.
use directplay_lite.Common.{
  ℕ, suc, ◌+◌, ◌≤◌, ◌≡◌, inl, inr, refl, sym, ap, subst, ◌∙◌, true, ◌&&◌, List, [], ◌∷◌, ◌++◌,
  Option, none, some, ◌==◌, leb, Bool-cases, length, take, All, arith,
}
use mathlib.Core.List.{append_assoc, append-nil}
use directplay_lite.SendQueue.{SendOp, SendQueue, get_pending, get_pending_data}
use directplay_lite.SendQueue.Transmit.{advance, inc_sent_data_lem}
use directplay_lite.SendQueue.Order.{waiting, order, Pending, get_pending-Pending, pop_pending_self}
use directplay_lite.Peer.Sending.{
  Writer, Sent, blocked, failed, room, Written, kept, gone, dropped, fault, taken, write_to, wake,
  idle, write, send_round, io_peer_send,
}
use directplay_lite.Peer.Sending.Bytes.{
  unsent, IsOp, stream_of, length-get_pending_data, order-wake,
}

abbrev pub HasRoom : ℕ → Sent → Type 0
HasRoom k blocked = ⊥
HasRoom k failed = ⊥
HasRoom k (room n) = k ≤ n

-- An op in bounds that such a socket takes as a whole.
abbrev pub IsSmall : ℕ → SendOp → Type 0
IsSmall k op = IsOp op × (length op.bytes ≤ k)

abbrev pub Flushed : List ℕ → Written → Type 0
Flushed bytes (kept w) = (w.out ≡ bytes) × (order w.sq ≡ [])
Flushed bytes (gone out) = ⊥
Flushed bytes (dropped out) = ⊥
Flushed bytes fault = ⊥

all_taken : (n : ℕ) (op : SendOp) → length op.bytes ≤ n → taken n op ≡ length (get_pending_data op)
all_taken n op h =
    let size = length-get_pending_data op in
    elim (Bool-cases (leb n (length (get_pending_data op)))) [
      | inl p ↦ rw p (ground (arith, p, h, size))
      | inr p ↦ rw p refl
    ]

take-all : (xs : List ℕ) → take (length xs) xs ≡ xs
take-all [] = refl
take-all (x ∷ xs) = ap (◌∷◌ x) (take-all xs)

module _ (callback : SendOp → Writer → Option Writer)
    (quiet : (op : SendOp) (w : Writer) → callback op w ≡ some w) where
  idle-Flushed : (w : Writer) → order w.sq ≡ [] → Flushed (stream_of w) (idle callback true w)
  idle-Flushed w e =
      let all : w.out ≡ stream_of w = sym (ap (λ ops. w.out ++ unsent ops) e ∙ append-nil w.out) in
      elim (Bool-cases (w.closing && w.send_open)) [ inl p ↦ rw p (all, e) | inr p ↦ rw p (all, e) ]

  -- One message as a whole.
  write-whole :
      (next : Writer → Written) (k n : ℕ) (op : SendOp) (w : Writer)
      → w.sq.current ≡ some op
      → IsSmall k op
      → k ≤ n
      → (w' : Writer) × (write callback true next (room n) op w ≡ next w')
        × (order w'.sq ≡ waiting w.sq)
        × (w'.out ≡ w.out ++ get_pending_data op)
  write-whole next k n op w cur small wide =
      let P = get_pending_data op in
      let s = length P in
      let size = length-get_pending_data op in
      let whole = all_taken n op (omega (arith, small, wide)) in
      let bound : op.sent_data + s ≤ length op.bytes = omega (arith, small, size) in
      let op' = advance s op in
      let v = write_to s op op' w in
      let popped = record v.sq { current = none } in
      let same = order-wake popped (get_pending popped) (get_pending-Pending popped) in
      let exact : (s == s) ≡ true = ground arith in
      let w' = record v { sq = wake (get_pending popped) } in
      (
        w',
        rw
            (
              whole,
              inc_sent_data_lem s op bound,
              exact,
              pop_pending_self op' v.sq refl,
              quiet op' w',
            )
            refl,
        same,
        ap (λ ys. w.out ++ ys) (take-all P),
      )

  send_round-Flushed :
      (next : Writer → Written) (k n : ℕ) (w : Writer) (r : Option SendOp × SendQueue)
      → Pending w.sq r
      → k ≤ n
      → All (IsSmall k) (order w.sq)
      → ((w' : Writer)
          → All (IsSmall k) (order w'.sq)
          → suc (length (order w'.sq)) ≡ length (order w.sq)
          → Flushed (stream_of w') (next w'))
      → Flushed (stream_of w) (send_round callback true next (room n) w r)
  send_round-Flushed next k n w (none, q) (e, same) wide h go = rw same (idle-Flushed w e)
  send_round-Flushed next k n w (some op, q) (cur, e, a) wide h go =
      let all = subst (All (IsSmall k)) e h in
      let v = record w { sq = q } in
      let (w', run, rest, out) = write-whole next k n op v cur all.0 wide in
      let done =
        go w' (subst (All (IsSmall k)) (sym rest) all.1)
          (ap (λ ops. suc (length ops)) rest ∙ sym (ap length e)) in
      let same : stream_of w' ≡ stream_of w =
        ap (λ ops. w'.out ++ unsent ops) rest
        ∙ ap (λ ys. ys ++ unsent (waiting q)) out
        ∙ append_assoc w.out (get_pending_data op) (unsent (waiting q))
        ∙ sym (ap (λ ops. w.out ++ unsent ops) e) in
      rw run (subst (λ b. Flushed b (next w')) same done)

  nothing-Flushed :
      (w : Writer) (r : Option SendOp × SendQueue)
      → Pending w.sq r
      → length (order w.sq) ≤ 0
      → Flushed (stream_of w) (send_round callback true kept blocked w r)
  nothing-Flushed w (none, q) (e, same) h = rw same (idle-Flushed w e)
  nothing-Flushed w (some op, q) (cur, e, a) h = absurd (omega (arith, h, ap length e))

  -- Where send() is called often enough and has room each time, io_peer_send() empties the queue: all that was queued is on the stream, in the
  -- order of the queue. Each call has room for the largest message, there is one call for each message, the
  -- callbacks leave the writer alone, and shutdown() works.
  pub io_peer_send-Flushed :
      (k : ℕ) (sends : List Sent) (w : Writer)
      → All (HasRoom k) sends
      → All (IsSmall k) (order w.sq)
      → length (order w.sq) ≤ length sends
      → Flushed (stream_of w) (io_peer_send callback true sends w)
  unfolding io_peer_send
  io_peer_send-Flushed k [] w r h l =
      nothing-Flushed w (get_pending w.sq) (get_pending-Pending w.sq) l
  io_peer_send-Flushed k (room n ∷ sends) w r h l =
      send_round-Flushed (io_peer_send callback true sends) k n w (get_pending w.sq)
        (get_pending-Pending w.sq) r.0 h
        (λ w' h' less. io_peer_send-Flushed k sends w' r.1 h' (omega (arith, less, l)))
  io_peer_send-Flushed k (blocked ∷ sends) w r h l = absurd (r.0)
  io_peer_send-Flushed k (failed ∷ sends) w r h l = absurd (r.0)
