-- ===== src/Peer/Sending.antt =====
-- DirectPlay8Peer::io_peer_send() of src/DirectPlay8Peer.cpp: the writer of a TCP stream. `out` are the bytes that send() has taken
-- so far. `callback` is what invoke_callback() does to the writer: none where the peer is gone afterwards.
pub mod Bytes
pub mod Flush
pub mod Wire
mod Tests
use directplay_lite.Common.{
  ℕ, Bool, true, false, ◌&&◌, List, [], ◌∷◌, ◌++◌, Option, none, some, ◌==◌, leb, if◌then◌else◌,
  length, take,
}
use directplay_lite.SendQueue.{
  SendOp, SendQueue, get_pending, pop_pending, inc_sent_data, get_pending_data,
}

pub record Writer : Type 0 where
  pub sq : SendQueue
  pub closing : Bool
  pub send_open : Bool
  pub out : List ℕ

-- What send() comes to: it takes what it is offered up to a number of bytes.
pub data Sent : Type 0 where
  blocked failed : Sent
  room : ℕ → Sent

-- The peer is kept, was destroyed by a callback, or is destroyed because of an error; or an assertion fails.
pub data Written : Type 0 where
  kept : Writer → Written
  gone dropped : List ℕ → Written
  fault : Written

abbrev pub taken : ℕ → SendOp → ℕ
taken n op = if leb n (length (get_pending_data op)) then n else length (get_pending_data op)

-- The writer after inc_sent_data() of the current op.
abbrev pub write_to : ℕ → SendOp → SendOp → Writer → Writer
write_to s op op' w =
    let sq = w.sq in
    record w { sq = record sq { current = some op' }; out = w.out ++ take s (get_pending_data op) }

-- get_pending() of what is left, and SetEvent() if there is something.
abbrev pub wake : Option SendOp × SendQueue → SendQueue
wake (none, q) = q
wake (some op, q) = record q { signalled = true }

module _ (callback : SendOp → Writer → Option Writer) (shutdown_works : Bool) where
  -- Where the queue is empty: the graceful shutdown of a closing peer.
  abbrev pub idle : Writer → Written
  idle w =
      if w.closing && w.send_open
      then (if shutdown_works then kept (record w { send_open = false }) else dropped w.out)
      else kept w

  abbrev pub after_callback : (Writer → Written) → List ℕ → Option Writer → Written
  after_callback next out none = gone out
  after_callback next out (some w) = next w

  -- An op that was sent as a whole.
  abbrev pub complete_op : (Writer → Written) → SendOp → Writer → Option SendQueue → Written
  complete_op next op w none = fault
  complete_op next op w (some q) =
      after_callback next w.out (callback op (record w { sq = wake (get_pending q) }))

  abbrev pub after_write : (Writer → Written) → ℕ → SendOp → Writer → Option SendOp → Written
  after_write next s op w none = fault
  after_write next s op w (some op') =
      let w' = write_to s op op' w in
      if s == length (get_pending_data op)
      then complete_op next op' w' (pop_pending op' w'.sq)
      else next w'

  abbrev pub write : (Writer → Written) → Sent → SendOp → Writer → Written
  write next blocked op w = kept w
  write next failed op w = dropped w.out
  write next (room n) op w = after_write next (taken n op) op w (inc_sent_data (taken n op) op)

  -- A round of the loop; `next` are the later ones, and `x` is what send() comes to, if it is called.
  abbrev pub send_round : (Writer → Written) → Sent → Writer → Option SendOp × SendQueue → Written
  send_round next x w (none, q) = idle (record w { sq = q })
  send_round next x w (some op, q) = write next x op (record w { sq = q })

  -- io_peer_send() where the calls of send() come to `sends` in turn, and would block afterwards.
  unfoldable pub io_peer_send : List Sent → Writer → Written
  io_peer_send [] w = send_round kept blocked w (get_pending w.sq)
  io_peer_send (x ∷ sends) w = send_round (io_peer_send sends) x w (get_pending w.sq)
