-- ===== src/Peer/Sending/Wire.antt =====
-- From the send queue of one peer to the handlers of another: io_peer_send() and io_peer_recv() of src/DirectPlay8Peer.cpp with
-- src/SendQueue.cpp and src/packet.cpp between them.
use directplay_lite.Common.{
  ℕ, ◌<◌, ◌≤◌, ◌≡◌, refl, sym, ap, ◌∙◌, Bool, true, false, List, [], ◌∷◌, ◌++◌, Option, some, map,
  length, drop, All,
}
use mathlib.Core.Path.{ap₂}
use mathlib.Core.List.{append-nil}
use directplay_lite.Packet.Deserialiser.{Deserialiser}
use directplay_lite.SendQueue.{SendOp, get_pending_data}
use directplay_lite.SendQueue.Order.{order}
use directplay_lite.Peer.Stream.{received, Receiver, returned, front, io_peer_recv, max_packet_size}
use directplay_lite.Peer.Stream.Split.{concat}
use directplay_lite.Peer.Stream.Packets.{
  Message, IsMessage, CarryAll, encode, stream, handle_all, io_peer_recv-encode,
}
use directplay_lite.Peer.Sending.{Writer, Sent, Written, kept, gone, dropped, fault, io_peer_send}
use directplay_lite.Peer.Sending.Bytes.{unsent, stream_of}
use directplay_lite.Peer.Sending.Flush.{HasRoom, IsSmall, Flushed, io_peer_send-Flushed}

-- The ops are fresh, and hold the messages' packets.
abbrev pub Holds : List SendOp → List Message → Type 0
Holds [] [] = Unit
Holds (op ∷ ops) (msg ∷ msgs) = (op.sent_data ≡ 0) × (op.bytes ≡ encode msg) × Holds ops msgs
Holds _ _ = ⊥

unsent-stream :
    (ops : List SendOp) (msgs : List Message) → Holds ops msgs → unsent ops ≡ stream msgs
unfolding get_pending_data
unsent-stream [] [] h = refl
unsent-stream [] (msg ∷ msgs) h = absurd h
unsent-stream (op ∷ ops) [] h = absurd h
unsent-stream (op ∷ ops) (msg ∷ msgs) (fresh, bytes, rest) =
    ap₂ ◌++◌ (ap (λ n. drop n op.bytes) fresh ∙ bytes) (unsent-stream ops msgs rest)

Flushed-kept :
    (bytes : List ℕ) (r : Written)
    → Flushed bytes r
    → (w : Writer) × (r ≡ kept w) × (w.out ≡ bytes) × (order w.sq ≡ [])
Flushed-kept bytes (kept w) h = (w, refl, h.0, h.1)
Flushed-kept bytes (gone out) h = absurd h
Flushed-kept bytes (dropped out) h = absurd h
Flushed-kept bytes fault h = absurd h

module _ {S : Type 0} (m : ℕ) (dispatch : Deserialiser → S → S) (exists closing : S → Bool)
    (destroy : S → S) (wide : max_packet_size < m)
    (stays : (pd : Deserialiser) (s : S) → exists s ≡ true → exists (dispatch pd s) ≡ true)
    (stays_open : (pd : Deserialiser) (s : S) → closing s ≡ false → closing (dispatch pd s) ≡ false)
    (callback : SendOp → Writer → Option Writer)
    (quiet : (op : SendOp) (w : Writer) → callback op w ≡ some w) where
  -- Messages between two peers, end to end: io_peer_send() puts what is queued at one peer on the stream, and io_peer_recv() at the other
  -- hands each message to the dispatch once, in the order of the queue, with the type and the fields that it was made
  -- with, however the stream is cut into reads. The queued ops are fresh and hold packets of the serialiser no larger than
  -- MAX_PACKET_SIZE, which a size_t holds, the sending socket has room for each and has sent nothing so far, no callback of a send
  -- changes the sending peer, shutdown() works if it is called, the reads make up what was sent, the receiving peer exists, is idle and
  -- not closing and has an empty buffer, and no handler destroys or closes it.
  pub io_peer_send-io_peer_recv :
      (k : ℕ) (sends : List Sent) (w : Writer) (msgs : List Message) (c : List ℕ)
      (chunks : List (List ℕ)) (r : Receiver) (s : S)
      → All (HasRoom k) sends
      → All (IsSmall k) (order w.sq)
      → length (order w.sq) ≤ length sends
      → w.out ≡ []
      → Holds (order w.sq) msgs
      → All IsMessage msgs
      → concat (c ∷ chunks) ≡ stream_of w
      → exists s ≡ true
      → closing s ≡ false
      → r.recv_busy ≡ false
      → r.buffer ≡ []
      → (w' : Writer) × (io_peer_send callback true sends w ≡ kept w')
        × (w'.out ≡ concat (c ∷ chunks))
        × (order w'.sq ≡ [])
        × ((pds : List Deserialiser) × CarryAll msgs pds
            × (io_peer_recv m dispatch exists closing destroy (map received (c ∷ chunks)) r s
                ≡ returned
                    (record { buffer = []; recv_busy = false; events_enabled = true })
                    (handle_all dispatch pds s)))
  unfolding front
  io_peer_send-io_peer_recv k sends w msgs c chunks r s room small enough fresh holds ok cut x o i
        b =
      let (w', run, out, empty) =
        Flushed-kept (stream_of w) _
          (io_peer_send-Flushed callback quiet k sends w room small enough) in
      let whole : stream_of w ≡ stream msgs ++ [] =
        ap (λ ys. ys ++ unsent (order w.sq)) fresh
        ∙ unsent-stream (order w.sq) msgs holds
        ∙ sym (append-nil (stream msgs)) in
      (
        w',
        run,
        out ∙ sym cut,
        empty,
        io_peer_recv-encode m dispatch exists closing destroy wide stays stays_open msgs [] c chunks
            r s ok refl (cut ∙ whole) x o i b,
      )
