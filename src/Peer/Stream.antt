-- ===== src/Peer/Stream.antt =====
-- DirectPlay8Peer::io_peer_recv() of src/DirectPlay8Peer.cpp: packets out of a TCP stream. The first
-- recv_buf_cur bytes of recv_buf are the list `buffer`. `S` is what the rest of the peer object keeps. `dispatch`
-- is the switch on the packet's type with its handlers, `exists` says whether get_peer_by_peer_id() still finds the peer,
-- `closing` whether it is in PS_CLOSING, and `destroy` is peer_destroy(). A size_t has the modulus `m`.
pub mod Buffer
pub mod Split
pub mod Wrapped
pub mod Sound
pub mod Packets
mod Tests
use directplay_lite.Common.{
  ℕ, zero, suc, ◌+◌, ◌*◌, ◌%◌, Bool, true, false, not, ◌&&◌, List, [], ◌∷◌, ◌++◌, ltb, leb,
  if◌then◌else◌, length, take, drop,
}
use directplay_lite.Packet.Bytes.{le_value}
use directplay_lite.Packet.Deserialiser.{Deserialiser, Result, deserialise}
use directplay_lite.Packet.Deserialiser

abbrev pub max_packet_size : ℕ
max_packet_size = 256 * 1024

-- What recv() comes to; 0 bytes are the end of the stream, so what is received is one byte or more, and no more than the
-- buffer has room for.
pub data Read : Type 0 where
  would_block end_of_stream failed : Read
  received : List ℕ → Read

-- What stands at the front of the buffer: not yet a whole packet, an over-size or malformed one, or a packet with its size.
-- The other two are no results that the deserialiser means to have.
pub data Front : Type 0 where
  partial invalid faulty hung : Front
  packet : ℕ → Deserialiser → Front

abbrev pub parsed : ℕ → Result Deserialiser → Front
parsed full (Result.ok pd) = packet full pd
parsed full (Result.err e) = invalid
parsed full Result.fault = faulty
parsed full Result.stuck = hung

-- full_packet_size; a size_t has the modulus `m`.
abbrev pub full_packet_size : ℕ → List ℕ → ℕ
full_packet_size m buffer = (8 + le_value (take 4 (drop 4 buffer))) % m

unfoldable pub front : ℕ → List ℕ → Front
front m buffer =
    let full = full_packet_size m buffer in
    if ltb (length buffer) 8
    then partial
    else if ltb max_packet_size full
    then invalid
    else if leb full (length buffer)
    then parsed full (deserialise m (take full buffer))
    else partial

-- How the loop over the buffer ends: with the start of a packet left, after a handler that destroyed the peer, or after
-- peer_destroy() for an invalid stream. The last two are no results that the code means to have.
pub data Drained (S : Type 0) : Type 0 where
  waiting : List ℕ → S → Drained S
  gone dropped : S → Drained S
  fault stuck : Drained S

-- What is known of the peer's receiving side: the buffer, recv_busy, and whether FD_READ and FD_CLOSE are enabled.
pub record Receiver : Type 0 where
  pub buffer : List ℕ
  pub recv_busy : Bool
  pub events_enabled : Bool

-- How io_peer_recv() ends.
pub data Ended (S : Type 0) : Type 0 where
  returned : Receiver → S → Ended S
  no_peer : S → Ended S
  crashed : Ended S

module _ {S : Type 0} (m : ℕ) (dispatch : Deserialiser → S → S) (exists closing : S → Bool)
    (destroy : S → S) where
  -- What a round of the loop does with what stands at the front; `next` are the later rounds.
  abbrev pub proceed : (List ℕ → S → Drained S) → List ℕ → S → Front → Drained S
  proceed next buffer s partial = waiting buffer s
  proceed next buffer s invalid = dropped (destroy s)
  proceed next buffer s faulty = fault
  proceed next buffer s hung = stuck
  proceed next buffer s (packet full pd) = elim (exists (dispatch pd s)) [
    | true ↦ next (drop full buffer) (dispatch pd s)
    | false ↦ gone (dispatch pd s)
  ]

  -- The loop `while(peer->recv_buf_cur >= sizeof(TLVChunk))`, on fuel.
  unfoldable pub drain_within : ℕ → List ℕ → S → Drained S
  unfolding front
  drain_within zero buffer s = stuck
  drain_within (suc fuel) buffer s = proceed (drain_within fuel) buffer s (front m buffer)

  unfoldable pub drain : List ℕ → S → Drained S
  unfolding drain_within
  drain buffer s = drain_within (suc (length buffer)) buffer s

  -- The outer loop after the inner one; `next` are its later rounds.
  abbrev pub resume : (List ℕ → S → Drained S) → Drained S → Drained S
  resume next (waiting buffer s) = next buffer s
  resume next (gone s) = gone s
  resume next (dropped s) = dropped s
  resume next fault = fault
  resume next stuck = stuck

  -- The rounds of the outer loop, once the receiver is claimed; the reads end where the next one would block.
  unfoldable pub receive : List Read → List ℕ → S → Drained S
  unfolding drain
  receive [] buffer s = waiting buffer s
  receive (would_block ∷ reads) buffer s = waiting buffer s
  receive (end_of_stream ∷ reads) buffer s = dropped (destroy s)
  receive (failed ∷ reads) buffer s = dropped (destroy s)
  receive (received bytes ∷ reads) buffer s = elim (closing s) [
    | true ↦ receive reads buffer s
    | false ↦ resume (receive reads) (drain (buffer ++ bytes) s)
  ]

  abbrev pub finish : Drained S → Ended S
  finish (waiting buffer s) =
      returned (record { buffer = buffer; recv_busy = false; events_enabled = true }) s
  finish (gone s) = no_peer s
  finish (dropped s) = no_peer s
  finish fault = crashed
  finish stuck = crashed

  abbrev pub claims : List Read → Bool
  claims [] = false
  claims (would_block ∷ reads) = false
  claims (r ∷ reads) = true

  -- io_peer_recv() of a peer whose recv() calls give `reads` in turn.
  unfoldable pub io_peer_recv : List Read → Receiver → S → Ended S
  unfolding receive
  io_peer_recv reads r s =
      if not (exists s)
      then no_peer s
      else if r.recv_busy
      then returned r s
      else if claims reads
      then finish (receive reads r.buffer s)
      else returned r s
