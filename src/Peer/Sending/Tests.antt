-- ===== src/Peer/Sending/Tests.antt =====
-- A packet that is queued at one peer and read at another: src/DirectPlay8Peer.cpp.
use directplay_lite.Common.{
  ℕ, ◌^◌, ◌≡◌, refl, Bool, true, false, List, [], ◌∷◌, ◌++◌, Option, some, inr, arith,
}
use directplay_lite.Packet.Bytes.{le_bytes}
use directplay_lite.Packet.Serialiser.{serialiser, append_all, chunk_header}
use directplay_lite.Packet.Deserialiser.{Deserialiser, packet_type}
use directplay_lite.SendQueue.{SendOp, SendQueue, init, get_pending_data}
use directplay_lite.SendQueue.Order.{order}
use directplay_lite.Peer.Stream.{received, Receiver, returned, io_peer_recv}
use directplay_lite.Peer.Stream.Packets.{CarryAll, handle_all}
use directplay_lite.Peer.Sending.{Writer, room, kept, io_peer_send}
use directplay_lite.Peer.Sending.Bytes.{stream_of, Writes, io_peer_send-Writes}
use directplay_lite.Peer.Sending.Flush.{Flushed, io_peer_send-Flushed}
use directplay_lite.Peer.Sending.Wire.{io_peer_send-io_peer_recv}

abbrev packet : List ℕ
packet = 7 ∷ 0 ∷ 0 ∷ 0 ∷ 0 ∷ 0 ∷ 0 ∷ 0 ∷ []

abbrev op : SendOp
op = record {
  address = 0;
  bytes = packet;
  sent_data = 0;
  dest_addr = [];
  async_handle = 0;
  callback = 0;
}

abbrev queue : SendQueue
queue = record init { high_queue = op ∷ []; allocated = 1 }

abbrev writer : Writer
writer = record { sq = queue; closing = false; send_open = true; out = [] }

abbrev leave_alone : SendOp → Writer → Option Writer
leave_alone o w = some w

abbrev log_type : Deserialiser → List ℕ → List ℕ
log_type pd s = s ++ packet_type pd ∷ []

abbrev always : List ℕ → Bool
always s = true

abbrev never : List ℕ → Bool
never s = false

abbrev keep : List ℕ → List ℕ
keep s = s

abbrev idle_receiver : Receiver
idle_receiver = record { buffer = []; recv_busy = false; events_enabled = true }

io_peer_send-Writes_example :
    Writes (stream_of writer) (io_peer_send leave_alone true (room 3 ∷ room 2 ∷ []) writer)
io_peer_send-Writes_example =
    io_peer_send-Writes leave_alone true (λ o w. inr refl) (room 3 ∷ room 2 ∷ []) writer
      (omega arith, tt)

io_peer_send-Flushed_example :
    Flushed (stream_of writer) (io_peer_send leave_alone true (room 9 ∷ []) writer)
io_peer_send-Flushed_example =
    io_peer_send-Flushed leave_alone (λ o w. refl) 8 (room 9 ∷ []) writer (omega arith, tt)
      ((omega arith, omega arith), tt) (omega arith)

io_peer_send-io_peer_recv_example :
    (w' : Writer) × (io_peer_send leave_alone true (room 9 ∷ []) writer ≡ kept w')
    × (w'.out ≡ packet)
    × (order w'.sq ≡ [])
    × ((pds : List Deserialiser) × CarryAll (record { type = 7; fields = [] } ∷ []) pds
        × (io_peer_recv
              (2 ^ 32)
              log_type
              always
              never
              keep
              (received (7 ∷ 0 ∷ []) ∷ received (0 ∷ 0 ∷ 0 ∷ 0 ∷ 0 ∷ 0 ∷ []) ∷ [])
              idle_receiver
              []
            ≡ returned idle_receiver (handle_all log_type pds [])))
unfolding append_all serialiser chunk_header le_bytes get_pending_data
io_peer_send-io_peer_recv_example =
    io_peer_send-io_peer_recv (2 ^ 32) log_type always never keep (omega arith) (λ pd s e. e)
      (λ pd s e. e) leave_alone (λ o w. refl) 8 (room 9 ∷ []) writer
      (record { type = 7; fields = [] } ∷ []) (7 ∷ 0 ∷ []) ((0 ∷ 0 ∷ 0 ∷ 0 ∷ 0 ∷ 0 ∷ []) ∷ [])
      idle_receiver [] (omega arith, tt) ((omega arith, omega arith), tt) (omega arith) refl
      (refl, refl, tt) ((omega arith, tt, omega arith), tt) refl refl refl refl refl
