-- ===== src/Peer/Stream/Tests.antt =====
-- Runs of io_peer_recv() of src/DirectPlay8Peer.cpp: a packet that arrives in two reads.
use directplay_lite.Common.{◌⊎◌, ℕ, ◌^◌, ◌≡◌, refl, Bool, true, false, List, [], ◌∷◌, ◌++◌, arith}
use directplay_lite.Packet.Bytes.{le_bytes, le_value}
use directplay_lite.Packet.Serialiser.{serialiser, append_all, chunk_header}
use directplay_lite.Packet.Deserialiser.{Deserialiser, packet_type, deserialise, read_chunk, scan}
use directplay_lite.Peer.Stream.{
  would_block, received, Receiver, returned, front, drain, finish, io_peer_recv,
}
use directplay_lite.Peer.Stream.Split.{io_peer_recv-concat}
use directplay_lite.Peer.Stream.Sound.{Leaves, io_peer_recv-Leaves}
use directplay_lite.Peer.Stream.Wrapped.{HasWrap}
use directplay_lite.Peer.Stream.Packets.{Message, CarryAll, handle_all, io_peer_recv-encode}

-- A peer that keeps the types of the packets it gets.
abbrev log_type : Deserialiser → List ℕ → List ℕ
log_type pd s = s ++ packet_type pd ∷ []

abbrev always : List ℕ → Bool
always s = true

abbrev never : List ℕ → Bool
never s = false

abbrev keep : List ℕ → List ℕ
keep s = s

abbrev idle : Receiver
idle = record { buffer = []; recv_busy = false; events_enabled = true }

abbrev size_modulus : ℕ
size_modulus = 2 ^ 32

abbrev head : List ℕ
head = 7 ∷ 0 ∷ 0 ∷ 0 ∷ 8 ∷ []

abbrev rest : List ℕ
rest = 0 ∷ 0 ∷ 0 ∷ 0 ∷ 0 ∷ 0 ∷ 0 ∷ 0 ∷ 0 ∷ 0 ∷ 0 ∷ 9 ∷ []

abbrev empty_message : Message
empty_message = record { type = 7; fields = [] }

two_reads :
    io_peer_recv size_modulus log_type always never keep
      (received head ∷ received rest ∷ would_block ∷ [])
      idle
      []
    ≡ returned (record { buffer = 9 ∷ []; recv_busy = false; events_enabled = true }) (7 ∷ [])
unfolding io_peer_recv le_value deserialise read_chunk scan
two_reads = refl

io_peer_recv-concat_example :
    io_peer_recv size_modulus log_type always never keep
      (received head ∷ received rest ∷ [])
      idle
      []
    ≡ finish size_modulus log_type always never keep
        (drain size_modulus log_type always never keep (head ++ (rest ++ [])) [])
unfolding front
io_peer_recv-concat_example =
    io_peer_recv-concat size_modulus log_type always never keep (λ pd s e. e) head (rest ∷ []) idle
      [] refl refl refl refl

io_peer_recv-Leaves_example :
    Leaves size_modulus log_type always never keep (omega arith) false (
      io_peer_recv size_modulus log_type always never keep (received (255 ∷ 255 ∷ []) ∷ []) idle [])
    ⊎ HasWrap size_modulus (255 ∷ 255 ∷ [])
io_peer_recv-Leaves_example =
    io_peer_recv-Leaves size_modulus log_type always never keep (omega arith)
      (received (255 ∷ 255 ∷ []) ∷ []) idle [] (omega arith, tt) tt (omega arith)

io_peer_recv-encode_example :
    (pds : List Deserialiser) × CarryAll (empty_message ∷ []) pds
    × (io_peer_recv size_modulus log_type always never keep
          (received (7 ∷ 0 ∷ 0 ∷ []) ∷ received (0 ∷ 0 ∷ 0 ∷ 0 ∷ 0 ∷ 9 ∷ []) ∷ [])
          idle
          []
        ≡ returned
            (record { buffer = 9 ∷ []; recv_busy = false; events_enabled = true })
            (handle_all log_type pds []))
unfolding front append_all serialiser chunk_header le_bytes
io_peer_recv-encode_example =
    io_peer_recv-encode size_modulus log_type always never keep (omega arith) (λ pd s e. e)
      (λ pd s e. e) (empty_message ∷ []) (9 ∷ []) (7 ∷ 0 ∷ 0 ∷ [])
      ((0 ∷ 0 ∷ 0 ∷ 0 ∷ 0 ∷ 9 ∷ []) ∷ []) idle [] ((omega arith, tt, omega arith), tt) refl refl
      refl refl refl refl
