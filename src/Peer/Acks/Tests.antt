-- ===== src/Peer/Acks/Tests.antt =====
-- Runs of the acknowledgements of src/DirectPlay8Peer.cpp.
use directplay_lite.Common.{
  ℕ, ◌+◌, ◌%◌, ◌^◌, ◌≤◌, ◌<◌, ◌≡◌, ◌≢◌, refl, none, some, List, [], arith, find, length,
}
use directplay_lite.Packet.Bytes.{le_bytes, le_value}
use directplay_lite.Packet.Serialiser.{chunk_header}
use directplay_lite.Packet.Deserialiser.{Deserialiser, ok, packet_type, deserialise}
use directplay_lite.Peer.Session.{Peer, Session, send_ack}
use directplay_lite.Peer.Groups.{allocate}
use directplay_lite.Peer.Groups.Steps.{posted}
use directplay_lite.Peer.Acks.{handle_ack}
use directplay_lite.Peer.Acks.Ids.{nth_ack_id, alloc_ack_id-Distinct}
use directplay_lite.Peer.Acks.Replies.{handle_ack-send_ack, allocate-handle_ack}
use directplay_lite.Peer.Samples.{sample_peer, sample_session}

-- A callback that keeps its number and its result in the session.
abbrev keep_result : ℕ → ℕ → List ℕ → Session → Session
keep_result callback result bytes s = record s { connect_result = callback + result }

alloc_ack_id-Distinct_example :
    (1 ≤ nth_ack_id 0 (sample_peer 2))
    × (nth_ack_id 0 (sample_peer 2) < 2 ^ 32)
    × (nth_ack_id 0 (sample_peer 2) ≢ nth_ack_id 2 (sample_peer 2))
alloc_ack_id-Distinct_example =
    alloc_ack_id-Distinct (sample_peer 2) 0 2 (omega arith) (omega arith) (omega arith)
      (omega arith)

handle_ack-send_ack_example :
    (packet : List ℕ) × (send_ack 3 1 [] (sample_peer 5) ≡ ok (posted packet (sample_peer 5)))
    × ((pd : Deserialiser) × (deserialise (2 ^ 32) packet ≡ ok pd)
        × (packet_type pd ≡ 8)
        × ((s' : Session) × (handle_ack keep_result 10 pd sample_session
              ≡ ok (keep_result 9 1 [] s'))
            × ((peer' : Peer) × (find 10 s'.peers ≡ some peer')
                × (find 3 peer'.pending_acks ≡ none)
                × (find 4 peer'.pending_acks ≡ find 4 (sample_peer 2).pending_acks))))
unfolding find le_bytes chunk_header
handle_ack-send_ack_example =
    handle_ack-send_ack keep_result (2 ^ 32) 3 1 9 10 4 [] (sample_peer 5) (sample_peer 2)
      sample_session (omega arith, omega arith, omega arith, omega arith) refl refl
      (λ e. omega (arith, e))

allocate-handle_ack_example :
    (s' : Session) × (allocate 3 10 (sample_peer 2) sample_session ≡ ok s')
    × (s'.next_player_id ≡ (7 + 1) % 2 ^ 32)
    × ((packet : List ℕ) × (find 10 s'.peers ≡ some (posted packet (sample_peer 2)))
        × ((pd : Deserialiser) × (deserialise (2 ^ 32) packet ≡ ok pd)
            × ((t' : Session) × (bytes : List ℕ) × (handle_ack keep_result 11 pd sample_session
                  ≡ ok (keep_result 9 0 bytes t'))
                × (length bytes ≡ 4)
                × (le_value bytes ≡ 7))))
unfolding find
allocate-handle_ack_example =
    allocate-handle_ack keep_result (2 ^ 32) 3 9 10 11 (sample_peer 2) (sample_peer 3)
      sample_session sample_session (omega arith) (omega arith) (omega arith) refl refl refl refl
