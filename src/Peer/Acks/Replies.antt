-- ===== src/Peer/Acks/Replies.antt =====
-- An acknowledgement over the wire, send_ack() at one peer and handle_ack() at the other: src/DirectPlay8Peer.cpp.
use directplay_lite.Common.{
  ℕ, ◌+◌, ◌%◌, ◌^◌, ◌<◌, ◌≡◌, ◌≢◌, refl, ap, ◌∙◌, true, List, [], ◌∷◌, none, some, arith, length,
  find, update, find-update_same, find-erase_same, find-erase_other,
}
use directplay_lite.Packet.Bytes.{le_bytes, le_value, length-le_bytes, le_value-le_bytes}
use directplay_lite.Packet.Serialiser.{
  Field, dword, blob, append_all, append, serialiser, chunk_header,
}
use directplay_lite.Packet.Wire.{encode_all}
use directplay_lite.Packet.RoundTrip.{deserialise-append_all}
use directplay_lite.Packet.Deserialiser.{
  Deserialiser, ok, packet_type, deserialise, get_dword, get_data,
}
use directplay_lite.Peer.Session.{Peer, Session, from_peer, is_connected, send_ack}
use directplay_lite.Peer.Groups.{allocate}
use directplay_lite.Peer.Groups.Steps.{ack, posted, on_peer-send_ack, send_ack_lem}
use directplay_lite.Peer.Acks.{forget_ack, handle_ack}

abbrev ack_fields : ℕ → ℕ → List ℕ → List Field
ack_fields id result bytes = dword id ∷ dword result ∷ blob bytes ∷ []

abbrev pub FitsAck : ℕ → ℕ → ℕ → List ℕ → Type 0
FitsAck m id result bytes =
    (id < 2 ^ 32)
    × (result < 2 ^ 32)
    × (length (encode_all (ack_fields id result bytes)) < 2 ^ 32)
    × (8 + length (encode_all (ack_fields id result bytes)) < m)

ack-append_all :
    (id result : ℕ) (bytes : List ℕ)
    → ack id result bytes ≡ append_all (ack_fields id result bytes) (serialiser 8)
unfolding append_all append
ack-append_all id result bytes = refl

module _ (complete : (callback result : ℕ) → List ℕ → Session → Session) where
  handle_ack-ack :
      (m id result callback peer_id other : ℕ) (bytes : List ℕ) (peer : Peer) (s : Session)
      → FitsAck m id result bytes
      → find peer_id s.peers ≡ some peer
      → find id peer.pending_acks ≡ some callback
      → other ≢ id
      → (pd : Deserialiser) × (deserialise m (ack id result bytes) ≡ ok pd)
        × (packet_type pd ≡ 8)
        × ((s' : Session) × (handle_ack complete peer_id pd s
              ≡ ok (complete callback result bytes s'))
            × ((peer' : Peer) × (find peer_id s'.peers ≡ some peer')
                × (find id peer'.pending_acks ≡ none)
                × (find other peer'.pending_acks ≡ find other peer.pending_acks)))
  unfolding handle_ack
  handle_ack-ack m id result callback peer_id other bytes peer s (small, word, fits, room) e w n =
      let (pd, made, type, num, reads) =
        deserialise-append_all m 8 (ack_fields id result bytes) (omega arith) fits room
          (small, (word, (tt, tt))) in
      let r0 : get_dword pd 0 ≡ ok id = reads 0 (dword id) refl in
      let r1 : get_dword pd 1 ≡ ok result = reads 1 (dword result) refl in
      let r2 : get_data pd 2 ≡ ok bytes = reads 2 (blob bytes) refl in
      let s' = record s { peers = update peer_id (forget_ack id) s.peers } in
      (
        pd,
        ap (deserialise m) (ack-append_all id result bytes) ∙ made,
        type,
        (
          s',
          rw (handle_ack, from_peer, e, r0, r1, r2, w) refl,
          (
            forget_ack id peer,
            find-update_same peer_id (forget_ack id) s.peers ∙ rw e refl,
            find-erase_same id peer.pending_acks,
            find-erase_other other id peer.pending_acks n,
          ),
        ),
      )

  -- send_ack() queues a packet that, when it is read and handled at the other peer, calls the callback that was registered under its number, with the result and the data that the other
  -- peer gave, after it was taken out; no other acknowledgement that is waited for is touched. The number and the
  -- result are 32-bit words, and the data fits a packet.
  pub handle_ack-send_ack :
      (m id result callback peer_id other : ℕ) (bytes : List ℕ) (replying peer : Peer) (s : Session)
      → FitsAck m id result bytes
      → find peer_id s.peers ≡ some peer
      → find id peer.pending_acks ≡ some callback
      → other ≢ id
      → (packet : List ℕ) × (send_ack id result bytes replying ≡ ok (posted packet replying))
        × ((pd : Deserialiser) × (deserialise m packet ≡ ok pd)
            × (packet_type pd ≡ 8)
            × ((s' : Session) × (handle_ack complete peer_id pd s
                  ≡ ok (complete callback result bytes s'))
                × ((peer' : Peer) × (find peer_id s'.peers ≡ some peer')
                    × (find id peer'.pending_acks ≡ none)
                    × (find other peer'.pending_acks ≡ find other peer.pending_acks))))
  handle_ack-send_ack m id result callback peer_id other bytes replying peer s fits e w n = (
    ack id result bytes,
    send_ack_lem id result bytes replying,
    handle_ack-ack m id result callback peer_id other bytes peer s fits e w n,
  )

  -- The host's answer to GROUP_ALLOCATE, over the wire: the callback of the peer that asked is given the four bytes of the host's next free
  -- number, and the host goes on to the number after it. Both peers are in each other's sessions, the peer that asked is connected and waits for the answer, the numbers are
  -- words, and a size_t holds the packet's 44 bytes.
  pub allocate-handle_ack :
      (m id callback peer_id host_id : ℕ) (asking host : Peer) (s t : Session)
      → 44 < m
      → id < 2 ^ 32
      → s.next_player_id < 2 ^ 32
      → find peer_id s.peers ≡ some asking
      → is_connected asking ≡ true
      → find host_id t.peers ≡ some host
      → find id host.pending_acks ≡ some callback
      → (s' : Session) × (allocate id peer_id asking s ≡ ok s')
        × (s'.next_player_id ≡ (s.next_player_id + 1) % 2 ^ 32)
        × ((packet : List ℕ) × (find peer_id s'.peers ≡ some (posted packet asking))
            × ((pd : Deserialiser) × (deserialise m packet ≡ ok pd)
                × ((t' : Session) × (bytes : List ℕ) × (handle_ack complete host_id pd t
                      ≡ ok (complete callback 0 bytes t'))
                    × (length bytes ≡ 4)
                    × (le_value bytes ≡ s.next_player_id))))
  unfolding allocate le_bytes chunk_header
  allocate-handle_ack m id callback peer_id host_id asking host s t wide small word e c f w =
      let bytes = le_bytes 4 s.next_player_id in
      let (pd, made, type, (t', run, rest)) =
        handle_ack-ack m id 0 callback host_id (id + 1) bytes host t
          (small, omega arith, omega arith, omega (arith, wide)) f w (λ e. omega (arith, e)) in
      let s1 = record s { next_player_id = (s.next_player_id + 1) % 2 ^ 32 } in
      let sent = on_peer-send_ack peer_id id 0 bytes asking s1 e in
      (
        record s1 { peers = update peer_id (λ _. posted (ack id 0 bytes) asking) s1.peers },
        rw (allocate, c) sent,
        refl,
        (
          ack id 0 bytes,
          find-update_same peer_id _ s.peers ∙ rw e refl,
          (
            pd,
            made,
            (
              t',
              bytes,
              run,
              length-le_bytes 4 s.next_player_id,
              le_value-le_bytes s.next_player_id word,
            ),
          ),
        ),
      )
