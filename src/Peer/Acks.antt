-- ===== src/Peer/Acks.antt =====
-- Acknowledgements between peers: alloc_ack_id(), register_ack() and handle_ack() of src/DirectPlay8Peer.cpp. A callback is a
-- number, and `complete` is what a call of it does to the session.
pub mod Ids
pub mod Replies
mod Tests
use directplay_lite.Common.{
  ℕ, ◌+◌, ◌%◌, ◌^◌, List, [], ◌∷◌, Option, none, some, ◌==◌, if◌then◌else◌, find, emplace, erase,
  update, has_key,
}
use directplay_lite.Packet.Deserialiser.{
  Deserialiser, Result, ok, fault, ◌>>=◌, get_dword, get_data,
}
use directplay_lite.Peer.Session.{Peer, Session, from_peer}

abbrev pub next_id : ℕ → ℕ
next_id n = let n' = (n + 1) % 2 ^ 32 in if n' == 0 then 1 else n'

unfoldable pub alloc_ack_id : Peer → ℕ × Peer
alloc_ack_id peer = (peer.next_ack_id, record peer { next_ack_id = next_id peer.next_ack_id })

unfoldable pub register_ack : ℕ → ℕ → Peer → Result Peer
register_ack id callback peer =
    if has_key id peer.pending_acks
    then fault
    else ok (record peer { pending_acks = emplace id callback peer.pending_acks })

abbrev pub forget_ack : ℕ → Peer → Peer
forget_ack id peer = record peer { pending_acks = erase id peer.pending_acks }

module _ (complete : (callback result : ℕ) → List ℕ → Session → Session) where
  -- What becomes of an acknowledgement whose callback was looked up.
  abbrev pub answer : ℕ → ℕ → ℕ → List ℕ → Option ℕ → Session → Session
  answer peer_id ack_id result bytes none s = s
  answer peer_id ack_id result bytes (some callback) s =
      complete callback result bytes
        (record s { peers = update peer_id (forget_ack ack_id) s.peers })

  unfoldable pub handle_ack : ℕ → Deserialiser → Session → Result Session
  handle_ack peer_id pd s =
      from_peer peer_id
        (λ peer. do
          ack_id ← get_dword pd 0
          result ← get_dword pd 1
          bytes ← get_data pd 2
          ok (answer peer_id ack_id result bytes (find ack_id peer.pending_acks) s))
        s
