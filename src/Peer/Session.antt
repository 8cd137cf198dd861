-- ===== src/Peer/Session.antt =====
-- The state of DirectPlay8Peer (src/DirectPlay8Peer.hpp) that its message handlers share: the session's peers and groups,
-- and how a handler sends and raises messages. A pointer to a peer or a group is its key in the map. A std::function is a
-- number. Fields that no modelled operation uses are left out. A NULL or dangling pointer that is used, and a failed assertion, is a fault.
use directplay_lite.Common.{
  ℕ, Bool, true, false, List, [], ◌∷◌, Option, none, some, if◌then◌else◌, find, update,
}
use directplay_lite.Packet.Serialiser.{serialiser, append_dword, append_data}
use directplay_lite.Packet.Deserialiser.{Result, ok, err, fault, stuck, ◌>>=◌}
use directplay_lite.SendQueue.{SendQueue, high, send}

pub data State : Type 0 where
  new initialised hosting connecting_to_host connecting_to_peers connect_failed connected closing
        terminated :
      State

pub data PeerState : Type 0 where
  ps_accepted ps_connecting_host ps_requesting_host ps_connecting_peer ps_requesting_peer :
      PeerState
  ps_indicating ps_connected ps_closing : PeerState

pub record Peer : Type 0 where
  pub state : PeerState
  pub player_id : ℕ
  pub player_ctx : ℕ
  pub sq : SendQueue
  pub next_ack_id : ℕ
  pub pending_acks : List (ℕ × ℕ)

-- A std::set is a map to nothing.
pub record Group : Type 0 where
  pub name : List ℕ
  pub bytes : List ℕ
  pub ctx : ℕ
  pub player_ids : List (ℕ × Unit {0})

pub record Session : Type 0 where
  pub state : State
  pub local_player_id : ℕ
  pub local_player_ctx : ℕ
  pub next_player_id : ℕ
  pub host_player_id : ℕ
  pub peers : List (ℕ × Peer)
  pub player_to_peer_id : List (ℕ × ℕ)
  pub groups : List (ℕ × Group)
  pub destroyed_groups : List (ℕ × Unit {0})
  pub connect_result : ℕ

-- A message for the application, with those fields of its DPNMSG structure that the session decides.
pub data Event : Type 0 where
  create_group : (group_id owner_ctx : ℕ) → Event
  destroy_group : (group_id group_ctx reason : ℕ) → Event
  add_player_to_group remove_player_from_group :
      (group_id group_ctx player_id player_ctx : ℕ) → Event
  destroy_player : (player_id player_ctx reason : ℕ) → Event
  connect_complete : (result local_player_id : ℕ) → Event

-- What happens while the lock is released for the application's message handler: the message's context field
-- when the handler returns, and the session as the handler and other threads leave it.
abbrev pub Application : Type 0
Application = Event → Session → ℕ × Session

abbrev pub is_connected : Peer → Bool
is_connected peer = elim peer.state [ ps_connected ↦ true | _ ↦ false ]

pub get_peer_by_player_id : ℕ → Session → Option Peer
get_peer_by_player_id player_id s = elim (find player_id s.player_to_peer_id) [
  | none ↦ none
  | some peer_id ↦ find peer_id s.peers
]

-- sq.send() of a packet with SEND_PRI_HIGH and a callback.
unfoldable pub post_for : ℕ → List ℕ → Peer → Result Peer
post_for callback packet peer = elim (send high packet [] 0 callback peer.sq) [
  | none ↦ fault
  | some sq ↦ ok (record peer { sq = sq })
]

-- The callback 0 does nothing.
unfoldable pub post : List ℕ → Peer → Result Peer
unfolding post_for
post packet peer = post_for 0 packet peer

-- send_ack(ack_id, result, data, data_size).
unfoldable pub send_ack : ℕ → ℕ → List ℕ → Peer → Result Peer
unfolding post
send_ack ack_id result data_bytes peer =
    post (append_data data_bytes (append_dword result (append_dword ack_id (serialiser 8)))) peer

-- A method call on the peer that a pointer from get_peer_by_peer_id() points at.
unfoldable pub on_peer : ℕ → (Peer → Result Peer) → Session → Result Session
on_peer peer_id call s = elim (find peer_id s.peers) [
  | none ↦ fault
  | some peer ↦ do peer' ← call peer; ok (record s { peers = update peer_id (λ _. peer') s.peers })
]

-- The loop over `peers` that sends a packet to those in PS_CONNECTED.
unfoldable pub post_all_for : ℕ → List ℕ → List (ℕ × Peer) → Result (List (ℕ × Peer))
unfolding post_for
post_all_for callback packet [] = ok []
post_all_for callback packet (p ∷ peers) = do
  peer ← if is_connected p.1 then post_for callback packet p.1 else ok p.1
  rest ← post_all_for callback packet peers
  ok ((p.0, peer) ∷ rest)

unfoldable pub post_all : List ℕ → List (ℕ × Peer) → Result (List (ℕ × Peer))
unfolding post_all_for
post_all packet peers = post_all_for 0 packet peers

-- `try { ... } catch(const PacketDeserialiser::Error &e) { log_printf(...); }`, where what throws is the reading of the packet.
abbrev pub caught : Session → Result Session → Result Session
caught s (ok s') = ok s'
caught s (err e) = ok s
caught s fault = fault
caught s stuck = stuck

-- What each handler starts with: `peer` is looked up and asserted to be there; `body` goes on with it.
abbrev pub from_peer : ℕ → (Peer → Result Session) → Session → Result Session
from_peer peer_id body s = elim (find peer_id s.peers) [
  | none ↦ fault
  | some peer ↦ caught s (body peer)
]
