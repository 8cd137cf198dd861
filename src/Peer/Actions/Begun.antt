-- ===== src/Peer/Actions/Begun.antt =====
-- How the methods of src/DirectPlay8Peer.cpp that act on groups begin: the sends, and the count of them.
use directplay_lite.Common.{
  ℕ, suc, ◌+◌, ◌≡◌, refl, ap, inl, inr, Bool, Bool-cases, List, [], ◌∷◌, none, some, arith,
  if◌then◌else◌,
}
use directplay_lite.Packet.Deserialiser.{ok}
use directplay_lite.Handles.{Allocator, Kind, alloc}
use directplay_lite.Peer.Session.{Peer, Session, is_connected}
use directplay_lite.Peer.Groups.Steps.{posted_all_for, post_for_lem}
use directplay_lite.Peer.Queries.{count_connected}
use directplay_lite.Peer.Actions.{Started, start, send_connected, success_pending}

-- The loop counts the connected peers, and sends to each of them.
pub send_connected_lem :
    (callback : ℕ) (packet : List ℕ) (n : ℕ) (peers : List (ℕ × Peer))
    → send_connected callback packet n peers
      ≡ ok (n + count_connected peers, posted_all_for callback packet peers)
unfolding send_connected count_connected
send_connected_lem callback packet n [] =
    let same : n ≡ n + 0 = omega arith in ap (λ k. ok (k, [])) same
send_connected_lem callback packet n (p ∷ peers) = elim (Bool-cases (is_connected p.1)) [
  | inl e ↦
      let same : n + 1 + count_connected peers ≡ n + suc (count_connected peers) = omega arith in
      rw
        (
          send_connected,
          count_connected,
          e,
          post_for_lem callback packet p.1,
          send_connected_lem callback packet (n + 1) peers,
          same,
        )
        refl
  | inr e ↦ rw (send_connected, count_connected, e, send_connected_lem callback packet n peers) refl
]

-- How a method ends that goes on.
abbrev pub begun : Bool → Kind → ℕ → List ℕ → Allocator → Session → Started
begun sync kind callback packet h s = record {
  code = if sync then 0 else success_pending;
  handle = if sync then none else some (alloc kind h).0;
  pending = 1 + count_connected s.peers;
  handles = if sync then h else (alloc kind h).1;
  session = record s { peers = posted_all_for callback packet s.peers };
}

pub start_lem :
    (sync : Bool) (kind : Kind) (callback : ℕ) (packet : List ℕ) (h : Allocator) (s : Session)
    → start sync kind callback packet h s ≡ ok (begun sync kind callback packet h s)
unfolding start
start_lem sync kind callback packet h s =
    rw (start, send_connected_lem callback packet 1 s.peers) refl
