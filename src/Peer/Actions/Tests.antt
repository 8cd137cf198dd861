-- ===== src/Peer/Actions/Tests.antt =====
-- Runs of DestroyGroup(), AddPlayerToGroup() and RemovePlayerFromGroup() of src/DirectPlay8Peer.cpp.
use directplay_lite.Common.{
  ℕ, ◌+◌, ◌-◌, leb, if◌then◌else◌, ◌^◌, ◌≡◌, refl, true, false, some, List, [], ◌∷◌, arith, find,
  has_key, emplace,
}
use directplay_lite.Packet.Deserialiser.{Deserialiser, ok, packet_type, deserialise}
use directplay_lite.Handles.{init, dgroup}
use directplay_lite.Peer.Session.{Session, add_player_to_group, remove_player_from_group}
use directplay_lite.Peer.Groups.{
  handle_group_destroy, handle_group_join, group_joined, insert_player, group_left, erase_player,
  handle_group_leave,
}
use directplay_lite.Peer.Groups.Steps.{posted, posted_for, ack}
use directplay_lite.Peer.Groups.Destroyed.{IsGone}
use directplay_lite.Peer.Queries.{count_connected}
use directplay_lite.Peer.Actions.{
  Started, start, group_destroy, destroy_group_call, destroy_thread, add_player_to_group_call,
}
use directplay_lite.Peer.Actions.Requests.{add_player_to_group_call-handle_group_join}
use directplay_lite.Peer.Actions.Removal.{
  remove_player_from_group_call, remove_player_from_group_call-handle_group_leave,
}
use directplay_lite.Peer.Acks.{alloc_ack_id}
use directplay_lite.Packet.Bytes.{le_bytes, wide_bytes}
use directplay_lite.Packet.Serialiser.{chunk_header}
use directplay_lite.Peer.Actions.Everywhere.{destroy_group_call-IsGone}
use directplay_lite.Peer.Actions.Completion.{complete_all, awaited, awaited_all, complete_all-start}
use directplay_lite.Peer.Samples.{silent, sample_peer, sample_session, sample_group}

destroy_group_call-IsGone_example :
    (started : Started) × (destroy_group_call false 9 6 init sample_session ≡ ok started)
    × (started.pending ≡ 1 + count_connected sample_session.peers)
    × (has_key 6 started.session.destroyed_groups ≡ true)
    × IsGone 6 (destroy_thread silent 6 started.session)
    × (find 11 started.session.peers ≡ some (posted_for 9 (group_destroy 6) (sample_peer 3)))
    × ((pd : Deserialiser) × (deserialise (2 ^ 32) (group_destroy 6) ≡ ok pd)
        × (packet_type pd ≡ 17)
        × ((t' : Session) × (handle_group_destroy silent 10 pd sample_session ≡ ok t')
            × IsGone 6 t'))
unfolding find has_key
destroy_group_call-IsGone_example =
    destroy_group_call-IsGone silent 6 (λ e s h. h) (2 ^ 32) 9 11 10 false init sample_session
      sample_session sample_group (sample_peer 3) (sample_peer 2) (omega arith) (omega arith) refl
      refl refl refl refl refl refl refl

complete_all-start_example :
    (started : Started) × (start false dgroup 9 [] init sample_session ≡ ok started)
    × (awaited_all 9 started.session.peers ≡ count_connected sample_session.peers)
    × (complete_all 2 (record { pending = started.pending; told = 0 }) ≡ record {
      pending = 1 + awaited_all 9 started.session.peers - 2;
      told = if leb 2 (awaited_all 9 started.session.peers) then 0 else 1;
    })
unfolding awaited_all awaited count_connected
complete_all-start_example =
    complete_all-start false dgroup 9 2 [] init sample_session refl (omega arith)

add_player_to_group_call-handle_group_join_example :
    (started : Started) × (add_player_to_group_call true 9 6 3 init sample_session ≡ ok started)
    × (started.session.groups ≡ sample_session.groups)
    × ((packet : List ℕ) × (find 11 started.session.peers
          ≡ some (posted_for 9 packet (alloc_ack_id (sample_peer 3)).1))
        × ((pd : Deserialiser) × (deserialise (2 ^ 32) packet ≡ ok pd)
            × (packet_type pd ≡ 18)
            × ((t' : Session) × (handle_group_join silent 10 pd sample_session
                  ≡ ok (silent (add_player_to_group 6 0 1 0) t').1)
                × (find 10 t'.peers
                    ≡ some (
                        posted (ack 1 0 []) (posted (group_joined 6 sample_group) (sample_peer 2))))
                × (find 6 t'.groups ≡ some (insert_player 1 sample_group)))))
unfolding find has_key le_bytes wide_bytes chunk_header
add_player_to_group_call-handle_group_join_example =
    add_player_to_group_call-handle_group_join silent (2 ^ 32) 9 6 3 11 10 true init sample_session
      sample_session sample_group sample_group (sample_peer 3) (sample_peer 2)
      (omega arith, omega arith, tt, omega arith, omega arith) refl refl refl refl refl refl refl
      refl refl refl refl refl

-- The sample session with its own player 1 in group 6 too.
abbrev member_session : Session
member_session = record sample_session { groups = (6, insert_player 1 sample_group) ∷ [] }

remove_player_from_group_call-handle_group_leave_example :
    (started : Started) × (remove_player_from_group_call false 9 6 2 init sample_session
      ≡ ok started)
    × (started.session.groups ≡ sample_session.groups)
    × ((packet : List ℕ) × (find 10 started.session.peers
          ≡ some (posted_for 9 packet (alloc_ack_id (sample_peer 2)).1))
        × ((pd : Deserialiser) × (deserialise (2 ^ 32) packet ≡ ok pd)
            × (packet_type pd ≡ 20)
            × ((t' : Session) × (handle_group_leave silent 10 pd member_session
                  ≡ ok (silent (remove_player_from_group 6 0 1 0) t').1)
                × (find 10 t'.peers
                    ≡ some (posted (ack 1 0 []) (posted (group_left 6) (sample_peer 2))))
                × (find 6 t'.groups ≡ some (erase_player 1 (insert_player 1 sample_group))))))
unfolding find has_key emplace
remove_player_from_group_call-handle_group_leave_example =
    remove_player_from_group_call-handle_group_leave silent (2 ^ 32) 9 6 2 10 10 false init
      sample_session member_session sample_group (insert_player 1 sample_group) (sample_peer 2)
      (sample_peer 2) (omega arith) (omega arith) (omega arith) refl refl refl refl refl refl refl
      refl refl refl refl
