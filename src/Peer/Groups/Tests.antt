-- ===== src/Peer/Groups/Tests.antt =====
-- Runs of the group handlers of src/DirectPlay8Peer.cpp.
use directplay_lite.Common.{ℕ, ◌^◌, ◌≡◌, refl, some, [], ◌∷◌, arith, find, has_key, update}
use directplay_lite.Packet.Bytes.{le_bytes, wide_bytes, wide_chars, le_value}
use directplay_lite.Packet.Serialiser.{chunk_header}
use directplay_lite.Packet.Deserialiser.{
  Deserialiser, Result, ok, packet_type, deserialise, get_dword, get_wstring, get_data, field_at,
  read_value,
}
use directplay_lite.Peer.Session.{Session, add_player_to_group}
use directplay_lite.Peer.Groups.{
  group_joined, insert_player, handle_group_join, handle_group_joined,
}
use directplay_lite.Peer.Groups.Steps.{posted, ack}
use directplay_lite.Peer.Groups.Joins.{
  handle_group_joined-group_joined, handle_group_join-announces,
}
use directplay_lite.Peer.Samples.{
  silent, sample_peer, sample_group, sample_session, dword_chunk, wstring_chunk, blob_chunk,
  sample_packet,
}

abbrev ignore : Deserialiser → Session → Result Session
ignore pd s = ok s

abbrev create_packet : Deserialiser
create_packet = sample_packet 16 (dword_chunk 5 ∷ wstring_chunk ∷ blob_chunk ∷ [])

abbrev join_packet : ℕ → Deserialiser
join_packet id = sample_packet 18 (dword_chunk id ∷ dword_chunk 4 ∷ wstring_chunk ∷ blob_chunk ∷ [])

abbrev joined_packet : ℕ → Deserialiser
joined_packet id = sample_packet 19 (dword_chunk id ∷ wstring_chunk ∷ blob_chunk ∷ [])

handle_group_joined-group_joined_example :
    (pd : Deserialiser) × (deserialise (2 ^ 32) (group_joined 6 sample_group) ≡ ok pd)
    × (packet_type pd ≡ 19)
    × (handle_group_joined silent 11 pd sample_session
        ≡ ok
            (silent (add_player_to_group 6 0 3 0) (record sample_session {
              groups = update 6 (insert_player 3) sample_session.groups;
            })).1)
unfolding find has_key le_bytes wide_bytes chunk_header
handle_group_joined-group_joined_example =
    handle_group_joined-group_joined silent (2 ^ 32) 6 11 sample_group sample_group (sample_peer 3)
      sample_session (omega arith, tt, omega arith, omega arith) refl refl refl refl refl

handle_group_join-announces_example :
    (s' : Session) × (handle_group_join silent 10 (join_packet 6) sample_session
      ≡ ok (silent (add_player_to_group 6 0 1 0) s').1)
    × (find 10 s'.peers
        ≡ some (posted (ack 4 0 []) (posted (group_joined 6 sample_group) (sample_peer 2))))
    × (find 11 s'.peers ≡ some (posted (group_joined 6 sample_group) (sample_peer 3)))
    × (find 6 s'.groups ≡ some (insert_player 1 sample_group))
unfolding find has_key get_dword get_wstring get_data field_at read_value le_value wide_chars
handle_group_join-announces_example =
    handle_group_join-announces silent 6 4 10 11 [] [] (join_packet 6) (sample_peer 2)
      (sample_peer 3) sample_group sample_session refl refl (λ e. omega (arith, e)) refl refl refl
      refl refl refl refl refl refl
